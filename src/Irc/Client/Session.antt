-- ===== src/Irc/Client/Session.antt =====
-- internal/modes/slave/irc/client.go: what holds of a client over the rounds of its goroutines.
use waterhose.Prelude.{
  ◌≡◌, ◌≢◌, inl, inr, refl, arith, Bool, true, false, List, [], Option, none, some, Bytes,
  bytes_eq_iff, ok, >>=-eq-ok, Bool-cases,
}
use waterhose.Irc.Message.{Message, pong}
use waterhose.Irc.Parse.{parse_message}
use waterhose.Irc.Client.{
  Client, IrcError, Callback, ReadStep, continues, stops, error_chan_error, write, raise,
  finish_read, handle_message, read_step, pinger_tick, write_step, init_start, init_end,
  ping_source,
}

-- The client at the end of a round.
abbrev after : ReadStep → Client
after (continues c calls) = c
after (stops c calls) = c

-- One step of a client: a round of `read`, a tick of `pinger`, a round of `write`, a call of
-- `Write`, and the beginning and the end of `init`.
pub data Step (c : Client) : Client → Type 0 where
  reads : (line : Option Bytes) (r : ReadStep) → read_step line c ≡ ok r → Step c (after r)
  ticks : (r : ReadStep) → pinger_tick c ≡ ok r → Step c (after r)
  sends :
      (accepted : Bool) (c' : Client) (out : Option Bytes)
      → write_step accepted c ≡ ok (c', out)
      → Step c c'
  writes : (msg : Bytes) (c' : Client) → write msg c ≡ some c' → Step c c'
  starts : (dialled written : Bool) → Step c (init_start dialled written c).0
  ends : Step c (init_end c)

pub data Steps (c : Client) : Client → Type 0 where
  here : Steps c c
  next : {d e : Client} → Steps c d → Step d e → Steps c e

-- What a round of `read` may do to the client's state: `connected` is only set, and `ping_sent` is
-- only cleared, and that by a PONG with the source of the client's own PING.
record Read (line : Bytes) (c c' : Client) : Type 0 where
  stays : c.connected ≡ true → c'.connected ≡ true
  answered :
      c.ping_sent ≡ true
      → c'.ping_sent ≡ false
      → (msg : Message) × (parse_message line ≡ ok (some msg))
        × (msg.type ≡ pong)
        × (msg.content ≡ ping_source)

raise_lem :
    (e : IrcError) (c c' : Client)
    → raise e c ≡ ok c'
    → (c'.connected ≡ c.connected) × (c'.ping_sent ≡ c.ping_sent)
unfolding error_chan_error
raise_lem e c c' h = ground arith

finish_read_lem :
    (msg : Message) (calls : List Callback) (c : Client) (r : ReadStep)
    → finish_read msg calls c ≡ ok r
    → ((after r).connected ≡ c.connected) × ((after r).ping_sent ≡ c.ping_sent)
unfolding finish_read error_chan_error
finish_read_lem msg calls c r h = ground arith

handle_message_lem :
    (msg : Message) (c : Client) (r : ReadStep)
    → handle_message msg c ≡ ok r
    → (c.connected ≡ true → (after r).connected ≡ true)
      × (c.ping_sent ≡ true
          → (after r).ping_sent ≡ false
          → (msg.type ≡ pong) × (msg.content ≡ ping_source))
unfolding handle_message finish_read error_chan_error write
handle_message_lem msg c r h = ground (arith, bytes_eq_iff msg.content ping_source)

read_step-Read :
    (line : Bytes) (c : Client) (r : ReadStep)
    → read_step (some line) c ≡ ok r
    → Read line c (after r)
unfolding read_step
read_step-Read line c r h = let (parsed, e, k) = >>=-eq-ok (parse_message line) _ h in go parsed e k
  where
    go :
        (parsed : Option Message)
        → parse_message line ≡ ok parsed
        → (elim parsed [ none ↦ ok (continues c []) | some msg ↦ handle_message msg c ]) ≡ ok r
        → Read line c (after r)
    go none e k = record { stays = ground arith; answered = ground arith }
    go (some msg) e k =
        let done = handle_message_lem msg c r k in
        record {
          stays = done.0;
          answered = λ sent clear. (msg, e, (done.1 sent clear).0, (done.1 sent clear).1);
        }

Step-connected : {c c' : Client} → Step c c' → c.connected ≡ true → c'.connected ≡ true
unfolding read_step pinger_tick write_step write init_start init_end error_chan_error
Step-connected {c} (reads none r h) on = ground (arith, h, on)
Step-connected {c} (reads (some line) r h) on = (read_step-Read line c r h).stays on
Step-connected {c} (ticks r h) on = ground (arith, h, on)
Step-connected {c} (sends accepted c' out h) on = ground (arith, h, on)
Step-connected {c} (writes msg c' h) on = ground (arith, h, on)
Step-connected {c} (starts dialled written) on = ground (arith, on)
Step-connected ends on = refl

Steps-connected : {c c' : Client} → Steps c c' → c.connected ≡ true → c'.connected ≡ true
Steps-connected here on = on
Steps-connected (next steps step) on = Step-connected step (Steps-connected steps on)

write_connected : (msg : Bytes) (c : Client) → c.connected ≡ true → write msg c ≢ none
unfolding write
write_connected msg c on = ground arith

-- A client that is connected accepts every later `Write`, over any sequence of rounds of `read`,
-- `pinger` and `write`, calls of `Write`, and beginnings and ends of `init`.
pub write_never_refused :
    (c c' : Client) → Steps c c' → c.connected ≡ true → (msg : Bytes) → write msg c' ≢ none
write_never_refused c c' steps on msg refused =
    write_connected msg c' (Steps-connected steps on) refused

-- A round of a client that keeps the connection, in which no line parses to the PONG that answers
-- the client's PING.
pub data Quiet (c : Client) : Client → Type 0 where
  hears :
      (line : Bytes) (calls : List Callback) (c' : Client)
      → read_step (some line) c ≡ ok (continues c' calls)
      → ((msg : Message)
          → parse_message line ≡ ok (some msg)
          → msg.type ≡ pong
          → msg.content ≢ ping_source)
      → Quiet c c'
  sends :
      (accepted : Bool) (c' : Client) (out : Option Bytes)
      → write_step accepted c ≡ ok (c', out)
      → Quiet c c'
  writes : (msg : Bytes) (c' : Client) → write msg c ≡ some c' → Quiet c c'

pub data Quiets (c : Client) : Client → Type 0 where
  here : Quiets c c
  next : {d e : Client} → Quiets c d → Quiet d e → Quiets c e

tick_sends :
    (c c' : Client) (calls : List Callback)
    → pinger_tick c ≡ ok (continues c' calls)
    → c'.ping_sent ≡ true
unfolding pinger_tick
tick_sends c c' calls h = ground arith

Quiet-ping_sent : {c c' : Client} → Quiet c c' → c.ping_sent ≡ true → c'.ping_sent ≡ true
unfolding write_step write error_chan_error
Quiet-ping_sent {c} (hears line calls c' h quiet) on = elim (Bool-cases c'.ping_sent) [
  | inl still ↦ still
  | inr clear ↦
      let (msg, e, type, content) =
        (read_step-Read line c (continues c' calls) h).answered on clear in
      absurd (quiet msg e type content)
]
Quiet-ping_sent {c} (sends accepted c' out h) on = ground (arith, h, on)
Quiet-ping_sent {c} (writes msg c' h) on = ground (arith, h, on)

Quiets-ping_sent : {c c' : Client} → Quiets c c' → c.ping_sent ≡ true → c'.ping_sent ≡ true
Quiets-ping_sent here on = on
Quiets-ping_sent (next steps step) on = Quiet-ping_sent step (Quiets-ping_sent steps on)

-- A server that leaves a PING of `pinger` without its PONG is left at the tick behind: whatever other
-- lines come in between, the tick does not go on.
pub pinger_tick_unanswered :
    (c c1 c2 c3 : Client) (calls calls' : List Callback)
    → pinger_tick c ≡ ok (continues c1 calls)
    → Quiets c1 c2
    → pinger_tick c2 ≢ ok (continues c3 calls')
unfolding pinger_tick
pinger_tick_unanswered c c1 c2 c3 calls calls' h q =
    let sent : c2.ping_sent ≡ true = Quiets-ping_sent q (tick_sends c c1 calls h) in
    ground (arith, sent)
