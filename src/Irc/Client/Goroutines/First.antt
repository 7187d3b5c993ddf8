-- ===== src/Irc/Client/Goroutines/First.antt =====
-- internal/modes/slave/irc/client.go: which error `init` returns.
use waterhose.Prelude.{
  Bool, true, false, List, [], ◌∷◌, Option, none, some, ◌≡◌, ◌≢◌, refl, Bytes, Outcome, ok, panic,
  ◌>>=◌, if◌then◌else◌, arith, >>=-eq-ok, if_both, sym, codes, ◌&&◌, bytes_eq, ◌++◌,
}
use waterhose.Irc.Message.{Message, n376, ping, pong}
use waterhose.Irc.Parse.{parse_message}
use waterhose.Irc.Client.{
  Client, IrcError, cancelled, not_connected, unset, waiting, closed, error_chan_error, Callback,
  ReadStep, continues, stops, raise, read_step, pinger_tick, write_step, init_end, finish_read,
  handle_message, write, is_type, on_connect, crlf, ping_source,
}
use waterhose.Irc.Client.Goroutines.{
  Goroutines, Event, line_comes, read_fails, tick, send_works, send_fails, context_ends, watch,
  stop_write, stop_ping, init_returns, shutdown, event, events, start_goroutines, after_read,
  after_ping, after_write, has_message, local_ended,
}

-- What the error channel may do: it keeps its first error.
abbrev Keeps : Client → Client → Type 0
Keeps c d =
    (c.err ≢ unset) → (d.err ≢ unset) × ((e : IrcError) → c.err ≡ closed e → d.err ≡ closed e)

raise-Keeps : (e : IrcError) (c d : Client) → raise e c ≡ ok d → Keeps c d
unfolding error_chan_error
raise-Keeps e c d h n = ground arith

abbrev client_of : ReadStep → Client
client_of (continues c calls) = c
client_of (stops c calls) = c

finish_read-Keeps :
    (msg : Message) (calls : List Callback) (c : Client) (r : ReadStep)
    → finish_read msg calls c ≡ ok r
    → Keeps c (client_of r)
unfolding finish_read error_chan_error
finish_read-Keeps msg calls c r h n = ground arith

-- A round keeps the first error, if it returns.
abbrev Round : Client → Outcome ReadStep → Type 0
Round c o = (r : ReadStep) → o ≡ ok r → Keeps c (client_of r)

reply-Round :
    (msg : Message) (c : Client) (o : Option Client)
    → ((d : Client) → o ≡ some d → d.err ≡ c.err)
    → Round c (elim o [
      | none ↦ do c' ← raise not_connected c; ok (stops c' [])
      | some c' ↦ finish_read msg [] c'
    ])
unfolding error_chan_error
reply-Round msg c none same r h n = ground arith
reply-Round msg c (some d) same r h n =
    rw (sym (same d refl)) (finish_read-Keeps msg [] d r h (rw (same d refl) n))

write-same : (msg : Bytes) (c d : Client) → write msg c ≡ some d → d.err ≡ c.err
unfolding write
write-same msg c d h = ground arith

pong-Round :
    (msg : Message) (c : Client)
    → Round c (
        finish_read msg []
          (if bytes_eq msg.content ping_source then record c { ping_sent = false } else c))
pong-Round msg c =
    if_both (λ d. Round c (finish_read msg [] d)) (bytes_eq msg.content ping_source)
      (finish_read-Keeps msg [] (record c { ping_sent = false })) (finish_read-Keeps msg [] c)

handle_message-Round : (msg : Message) (c : Client) → Round c (handle_message msg c)
unfolding handle_message
handle_message-Round msg c =
    if_both (Round c) (is_type msg.type n376)
      (finish_read-Keeps msg (on_connect ∷ []) (record c { connected = true }))
      (if_both (Round c) (is_type msg.type ping)
        (reply-Round msg c _ (write-same (codes "PONG :" ++ (msg.source ++ crlf)) c))
        (if_both (Round c) (is_type msg.type pong)
          {x = finish_read msg []
            (if bytes_eq msg.content ping_source then record c { ping_sent = false } else c)}
          (pong-Round msg c) (finish_read-Keeps msg [] c)))

parsed-Round :
    (parsed : Option Message) (c : Client)
    → Round c (elim parsed [ none ↦ ok (continues c []) | some msg ↦ handle_message msg c ])
parsed-Round none c r h n = ground arith
parsed-Round (some msg) c r h n = handle_message-Round msg c r h n

read_step-Round : (line : Option Bytes) (c : Client) → Round c (read_step line c)
unfolding read_step error_chan_error
read_step-Round none c r h n = ground arith
read_step-Round (some line) c r h n =
    let (parsed, e, k) = >>=-eq-ok (parse_message line) _ h in parsed-Round parsed c r k n

pinger_tick-Keeps : (c : Client) (r : ReadStep) → pinger_tick c ≡ ok r → Keeps c (client_of r)
unfolding pinger_tick error_chan_error
pinger_tick-Keeps c r h n = ground arith

write_step-Keeps :
    (accepted : Bool) (c : Client) (r : Client × Option Bytes)
    → write_step accepted c ≡ ok r
    → Keeps c r.0
unfolding write_step error_chan_error
write_step-Keeps accepted c r h n = ground arith

-- The error channel was reset, and what `init` has returned is the error in it.
pub record Sound (s : Goroutines) : Type 0 where
  pub reset : s.client.err ≢ unset
  pub first : (e : IrcError) → s.returned ≡ some e → s.client.err ≡ closed e

-- What an event does: the state stays sound, and the error channel keeps its first error.
abbrev pub Advances : Goroutines → Outcome Goroutines → Type 0
Advances s o =
    (t : Goroutines)
    → o ≡ ok t
    → Sound s
    → Sound t × ((e : IrcError) → s.client.err ≡ closed e → t.client.err ≡ closed e)

stays : (s : Goroutines) → Advances s (ok s)
stays s t h v = ground arith

read-Advances :
    (s : Goroutines) (o : Outcome ReadStep)
    → Round s.client o
    → Advances s (do r ← o; ok (after_read r s))
read-Advances s panic k t h v = absurd cc
read-Advances s (ok (continues c calls)) k t h v =
    let m = k (continues c calls) refl v.reset in ground arith
read-Advances s (ok (stops c calls)) k t h v =
    let m = k (stops c calls) refl v.reset in ground arith

ping-Advances :
    (s : Goroutines) (o : Outcome ReadStep)
    → Round s.client o
    → Advances s (do r ← o; ok (after_ping r s))
ping-Advances s panic k t h v = absurd cc
ping-Advances s (ok (continues c calls)) k t h v =
    let m = k (continues c calls) refl v.reset in ground arith
ping-Advances s (ok (stops c calls)) k t h v =
    let m = k (stops c calls) refl v.reset in ground arith

write-Advances :
    (s : Goroutines) (accepted : Bool) (o : Outcome (Client × Option Bytes))
    → ((r : Client × Option Bytes) → o ≡ ok r → Keeps s.client r.0)
    → Advances s (do r ← o; ok (after_write accepted r s))
write-Advances s accepted panic k t h v = absurd cc
write-Advances s accepted (ok (c, some msg)) k t h v =
    let m = k (c, some msg) refl v.reset in ground arith
write-Advances s accepted (ok (c, none)) k t h v = let m = k (c, none) refl v.reset in ground arith

watch-Advances :
    (s : Goroutines) (o : Outcome Client)
    → ((d : Client) → o ≡ ok d → Keeps s.client d)
    → Advances s (do c ← o; ok (record s { client = c; watches = false }))
watch-Advances s panic k t h v = absurd cc
watch-Advances s (ok c) k t h v = let m = k c refl v.reset in ground arith

event-Advances : (e : Event) (s : Goroutines) → Advances s (event e s)
unfolding event init_end
event-Advances (line_comes line) s =
    if_both (Advances s) s.reads (read-Advances s _ (read_step-Round (some line) s.client))
      (stays s)
event-Advances read_fails s =
    if_both (Advances s) s.reads (read-Advances s _ (read_step-Round none s.client)) (stays s)
event-Advances tick s =
    if_both (Advances s) s.pings (ping-Advances s _ (pinger_tick-Keeps s.client)) (stays s)
event-Advances send_works s =
    if_both (Advances s) (s.writes && s.socket)
      (write-Advances s true _ (write_step-Keeps true s.client)) (stays s)
event-Advances send_fails s =
    if_both (Advances s) (s.writes && has_message s.client)
      (write-Advances s false _ (write_step-Keeps false s.client)) (stays s)
event-Advances context_ends s = λ t h v. ground arith
event-Advances watch s =
    if_both (Advances s) (s.watches && local_ended s)
      (if_both (Advances s) s.ended
        (watch-Advances s (raise cancelled s.client) (raise-Keeps cancelled s.client))
        (λ t h v. ground arith))
      (stays s)
event-Advances stop_write s = λ t h v. ground arith
event-Advances stop_ping s = λ t h v. ground arith
event-Advances init_returns s = λ t h v. ground arith
event-Advances shutdown s = λ t h v. ground arith

pub events-Advances : (es : List Event) (s : Goroutines) → Advances s (events es s)
unfolding events
events-Advances [] s t h v = stays s t h v
events-Advances (e ∷ es) s t h v =
    let (s', a, b) = >>=-eq-ok (event e s) (events es) h in
    let (v', k) = event-Advances e s s' a v in
    let (w, l) = events-Advances es s' t b v' in (w, λ x y. l x (k x y))

pub start-Sound : (c : Client) → c.err ≡ waiting → Sound (start_goroutines c)
start-Sound c h = ground arith

-- In any order of events, `init` returns the first error that a goroutine has raised.
pub first_error :
    (c : Client) (before after : List Event) (s t : Goroutines) (e f : IrcError)
    → c.err ≡ waiting
    → events before (start_goroutines c) ≡ ok s
    → s.client.err ≡ closed e
    → events after s ≡ ok t
    → t.returned ≡ some f
    → f ≡ e
first_error c before after s t e f w b h a r =
    let (v, k) = events-Advances before (start_goroutines c) s b (start-Sound c w) in
    let (v', k') = events-Advances after s t a v in
    let same = k' e h in let mine = v'.first f r in ground arith
