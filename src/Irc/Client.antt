-- ===== src/Irc/Client.antt =====
-- internal/modes/slave/irc/client.go and error-channel.go: the state of an IRC client, the handling
-- of one line by `read`, the ticks of `pinger`, and `init` and `Connect` round them. The socket is
-- a parameter: its outcomes are arguments. `writeCh` is a list, oldest first: that a sender waits
-- while a hundred messages are in it is not modelled.
pub mod Session
pub mod Goroutines
use waterhose.Prelude.{
  ℕ, zero, suc, ◌-◌, ◌≤◌, Bool, true, false, not, ◌&&◌, ◌||◌, List, [], ◌∷◌, ◌++◌, Option, none,
  some, Bytes, codes, bytes_eq, leb, if◌then◌else◌, length, drop, Outcome, ok, panic, ◌>>=◌,
}
use waterhose.Irc.Message.{Message, MessageType, MessageType-discrete, ping, pong, n376, reconnect}
use waterhose.Irc.Parse.{parse_message}

pub data IrcError : Type 0 where
  reconnecting read_failed write_failed not_connected dial_failed cancelled : IrcError

-- `errorChan`: before the first `Reset` its `once` is nil.
pub data ErrorChan : Type 0 where
  unset : ErrorChan
  waiting : ErrorChan
  closed : IrcError → ErrorChan

-- `errorChan.Error`
unfoldable pub error_chan_error : ErrorChan → IrcError → Outcome ErrorChan
error_chan_error unset e = panic
error_chan_error waiting e = ok (closed e)
error_chan_error (closed first) e = ok (closed first)

-- `errorChan.Reset`
abbrev pub error_chan_reset : ErrorChan → ErrorChan
error_chan_reset _ = waiting

pub record Client : Type 0 where
  pub username : Bytes
  pub oauth : Bytes
  pub write_ch : List Bytes
  pub err : ErrorChan
  pub ping_sent : Bool
  pub connected : Bool

abbrev pub ping_source : Bytes
ping_source = codes "7tv-chat-edge"

abbrev pub crlf : Bytes
crlf = b'\r' ∷ b'\n' ∷ []

abbrev pub ping_line : Bytes
ping_line = codes "PING :" ++ (ping_source ++ crlf)

-- `New`
unfoldable pub new_client : Bytes → Bytes → Outcome Client
new_client username oauth =
    if bytes_eq username [] || bytes_eq oauth []
    then panic
    else ok (record {
      username = username;
      oauth = oauth;
      write_ch = [];
      err = unset;
      ping_sent = false;
      connected = false;
    })

-- `SetOAuth`
abbrev pub set_oauth : Bytes → Client → Client
set_oauth oauth c = record c { oauth = oauth }

-- `strings.HasSuffix`
unfoldable pub has_suffix : Bytes → Bytes → Bool
has_suffix s suffix =
    leb (length suffix) (length s) && bytes_eq (drop (length s - length suffix) s) suffix

abbrev pub terminated : Bytes → Bytes
terminated msg = if not (has_suffix msg crlf) then msg ++ crlf else msg

-- `Write`: `none` is the error of a client that is not connected.
unfoldable pub write : Bytes → Client → Option Client
write msg c =
    if not c.connected
    then none
    else some (record c { write_ch = c.write_ch ++ terminated msg ∷ [] })

-- What `read` calls back.
pub data Callback : Type 0 where
  on_connect : Callback
  on_message : Message → Callback

-- Whether the loop of `read` goes on.
pub data ReadStep : Type 0 where
  continues : Client → List Callback → ReadStep
  stops : Client → List Callback → ReadStep

abbrev pub is_type : MessageType → MessageType → Bool
is_type t u = elim (MessageType-discrete t u) [ yes _ ↦ true | no _ ↦ false ]

abbrev pub raise : IrcError → Client → Outcome Client
raise e c = do err ← error_chan_error c.err e; ok (record c { err = err })

-- The end of a round: `onMessage`, and the reconnect that the server may ask for.
pub finish_read : Message → List Callback → Client → Outcome ReadStep
finish_read msg calls c =
    if is_type msg.type reconnect
    then (do c' ← raise reconnecting c; ok (stops c' (calls ++ on_message msg ∷ [])))
    else ok (continues c (calls ++ on_message msg ∷ []))

-- The `switch` on the message's type.
pub handle_message : Message → Client → Outcome ReadStep
unfolding finish_read
handle_message msg c =
    if is_type msg.type n376
    then finish_read msg (on_connect ∷ []) (record c { connected = true })
    else if is_type msg.type ping
    then elim (write (codes "PONG :" ++ (msg.source ++ crlf)) c) [
      | none ↦ do c' ← raise not_connected c; ok (stops c' [])
      | some c' ↦ finish_read msg [] c'
    ]
    else if is_type msg.type pong
    then finish_read msg []
        (if bytes_eq msg.content ping_source then record c { ping_sent = false } else c)
    else finish_read msg [] c

-- One round of `read`: `none` is an error of the socket.
unfoldable pub read_step : Option Bytes → Client → Outcome ReadStep
unfolding handle_message
read_step none c = do c' ← raise read_failed c; ok (stops c' [])
read_step (some line) c = do
  parsed ← parse_message line
  elim parsed [ none ↦ ok (continues c []) | some msg ↦ handle_message msg c ]

-- One tick of `pinger`.
unfoldable pub pinger_tick : Client → Outcome ReadStep
pinger_tick c =
    if c.ping_sent
    then (do c' ← raise reconnecting c; ok (stops c' []))
    else ok (continues (record c { write_ch = c.write_ch ++ ping_line ∷ []; ping_sent = true }) [])

-- One round of `write`: what goes out on the socket, which may refuse it.
unfoldable pub write_step : Bool → Client → Outcome (Client × Option Bytes)
write_step accepted c = elim c.write_ch [
  | [] ↦ ok (c, none)
  | msg ∷ rest ↦
      if accepted
      then ok (record c { write_ch = rest }, some msg)
      else (do c' ← raise write_failed (record c { write_ch = rest }); ok (c', none))
]

-- What `init` sends before it starts its goroutines.
abbrev pub login_lines : Client → List Bytes
login_lines c =
    (codes "CAP REQ :twitch.tv/membership twitch.tv/tags twitch.tv/commands" ++ crlf)
    ∷ (codes "PASS " ++ (c.oauth ++ crlf))
    ∷ (codes "NICK " ++ (c.username ++ crlf))
    ∷ []

-- The beginning of `init`, up to the goroutines: the outcomes of the dial and of the three writes.
unfoldable pub init_start : Bool → Bool → Client → Client × Option IrcError
init_start dialled written c =
    let c' = record c { write_ch = [] } in
    if not dialled
    then (c', some dial_failed)
    else if not written
    then (c', some write_failed)
    else (record c' { err = error_chan_reset c.err; ping_sent = false }, none)

-- The end of `init`, when an error has come through the error channel.
unfoldable pub init_end : Client → Client
init_end c = record c { connected = true }

-- `Connect` calls `init` again behind a reconnect, and returns any other error.
unfoldable pub connect_again : IrcError → Bool
connect_again reconnecting = true
connect_again _ = false
