-- ===== src/Irc/Client/Goroutines.antt =====
-- internal/modes/slave/irc/client.go: one call of `init` from its goroutines on, as a machine whose events
-- come in any order: the rounds of `read`, `write` and `pinger`, the goroutine that raises the error of the
-- context, the end of `init`, and `Shutdown`. A goroutine that ends closes the socket.
pub mod First
pub mod Ends
mod Tests
use waterhose.Prelude.{
  Bool, true, false, not, ◌&&◌, ◌||◌, List, [], ◌∷◌, Option, none, some, Bytes, Outcome, ok, panic,
  ◌>>=◌, if◌then◌else◌,
}
use waterhose.Irc.Client.{
  Client, IrcError, cancelled, ErrorChan, unset, waiting, closed, ReadStep, continues, stops, raise,
  read_step, pinger_tick, write_step, init_end,
}

pub record Goroutines : Type 0 where
  pub client : Client
  pub socket : Bool  -- the socket is open
  pub reads : Bool
  pub writes : Bool
  pub pings : Bool
  pub watches : Bool
  pub ended : Bool  -- the context of `Connect` has ended
  pub returned : Option IrcError  -- what `init` has returned

pub data Event : Type 0 where
  line_comes : Bytes → Event
  read_fails tick send_works send_fails context_ends watch stop_write stop_ping init_returns
        shutdown :
      Event

-- The state behind `go c.read`, `go c.write`, `go c.pinger` and the fourth goroutine.
abbrev pub start_goroutines : Client → Goroutines
start_goroutines c = record {
  client = c;
  socket = true;
  reads = true;
  writes = true;
  pings = true;
  watches = true;
  ended = false;
  returned = none;
}

abbrev is_some : Option IrcError → Bool
is_some none = false
is_some (some e) = true

-- Whether the context of the goroutines has ended: that of `Connect` has, or `init` has returned.
abbrev pub local_ended : Goroutines → Bool
local_ended s = s.ended || is_some s.returned

-- Behind a round of `read`: at its end the socket is closed.
abbrev pub after_read : ReadStep → Goroutines → Goroutines
after_read (continues c calls) s = record s { client = c }
after_read (stops c calls) s = record s { client = c; reads = false; socket = false }

abbrev pub after_ping : ReadStep → Goroutines → Goroutines
after_ping (continues c calls) s = record s { client = c }
after_ping (stops c calls) s = record s { client = c; pings = false; socket = false }

-- A round of `write`; where the socket refuses the message, it ends.
abbrev pub after_write : Bool → Client × Option Bytes → Goroutines → Goroutines
after_write accepted (c, some msg) s = record s { client = c }
after_write accepted (c, none) s =
    if accepted
    then record s { client = c }
    else record s { client = c; writes = false; socket = false }

abbrev pub has_message : Client → Bool
has_message c = elim c.write_ch [ [] ↦ false | msg ∷ rest ↦ true ]

-- `err = <-c.err.ch`
abbrev return_error : ErrorChan → Goroutines → Goroutines
return_error (closed e) s = record s { client = init_end s.client; returned = some e }
return_error _ s = s

-- An event that is not possible changes nothing.
unfoldable pub event : Event → Goroutines → Outcome Goroutines
unfolding read_step pinger_tick write_step
event (line_comes line) s =
    if s.reads then (do r ← read_step (some line) s.client; ok (after_read r s)) else ok s
event read_fails s = if s.reads then (do r ← read_step none s.client; ok (after_read r s)) else ok s
event tick s = if s.pings then (do r ← pinger_tick s.client; ok (after_ping r s)) else ok s
event send_works s =
    if s.writes && s.socket
    then (do r ← write_step true s.client; ok (after_write true r s))
    else ok s
event send_fails s =
    if s.writes && has_message s.client
    then (do r ← write_step false s.client; ok (after_write false r s))
    else ok s
event context_ends s = ok (record s { ended = true })
event watch s =
    if s.watches && local_ended s
    then (if s.ended
        then (do c ← raise cancelled s.client; ok (record s { client = c; watches = false }))
        else ok (record s { watches = false }))
    else ok s
event stop_write s =
    ok (if s.writes && local_ended s then record s { writes = false; socket = false } else s)
event stop_ping s =
    ok (if s.pings && local_ended s then record s { pings = false; socket = false } else s)
event init_returns s = ok (elim s.returned [ none ↦ return_error s.client.err s | some e ↦ s ])
event shutdown s = ok (if is_some s.returned then record s { socket = false } else s)

unfoldable pub events : List Event → Goroutines → Outcome Goroutines
unfolding event
events [] s = ok s
events (e ∷ es) s = do s' ← event e s; events es s'
