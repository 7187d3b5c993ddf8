-- ===== src/Irc/Client/Goroutines/Ends.antt =====
-- internal/modes/slave/irc/client.go: how the goroutines of a session end.
use waterhose.Prelude.{false, List, [], ◌∷◌, some, ◌≡◌}
use waterhose.Irc.Client.{Client, IrcError, closed}
use waterhose.Irc.Client.Goroutines.{
  Goroutines, Event, read_fails, watch, stop_write, stop_ping, init_returns, shutdown,
}

-- What ends the goroutines behind an error.
abbrev pub ending : List Event
ending = init_returns ∷ shutdown ∷ read_fails ∷ stop_write ∷ stop_ping ∷ watch ∷ []

-- `init` has returned an error, and the socket is closed.
record Closing (e : IrcError) (s : Goroutines) : Type 0 where
  raised : s.client.err ≡ closed e
  returned : s.returned ≡ some e
  shut : s.socket ≡ false

-- A goroutine that has ended in the first state has in the second.
record Fewer (s t : Goroutines) : Type 0 where
  reads_less : s.reads ≡ false → t.reads ≡ false
  writes_less : s.writes ≡ false → t.writes ≡ false
  pings_less : s.pings ≡ false → t.pings ≡ false
