-- ===== src/Irc/Client/Goroutines/Tests.antt =====
-- A session whose PING is not answered.
use waterhose.Prelude.{true, false, ◌≡◌, refl, [], ◌∷◌, some, codes}
use waterhose.Irc.Client.{
  Client, reconnecting, waiting, closed, error_chan_error, read_step, pinger_tick, write_step,
  ping_line, init_end,
}
use waterhose.Irc.Client.Goroutines.{
  Goroutines, tick, read_fails, init_returns, event, events, start_goroutines,
}
use waterhose.Irc.Client.Goroutines.First.{first_error}

abbrev started : Client
started = record {
  username = codes "bot";
  oauth = codes "oauth:x";
  write_ch = [];
  err = waiting;
  ping_sent = false;
  connected = true;
}

-- The second tick finds the first PING unanswered.
abbrev stale : Goroutines
stale = record (start_goroutines started) {
  client = record started {
    write_ch = ping_line ∷ [];
    ping_sent = true;
    err = closed reconnecting;
  };
  pings = false;
  socket = false;
}

abbrev failed : Goroutines
failed = record stale {
  client = init_end stale.client;
  reads = false;
  returned = some reconnecting;
}

first_error_example : reconnecting ≡ reconnecting
unfolding events event read_step pinger_tick write_step error_chan_error init_end
first_error_example =
    first_error started (tick ∷ tick ∷ []) (read_fails ∷ init_returns ∷ []) stale failed
      reconnecting reconnecting refl refl refl refl refl
