-- ===== src/System/SlaveExit.antt =====
-- cmd/main.go with internal/modes/slave/slave.go: how a slave ends.
mod Tests
use waterhose.Prelude.{◌+◌, ◌≤◌, ◌≡◌, Bool, true, List, Option, some, arith}
use waterhose.Start.{Config, one_for}
use waterhose.Start.Servers.Ends.{running}
use waterhose.Start.SlaveServers.{
  SlaveServers, SlaveEvent, new_slave, slave_event, SlaveGood, new_slave-SlaveGood,
  slave_event-SlaveGood, slave_event-closed,
}
use waterhose.Start.Process.{App, Process, MainEvent, new_process, run_main, idle}
use waterhose.Start.Process.Shutdown.{AppLaws, run_main-waits}

-- What `modes.New` runs in a slave.
abbrev pub slave_app : Config → App
slave_app c = record {
  State = SlaveServers;
  Event = SlaveEvent;
  start = new_slave c;
  event = slave_event;
  is_done = λ s. s.closed;
  crash = λ s. s.crash;
}

abbrev slave_laws : (c : Config) → AppLaws (slave_app c)
slave_laws c = record {
  Good = SlaveGood c;
  start_good = new_slave-SlaveGood c;
  event_good = slave_event-SlaveGood c;
  done_stays = slave_event-closed;
  crash_status = λ s v. v.exit_status;
}

-- A slave that has set `appDone` before it takes a signal, and exits with status 0, exits behind the close
-- of the channel of `client.New`, and leaves a server running: the place that its end takes in the wait
-- group is that of a server.
pub slave_exit :
    (c : Config) (before after : List (MainEvent (slave_app c))) (p : Process (slave_app c))
    → run_main (slave_app c) before (new_process (slave_app c)) ≡ p
    → p.assigned ≡ true
    → p.watcher ≡ idle
    → (run_main (slave_app c) after p).exit ≡ some 0
    → (s : SlaveServers) × ((run_main (slave_app c) after p).mode ≡ some s)
      × (s.client_done ≡ true)
      × (1 ≤ running s.health + running s.monitoring)
slave_exit c before after p r a w z =
    let (s, e, v, d) = run_main-waits (slave_app c) (slave_laws c) before after p r a w z in
    (s, e, v.behind_client d, ground (arith, v.counted, d))
