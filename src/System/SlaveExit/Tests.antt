-- ===== src/System/SlaveExit/Tests.antt =====
-- The end of a slave with the health server.
use waterhose.Prelude.{◌+◌, ◌≤◌, ◌≡◌, refl, true, false, List, [], ◌∷◌, some, codes}
use waterhose.Start.{Config, wait_group_done}
use waterhose.Start.Servers.Ends.{running}
use waterhose.Start.SlaveServers.{SlaveServers, client_closes, new_slave, slave_event}
use waterhose.Start.SlaveServers
use waterhose.Start.Process.{
  Process, MainEvent, new_process, run_main, step, sets_up, assigns, signal, take_signal, cancel,
  check, join, close_done, finishes, runs,
}
use waterhose.System.SlaveExit.{slave_app, slave_exit}

abbrev config : Config
config = record {
  mode = codes "slave";
  k8s_enabled = false;
  health_enabled = true;
  monitoring_enabled = false;
}

abbrev served : Process (slave_app config)
served = record (new_process (slave_app config)) { mode = some (new_slave config); assigned = true }

-- A signal, the end of the streams, and that of `main`.
abbrev ending : List (MainEvent (slave_app config))
ending =
    signal
    ∷ take_signal
    ∷ cancel
    ∷ check
    ∷ runs client_closes
    ∷ runs SlaveServers.finishes
    ∷ join
    ∷ close_done
    ∷ finishes
    ∷ []

slave_exit_example :
    (s : SlaveServers) × ((run_main (slave_app config) ending served).mode ≡ some s)
    × (s.client_done ≡ true)
    × (1 ≤ running s.health + running s.monitoring)
unfolding run_main step slave_event wait_group_done
slave_exit_example = slave_exit config (sets_up ∷ assigns ∷ []) ending served refl refl refl refl
