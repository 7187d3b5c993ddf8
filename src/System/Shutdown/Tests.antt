-- ===== src/System/Shutdown/Tests.antt =====
-- The end of a master at concrete settings.
use waterhose.Prelude.{true, false, ◌≡◌, refl, List, [], ◌∷◌, some, codes}
use waterhose.Start.{Config, wait_group_done}
use waterhose.Start.Servers.{
  Servers, opens, grpc_server, http_server, up, over, closed, new_servers, server_event,
}
use waterhose.Start.Process.{
  Process, MainEvent, new_process, run_main, step, sets_up, assigns, runs,
}
use waterhose.System.Shutdown.{master_app, shutdown_events, master_exit, master_shutdown, IsOff}

abbrev config : Config
config = record {
  mode = codes "master";
  k8s_enabled = false;
  health_enabled = true;
  monitoring_enabled = false;
}

-- The start of the servers.
abbrev start_events : List (MainEvent (master_app config))
start_events = sets_up ∷ assigns ∷ runs (opens grpc_server) ∷ runs (opens http_server) ∷ []

abbrev serving : Servers
serving = record (new_servers config) { grpc = up; http = up }

abbrev served : Process (master_app config)
served = record (new_process (master_app config)) { mode = some serving; assigned = true }

master_shutdown_example :
    (run_main (master_app config) (shutdown_events config) served).exit ≡ some 0
unfolding run_main step server_event
master_shutdown_example =
    master_shutdown config start_events served serving refl refl refl refl refl refl refl (λ e. cc)
      (λ e. cc)

master_exit_example :
    let end = run_main (master_app config) (shutdown_events config) served in
    (s : Servers) × (end.mode ≡ some s)
    × IsOff s.grpc
    × IsOff s.http
    × IsOff s.health
    × IsOff s.monitoring
unfolding run_main step server_event wait_group_done
master_exit_example =
    master_exit config start_events (shutdown_events config) served refl refl refl
      master_shutdown_example

-- The events leave no server running.
shutdown_runs :
    (run_main (master_app config) (shutdown_events config) served).mode
    ≡ some (record serving {
      grpc = over;
      http = over;
      health = over;
      count = 0;
      closer = closed;
      http_shut = true;
    })
unfolding run_main step server_event wait_group_done
shutdown_runs = refl
