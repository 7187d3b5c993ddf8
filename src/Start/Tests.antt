-- ===== src/Start/Tests.antt =====
-- A start at concrete settings.
use waterhose.Prelude.{
  [], ◌∷◌, ◌+◌, ◌⊎◌, ◌≢◌, some, true, false, ◌≡◌, refl, codes, bytes_eq, ok, panic, if◌then◌else◌,
}
use waterhose.Start.{Config, Failures, setup_global}
use waterhose.Start.Servers.{new_servers, run_servers, is_done, opening, fails, grpc_server}
use waterhose.Start.Servers.Ends.{running, servers_lem}
use waterhose.Start.Order.{failed, needed, setup_global_lem}

abbrev config : Config
config = record {
  mode = codes "master";
  k8s_enabled = true;
  health_enabled = true;
  monitoring_enabled = false;
}

abbrev failures : Failures
failures = record { redis_fails = false; mongo_fails = false; k8s_fails = false; load_fails = true }

setup_global_lem_example :
    setup_global config failures ≡ (if failed config failures then panic else ok (needed config))
setup_global_lem_example = setup_global_lem config failures (unfold bytes_eq in refl)

servers_lem_example :
    let s = run_servers ((false, fails grpc_server) ∷ []) (new_servers config) in
    (s.count ≡ running s.grpc + running s.http + running s.health + running s.monitoring)
    × ((is_done s ≡ false) ⊎ (s.count ≡ 0))
    × ((s.crash ≢ some 2) ⊎ (s.grpc ≡ opening) ⊎ (s.http ≡ opening))
servers_lem_example = servers_lem config ((false, fails grpc_server) ∷ [])
