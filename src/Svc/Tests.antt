-- ===== src/Svc/Tests.antt =====
-- The services at concrete inputs.
use waterhose.Prelude.{
  ℕ, ◌+◌, ◌≤◌, true, false, [], ◌∷◌, map, ◌≡◌, refl, Option, none, some, Bytes, codes, arith, min,
  bytes_eq, string_eq, nat_eq,
}
use waterhose.Prelude.Dict.{Dict, lookup}
use waterhose.Prelude.Int.{ℤ, pos}
use waterhose.Structures.{Channel, PbChannel, User, unknown}
use waterhose.Svc.Redis.{RedisApi, connection_key, join_key, rate_limit_join}
use waterhose.Svc.Redis.Window.{
  IsWindow, join_all, open_all, sum, rate_limit_join_exact, rate_limit_new_connection_bound,
}
use waterhose.Svc.AutoScaler.{Batch, new, allocate, complete}
use waterhose.Svc.AutoScaler.Invariant.{new-Inv}
use waterhose.Svc.AutoScaler.Rescale.{K8sApi, bulk_write, rescale_unsafe}
use waterhose.Svc.AutoScaler.Rescale.Retries.{
  IsCluster, Attempts, bulk_write_lem, Ends, rescale_unsafe_lem,
}
use waterhose.Svc.AutoScaler.Load.{Loadable}
use waterhose.Svc.AutoScaler.Allocate.{Asked, Allocates, allocate_lem}
use waterhose.Svc.AutoScaler.Startup.{load, Loads, load-Loads}
use waterhose.Svc.AutoScaler.Fetch.{Setting, start_batch}
use waterhose.Svc.AutoScaler.Fetch.Correct.{Correct}

-- A server with one counter, whose keys expire in five nanoseconds.
abbrev counter : RedisApi
counter = record {
  State = ℕ;
  incr_ttl = λ s key n. (some (s + n, pos 5), s + n);
  expire = λ s key d. (true, s);
}

counter-IsWindow : (key : Bytes) → IsWindow counter key (λ s. s)
counter-IsWindow key = record {
  incr_adds = λ s n v ttl e. ground arith;
  error_keeps = λ s n e. absurd (cc);
  expire_keeps = λ s d. refl;
}

rate_limit_join_exact_example :
    (join_all counter 1499 (2 ∷ 5 ∷ [])).0 + min 1500 1499 ≡ min 1500 (1499 + sum (2 ∷ 5 ∷ []))
rate_limit_join_exact_example =
    rate_limit_join_exact (counter-IsWindow join_key) 1499 (2 ∷ 5 ∷ [])
      (unfold rate_limit_join in ((λ e. cc), ((λ e. cc), tt)))

rate_limit_new_connection_bound_example : (open_all counter 147 4).0 ≤ 149
rate_limit_new_connection_bound_example =
    rate_limit_new_connection_bound (counter-IsWindow connection_key) 147 4

-- A stateful set that answers each request.
abbrev cluster : K8sApi
cluster = record {
  State = Option ℤ;
  get_stateful_set = λ s. (some s, s);
  update_stateful_set = λ s n. (true, some n);
}

cluster-IsCluster : IsCluster cluster (λ s. s)
cluster-IsCluster = record { get_reads = λ s r e. cc; update_sets = λ s n e. refl }

rescale_unsafe_lem_example :
    Ends cluster-IsCluster true none (pos 3) (rescale_unsafe cluster true none (pos 3))
rescale_unsafe_lem_example = rescale_unsafe_lem cluster-IsCluster true none (pos 3)

bulk_write_lem_example : Attempts (λ n. false) 0 (bulk_write 12 (λ n. false) 0)
bulk_write_lem_example = bulk_write_lem (λ n. false)

abbrev alice : User
alice = record { id = codes "1"; login = codes "alice" }

abbrev bob : User
bob = record { id = codes "2"; login = codes "bob" }

abbrev request_of : User → PbChannel
request_of u = record {
  id = u.id;
  login = u.login;
  priority = pos 1;
  use_anonymous = false;
  bot_banned = false;
}

abbrev requests : Dict Bytes PbChannel
requests = (alice.id, request_of alice) ∷ (bob.id, request_of bob) ∷ []

alice_asked : lookup alice.id requests ≡ some (request_of alice)
unfolding lookup bytes_eq
alice_asked = refl

requests-Asked : Asked requests (alice ∷ bob ∷ [])
unfolding lookup bytes_eq
requests-Asked = ((λ h. (request_of alice, refl)), ((λ h. (request_of bob, refl)), tt))

allocate_lem_example :
    (b' : Batch) × (allocate 1 requests (alice ∷ bob ∷ []) (start_batch new) ≡ complete b')
    × Allocates 1 (alice ∷ bob ∷ []) (start_batch new) b'
allocate_lem_example =
    allocate_lem 1 requests (alice ∷ bob ∷ []) (start_batch new) (omega arith) new-Inv
      requests-Asked (omega arith)

abbrev stored_alice : Channel
stored_alice = record {
  twitch_id = codes "1";
  twitch_login = codes "alice";
  priority = pos 1;
  edge_node = pos 2;
  state = unknown;
  use_anonymous = false;
  bot_banned = false;
}

stored_alice-Loadable : Loadable new.channels (stored_alice ∷ [])
stored_alice-Loadable = ((2, refl), (unfold lookup in refl), tt)

load-Loads_example :
    Loads cluster
      (λ s. s)
      true
      (stored_alice ∷ [])
      (load cluster true (some (stored_alice ∷ [])) true new none)
load-Loads_example =
    load-Loads cluster-IsCluster (stored_alice ∷ []) true new none new-Inv stored_alice-Loadable

-- Twitch, where each id has a user of that id.
abbrev user_of : Bytes → User
user_of id = record { id = id; login = id }

abbrev setting : Setting
setting = record {
  limit = 1;
  enabled = true;
  users = map user_of;
  answers = λ n. true;
  k8s = cluster;
}
