-- ===== src/Start.antt =====
-- internal/configure/config.go, internal/modes/modes.go, internal/modes/master/master.go and
-- internal/modes/slave/slave.go: the mode, the order in which the instances are made, and the end of a
-- slave. Each constructor is a name with the instances that it and what it starts use; whether a
-- constructor fails is a parameter.
pub mod Order
pub mod Servers
pub mod SlaveServers
pub mod Process
pub mod Context
mod Tests
use waterhose.Prelude.{
  ℕ, zero, suc, ◌+◌, Bool, true, false, not, ◌&&◌, ◌||◌, List, [], ◌∷◌, ◌++◌, Bytes, codes,
  bytes_eq, Outcome, ok, panic, ◌>>=◌, if◌then◌else◌,
}

-- `Config`, with the fields that the start reads.
pub record Config : Type 0 where
  pub mode : Bytes
  pub k8s_enabled : Bool
  pub health_enabled : Bool
  pub monitoring_enabled : Bool

-- `IsMaster`
abbrev pub is_master : Config → Bool
is_master c = bytes_eq c.mode (codes "master")

-- `IsSlave`
abbrev pub is_slave : Config → Bool
is_slave c = bytes_eq c.mode (codes "slave")

-- `Instances`: which of them are set.
pub record Instances : Type 0 where
  pub redis : Bool
  pub k8s : Bool
  pub event_emitter : Bool
  pub twitch : Bool
  pub mongo : Bool
  pub auto_scaler : Bool
  pub rate_limit : Bool
  pub monitoring : Bool

abbrev pub no_instances : Instances
no_instances = record {
  redis = false;
  k8s = false;
  event_emitter = false;
  twitch = false;
  mongo = false;
  auto_scaler = false;
  rate_limit = false;
  monitoring = false;
}

-- Which of the fatal errors of `setupGlobal` happen.
pub record Failures : Type 0 where
  pub redis_fails : Bool
  pub mongo_fails : Bool
  pub k8s_fails : Bool
  pub load_fails : Bool

abbrev pub fatal_if : Bool → Instances → Outcome Instances
fatal_if fails i = if fails then panic else ok i

-- `AutoScaler.Load` uses MongoDB, the emitter, and Kubernetes if it is enabled: a nil one is a panic.
abbrev pub load_auto_scaler : Config → Failures → Instances → Outcome Instances
load_auto_scaler c f i =
    if i.mongo && i.event_emitter && (i.k8s || not c.k8s_enabled)
    then fatal_if f.load_fails i
    else panic

-- The blocks of `setupGlobal`, in their order.
abbrev pub setup_monitoring : Config → Instances → Outcome Instances
setup_monitoring c i = ok (if is_master c || is_slave c then record i { monitoring = true } else i)

abbrev pub setup_redis : Config → Failures → Instances → Outcome Instances
setup_redis c f i =
    if is_master c || is_slave c then fatal_if f.redis_fails (record i { redis = true }) else ok i

abbrev pub setup_mongo : Config → Failures → Instances → Outcome Instances
setup_mongo c f i = if is_master c then fatal_if f.mongo_fails (record i { mongo = true }) else ok i

abbrev pub setup_k8s : Config → Failures → Instances → Outcome Instances
setup_k8s c f i =
    if is_master c && c.k8s_enabled then fatal_if f.k8s_fails (record i { k8s = true }) else ok i

abbrev pub setup_events : Config → Instances → Outcome Instances
setup_events c i = ok (if is_master c || is_slave c then record i { event_emitter = true } else i)

abbrev pub setup_twitch : Config → Instances → Outcome Instances
setup_twitch c i = ok (if is_master c then record i { twitch = true } else i)

abbrev pub setup_auto_scaler : Config → Failures → Instances → Outcome Instances
setup_auto_scaler c f i =
    if is_master c then load_auto_scaler c f (record i { auto_scaler = true }) else ok i

abbrev pub setup_rate_limit : Config → Instances → Outcome Instances
setup_rate_limit c i = ok (if is_master c then record i { rate_limit = true } else i)

-- `setupGlobal`: a fatal error is a panic.
unfoldable pub setup_global : Config → Failures → Outcome Instances
setup_global c f = do
  i ← setup_monitoring c no_instances
  i ← setup_redis c f i
  i ← setup_mongo c f i
  i ← setup_k8s c f i
  i ← setup_events c i
  i ← setup_twitch c i
  i ← setup_auto_scaler c f i
  setup_rate_limit c i

-- A mode that `main` goes on with.
abbrev pub valid_mode : Config → Bool
valid_mode c = not (not (is_master c) && not (is_slave c))

-- `sync.WaitGroup`: `Done` below 0 panics.
unfoldable pub wait_group_done : ℕ → Outcome ℕ
wait_group_done zero = panic
wait_group_done (suc n) = ok n

abbrev pub one_for : Bool → ℕ
one_for true = 1
one_for false = 0

-- The counter of the wait group of a slave when its servers run.
abbrev pub slave_wait_group : Config → ℕ
slave_wait_group c = one_for c.health_enabled + one_for c.monitoring_enabled

unfoldable pub done_times : ℕ → ℕ → Outcome ℕ
unfolding wait_group_done
done_times zero n = ok n
done_times (suc k) n = do n' ← wait_group_done n; done_times k n'

-- The goroutine at the end of `slave.New`, when `finished` of the servers have called `Done`: it
-- calls `Done` itself.
unfoldable pub slave_end : Config → ℕ → Outcome ℕ
unfolding done_times
slave_end c finished = done_times (suc finished) (slave_wait_group c)
