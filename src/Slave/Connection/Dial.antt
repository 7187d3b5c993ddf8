-- ===== src/Slave/Connection/Dial.antt =====
-- internal/modes/slave/manager/connection.go: `getNewConnection`, `onReconnect` and the loop that dials,
-- over Redis. Whether the program is ending is asked of `ended`, by the number of the question, and the
-- passing of time is a parameter.
pub mod Permits
mod Tests
use waterhose.Prelude.{ℕ, zero, suc, Bool, true, false, Option, none, some, if◌then◌else◌}
use waterhose.Prelude.Int.{ℤ}
use waterhose.Svc.Redis.{RedisApi, rate_limit_new_connection}

-- What `getNewConnection` returns: no error, that of Redis, or that of the context.
pub data Permit : Type 0 where
  allowed limit_failed context_ended : Permit

-- Redis, and the state that it is in behind a wait for a time in nanoseconds.
pub record Clocked (api : RedisApi) : Type 0 where
  pub wait : api.State → ℤ → api.State

module _ (api : RedisApi) (clock : Clocked api) (ended : ℕ → Bool) where
  -- `getNewConnection`, with fuel; question number `i` is the next one. The time of the wait is the
  -- time to live, and a part of a second more.
  unfoldable pub get_new_connection : ℕ → ℕ → api.State → Option (Permit × ℕ × api.State)
  get_new_connection zero i s = none
  get_new_connection (suc fuel) i s =
      let (answer, s') = rate_limit_new_connection api s in
      let rest : ℤ → Option (Permit × ℕ × api.State) =
        λ ttl. get_new_connection fuel (suc i) (clock.wait s' ttl) in
      if ended i then some (context_ended, suc i, s) else elim answer [
        | none ↦ some (limit_failed, suc i, s')
        | some (true, ttl) ↦ some (allowed, suc i, s')
        | some (false, ttl) ↦ rest ttl
      ]

  -- `onReconnect`, with fuel for its own rounds and for each call of `getNewConnection`.
  unfoldable pub on_reconnect : ℕ → ℕ → ℕ → api.State → Option (Permit × ℕ × api.State)
  unfolding get_new_connection
  on_reconnect inner zero i s = none
  on_reconnect inner (suc fuel) i s = elim (get_new_connection inner i s) [
    | none ↦ none
    | some (allowed, j, s') ↦ some (allowed, j, s')
    | some (failed, j, s') ↦
        let rest = on_reconnect inner fuel (suc j) s' in
        if ended j then some (context_ended, suc j, s') else rest
  ]

-- A round of the goroutine of `newConnection` up to `Connect`: whether it connects, and whether with
-- a permit.
pub data DialRound : Type 0 where
  stops : DialRound
  connects : Bool → DialRound

-- Behind an error there is no `continue`.
unfoldable pub dial_round : Permit → Bool → DialRound
dial_round allowed ending = connects true
dial_round limit_failed ending = if ending then stops else connects false
dial_round context_ended ending = if ending then stops else connects false
