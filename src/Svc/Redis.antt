-- ===== src/Svc/Redis.antt =====
-- internal/svc/redis/redis.go: the two rate limits, over a Redis server that is a parameter.
pub mod Window
use waterhose.Prelude.{
  ℕ, ◌-◌, ◌<◌, Bool, true, false, ◌++◌, Option, none, some, Bytes, codes, ltb, if◌then◌else◌,
}
use waterhose.Prelude.Int.{ℤ, pos, negsuc}

-- What redis.go calls of the server: a pipeline of INCRBY and TTL, with `none` for an error of
-- `Exec`, and EXPIRE, with `false` for an error. Times are in nanoseconds; a TTL of -1 says that the
-- key has no expiry.
pub record RedisApi : Type 1 where
  pub State : Type 0
  pub incr_ttl : State → Bytes → ℕ → Option (ℕ × ℤ) × State
  pub expire : State → Bytes → ℕ → Bool × State

abbrev pub redis_prefix : Bytes
redis_prefix = codes "waterhose:"

abbrev pub connection_key : Bytes
connection_key = redis_prefix ++ codes "rates:connection"

abbrev pub join_key : Bytes
join_key = redis_prefix ++ codes "rates:join"

-- `10 * time.Second`
abbrev pub ten_seconds : ℕ
ten_seconds = 10_000_000_000

abbrev pub no_expiry : ℤ → Bool
no_expiry (pos n) = false
no_expiry (negsuc n) = if ltb 0 n then false else true

-- How many of `count` joins are allowed. `v < 0` of the source is `incr < 1500` here.
abbrev pub allowed_joins : ℕ → ℕ → ℕ
allowed_joins incr count =
    if ltb incr 1500 then count else (let v = incr - 1500 in if ltb count v then 0 else count - v)

module _ (api : RedisApi) where
  open api use {State, incr_ttl, expire}

  -- The key's counter and time to live; a key without expiry gets ten seconds first.
  unfoldable pub count_up : State → Bytes → ℕ → Option (ℕ × ℤ) × State
  count_up s key n =
      let (counted, s') = incr_ttl s key n in
      elim counted [
        | none ↦ (none, s')
        | some (v, ttl) ↦
            if no_expiry ttl
            then (let (set, s'') = expire s' key ten_seconds in
                if set then (some (v, pos ten_seconds), s'') else (none, s''))
            else (some (v, ttl), s')
      ]

  -- Whether a connection may be opened, and the time to live; `none` is an error.
  unfoldable pub rate_limit_new_connection : State → Option (Bool × ℤ) × State
  unfolding count_up
  rate_limit_new_connection s =
      let (counted, s') = count_up s connection_key 1 in
      elim counted [ none ↦ (none, s') | some (v, ttl) ↦ (some (ltb v 150, ttl), s') ]

  unfoldable pub rate_limit_join : State → ℕ → Option (ℕ × ℤ) × State
  unfolding count_up
  rate_limit_join s count =
      let (counted, s') = count_up s join_key count in
      elim counted [ none ↦ (none, s') | some (v, ttl) ↦ (some (allowed_joins v count, ttl), s') ]
