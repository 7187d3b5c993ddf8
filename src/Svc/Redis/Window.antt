-- ===== src/Svc/Redis/Window.antt =====
-- internal/svc/redis/redis.go: what the rate limits allow while a counter does not expire.
use waterhose.Prelude.{
  ℕ, ◌+◌, ◌≤◌, Bool, true, List, [], ◌∷◌, ◌≡◌, Option, none, some, arith, Bytes, min, Option-cases,
  inl, inr, ◌≢◌, zero, suc,
}
use waterhose.Prelude.Int.{ℤ}
use waterhose.Svc.Redis.{
  RedisApi, ten_seconds, allowed_joins, connection_key, join_key, count_up,
  rate_limit_new_connection, rate_limit_join,
}

-- How a Redis counter behaves in a window in which it does not expire: INCRBY adds to it and
-- answers with the sum, or fails and takes nothing away; EXPIRE does not change it.
pub record IsWindow (api : RedisApi) (key : Bytes) (value : api.State → ℕ) : Type 0 where
  pub incr_adds :
      (s : api.State) (n v : ℕ) (ttl : ℤ)
      → (api.incr_ttl s key n).0 ≡ some (v, ttl)
      → (v ≡ value s + n) × (value (api.incr_ttl s key n).1 ≡ value s + n)
  pub error_keeps :
      (s : api.State) (n : ℕ)
      → (api.incr_ttl s key n).0 ≡ none
      → value s ≤ value (api.incr_ttl s key n).1
  pub expire_keeps : (s : api.State) (d : ℕ) → value (api.expire s key d).1 ≡ value s

module _ {api : RedisApi} {key : Bytes} {value : api.State → ℕ} (w : IsWindow api key value) where
  count_up_mono : (s : api.State) (n : ℕ) → value s ≤ value (count_up api s key n).1
  unfolding count_up
  count_up_mono s n = elim (Option-cases (api.incr_ttl s key n).0) [
    | inl e ↦ ground (arith, w.error_keeps s n)
    | inr ((v, ttl), e) ↦
        ground (arith, w.incr_adds s n v ttl e, w.expire_keeps (api.incr_ttl s key n).1 ten_seconds)
  ]

  count_up-adds :
      (s : api.State) (n v : ℕ) (ttl : ℤ)
      → (count_up api s key n).0 ≡ some (v, ttl)
      → (v ≡ value s + n) × (value (count_up api s key n).1 ≡ value s + n)
  unfolding count_up
  count_up-adds s n v ttl h = elim (Option-cases (api.incr_ttl s key n).0) [
    | inl e ↦ ground arith
    | inr ((v', ttl'), e) ↦
        ground
          (arith, w.incr_adds s n v' ttl' e, w.expire_keeps (api.incr_ttl s key n).1 ten_seconds)
  ]

abbrev pub sum : List ℕ → ℕ
sum [] = 0
sum (n ∷ ns) = n + sum ns

allowed_joins_lem :
    (value count : ℕ)
    → allowed_joins (value + count) count + min 1500 value ≡ min 1500 (value + count)
allowed_joins_lem value count = ground arith

-- The number that one request is allowed; a request that fails is allowed none.
abbrev pub granted : Option (ℕ × ℤ) → ℕ
granted none = 0
granted (some (g, ttl)) = g

-- A run of requests: the sum of what they are allowed, and the state at the end.
pub join_all : (api : RedisApi) → api.State → List ℕ → ℕ × api.State
join_all api s [] = (0, s)
join_all api s (n ∷ ns) =
    let (r, s') = rate_limit_join api s n in
    let (total, s'') = join_all api s' ns in (granted r + total, s'')

module _ {api : RedisApi} {value : api.State → ℕ} (w : IsWindow api join_key value) where
  rate_limit_join_step :
      (s : api.State) (n : ℕ)
      → granted (rate_limit_join api s n).0 + min 1500 (value s)
        ≤ min 1500 (value (rate_limit_join api s n).1)
  unfolding rate_limit_join
  rate_limit_join_step s n = elim (Option-cases (count_up api s join_key n).0) [
    | inl e ↦ ground (arith, count_up_mono w s n)
    | inr ((v, ttl), e) ↦ ground (arith, count_up-adds w s n v ttl e, allowed_joins_lem (value s) n)
  ]

  join_all_bound :
      (ns : List ℕ) (s : api.State)
      → (join_all api s ns).0 + min 1500 (value s) ≤ min 1500 (value (join_all api s ns).1)
  unfolding join_all
  join_all_bound [] s = omega arith
  join_all_bound (n ∷ ns) s =
      omega (arith, rate_limit_join_step s n, join_all_bound ns (rate_limit_join api s n).1)

  -- Every request of the run is answered without an error.
  abbrev pub Answered : api.State → List ℕ → Type 0
  Answered s [] = Unit
  Answered s (n ∷ ns) =
      ((rate_limit_join api s n).0 ≢ none) × Answered (rate_limit_join api s n).1 ns

  rate_limit_join_answered :
      (s : api.State) (n : ℕ)
      → (rate_limit_join api s n).0 ≢ none
      → (granted (rate_limit_join api s n).0 + min 1500 (value s) ≡ min 1500 (value s + n))
        × (value (rate_limit_join api s n).1 ≡ value s + n)
  unfolding rate_limit_join
  rate_limit_join_answered s n h = elim (Option-cases (count_up api s join_key n).0) [
    | inl e ↦ absurd (ground arith)
    | inr ((v, ttl), e) ↦ ground (arith, count_up-adds w s n v ttl e, allowed_joins_lem (value s) n)
  ]

  -- In one window, when every request is answered, `RateLimitJoin` allows joins until 1500 have
  -- been asked for since the counter was at 0, and none behind that: the sum of what a run of
  -- requests is allowed is the part of the requested sum that lies below 1500.
  pub rate_limit_join_exact :
      (s : api.State) (ns : List ℕ)
      → Answered s ns
      → (join_all api s ns).0 + min 1500 (value s) ≡ min 1500 (value s + sum ns)
  unfolding join_all
  rate_limit_join_exact s [] h = omega arith
  rate_limit_join_exact s (n ∷ ns) h = omega (
    arith,
    rate_limit_join_answered s n h.0,
    rate_limit_join_exact (rate_limit_join api s n).1 ns h.1,
  )

  -- In one window, however the requests are sized and whichever of them fail, `RateLimitJoin` allows
  -- no more than 1500 joins in all.
  pub rate_limit_join_bound : (s : api.State) (ns : List ℕ) → (join_all api s ns).0 ≤ 1500
  rate_limit_join_bound s ns = omega (arith, join_all_bound ns s)

-- How many of a run of `k` calls are told that they may open a connection.
abbrev pub opened : Option (Bool × ℤ) → ℕ
opened (some (true, ttl)) = 1
opened _ = 0

pub open_all : (api : RedisApi) → api.State → ℕ → ℕ × api.State
open_all api s zero = (0, s)
open_all api s (suc k) =
    let (r, s') = rate_limit_new_connection api s in
    let (total, s'') = open_all api s' k in (opened r + total, s'')

module _ {api : RedisApi} {value : api.State → ℕ} (w : IsWindow api connection_key value) where
  rate_limit_new_connection_step :
      (s : api.State)
      → opened (rate_limit_new_connection api s).0 + min 149 (value s)
        ≤ min 149 (value (rate_limit_new_connection api s).1)
  unfolding rate_limit_new_connection
  rate_limit_new_connection_step s = elim (Option-cases (count_up api s connection_key 1).0) [
    | inl e ↦ ground (arith, count_up_mono w s 1)
    | inr ((v, ttl), e) ↦ ground (arith, count_up-adds w s 1 v ttl e)
  ]

  open_all_bound :
      (k : ℕ) (s : api.State)
      → (open_all api s k).0 + min 149 (value s) ≤ min 149 (value (open_all api s k).1)
  unfolding open_all
  open_all_bound zero s = omega arith
  open_all_bound (suc k) s = omega (
    arith,
    rate_limit_new_connection_step s,
    open_all_bound k (rate_limit_new_connection api s).1,
  )

  -- In one window `RateLimitNewConnection` lets at most 149 calls through.
  pub rate_limit_new_connection_bound : (s : api.State) (k : ℕ) → (open_all api s k).0 ≤ 149
  rate_limit_new_connection_bound s k = omega (arith, open_all_bound k s)
