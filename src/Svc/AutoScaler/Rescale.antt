-- ===== src/Svc/AutoScaler/Rescale.antt =====
-- internal/svc/autoscaler/autoscaler.go: `rescaleUnsafe`, and the retries of the write to MongoDB.
pub mod Retries
use waterhose.Prelude.{
  ℕ, zero, suc, ◌+◌, ◌≤◌, ◌<◌, Bool, true, false, not, ◌&&◌, ◌||◌, ◌≡◌, ◌≢◌, refl, Option, none,
  some, arith, ltb, ◌==◌, if◌then◌else◌,
}
use waterhose.Prelude.Int.{ℤ, pos, negsuc}

-- How a loop with retries ends.
pub data Retried {ℓ} (A : Type ℓ) : Type ℓ where
  finished : A → Retried A
  fatal : Retried A
  out_of_fuel : Retried A

-- The loop round `BulkWrite`: `answers n` says whether the attempt `n` succeeds. The result is
-- the number of the attempt that did.
unfoldable pub bulk_write : ℕ → (ℕ → Bool) → ℕ → Retried ℕ
bulk_write zero answers attempts = out_of_fuel
bulk_write (suc fuel) answers attempts =
    let next = bulk_write fuel answers (attempts + 1) in
    if not (attempts == 0) && ltb 10 attempts
    then fatal
    else if answers attempts
    then finished attempts
    else next

-- The Kubernetes API as `rescaleUnsafe` uses it: the replicas of the stateful set, or an error, and
-- an update that may fail.
pub record K8sApi : Type 1 where
  pub State : Type 0
  pub get_stateful_set : State → Option (Option ℤ) × State
  pub update_stateful_set : State → ℤ → Bool × State

abbrev pub same_size : ℤ → ℤ → Bool
same_size (pos a) (pos b) = a == b
same_size (negsuc a) (negsuc b) = a == b
same_size _ _ = false

-- `Replicas == nil || *Replicas != size`
abbrev pub wants_rescale : Option ℤ → ℤ → Bool
wants_rescale none size = true
wants_rescale (some n) size = not (same_size n size)

module _ (api : K8sApi) where
  open api use {State, get_stateful_set, update_stateful_set}

  -- One attempt: whether it succeeds.
  unfoldable pub rescale_attempt : State → ℤ → Bool × State
  rescale_attempt s size =
      let (answer, s') = get_stateful_set s in
      elim answer [
        | none ↦ (false, s')
        | some replicas ↦
            if wants_rescale replicas size then update_stateful_set s' size else (true, s')
      ]

  unfoldable pub rescale_loop : ℕ → ℕ → State → ℤ → Retried State
  rescale_loop zero attempts s size = out_of_fuel
  rescale_loop (suc fuel) attempts s size =
      let (done, s') = rescale_attempt s size in
      let next = rescale_loop fuel (attempts + 1) s' size in
      if ltb 1 attempts && ltb 20 attempts then fatal else if done then finished s' else next

  -- `enabled` is the configuration's `Master.K8S.Enabled`.
  unfoldable pub rescale_unsafe : Bool → State → ℤ → Retried State
  rescale_unsafe enabled s size = if enabled then rescale_loop 22 0 s size else finished s
