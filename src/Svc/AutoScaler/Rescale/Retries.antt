-- ===== src/Svc/AutoScaler/Rescale/Retries.antt =====
-- internal/svc/autoscaler/autoscaler.go: how the loops with retries end.
use waterhose.Prelude.{
  ℕ, zero, suc, ◌+◌, ◌≤◌, ◌<◌, Bool, true, false, ◌≡◌, refl, ◌⊎◌, inl, inr, Option, none, some,
  arith, Bool-cases, Option-cases, nat_cases,
}
use waterhose.Prelude.Int.{ℤ}
use waterhose.Svc.AutoScaler.Rescale.{
  Retried, finished, fatal, out_of_fuel, bulk_write, K8sApi, same_size, wants_rescale,
  rescale_attempt, rescale_loop, rescale_unsafe,
}

-- From the attempt `from` on: the write succeeded at the first attempt that could, which is one of
-- the first eleven, or all of those failed and the program stops.
abbrev pub Attempts : (ℕ → Bool) → ℕ → Retried ℕ → Type 0
Attempts answers from (finished n) =
    (from ≤ n) × (n ≤ 10) × (answers n ≡ true) × ((k : ℕ) → from ≤ k → k < n → answers k ≡ false)
Attempts answers from fatal = (k : ℕ) → from ≤ k → k ≤ 10 → answers k ≡ false
Attempts answers from out_of_fuel = ⊥

lt_or_le : (a b : ℕ) → (a < b) ⊎ (b ≤ a)
lt_or_le a b = ground arith

Attempts-step :
    (answers : ℕ → Bool) (from : ℕ) (r : Retried ℕ)
    → answers from ≡ false
    → Attempts answers (from + 1) r
    → Attempts answers from r
Attempts-step answers from (finished n) e (a, b, c, d) = (
  omega arith,
  b,
  c,
  λ k h l. elim (nat_cases k from) [ inl same ↦ rw same e | inr apart ↦ d k (omega arith) l ],
)
Attempts-step answers from fatal e d =
    λ k h l. elim (nat_cases k from) [ inl same ↦ rw same e | inr apart ↦ d k (omega arith) l ]
Attempts-step answers from out_of_fuel e d = d

module _ (fuel : ℕ) (answers : ℕ → Bool) (from : ℕ) where
  bulk_write_late : 10 < from → bulk_write (suc fuel) answers from ≡ fatal
  unfolding bulk_write
  bulk_write_late h = ground arith

  bulk_write_good :
      from ≤ 10 → answers from ≡ true → bulk_write (suc fuel) answers from ≡ finished from
  unfolding bulk_write
  bulk_write_good h e = ground arith

  bulk_write_bad :
      from ≤ 10
      → answers from ≡ false
      → bulk_write (suc fuel) answers from ≡ bulk_write fuel answers (from + 1)
  unfolding bulk_write
  bulk_write_bad h e = ground arith

bulk_write_from :
    (fuel : ℕ) (answers : ℕ → Bool) (from : ℕ)
    → 12 ≤ from + fuel
    → from ≤ 11
    → Attempts answers from (bulk_write fuel answers from)
bulk_write_from zero answers from h g = absurd (omega arith)
bulk_write_from (suc fuel) answers from h g = elim (lt_or_le 10 from) [
  | inl late ↦ rw (bulk_write_late fuel answers from late) (λ k a b. absurd (omega arith))
  | inr early ↦ elim (Bool-cases (answers from)) [
    | inl good ↦
        rw (bulk_write_good fuel answers from early good)
          (omega arith, early, good, λ k a b. absurd (omega arith))
    | inr bad ↦ rw (bulk_write_bad fuel answers from early bad) (
        Attempts-step answers from _ bad
          (bulk_write_from fuel answers (from + 1) (omega arith) (omega arith)))
  ]
]

-- The write of a batch is tried at most eleven times: it ends with the first attempt that succeeds,
-- and the program stops exactly when all eleven fail. Twelve rounds of fuel are enough.
pub bulk_write_lem : (answers : ℕ → Bool) → Attempts answers 0 (bulk_write 12 answers 0)
bulk_write_lem answers = bulk_write_from 12 answers 0 (omega arith) (omega arith)

-- The stateful set as the API's documentation has it: a read answers with its replicas and leaves
-- them alone, and an update that succeeds sets them.
pub record IsCluster (api : K8sApi) (replicas : api.State → Option ℤ) : Type 0 where
  pub get_reads :
      (s : api.State) (r : Option ℤ)
      → (api.get_stateful_set s).0 ≡ some r
      → replicas (api.get_stateful_set s).1 ≡ r
  pub update_sets :
      (s : api.State) (n : ℤ)
      → (api.update_stateful_set s n).0 ≡ true
      → replicas (api.update_stateful_set s n).1 ≡ some n

same_size_eq : (a b : ℤ) → same_size a b ≡ true → a ≡ b
same_size_eq a b h = ground arith

wants_rescale_eq : (r : Option ℤ) (size : ℤ) → wants_rescale r size ≡ false → r ≡ some size
wants_rescale_eq none size h = cc
wants_rescale_eq (some n) size h = ground (arith, same_size_eq n size)

module _ {api : K8sApi} {replicas : api.State → Option ℤ} (cluster : IsCluster api replicas) where
  rescale_attempt_lem :
      (s : api.State) (size : ℤ)
      → (rescale_attempt api s size).0 ≡ true
      → replicas (rescale_attempt api s size).1 ≡ some size
  unfolding rescale_attempt
  rescale_attempt_lem s size h = elim (Option-cases (api.get_stateful_set s).0) [
    | inl e ↦ ground arith
    | inr (r, e) ↦ ground (
      arith,
      cluster.get_reads s r e,
      cluster.update_sets (api.get_stateful_set s).1 size,
      wants_rescale_eq r size,
    )
  ]

  -- The loop ends, and when it does not stop the program the replicas are as wanted.
  abbrev pub Rescaled : ℤ → Retried api.State → Type 0
  Rescaled size (finished s) = replicas s ≡ some size
  Rescaled size fatal = Unit
  Rescaled size out_of_fuel = ⊥

  module _ (fuel attempts : ℕ) (s : api.State) (size : ℤ) where
    rescale_loop_late : 20 < attempts → rescale_loop api (suc fuel) attempts s size ≡ fatal
    unfolding rescale_loop
    rescale_loop_late h = ground arith

    rescale_loop_done :
        attempts ≤ 20
        → (rescale_attempt api s size).0 ≡ true
        → rescale_loop api (suc fuel) attempts s size ≡ finished (rescale_attempt api s size).1
    unfolding rescale_loop
    rescale_loop_done h e = ground arith

    rescale_loop_failed :
        attempts ≤ 20
        → (rescale_attempt api s size).0 ≡ false
        → rescale_loop api (suc fuel) attempts s size
          ≡ rescale_loop api fuel (attempts + 1) (rescale_attempt api s size).1 size
    unfolding rescale_loop
    rescale_loop_failed h e = ground arith

  rescale_loop_from :
      (fuel attempts : ℕ) (s : api.State) (size : ℤ)
      → 22 ≤ attempts + fuel
      → attempts ≤ 21
      → Rescaled size (rescale_loop api fuel attempts s size)
  rescale_loop_from zero attempts s size h g = absurd (omega arith)
  rescale_loop_from (suc fuel) attempts s size h g = elim (lt_or_le 20 attempts) [
    | inl late ↦ rw (rescale_loop_late fuel attempts s size late) tt
    | inr early ↦ elim (Bool-cases (rescale_attempt api s size).0) [
      | inl done ↦
          rw (rescale_loop_done fuel attempts s size early done) (rescale_attempt_lem s size done)
      | inr bad ↦
          rw (rescale_loop_failed fuel attempts s size early bad)
            (rescale_loop_from fuel (attempts + 1) _ size (omega arith) (omega arith))
    ]
  ]

  pub rescale_unsafe_enabled :
      (s : api.State) (size : ℤ) → Rescaled size (rescale_unsafe api true s size)
  unfolding rescale_unsafe
  rescale_unsafe_enabled s size = rescale_loop_from 22 0 s size (omega arith) (omega arith)

  -- How `rescaleUnsafe` ends, where Kubernetes is enabled or not.
  abbrev pub Ends : Bool → api.State → ℤ → Retried api.State → Type 0
  Ends true s size r = Rescaled size r
  Ends false s size r = r ≡ finished s

  -- With a stateful set that keeps what an update sets, `rescaleUnsafe` ends within 22 rounds of its
  -- loop. With Kubernetes enabled it either stops the program or leaves the stateful set with the
  -- replicas that were asked for; with Kubernetes disabled it returns, and the stateful set is as before.
  pub rescale_unsafe_lem :
      (enabled : Bool) (s : api.State) (size : ℤ)
      → Ends enabled s size (rescale_unsafe api enabled s size)
  unfolding rescale_unsafe
  rescale_unsafe_lem true s size = rescale_unsafe_enabled s size
  rescale_unsafe_lem false s size = refl

pub rescale_unsafe_disabled :
    (api : K8sApi) (s : api.State) (size : ℤ) → rescale_unsafe api false s size ≡ finished s
unfolding rescale_unsafe
rescale_unsafe_disabled api s size = refl
