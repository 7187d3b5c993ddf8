-- ===== src/Start/Order.antt =====
-- internal/modes/modes.go and internal/modes/slave/slave.go: what a start leaves, and how a slave ends.
use waterhose.Prelude.{
  ℕ, zero, suc, ◌≤◌, Bool, true, ◌&&◌, ◌||◌, ◌≡◌, ◌↔◌, inl, inr, arith, ok, panic, if◌then◌else◌,
  Bool-cases,
}
use waterhose.Start.{
  Config, is_master, is_slave, valid_mode, Instances, Failures, setup_global, wait_group_done,
  done_times, slave_wait_group, slave_end,
}

-- Whether one of the services that the mode needs fails.
abbrev pub failed : Config → Failures → Bool
failed c f =
    f.redis_fails
    || (is_master c && (f.mongo_fails || ((c.k8s_enabled && f.k8s_fails) || f.load_fails)))

-- What a mode needs.
abbrev pub needed : Config → Instances
needed c = record {
  redis = true;
  k8s = is_master c && c.k8s_enabled;
  event_emitter = true;
  twitch = is_master c;
  mongo = is_master c;
  auto_scaler = is_master c;
  rate_limit = is_master c;
  monitoring = true;
}

-- In a mode that `main` goes on with, `setupGlobal` makes exactly the instances that the mode needs, or
-- stops the program if one of their services fails; none is used before it is made.
pub setup_global_lem :
    (c : Config) (f : Failures)
    → valid_mode c ≡ true
    → setup_global c f ≡ (if failed c f then panic else ok (needed c))
unfolding setup_global
setup_global_lem c f h = elim (Bool-cases (is_master c)) [
  | inl m ↦ rw (setup_global, m) (ground arith)
  | inr n ↦ elim (Bool-cases (is_slave c)) [
    | inl s ↦ rw (setup_global, n, s) (ground arith)
    | inr o ↦ ground arith
  ]
]

done_times_lem : (k n : ℕ) → (done_times k n ≡ panic) ↔ (suc n ≤ k)
unfolding done_times wait_group_done
done_times_lem zero n = ground arith
done_times_lem (suc k) zero = ground arith
done_times_lem (suc k) (suc n) = ground (arith, done_times_lem k n)

-- The end of a slave calls `Done` where it means to wait: it panics exactly if each server that is
-- enabled has ended, above all where none is.
pub slave_end_panics :
    (c : Config) (finished : ℕ) → (slave_end c finished ≡ panic) ↔ (slave_wait_group c ≤ finished)
unfolding slave_end
slave_end_panics c finished = ground (arith, done_times_lem (suc finished) (slave_wait_group c))
