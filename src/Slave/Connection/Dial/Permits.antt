-- ===== src/Slave/Connection/Dial/Permits.antt =====
-- internal/modes/slave/manager/connection.go: the loops round the limit of new connections.
use waterhose.Prelude.{
  ℕ, zero, suc, Bool, true, false, ◌≡◌, ◌≢◌, refl, sym, ◌∙◌, ◌⊎◌, inl, inr, Option, none, some,
  Bool-cases, Option-cases,
}
use mathlib.Core.Path.{subst}
use waterhose.Prelude.Int.{ℤ}
use waterhose.Svc.Redis.{RedisApi, rate_limit_new_connection}
use waterhose.Slave.Connection.Dial.{
  Permit, allowed, limit_failed, context_ended, Clocked, get_new_connection, on_reconnect,
}

module _ (api : RedisApi) (clock : Clocked api) (ended : ℕ → Bool) where
  -- What a wait for a permit gives: with `allowed`, the last answer of Redis was a permit.
  abbrev pub Permitted : Option (Permit × ℕ × api.State) → Type 0
  Permitted none = ⊥
  Permitted (some (allowed, j, s')) =
      (s : api.State) × (ttl : ℤ) × (rate_limit_new_connection api s ≡ (some (true, ttl), s'))
  Permitted (some (limit_failed, j, s')) =
      (s : api.State) × (rate_limit_new_connection api s ≡ (none, s'))
  Permitted (some (context_ended, j, s')) = (i : ℕ) × (ended i ≡ true)

  round_lem :
      (fuel i : ℕ) (s : api.State)
      → Permitted (get_new_connection api clock ended (suc fuel) i s)
        ⊎ ((ttl : ℤ) × ((rate_limit_new_connection api s).0 ≡ some (false, ttl))
            × (get_new_connection api clock ended (suc fuel) i s
                ≡ get_new_connection api clock ended fuel
                    (suc i)
                    (clock.wait (rate_limit_new_connection api s).1 ttl)))
  unfolding get_new_connection
  round_lem fuel i s = elim (Bool-cases (ended i)) [
    | inl over ↦ inl (rw (get_new_connection, over) (i, over))
    | inr on ↦ elim (Option-cases (rate_limit_new_connection api s).0) [
      | inl failed ↦ inl (
          rw (get_new_connection, on, failed)
            (s, λ i. (failed i, (rate_limit_new_connection api s).1)))
      | inr ((true, ttl), e) ↦
          inl (
            rw (get_new_connection, on, e)
              (s, ttl, λ i. (e i, (rate_limit_new_connection api s).1)))
      | inr ((false, ttl), e) ↦ inr (ttl, e, rw (get_new_connection, on, e) refl)
    ]
  ]

  get_new_connection-Permitted :
      (fuel i : ℕ) (s : api.State) (x : Permit × ℕ × api.State)
      → get_new_connection api clock ended fuel i s ≡ some x
      → Permitted (some x)
  unfolding get_new_connection
  get_new_connection-Permitted zero i s x e = absurd (cc)
  get_new_connection-Permitted (suc fuel) i s x e = elim (round_lem fuel i s) [
    | inl done ↦ subst Permitted e done
    | inr (ttl, _, go) ↦ get_new_connection-Permitted fuel (suc i) _ x (sym go ∙ e)
  ]

  -- What `onReconnect` gives: a permit, or the end of the program.
  abbrev pub Waited : Option (Permit × ℕ × api.State) → Type 0
  Waited none = Unit
  Waited (some (limit_failed, j, s')) = ⊥
  Waited (some (p, j, s')) = Permitted (some (p, j, s'))

  retry-Waited :
      (inner fuel i : ℕ) (s : api.State) (p : Permit) (j : ℕ) (s' : api.State)
      → p ≢ allowed
      → get_new_connection api clock ended inner i s ≡ some (p, j, s')
      → Waited (on_reconnect api clock ended inner fuel (suc j) s')
      → Waited (on_reconnect api clock ended inner (suc fuel) i s)
  unfolding on_reconnect
  retry-Waited inner fuel i s allowed j s' h e w = elim (h refl) [ ]
  retry-Waited inner fuel i s limit_failed j s' h e w = elim (Bool-cases (ended j)) [
    | inl over ↦ rw (on_reconnect, e, over) (j, over)
    | inr on ↦ rw (on_reconnect, e, on) w
  ]
  retry-Waited inner fuel i s context_ended j s' h e w = elim (Bool-cases (ended j)) [
    | inl over ↦ rw (on_reconnect, e, over) (j, over)
    | inr on ↦ rw (on_reconnect, e, on) w
  ]

  -- `onReconnect` does not return without a permit of Redis but when the program is ending: errors of
  -- Redis make it ask again.
  pub on_reconnect-Waited :
      (inner fuel i : ℕ) (s : api.State) → Waited (on_reconnect api clock ended inner fuel i s)
  unfolding on_reconnect
  on_reconnect-Waited inner zero i s = tt
  on_reconnect-Waited inner (suc fuel) i s =
      elim (Option-cases (get_new_connection api clock ended inner i s)) [
        | inl e ↦ rw (on_reconnect, e) tt
        | inr ((allowed, j, s'), e) ↦
            rw (on_reconnect, e) (get_new_connection-Permitted inner i s _ e)
        | inr ((limit_failed, j, s'), e) ↦
            retry-Waited inner fuel i s limit_failed j s' (λ h. absurd (cc)) e
              (on_reconnect-Waited inner fuel (suc j) s')
        | inr ((context_ended, j, s'), e) ↦
            retry-Waited inner fuel i s context_ended j s' (λ h. absurd (cc)) e
              (on_reconnect-Waited inner fuel (suc j) s')
      ]
