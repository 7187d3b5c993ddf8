-- ===== src/Svc/AutoScaler/Fetch/Correct.antt =====
-- internal/svc/autoscaler/autoscaler.go: what a batch guarantees.
use waterhose.Prelude.{
  ℕ, ◌+◌, ◌^◌, ◌≤◌, ◌<◌, true, false, List, [], ◌∷◌, ◌≡◌, ◌≢◌, refl, ◌∙◌, inl, inr, Option, some,
  Bytes, arith, length, All, string_eq, nat_eq, Bool-cases, map, sym, ap,
}
use waterhose.Prelude.Dict.{Dict, lookup}
use waterhose.Prelude.Int.{ℤ, pos, int32}
use waterhose.Structures.{Channel, PbChannel, User}
use waterhose.Svc.AutoScaler.{AutoScaler, Batch, has_id}
use waterhose.Svc.AutoScaler.Invariant.{Inv, Within}
use waterhose.Svc.AutoScaler.Allocate.{
  on_edge, allocated, Asked, Allocates, allocate_lem, found_ids, twitch_id, IsStored,
}
use waterhose.Svc.AutoScaler.Rescale.{
  Retried, finished, fatal, out_of_fuel, bulk_write, rescale_unsafe,
}
use waterhose.Svc.AutoScaler.Rescale.Retries.{
  IsCluster, Attempts, bulk_write_lem, Rescaled, rescale_unsafe_enabled, rescale_unsafe_disabled,
}
use waterhose.Svc.AutoScaler.Fetch.Ids.{Occurs, Keys, collect-Keys, AsksFor, collect-AsksFor}
use waterhose.Svc.AutoScaler.Fetch.{
  Setting, collect, Fetched, returned, stopped, panicked, looping, start_batch, store_batch,
  allocate_users, fetch,
}

-- `Twitch.GetUsers`: one answer for each id, which has that id or, for a user that was not found, none.
abbrev pub AnswersUsers : (List Bytes → List User) → Type 0
AnswersUsers users =
    (ids : List Bytes)
    → (length (users ids) ≤ length ids) × All (λ u. has_id u ≡ true → Occurs u.id ids) (users ids)

Asked-users :
    (mp : Dict Bytes PbChannel) (ids : List Bytes) (us : List User)
    → Keys mp ids
    → All (λ u. has_id u ≡ true → Occurs u.id ids) us
    → Asked mp us
Asked-users mp ids [] k h = tt
Asked-users mp ids (u ∷ us) k h = (λ e. k u.id (h.0 e), Asked-users mp ids us k h.1)

-- The written channels have the ids of the users that were found, in the order of the answer, where
-- `GetUsers` was asked for the ids of the batch.
abbrev pub Writes : Setting → List PbChannel → List Channel → Type 0
Writes e channels written =
    (ids : List Bytes) × AsksFor channels ids × (map twitch_id written ≡ found_ids (e.users ids))

-- What a batch that returns leaves: the edges and the channels agree; a channel that had an edge
-- keeps it; no edge grows over the limit; each slave is sent exactly the written channels that are on
-- its edge; with Kubernetes enabled, and where any channel was written, there is a replica for each
-- edge; the written channels are those of the users that were found for the ids of the batch, each id
-- asked for once; and each of them is stored, on the edge that was written. Nothing panics, and the
-- loops end.
abbrev pub Correct :
    (e : Setting)
    → (e.k8s.State → Option ℤ)
    → List PbChannel
    → AutoScaler
    → Fetched e.k8s.State
    → Type 0
Correct e replicas channels s (returned s' st written published) =
    Inv s'
    × ((id : Bytes) (old : Channel)
        → lookup id s.channels ≡ some old
        → (c : Channel) × (lookup id s'.channels ≡ some c) × (c.edge_node ≡ old.edge_node))
    × ((n : ℕ) → e.limit ≤ n → Within n s → Within n s')
    × ((i : ℕ) → allocated published i ≡ on_edge i written)
    × (e.enabled ≡ true → written ≢ [] → replicas st ≡ some (int32 (pos (length s'.edges))))
    × Writes e channels written
    × All (IsStored s') written
Correct e replicas channels s stopped = Unit
Correct e replicas channels s panicked = ⊥
Correct e replicas channels s looping = ⊥

module _ (e : Setting) (replicas : e.k8s.State → Option ℤ) (cluster : IsCluster e.k8s replicas)
    (channels : List PbChannel) where
  nothing-Correct :
      (s : AutoScaler) (st : e.k8s.State)
      → Inv s
      → Writes e channels []
      → Correct e replicas channels s (returned s st [] [])
  unfolding lookup
  nothing-Correct s st v asks =
      (v, λ id old h. (old, h, refl), λ n h w. w, λ i. refl, λ on h. absurd (h refl), asks, tt)

  store_batch-Correct :
      (s : AutoScaler) (b : Batch) (us : List User) (st : e.k8s.State)
      → Allocates e.limit us (start_batch s) b
      → Writes e channels b.new_channels
      → Correct e replicas channels s (store_batch e b st)
  unfolding store_batch
  store_batch-Correct s b us st a asks =
      go (bulk_write 12 e.answers 0) refl (bulk_write_lem e.answers)
    where
      size : ℤ
      size = int32 (pos (length b.scaler.edges))

      rescaled :
          (r : Retried e.k8s.State)
          → rescale_unsafe e.k8s e.enabled st size ≡ r
          → (e.enabled ≡ true → Rescaled cluster size r)
          → (e.enabled ≡ false → r ≡ finished st)
          → (n : ℕ) → bulk_write 12 e.answers 0 ≡ finished n
          → Correct e replicas channels s (store_batch e b st)
      rescaled (finished st') q on off n p =
          rw (p, store_batch)
            (rw (q, store_batch)
              (
                a.inv,
                a.sticky,
                a.within,
                a.sorted (λ i. unfold lookup in refl),
                λ h k. on h,
                asks,
                a.placed tt,
              ))
      rescaled fatal q on off n p = rw (p, store_batch) (rw (q, store_batch) tt)
      rescaled out_of_fuel q on off n p = elim (Bool-cases e.enabled) [
        | inl h ↦ absurd (on h)
        | inr h ↦ absurd (ground (arith, off h))
      ]

      go :
          (r : Retried ℕ)
          → bulk_write 12 e.answers 0 ≡ r
          → Attempts e.answers 0 r
          → Correct e replicas channels s (store_batch e b st)
      go (finished n) p h =
          rescaled (rescale_unsafe e.k8s e.enabled st size) refl
            (λ on. rw on (rescale_unsafe_enabled cluster st size))
            (λ off. rw off (rescale_unsafe_disabled e.k8s st size)) n p
      go fatal p h = rw (p, store_batch) tt
      go out_of_fuel p h = absurd h

  allocate_users-Correct :
      (mp : Dict Bytes PbChannel) (us : List User) (s : AutoScaler) (st : e.k8s.State)
      → 1 ≤ e.limit
      → Inv s
      → Asked mp us
      → length s.edges + length us < 2 ^ 31
      → ((written : List Channel)
          → map twitch_id written ≡ found_ids us
          → Writes e channels written)
      → Correct e replicas channels s (allocate_users e mp us s st)
  unfolding allocate_users
  allocate_users-Correct mp us s st positive v asked fits asks =
      let (b, done, a) = allocate_lem e.limit mp us (start_batch s) positive v asked fits in
      rw (done, allocate_users) (last b a b.new_channels refl)
    where
      last :
          (b : Batch)
          → Allocates e.limit us (start_batch s) b
          → (written : List Channel) → b.new_channels ≡ written
          → Correct e replicas channels s
              (elim b.new_channels [ [] ↦ returned b.scaler st [] [] | _ ∷ _ ↦ store_batch e b st ])
      last b a [] p = rw p (
        a.inv,
        a.sticky,
        a.within,
        λ i. unfold lookup in refl,
        λ on h. absurd (h refl),
        asks [] (rw p at a.news),
        tt,
      )
      last b a (c ∷ cs) p = rw p (store_batch-Correct s b us st a (asks b.new_channels a.news))

  pub fetch-Correct :
      (s : AutoScaler) (st : e.k8s.State)
      → 1 ≤ e.limit
      → Inv s
      → AnswersUsers e.users
      → length s.edges + length channels < 2 ^ 31
      → Correct e replicas channels s (fetch e s st channels)
  unfolding fetch
  fetch-Correct s st positive v answers fits =
      let (keys, size) = collect-Keys channels [] [] (λ id h. absurd h) in
      asked (collect [] [] channels).1 refl keys (omega arith)
    where
      writes :
          (us : List User)
          → e.users (collect [] [] channels).1 ≡ us
          → (written : List Channel) → map twitch_id written ≡ found_ids us
          → Writes e channels written
      writes us p written k =
          ((collect [] [] channels).1, collect-AsksFor channels, k ∙ ap found_ids (sym p))

      nobody : (us : List User) → length us ≤ 0 → us ≡ []
      nobody [] h = refl
      nobody (u ∷ us) h = absurd (omega arith)

      answered :
          (us : List User) (id : Bytes) (ids : List Bytes)
          → e.users (id ∷ ids) ≡ us
          → (collect [] [] channels).1 ≡ id ∷ ids
          → Keys (collect [] [] channels).0 (id ∷ ids)
          → length (id ∷ ids) ≤ length channels
          → Correct e replicas channels s (fetch e s st channels)
      answered [] id ids p q keys size =
          rw (q, fetch)
            (rw (p, fetch) (nothing-Correct s st v (writes [] (ap e.users q ∙ p) [] refl)))
      answered (u ∷ us) id ids p q keys size =
          let (count, known) = rw p at (answers (id ∷ ids)) in
          rw (q, fetch)
            (rw (p, fetch)
              (allocate_users-Correct (collect [] [] channels).0 (u ∷ us) s st positive v
                (Asked-users _ (id ∷ ids) (u ∷ us) keys known) (omega arith)
                (writes (u ∷ us) (ap e.users q ∙ p))))

      asked :
          (ids : List Bytes)
          → (collect [] [] channels).1 ≡ ids
          → Keys (collect [] [] channels).0 ids
          → length ids ≤ length channels
          → Correct e replicas channels s (fetch e s st channels)
      asked [] q keys size =
          rw (q, fetch)
            (nothing-Correct s st v
              (writes [] (ap e.users q ∙ nobody (e.users []) (answers []).0) [] refl))
      asked (id ∷ ids) q keys size = answered (e.users (id ∷ ids)) id ids refl q keys size
