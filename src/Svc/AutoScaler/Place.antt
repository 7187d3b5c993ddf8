-- ===== src/Svc/AutoScaler/Place.antt =====
-- internal/svc/autoscaler/autoscaler.go: the placement of one user of a batch.
use waterhose.Prelude.{
  ℕ, zero, suc, ◌+◌, ◌^◌, ◌≤◌, ◌<◌, [], ◌∷◌, ◌++◌, ◌≡◌, refl, sym, ◌∙◌, ◌⊎◌, inl, inr, none, some,
  arith, Bytes, Option-cases, length, length-append, get_elem?, length-set, get_elem?-some_lt,
  get_elem?-append_last, get_elem?_lt, string_eq,
}
use waterhose.Prelude.Dict.{
  Dict, lookup, insert, lookup-insert_self, lookup-insert_ne, length-insert_new, length-insert_old,
}
use waterhose.Prelude.Int.{pos, int32, int32-pos}
use waterhose.Structures.{Channel, PbChannel, User}
use waterhose.Svc.AutoScaler.{
  AutoScaler, placed, again, place_round, stored, place, place_fuel, put_channel, new_channel,
}
use waterhose.Svc.AutoScaler.Invariant.{Inv, Within, grow-Inv, put_channel-Inv}
use waterhose.Svc.AutoScaler.Places.{
  Places, put_channel-Within, lt_or_eq, lt_or_le, skip-Inv, Places-skip, Places-grow, Places-more,
}

module _ (limit : ℕ) (mp : Dict Bytes PbChannel) (u : User) (req : PbChannel)
    (asked : lookup u.id mp ≡ some req) where
  -- A user whose channel has an edge.
  known_round :
      (s : AutoScaler) (old : Channel) (i : ℕ) (m : Dict Bytes Channel)
      → Inv s
      → s.edge_idx < length s.edges
      → lookup u.id s.channels ≡ some old
      → old.edge_node ≡ pos i
      → get_elem? s.edges i ≡ some m
      → place_round limit mp u s
        ≡ placed (put_channel s i m (new_channel u req (pos i))) i (new_channel u req (pos i))
  unfolding place_round
  known_round s old i m v lt e node at = ground arith

  fresh_round :
      (s : AutoScaler) (m : Dict Bytes Channel)
      → lookup u.id s.channels ≡ none
      → get_elem? s.edges s.edge_idx ≡ some m
      → length m < limit
      → place_round limit mp u s
        ≡ placed
            (put_channel s s.edge_idx m (new_channel u req (pos s.edge_idx)))
            s.edge_idx
            (new_channel u req (pos s.edge_idx))
  unfolding place_round
  fresh_round s m e at room = ground (arith, get_elem?-some_lt s.edges s.edge_idx at)

  full_round :
      (s : AutoScaler) (m : Dict Bytes Channel)
      → lookup u.id s.channels ≡ none
      → get_elem? s.edges s.edge_idx ≡ some m
      → limit ≤ length m
      → place_round limit mp u s ≡ again (record s { edge_idx = s.edge_idx + 1 })
  unfolding place_round
  full_round s m e at full = ground (arith, get_elem?-some_lt s.edges s.edge_idx at)

  grow_round :
      (s : AutoScaler)
      → s.edge_idx ≡ length s.edges
      → place_round limit mp u s ≡ again (record s { edges = s.edges ++ [] ∷ [] })
  unfolding place_round
  grow_round s e = ground arith

  -- Storing the user's channel on edge `i`, for a channel of that edge or a new one.
  put_Places :
      (s : AutoScaler) (i : ℕ) (m : Dict Bytes Channel)
      → Inv s
      → get_elem? s.edges i ≡ some m
      → length s.edges ≤ 2 ^ 31
      → ((old : Channel) → lookup u.id s.channels ≡ some old → old.edge_node ≡ pos i)
      → (length m < limit) ⊎ ((old : Channel) × (lookup u.id m ≡ some old))
      → Places limit 0 u s
          (put_channel s i m (new_channel u req (pos i)))
          i
          (new_channel u req (pos i))
  put_Places s i m v at fits home room = record {
    inv = put_channel-Inv s v i m c at node home;
    grows = omega (arith, length-set s.edges i (insert u.id c m));
    channel_id = refl;
    found = lookup-insert_self u.id c s.channels;
    node = node;
    sticky = home;
    others = λ id apart. lookup-insert_ne u.id id c s.channels (λ e. apart (sym e));
    within = λ n h w. put_channel-Within n s i m c (size n h w room) w;
  }
    where
      c : Channel
      c = new_channel u req (pos i)

      node : int32 (pos i) ≡ pos i
      node = int32-pos i (omega (arith, get_elem?-some_lt s.edges i at))

      size :
          (n : ℕ)
          → limit ≤ n
          → Within n s
          → (length m < limit) ⊎ ((old : Channel) × (lookup u.id m ≡ some old))
          → length (insert u.id c m) ≤ n
      size n h w (inr (old, e)) = omega (arith, length-insert_old u.id c old m e, w i m at)
      size n h w (inl lt) = elim (Option-cases (lookup u.id m)) [
        | inl e ↦ omega (arith, length-insert_new u.id c m e)
        | inr (old, e) ↦ omega (arith, length-insert_old u.id c old m e)
      ]

  -- The placement with this fuel ends, and leaves what `Places` says.
  abbrev pub Ends : ℕ → ℕ → AutoScaler → Type 0
  Ends fuel g s =
      (s' : AutoScaler) × (i : ℕ) × (c : Channel) × (place fuel limit mp u s ≡ stored s' i c)
      × Places limit g u s s' i c

  place_placed :
      (fuel : ℕ) (s : AutoScaler) {s' : AutoScaler} {i : ℕ} {c : Channel}
      → place_round limit mp u s ≡ placed s' i c
      → place (suc fuel) limit mp u s ≡ stored s' i c
  unfolding place
  place_placed fuel s e = rw (e, place)

  place_again :
      (fuel : ℕ) (s : AutoScaler) {s' : AutoScaler}
      → place_round limit mp u s ≡ again s'
      → place (suc fuel) limit mp u s ≡ place fuel limit mp u s'
  unfolding place
  place_again fuel s e = rw (e, place)

  Ends-known :
      (fuel : ℕ) (s : AutoScaler) (old : Channel)
      → Inv s
      → length s.edges ≤ 2 ^ 31
      → s.edge_idx < length s.edges
      → lookup u.id s.channels ≡ some old
      → Ends (suc fuel) 0 s
  Ends-known fuel s old v fits lt e =
      let (i, m, node, at, key) = v.homed u.id old e in
      let c = new_channel u req (pos i) in
      (
        put_channel s i m c,
        i,
        c,
        place_placed fuel s (known_round s old i m v lt e node at),
        put_Places s i m v at fits (λ other k. ground arith) (inr (old, key)),
      )

  Ends-room :
      (fuel : ℕ) (s : AutoScaler) (m : Dict Bytes Channel)
      → Inv s
      → length s.edges ≤ 2 ^ 31
      → lookup u.id s.channels ≡ none
      → get_elem? s.edges s.edge_idx ≡ some m
      → length m < limit
      → Ends (suc fuel) 0 s
  Ends-room fuel s m v fits e at room =
      let c = new_channel u req (pos s.edge_idx) in
      (
        put_channel s s.edge_idx m c,
        s.edge_idx,
        c,
        place_placed fuel s (fresh_round s m e at room),
        put_Places s s.edge_idx m v at fits (λ old k. absurd (ground arith)) (inl room),
      )

  Ends-skip :
      (fuel g n : ℕ) (s : AutoScaler)
      → place_round limit mp u s ≡ again (record s { edge_idx = n })
      → Ends fuel g (record s { edge_idx = n })
      → Ends (suc fuel) g s
  Ends-skip fuel g n s e (s', i, c, done, p) =
      (s', i, c, place_again fuel s e ∙ done, Places-skip g n p)

  Ends-grow :
      (fuel : ℕ) (s : AutoScaler)
      → s.edge_idx ≡ length s.edges
      → Ends fuel 0 (record s { edges = s.edges ++ [] ∷ [] })
      → Ends (suc fuel) 1 s
  Ends-grow fuel s e (s', i, c, done, p) =
      (s', i, c, place_again fuel s (grow_round s e) ∙ done, Places-grow p)

  Ends-more : (fuel : ℕ) (s : AutoScaler) → Ends fuel 0 s → Ends fuel 1 s
  Ends-more fuel s (s', i, c, done, p) = (s', i, c, done, Places-more p)

  module _ (positive : 1 ≤ limit) where
    Ends-full :
        (fuel : ℕ) (s : AutoScaler)
        → Inv s
        → length s.edges < 2 ^ 31
        → s.edge_idx ≡ length s.edges
        → Ends (suc (suc fuel)) 1 s
    Ends-full fuel s v fits e =
        let s1 : AutoScaler = record s { edges = s.edges ++ [] ∷ [] } in
        let v1 : Inv s1 = grow-Inv s v in
        let size : length s1.edges ≡ length s.edges + 1 = length-append s.edges ([] ∷ []) in
        Ends-grow (suc fuel) s e (elim (Option-cases (lookup u.id s.channels)) [
          | inl new ↦
              Ends-room fuel s1 [] v1 (omega arith) new (rw e (get_elem?-append_last s.edges []))
                positive
          | inr (old, known) ↦ Ends-known fuel s1 old v1 (omega arith) (omega arith) known
        ])

    ends :
        (fuel : ℕ) (s : AutoScaler)
        → Inv s
        → length s.edges < 2 ^ 31
        → length s.edges + 2 ≤ s.edge_idx + fuel
        → Ends fuel 1 s
    ends zero s v fits h = absurd (omega (arith, v.in_range))
    ends (suc zero) s v fits h = absurd (omega (arith, v.in_range))
    ends (suc (suc fuel)) s v fits h = elim (lt_or_eq s.edge_idx (length s.edges) v.in_range) [
      | inr e ↦ Ends-full fuel s v fits e
      | inl lt ↦ elim (Option-cases (lookup u.id s.channels)) [
        | inr (old, known) ↦
            Ends-more (suc (suc fuel)) s (Ends-known (suc fuel) s old v (omega arith) lt known)
        | inl new ↦
            let (m, at) = get_elem?_lt s.edges s.edge_idx lt in
            elim (lt_or_le (length m) limit) [
              | inl room ↦
                  Ends-more (suc (suc fuel)) s
                    (Ends-room (suc fuel) s m v (omega arith) new at room)
              | inr full ↦ Ends-skip (suc fuel) 1 (s.edge_idx + 1) s (full_round s m new at full) (
                  ends (suc fuel) (record s { edge_idx = s.edge_idx + 1 }) (skip-Inv s v lt) fits
                    (omega arith))
            ]
      ]
    ]

    -- With a limit of at least one channel per slave, and fewer than 2^31 edges, the loops of
    -- `Fetch` end for a user of the batch within two rounds more than there are edges, and they
    -- place the user's channel as `Places` says.
    pub place-Ends : (s : AutoScaler) → Inv s → length s.edges < 2 ^ 31 → Ends (place_fuel s) 1 s
    place-Ends s v fits = ends (place_fuel s) s v fits (omega arith)
