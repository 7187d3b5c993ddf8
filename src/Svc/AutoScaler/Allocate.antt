-- ===== src/Svc/AutoScaler/Allocate.antt =====
-- internal/svc/autoscaler/autoscaler.go: the loop of `Fetch` over the users of a batch.
use mathlib.Core.List.{append-nil, append_assoc, map-append}
use waterhose.Prelude.{
  map, ap, ◌⊎◌, ℕ, ◌+◌, ◌^◌, ◌≤◌, ◌<◌, List, [], ◌∷◌, ◌++◌, ◌≡◌, ◌≢◌, refl, sym, ◌∙◌, inl, inr,
  true, false, none, some, arith, Bytes, bytes_cases, Option-cases, Bool-cases, ◌==◌, length, All,
  string_eq, nat_eq, if◌then◌else◌,
}
use waterhose.Prelude.Dict.{Dict, lookup, lookup-insert}
use waterhose.Prelude.Int.{pos, is_pos}
use waterhose.Structures.{Channel, PbChannel, User}
use waterhose.Svc.AutoScaler.{
  AutoScaler, Batch, complete, allocate, add_placed, append_allocation, has_id,
}
use waterhose.Svc.AutoScaler.Invariant.{Inv, Within}
use waterhose.Svc.AutoScaler.Places.{Places}
use waterhose.Svc.AutoScaler.Place.{place-Ends}

-- The channels of the list that are on edge `i`, in order.
abbrev pub on_edge : ℕ → List Channel → List Channel
on_edge i [] = []
on_edge i (c ∷ cs) = if is_pos c.edge_node i then c ∷ on_edge i cs else on_edge i cs

abbrev pub allocated : Dict ℕ (List Channel) → ℕ → List Channel
allocated m i = elim (lookup i m) [ none ↦ [] | some cs ↦ cs ]

-- The allocations are the new channels, sorted by edge.
abbrev pub Sorted : Batch → Type 0
Sorted b = (i : ℕ) → allocated b.allocations i ≡ on_edge i b.new_channels

on_edge-append :
    (i : ℕ) (cs : List Channel) (c : Channel)
    → on_edge i (cs ++ c ∷ [])
      ≡ (if is_pos c.edge_node i then on_edge i cs ++ c ∷ [] else on_edge i cs)
on_edge-append i [] c = ground arith
on_edge-append i (x ∷ xs) c = ground (arith, on_edge-append i xs c)

allocated-append_allocation :
    (m : Dict ℕ (List Channel)) (i j : ℕ) (c : Channel)
    → allocated (append_allocation m i c) j
      ≡ (if i == j then allocated m j ++ c ∷ [] else allocated m j)
allocated-append_allocation m i j c = elim (Option-cases (lookup i m)) [
  | inl e ↦ ground (arith, lookup-insert i j (c ∷ []) m)
  | inr (cs, e) ↦ ground (arith, lookup-insert i j (cs ++ c ∷ []) m)
]

add_placed-Sorted :
    (b : Batch) (s : AutoScaler) (i : ℕ) (c : Channel)
    → c.edge_node ≡ pos i
    → Sorted b
    → Sorted (add_placed b s i c)
add_placed-Sorted b s i c node h j =
    ground (
      arith,
      allocated-append_allocation b.allocations i j c,
      on_edge-append j b.new_channels c,
      h j,
    )

-- Every user that was found is one of the batch.
abbrev pub Asked : Dict Bytes PbChannel → List User → Type 0
Asked mp = All (λ u. has_id u ≡ true → (req : PbChannel) × (lookup u.id mp ≡ some req))

abbrev pub twitch_id : Channel → Bytes
twitch_id c = c.twitch_id

-- The ids of the users that were found, in order.
abbrev pub found_ids : List User → List Bytes
found_ids [] = []
found_ids (u ∷ us) = if has_id u then u.id ∷ found_ids us else found_ids us

-- The channel is stored, on the edge that the row names.
abbrev pub IsStored : AutoScaler → Channel → Type 0
IsStored s row =
    (c : Channel) × (lookup row.twitch_id s.channels ≡ some c) × (c.edge_node ≡ row.edge_node)

IsStored-append :
    (s : AutoScaler) (cs : List Channel) (c : Channel)
    → All (IsStored s) cs
    → IsStored s c
    → All (IsStored s) (cs ++ c ∷ [])
IsStored-append s [] c h k = (k, tt)
IsStored-append s (x ∷ xs) c h k = (h.0, IsStored-append s xs c h.1 k)

-- What the loop over `us` makes of the batch `b`: the edges and the channels agree; every user that
-- was found has a channel; a channel that had an edge keeps it; no edge grows over the limit;
-- the allocations are the new channels by edge; and the new channels are one for each user that was
-- found, in order, which are stored on the edges that they name.
pub record Allocates (limit : ℕ) (us : List User) (b b' : Batch) : Type 0 where
  pub inv : Inv b'.scaler
  pub grows : length b'.scaler.edges ≤ length b.scaler.edges + length us
  pub all_stored : All (λ u. has_id u ≡ true → lookup u.id b'.scaler.channels ≢ none) us
  pub sticky :
      (id : Bytes) (old : Channel)
      → lookup id b.scaler.channels ≡ some old
      → (c : Channel) × (lookup id b'.scaler.channels ≡ some c) × (c.edge_node ≡ old.edge_node)
  pub within : (n : ℕ) → limit ≤ n → Within n b.scaler → Within n b'.scaler
  pub sorted : Sorted b → Sorted b'
  pub news : map twitch_id b'.new_channels ≡ map twitch_id b.new_channels ++ found_ids us
  pub placed : All (IsStored b.scaler) b.new_channels → All (IsStored b'.scaler) b'.new_channels

Allocates-nil : (limit : ℕ) (b : Batch) → Inv b.scaler → Allocates limit [] b b
Allocates-nil limit b v = record {
  inv = v;
  grows = omega arith;
  all_stored = tt;
  sticky = λ id old e. (old, e, refl);
  within = λ n h w. w;
  sorted = λ h. h;
  news = sym (append-nil _);
  placed = λ h. h;
}

Allocates-skip :
    (limit : ℕ) (u : User) (us : List User) (b b' : Batch)
    → has_id u ≡ false
    → Allocates limit us b b'
    → Allocates limit (u ∷ us) b b'
Allocates-skip limit u us b b' e a = record {
  inv = a.inv;
  grows = omega (arith, a.grows);
  all_stored = (λ h. absurd (ground arith), a.all_stored);
  sticky = a.sticky;
  within = a.within;
  sorted = a.sorted;
  news = rw e a.news;
  placed = a.placed;
}

module _ (limit : ℕ) (u : User) (us : List User) (b b' : Batch) (s : AutoScaler) (i : ℕ)
    (c : Channel) (p : Places limit 1 u b.scaler s i c)
    (a : Allocates limit us (add_placed b s i c) b') where
  placed_sticky :
      (id : Bytes) (old : Channel)
      → lookup id b.scaler.channels ≡ some old
      → (d : Channel) × (lookup id b'.scaler.channels ≡ some d) × (d.edge_node ≡ old.edge_node)
  placed_sticky id old e = elim (bytes_cases id u.id) [
    | inl same ↦
        let (d, f, n) = a.sticky id c (rw same p.found) in
        (d, f, n ∙ p.node ∙ sym (p.sticky old (rw same at e)))
    | inr other ↦ a.sticky id old (p.others id other ∙ e)
  ]

  -- What was stored before the user was placed is stored on the same edge behind it.
  placed_before : (cs : List Channel) → All (IsStored b.scaler) cs → All (IsStored s) cs
  placed_before [] h = tt
  placed_before (x ∷ xs) ((d, f, n), h) = (here (bytes_cases x.twitch_id u.id), placed_before xs h)
    where
      here : (x.twitch_id ≡ u.id) ⊎ (x.twitch_id ≢ u.id) → IsStored s x
      here (inl same) = (c, rw same p.found, p.node ∙ sym (p.sticky d (rw same at f)) ∙ n)
      here (inr other) = (d, p.others x.twitch_id other ∙ f, n)

  placed_news :
      has_id u ≡ true
      → map twitch_id b'.new_channels ≡ map twitch_id b.new_channels ++ found_ids (u ∷ us)
  placed_news h =
      a.news
      ∙ ap (λ r. r ++ found_ids us) (map-append twitch_id b.new_channels (c ∷ []))
      ∙ append_assoc (map twitch_id b.new_channels) (c.twitch_id ∷ []) (found_ids us)
      ∙ rw (h, p.channel_id) refl

  Allocates-cons : has_id u ≡ true → Allocates limit (u ∷ us) b b'
  Allocates-cons has = record {
    inv = a.inv;
    grows = omega (arith, a.grows, p.grows);
    all_stored = (λ h gone. let (d, f, n) = a.sticky u.id c p.found in ground arith, a.all_stored);
    sticky = placed_sticky;
    within = λ n h w. a.within n h (p.within n h w);
    sorted = λ h. a.sorted (add_placed-Sorted b s i c p.node h);
    news = placed_news has;
    placed = λ h. a.placed (
        IsStored-append s b.new_channels c (placed_before b.new_channels h)
          (c, ap (λ k. lookup k s.channels) p.channel_id ∙ p.found, refl));
  }

-- With a limit of at least one channel per slave, the loop over the users ends without a panic and
-- leaves what `Allocates` says, as long as there stay fewer than 2^31 edges.
pub allocate_lem :
    (limit : ℕ) (mp : Dict Bytes PbChannel) (us : List User) (b : Batch)
    → 1 ≤ limit
    → Inv b.scaler
    → Asked mp us
    → length b.scaler.edges + length us < 2 ^ 31
    → (b' : Batch) × (allocate limit mp us b ≡ complete b') × Allocates limit us b b'
unfolding allocate
allocate_lem limit mp [] b positive v asked fits = (b, refl, Allocates-nil limit b v)
allocate_lem limit mp (u ∷ us) b positive v asked fits = elim (Bool-cases (has_id u)) [
  | inl found ↦
      let (req, in_batch) = asked.0 found in
      let (s, i, c, ends, p) =
        place-Ends limit mp u req in_batch positive b.scaler v (omega arith) in
      let (b', done, a) =
        allocate_lem limit mp us (add_placed b s i c) positive p.inv asked.1
          (omega (arith, p.grows)) in
      (
        b',
        rw (found, allocate) (rw (ends, allocate) done),
        Allocates-cons limit u us b b' s i c p a found,
      )
  | inr missing ↦
      let (b', done, a) = allocate_lem limit mp us b positive v asked.1 (omega arith) in
      (b', rw (missing, allocate) done, Allocates-skip limit u us b b' missing a)
]
