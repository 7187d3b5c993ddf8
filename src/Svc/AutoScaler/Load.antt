-- ===== src/Svc/AutoScaler/Load.antt =====
-- internal/svc/autoscaler/autoscaler.go: `Load` and `GetChannelsForSlave`.
use mathlib.Core.List.{append-nil, append_assoc}
use waterhose.Prelude.{
  ℕ, zero, suc, ◌+◌, ◌-◌, ◌<◌, ◌≤◌, List, [], ◌∷◌, ◌++◌, ◌≡◌, refl, Option, none, some, Bytes,
  arith, ltb, leb, if◌then◌else◌, length, get_elem?, Outcome, ok, panic, ◌>>=◌, string_eq, map, ap,
  ◌⊎◌, inl, inr, ◌↔◌, get_elem?_lt, All, ◌∙◌, Bool-cases, length-append,
}
use waterhose.Prelude.Dict.{Dict, IsMap, lookup, insert, lookup-insert_self, lookup-insert_ne}
use waterhose.Prelude.Int.{ℤ, pos, negsuc}
use waterhose.Structures.{Channel}
use waterhose.Svc.AutoScaler.{AutoScaler, put_channel, edge_index}
use waterhose.Svc.AutoScaler.Invariant.{Inv, grow-Inv, put_channel-Inv}

abbrev pub replicate {ℓ} : {A : Type ℓ} → ℕ → A → List A
replicate zero a = []
replicate (suc n) a = a ∷ replicate n a

-- `len(a.edges) < int(v.EdgeNode)+1`, and the longer copy of `a.edges` that is then made.
abbrev pub extend : ℤ → List (Dict Bytes Channel) → List (Dict Bytes Channel)
extend (negsuc n) edges = edges
extend (pos i) edges =
    if ltb (length edges) (i + 1) then edges ++ replicate (i + 1 - length edges) [] else edges

-- One row of the collection.
unfoldable pub load_row : AutoScaler → Channel → Outcome AutoScaler
load_row s v =
    let s' = record s { edges = extend v.edge_node s.edges } in
    elim (edge_index v.edge_node s'.edges) [
      | none ↦ panic
      | some (i, m) ↦ ok (put_channel s' i m v)
    ]

unfoldable pub load_rows : AutoScaler → List Channel → Outcome AutoScaler
load_rows s [] = ok s
load_rows s (v ∷ vs) = do s' ← load_row s v; load_rows s' vs

abbrev pub values : Dict Bytes Channel → List Channel
values m = map (λ e. e.1) m

-- `nil`, or the channels of the edge, in the order of the map's iteration.
unfoldable pub get_channels_for_slave : AutoScaler → ℤ → Outcome (Option (List Channel))
get_channels_for_slave s (negsuc n) = panic
get_channels_for_slave s (pos i) =
    if leb (length s.edges) i
    then ok none
    else elim (get_elem? s.edges i) [ none ↦ panic | some m ↦ ok (some (values m)) ]

-- The rows name edges from 0, and no channel twice.
abbrev pub Loadable : Dict Bytes Channel → List Channel → Type 0
Loadable channels [] = Unit
Loadable channels (v ∷ vs) =
    ((i : ℕ) × (v.edge_node ≡ pos i))
    × (lookup v.twitch_id channels ≡ none)
    × Loadable (insert v.twitch_id v channels) vs

extend-Inv : (n : ℕ) (s : AutoScaler) → Inv s → Inv (record s { edges = s.edges ++ replicate n [] })
extend-Inv zero s v = rw append-nil v
extend-Inv (suc n) s v =
    rw append_assoc at (extend-Inv n (record s { edges = s.edges ++ [] ∷ [] }) (grow-Inv s v))

length-replicate {ℓ} : {A : Type ℓ} (n : ℕ) (a : A) → length (replicate n a) ≡ n
length-replicate zero a = refl
length-replicate (suc n) a = ap suc (length-replicate n a)

extend_edge :
    (s : AutoScaler) (i : ℕ)
    → Inv s
    → Inv (record s { edges = extend (pos i) s.edges }) × (i < length (extend (pos i) s.edges))
extend_edge s i v = elim (Bool-cases (ltb (length s.edges) (i + 1))) [
  | inl short ↦ rw short (
    extend-Inv (i + 1 - length s.edges) s v,
    ground (
      arith,
      length-append s.edges (replicate (i + 1 - length s.edges) []),
      length-replicate {A = Dict Bytes Channel} (i + 1 - length s.edges) [],
    ),
  )
  | inr long ↦ rw long (v, ground arith)
]

load_row_lem :
    (s : AutoScaler) (v : Channel)
    → Inv s
    → (i : ℕ) × (v.edge_node ≡ pos i)
    → lookup v.twitch_id s.channels ≡ none
    → (s' : AutoScaler) × (load_row s v ≡ ok s')
      × Inv s'
      × (s'.channels ≡ insert v.twitch_id v s.channels)
unfolding load_row
load_row_lem s v inv (i, node) new =
    let s1 : AutoScaler = record s { edges = extend (pos i) s.edges } in
    let (inv1, lt) = extend_edge s i inv in
    let (m, at) = get_elem?_lt s1.edges i lt in
    (
      put_channel s1 i m v,
      rw node (rw (at, load_row)),
      put_channel-Inv s1 inv1 i m v at node (λ old e. absurd (ground arith)),
      refl,
    )

-- A channel that is there before a row is read is there behind the last one.
Loadable-keeps :
    (vs : List Channel) (s s' : AutoScaler) (id : Bytes) (c : Channel)
    → Inv s
    → Loadable s.channels vs
    → load_rows s vs ≡ ok s'
    → lookup id s.channels ≡ some c
    → lookup id s'.channels ≡ some c
unfolding load_rows
Loadable-keeps [] s s' id c inv h e k = ground arith
Loadable-keeps (v ∷ vs) s s' id c inv h e k =
    let (s1, e1, inv1, same) = load_row_lem s v inv h.0 h.1 in
    Loadable-keeps vs s1 s' id c inv1 (rw same h.2) (rw (e1, load_rows) at e) (rw same (kept))
  where
    kept : lookup id (insert v.twitch_id v s.channels) ≡ some c
    kept = lookup-insert_ne v.twitch_id id v s.channels (λ same. absurd (ground (arith, h.1))) ∙ k

-- Loading rows that name edges from 0 and no channel twice, into a state where the edges and the
-- channels agree, does not panic; they agree in the result too, and every row is stored in it.
pub load_rows_lem :
    (vs : List Channel) (s : AutoScaler)
    → Inv s
    → Loadable s.channels vs
    → (s' : AutoScaler) × (load_rows s vs ≡ ok s')
      × Inv s'
      × All (λ v. lookup v.twitch_id s'.channels ≡ some v) vs
unfolding load_rows
load_rows_lem [] s inv h = (s, refl, inv, tt)
load_rows_lem (v ∷ vs) s inv h =
    let (s1, e1, inv1, same) = load_row_lem s v inv h.0 h.1 in
    let (s', e, inv', all) = load_rows_lem vs s1 inv1 (rw same h.2) in
    (
      s',
      rw (e1, load_rows) e,
      inv',
      (
        Loadable-keeps vs s1 s' v.twitch_id v inv1 (rw same h.2) e
            (rw same (lookup-insert_self v.twitch_id v s.channels)),
        all,
      ),
    )

-- Every edge holds each key once, as a Go map does.
abbrev pub EdgeMaps : AutoScaler → Type 0
EdgeMaps s = (i : ℕ) (m : Dict Bytes Channel) → get_elem? s.edges i ≡ some m → IsMap m

-- The map holds the channels of the state whose edge node is `i`, and no others.
abbrev pub OnEdge : AutoScaler → ℕ → Dict Bytes Channel → Type 0
OnEdge s i m =
    (id : Bytes) (c : Channel)
    → (lookup id m ≡ some c) ↔ ((lookup id s.channels ≡ some c) × (c.edge_node ≡ pos i))

-- The channels of an edge are those that name it.
pub on_edge :
    (s : AutoScaler) (i : ℕ) (m : Dict Bytes Channel)
    → Inv s
    → get_elem? s.edges i ≡ some m
    → OnEdge s i m
on_edge s i m inv at id c = (
  λ e. inv.listed id c i m at e,
  λ h. let (j, m', node, at', key) = inv.homed id c h.0 in ground arith,
)

-- Where the edges and the channels agree, and every edge holds each key once, `GetChannelsForSlave`
-- answers with nil for a slave behind the last edge; for any other it answers with the channels of the
-- state whose edge node is that slave, and no others, each of them once.
pub get_channels_for_slave_lem :
    (s : AutoScaler) (i : ℕ)
    → Inv s
    → EdgeMaps s
    → ((length s.edges ≤ i) × (get_channels_for_slave s (pos i) ≡ ok none))
      ⊎ ((i < length s.edges)
          × (m : Dict Bytes Channel) × (get_channels_for_slave s (pos i) ≡ ok (some (values m)))
          × IsMap m
          × OnEdge s i m)
unfolding get_channels_for_slave
get_channels_for_slave_lem s i inv maps = elim (Bool-cases (leb (length s.edges) i)) [
  | inl out ↦ inl (ground arith, rw out)
  | inr inside ↦
      let (m, at) = get_elem?_lt s.edges i (ground arith) in
      inr (
        ground arith,
        m,
        rw (inside, at, get_channels_for_slave),
        maps i m at,
        on_edge s i m inv at,
      )
]
