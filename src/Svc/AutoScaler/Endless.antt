-- ===== src/Svc/AutoScaler/Endless.antt =====
-- internal/svc/autoscaler/autoscaler.go: `Fetch` with a limit of no channels per slave.
use waterhose.Prelude.{
  ℕ, zero, suc, ◌+◌, ◌<◌, [], ◌∷◌, ◌++◌, ◌≡◌, refl, ◌⊎◌, inl, inr, none, arith, Bytes, length,
  get_elem?_lt, string_eq,
}
use waterhose.Prelude.Dict.{Dict, lookup}
use waterhose.Structures.{PbChannel, User}
use waterhose.Svc.AutoScaler.{AutoScaler, again, place_round, place, unfinished}

Ordering-cases : (a b : ℕ) → (a < b) ⊎ ((a ≡ b) ⊎ (b < a))
Ordering-cases a b = ground arith

again_round :
    (mp : Dict Bytes PbChannel) (u : User) (s : AutoScaler)
    → lookup u.id s.channels ≡ none
    → (s' : AutoScaler) × (place_round 0 mp u s ≡ again s') × (s'.channels ≡ s.channels)
unfolding place_round
again_round mp u s e = elim (Ordering-cases s.edge_idx (length s.edges)) [
  | inl lt ↦
      let (m, at) = get_elem?_lt s.edges s.edge_idx lt in
      (record s { edge_idx = s.edge_idx + 1 }, ground arith, refl)
  | inr (inl eq) ↦ (record s { edges = s.edges ++ [] ∷ [] }, ground arith, refl)
  | inr (inr gt) ↦ (s, ground arith, refl)
]

-- With a limit of 0 channels per slave, the loops of `Fetch` do not end for a user whose channel
-- is new: no amount of fuel is enough.
pub place_endless :
    (fuel : ℕ) (mp : Dict Bytes PbChannel) (u : User) (s : AutoScaler)
    → lookup u.id s.channels ≡ none
    → place fuel 0 mp u s ≡ unfinished
unfolding place
place_endless zero mp u s e = refl
place_endless (suc fuel) mp u s e =
    let (s', round, same) = again_round mp u s e in
    rw (round, place) (place_endless fuel mp u s' (rw same e))
