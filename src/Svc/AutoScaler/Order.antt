-- ===== src/Svc/AutoScaler/Order.antt =====
-- internal/svc/autoscaler/autoscaler.go: the maps without the order that their association lists have.
use mathlib.Core.List.Perm
use mathlib.Core.List.{Perm}
use mathlib.Core.Quot
use mathlib.Core.Quot.{Quot}
use waterhose.Prelude.{
  ℕ, ◌<◌, false, ◌≡◌, refl, sym, ap, inl, inr, ◌↔◌, Option, none, some, List, [], ◌∷◌, Bytes, arith,
  length, get_elem?_lt, Outcome, ok, panic, string_eq, Bool-cases, bytes_eq_iff, leb,
}
use waterhose.Prelude.Dict.{Dict, lookup, erase, IsMap, erase-IsMap, lookup-erase}
use waterhose.Prelude.Int.{pos}
use waterhose.Structures.{Channel}
use waterhose.Svc.AutoScaler.{AutoScaler}
use waterhose.Svc.AutoScaler.Invariant.{Inv}
use waterhose.Svc.AutoScaler.Load.{values, get_channels_for_slave, on_edge, EdgeMaps, OnEdge}

-- Channels up to their order.
abbrev pub Bag : Type 0
Bag = Quot (Perm {A = Channel})

abbrev of_list : List Channel → Bag
of_list = Quot.mk

-- An answer of `GetChannelsForSlave` up to the order of its channels.
abbrev pub unordered : Outcome (Option (List Channel)) → Outcome (Option Bag)
unordered panic = panic
unordered (ok none) = ok none
unordered (ok (some channels)) = ok (some (of_list channels))

-- Two association lists of the same map.
abbrev pub SameMap : Dict Bytes Channel → Dict Bytes Channel → Type 0
SameMap m n = (id : Bytes) → lookup id m ≡ lookup id n

values-erase :
    (id : Bytes) (c : Channel) (n : Dict Bytes Channel)
    → lookup id n ≡ some c
    → Perm (values n) (c ∷ values (erase id n))
unfolding lookup erase
values-erase id c [] e = absurd cc
values-erase id c ((k, d) ∷ n) e = elim (Bool-cases (string_eq.beq k id)) [
  | inl y ↦ let same : d ≡ c = ground arith in rw (y, same) (Perm.refl (c ∷ values n))
  | inr o ↦
      let rest : lookup id n ≡ some c = ground arith in
      rw o
        (Perm.trans (Perm.cons d (values-erase id c n rest)) (Perm.swap c d (values (erase id n))))
]

values-Perm :
    (m n : Dict Bytes Channel) → IsMap m → IsMap n → SameMap m n → Perm (values m) (values n)
unfolding lookup
values-Perm [] [] hm hn s = Perm.refl []
values-Perm [] ((k, d) ∷ n) hm hn s = absurd (ground (arith, s k, bytes_eq_iff k k))
values-Perm ((k, c) ∷ m) n hm hn s =
    let e : lookup k n ≡ some c = ground (arith, s k, bytes_eq_iff k k) in
    let same : SameMap m (erase k n) =
      λ id. ground (arith, s id, lookup-erase k id n hn, hm.0, bytes_eq_iff k id) in
    Perm.trans (Perm.cons c (values-Perm m (erase k n) hm.1 (erase-IsMap k n hn) same))
      (Perm.symm (values-erase k c n e))

option_ext : (o p : Option Channel) → ((c : Channel) → (o ≡ some c) ↔ (p ≡ some c)) → o ≡ p
option_ext none none h = refl
option_ext none (some c) h = (h c).1 refl
option_ext (some c) p h = sym ((h c).0 refl)

-- Up to its order the answer for a slave is every list of the channels that name its edge in which
-- each stands once.
pub get_channels_for_slave-unordered :
    (s : AutoScaler) (i : ℕ) (n : Dict Bytes Channel)
    → Inv s
    → EdgeMaps s
    → i < length s.edges
    → IsMap n
    → OnEdge s i n
    → unordered (get_channels_for_slave s (pos i)) ≡ ok (some (of_list (values n)))
unfolding get_channels_for_slave
get_channels_for_slave-unordered s i n v maps lt once all =
    let (m, at) = get_elem?_lt s.edges i lt in
    let out : leb (length s.edges) i ≡ false = ground arith in
    let same : SameMap m n = λ id.
      option_ext (lookup id m) (lookup id n)
        (λ c. ground (arith, all id c, on_edge s i m v at id c)) in
    rw (out, at) (ap (λ b. ok (some b)) (Quot.sound (values-Perm m n (maps i m at) once same)))
