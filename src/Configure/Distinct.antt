-- ===== src/Configure/Distinct.antt =====
-- internal/configure/config.go: different paths have different keys, and no key is bound twice.
use waterhose.Prelude.{
  ◌≡◌, ◌≢◌, refl, ap, sym, none, some, List, [], ◌∷◌, ◌++◌, map, Bytes, All, arith,
}
use waterhose.Configure.{Fields, no_fields, plain, struct, join_dots, Bound, bind_envs}
use waterhose.Configure.Slices.{Slice, nil_slice, nil_heap}
use waterhose.Configure.Keys.{paths, keys_behind, bind_envs-Binds}

abbrev pub DotFree : Bytes → Type 0
DotFree = All (λ c. c ≢ 46)

-- A path of tags without dots.
abbrev IsPath : List Bytes → Type 0
IsPath [] = ⊥
IsPath (tag ∷ []) = DotFree tag
IsPath (tag ∷ next ∷ tags) = DotFree tag × IsPath (next ∷ tags)

-- Up to the first dot, two strings are equal if they are with what follows.
same_tag : (s t x y : Bytes) → DotFree s → DotFree t → s ++ 46 ∷ x ≡ t ++ 46 ∷ y → (s ≡ t) × (x ≡ y)
same_tag [] [] x y hs ht e = (refl, cc)
same_tag [] (b ∷ t) x y hs ht e = absurd (ht.0 cc)
same_tag (a ∷ s) [] x y hs ht e = absurd (hs.0 cc)
same_tag (a ∷ s) (b ∷ t) x y hs ht e = let rest = same_tag s t x y hs.1 ht.1 cc in (cc, rest.1)

no_dot : (s t x : Bytes) → DotFree s → s ≢ t ++ 46 ∷ x
no_dot [] [] x hs e = absurd cc
no_dot [] (b ∷ t) x hs e = absurd cc
no_dot (a ∷ s) [] x hs e = hs.0 cc
no_dot (a ∷ s) (b ∷ t) x hs e = no_dot s t x hs.1 cc

join_dots_inj : (p q : List Bytes) → IsPath p → IsPath q → join_dots p ≡ join_dots q → p ≡ q
join_dots_inj [] q hp hq e = absurd hp
join_dots_inj (s ∷ p) [] hp hq e = absurd hq
join_dots_inj (s ∷ []) (t ∷ []) hp hq e = ap (λ x. x ∷ []) e
join_dots_inj (s ∷ []) (t ∷ u ∷ q) hp hq e = absurd (no_dot s t (join_dots (u ∷ q)) hp e)
join_dots_inj (s ∷ r ∷ p) (t ∷ []) hp hq e = absurd (no_dot t s (join_dots (r ∷ p)) hq (sym e))
join_dots_inj (s ∷ r ∷ p) (t ∷ u ∷ q) hp hq e =
    let h = same_tag s t _ _ hp.0 hq.0 e in
    let rest = join_dots_inj (r ∷ p) (u ∷ q) hp.1 hq.1 h.1 in rw (h.0, rest) refl

-- Nothing stands twice.
abbrev pub Distinct {ℓ} : {A : Type ℓ} → List A → Type ℓ
Distinct [] = Unit
Distinct (x ∷ xs) = All (λ y. y ≢ x) xs × Distinct xs

-- The tags of the fields of a type.
abbrev pub tags : Fields → List Bytes
tags no_fields = []
tags (plain none fields) = tags fields
tags (struct none inner fields) = tags fields
tags (plain (some tag) fields) = tag ∷ tags fields
tags (struct (some tag) inner fields) = tag ∷ tags fields

-- The tags have no dots, and fields of one type have different ones.
abbrev pub IsTagged : Fields → Type 0
IsTagged no_fields = Unit
IsTagged (plain none fields) = IsTagged fields
IsTagged (struct none inner fields) = IsTagged fields
IsTagged (plain (some tag) fields) =
    DotFree tag × All (λ t. t ≢ tag) (tags fields) × IsTagged fields
IsTagged (struct (some tag) inner fields) =
    DotFree tag × All (λ t. t ≢ tag) (tags fields) × IsTagged fields × IsTagged inner

IsPath-∷ : (tag : Bytes) (p : List Bytes) → DotFree tag → IsPath p → IsPath (tag ∷ p)
IsPath-∷ tag [] ht hp = absurd hp
IsPath-∷ tag (next ∷ p) ht hp = (ht, hp)

module _ (tag : Bytes) where
  under-IsPath :
      (ps qs : List (List Bytes))
      → DotFree tag
      → All IsPath ps
      → All IsPath qs
      → All IsPath (map (◌∷◌ tag) ps ++ qs)
  under-IsPath [] qs ht hp hq = hq
  under-IsPath (p ∷ ps) qs ht hp hq = (IsPath-∷ tag p ht hp.0, under-IsPath ps qs ht hp.1 hq)

  -- A path that starts with another tag.
  abbrev IsApart : List Bytes → Type 0
  IsApart p = (r : List Bytes) → p ≢ tag ∷ r

  under-IsApart :
      (other : Bytes) (ps qs : List (List Bytes))
      → other ≢ tag
      → All IsApart qs
      → All IsApart (map (◌∷◌ other) ps ++ qs)
  under-IsApart other [] qs n h = h
  under-IsApart other (p ∷ ps) qs n h = (λ r e. n cc, under-IsApart other ps qs n h)

  paths-IsApart : (fields : Fields) → All (λ t. t ≢ tag) (tags fields) → All IsApart (paths fields)
  unfolding paths
  paths-IsApart no_fields h = tt
  paths-IsApart (plain none fields) h = paths-IsApart fields h
  paths-IsApart (struct none inner fields) h = paths-IsApart fields h
  paths-IsApart (plain (some t) fields) h = (λ r e. h.0 cc, paths-IsApart fields h.1)
  paths-IsApart (struct (some t) inner fields) h =
      under-IsApart t (paths inner) (paths fields) h.0 (paths-IsApart fields h.1)

  differ :
      (p : List Bytes) (ps qs : List (List Bytes))
      → All (λ q. q ≢ p) ps
      → All IsApart qs
      → All (λ q. q ≢ tag ∷ p) (map (◌∷◌ tag) ps ++ qs)
  differ p [] [] hp hq = tt
  differ p [] (q ∷ qs) hp hq = (hq.0 p, differ p [] qs hp hq.1)
  differ p (o ∷ ps) qs hp hq = (λ e. hp.0 cc, differ p ps qs hp.1 hq)

  under-Distinct :
      (ps qs : List (List Bytes))
      → Distinct ps
      → Distinct qs
      → All IsApart qs
      → Distinct (map (◌∷◌ tag) ps ++ qs)
  under-Distinct [] qs hp hq h = hq
  under-Distinct (p ∷ ps) qs hp hq h = (differ p ps qs hp.0 h, under-Distinct ps qs hp.1 hq h)

paths-IsPath : (fields : Fields) → IsTagged fields → All IsPath (paths fields)
unfolding paths
paths-IsPath no_fields h = tt
paths-IsPath (plain none fields) h = paths-IsPath fields h
paths-IsPath (struct none inner fields) h = paths-IsPath fields h
paths-IsPath (plain (some t) fields) h = (h.0, paths-IsPath fields h.2)
paths-IsPath (struct (some t) inner fields) h =
    under-IsPath t (paths inner) (paths fields) h.0 (paths-IsPath inner h.3)
      (paths-IsPath fields h.2)

paths-Distinct : (fields : Fields) → IsTagged fields → Distinct (paths fields)
unfolding paths
paths-Distinct no_fields h = tt
paths-Distinct (plain none fields) h = paths-Distinct fields h
paths-Distinct (struct none inner fields) h = paths-Distinct fields h
paths-Distinct (plain (some t) fields) h =
    under-Distinct t ([] ∷ []) (paths fields) (tt, tt) (paths-Distinct fields h.2)
      (paths-IsApart t fields h.1)
paths-Distinct (struct (some t) inner fields) h =
    under-Distinct t (paths inner) (paths fields) (paths-Distinct inner h.3)
      (paths-Distinct fields h.2) (paths-IsApart t fields h.1)

keys-differ :
    (p : List Bytes) (ps : List (List Bytes))
    → IsPath p
    → All IsPath ps
    → All (λ q. q ≢ p) ps
    → All (λ k. k ≢ join_dots p) (keys_behind [] ps)
unfolding keys_behind
keys-differ p [] hp h d = tt
keys-differ p (q ∷ ps) hp h d = (λ e. d.0 (join_dots_inj q p h.0 hp e), keys-differ p ps hp h.1 d.1)

keys-Distinct :
    (ps : List (List Bytes)) → All IsPath ps → Distinct ps → Distinct (keys_behind [] ps)
unfolding keys_behind
keys-Distinct [] h d = tt
keys-Distinct (p ∷ ps) h d = (keys-differ p ps h.0 h.1 d.0, keys-Distinct ps h.1 d.1)

-- `BindEnvs` of a type whose tags have no dots and are different within each struct binds the key of
-- each path to a tagged field, in the order of the fields, and no key twice.
pub bind_envs_lem :
    (spare : Slice → List Bytes) (fields : Fields)
    → IsTagged fields
    → let c = bind_envs spare fields nil_slice (record { heap = nil_heap; keys = [] }) in
      (c.keys ≡ keys_behind [] (paths fields)) × Distinct c.keys
bind_envs_lem spare fields h =
    let b : Bound = record { heap = nil_heap; keys = [] } in
    let same = (bind_envs-Binds spare fields nil_slice b (omega arith, omega arith)).0 in
    (same, rw same (keys-Distinct (paths fields) (paths-IsPath fields h) (paths-Distinct fields h)))
