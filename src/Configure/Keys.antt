-- ===== src/Configure/Keys.antt =====
-- internal/configure/config.go: the keys that `BindEnvs` binds, over slices that share their arrays,
-- are those of a walk that shares nothing.
use mathlib.Core.List.{append-nil, append_assoc}
use waterhose.Prelude.{
  ◌≡◌, refl, ap, sym, ◌∙◌, inl, inr, none, some, List, [], ◌∷◌, ◌++◌, map, Bytes, arith,
}
use waterhose.Configure.{Fields, no_fields, plain, struct, join_dots, Bound, bind_envs}
use waterhose.Configure.Slices.{
  Slice, Heap, read, append, IsValid, Frame, Frame-refl, Frame-trans, append_lem,
}

-- The paths of the tagged fields that are no struct, each through tagged structs.
unfoldable pub paths : Fields → List (List Bytes)
paths no_fields = []
paths (plain none fields) = paths fields
paths (struct none inner fields) = paths fields
paths (plain (some tag) fields) = (tag ∷ []) ∷ paths fields
paths (struct (some tag) inner fields) = map (◌∷◌ tag) (paths inner) ++ paths fields

-- The keys of some paths behind a prefix.
unfoldable pub keys_behind : List Bytes → List (List Bytes) → List Bytes
keys_behind prefix [] = []
keys_behind prefix (path ∷ rest) = join_dots (prefix ++ path) ∷ keys_behind prefix rest

keys_behind-append :
    (prefix : List Bytes) (ps qs : List (List Bytes))
    → keys_behind prefix (ps ++ qs) ≡ keys_behind prefix ps ++ keys_behind prefix qs
unfolding keys_behind
keys_behind-append prefix [] qs = refl
keys_behind-append prefix (p ∷ ps) qs =
    ap (◌∷◌ (join_dots (prefix ++ p))) (keys_behind-append prefix ps qs)

keys_behind-map :
    (prefix : List Bytes) (tag : Bytes) (ps : List (List Bytes))
    → keys_behind prefix (map (◌∷◌ tag) ps) ≡ keys_behind (prefix ++ tag ∷ []) ps
unfolding keys_behind
keys_behind-map prefix tag [] = refl
keys_behind-map prefix tag (p ∷ ps) =
    rw (append_assoc prefix (tag ∷ []) p)
      (ap (◌∷◌ (join_dots (prefix ++ tag ∷ p))) (keys_behind-map prefix tag ps))

-- From a slice of some parts on, the keys of its paths are added, and the slice is kept.
abbrev pub Binds : (Slice → List Bytes) → Fields → Slice → Bound → Type 0
Binds spare fields parts b =
    let c = bind_envs spare fields parts b in
    (c.keys ≡ b.keys ++ keys_behind (read b.heap parts) (paths fields))
    × Frame parts.array parts.len b.heap c.heap

grouped :
    (keys prefix : List Bytes) (tag : Bytes) (ps qs : List (List Bytes))
    → keys ++ keys_behind (prefix ++ tag ∷ []) ps ++ keys_behind prefix qs
      ≡ keys ++ keys_behind prefix (map (◌∷◌ tag) ps ++ qs)
grouped keys prefix tag ps qs =
    rw (keys_behind-append prefix (map (◌∷◌ tag) ps) qs, keys_behind-map prefix tag ps)
      (append_assoc keys (keys_behind (prefix ++ tag ∷ []) ps) (keys_behind prefix qs))

pub bind_envs-Binds :
    (spare : Slice → List Bytes) (fields : Fields) (parts : Slice) (b : Bound)
    → IsValid b.heap parts
    → Binds spare fields parts b
unfolding bind_envs paths keys_behind
bind_envs-Binds spare no_fields parts b v =
    (sym (append-nil b.keys), Frame-refl parts.array parts.len b.heap)
bind_envs-Binds spare (plain none fields) parts b v = bind_envs-Binds spare fields parts b v
bind_envs-Binds spare (struct none inner fields) parts b v = bind_envs-Binds spare fields parts b v
bind_envs-Binds spare (plain (some tag) fields) parts b v =
    let a : Slice × Heap = append spare parts tag b.heap in
    let l = append_lem spare parts tag b.heap v in
    let old = l.2.1 parts v (inr (omega arith)) in
    let c : Bound = record { heap = a.1; keys = b.keys ++ join_dots (read a.1 a.0) ∷ [] } in
    let rest = bind_envs-Binds spare fields parts c old.0 in
    (
      rest.0
          ∙ rw (l.1, old.1)
              (append_assoc b.keys (join_dots (read b.heap parts ++ tag ∷ []) ∷ [])
                (keys_behind (read b.heap parts) (paths fields))),
      Frame-trans parts.array parts.len parts b.heap a.1 _ l.2 (inl (refl, omega arith)) rest.1,
    )
bind_envs-Binds spare (struct (some tag) inner fields) parts b v =
    let a : Slice × Heap = append spare parts tag b.heap in
    let l = append_lem spare parts tag b.heap v in
    let b' : Bound = record b { heap = a.1 } in
    let inside = bind_envs-Binds spare inner a.0 b' l.0 in
    let c = bind_envs spare inner a.0 b' in
    let f = Frame-trans parts.array parts.len a.0 b.heap a.1 c.heap l.2 l.3 inside.1 in
    let old = f.1 parts v (inr (omega arith)) in
    let rest = bind_envs-Binds spare fields parts c old.0 in
    (
      rest.0
          ∙ rw (inside.0, l.1, old.1)
              (grouped b.keys (read b.heap parts) tag (paths inner) (paths fields)),
      Frame-trans parts.array parts.len parts b.heap c.heap _ f (inl (refl, omega arith)) rest.1,
    )
