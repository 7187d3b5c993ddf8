-- ===== src/Configure/Tests.antt =====
-- The keys of the program's own configuration.
use waterhose.Prelude.{
  ◌≡◌, ◌≢◌, refl, Bool, true, not, ◌&&◌, ◌==◌, none, some, List, [], ◌∷◌, Bytes, bytes_eq,
  bytes_eq_iff, All, arith, codes,
}
use waterhose.Configure.{
  Fields, no_fields, plain, struct, config_fields, bind_envs, init_logging, debug_level, info_level,
}
use waterhose.Configure.Slices.{Slice, append, nil_slice, nil_heap}
use waterhose.Configure.Keys.{paths, keys_behind}
use waterhose.Configure.Distinct.{DotFree, IsTagged, tags, Distinct, bind_envs_lem}

dot_free : Bytes → Bool
dot_free [] = true
dot_free (c ∷ s) = not (c == 46) && dot_free s

dot_free-DotFree : (s : Bytes) → dot_free s ≡ true → DotFree s
unfolding dot_free
dot_free-DotFree [] h = tt
dot_free-DotFree (c ∷ s) h = ground (arith, dot_free-DotFree s)

is_new : Bytes → List Bytes → Bool
is_new tag [] = true
is_new tag (t ∷ ts) = not (bytes_eq t tag) && is_new tag ts

is_new_lem : (tag : Bytes) (ts : List Bytes) → is_new tag ts ≡ true → All (λ t. t ≢ tag) ts
unfolding is_new
is_new_lem tag [] h = tt
is_new_lem tag (t ∷ ts) h = ground (arith, bytes_eq_iff t tag, is_new_lem tag ts)

-- A test of `IsTagged`.
is_tagged : Fields → Bool
is_tagged no_fields = true
is_tagged (plain none fields) = is_tagged fields
is_tagged (struct none inner fields) = is_tagged fields
is_tagged (plain (some tag) fields) = dot_free tag && is_new tag (tags fields) && is_tagged fields
is_tagged (struct (some tag) inner fields) =
    dot_free tag && is_new tag (tags fields) && is_tagged fields && is_tagged inner

is_tagged-IsTagged : (fields : Fields) → is_tagged fields ≡ true → IsTagged fields
unfolding is_tagged
is_tagged-IsTagged no_fields h = tt
is_tagged-IsTagged (plain none fields) h = is_tagged-IsTagged fields h
is_tagged-IsTagged (struct none inner fields) h = is_tagged-IsTagged fields h
is_tagged-IsTagged (plain (some t) fields) h =
    ground (arith, dot_free-DotFree t, is_new_lem t (tags fields), is_tagged-IsTagged fields)
is_tagged-IsTagged (struct (some t) inner fields) h = ground (
  arith,
  dot_free-DotFree t,
  is_new_lem t (tags fields),
  is_tagged-IsTagged fields,
  is_tagged-IsTagged inner,
)

config_fields-IsTagged : IsTagged config_fields
config_fields-IsTagged =
    is_tagged-IsTagged config_fields (unfold is_tagged dot_free is_new bytes_eq in refl)

-- The room of a new array of one string more, as the appends of the program get it behind a second one.
abbrev one_more : Slice → List Bytes
one_more s = [] ∷ []

bind_envs_lem_example :
    let c = bind_envs one_more config_fields nil_slice (record { heap = nil_heap; keys = [] }) in
    (c.keys ≡ keys_behind [] (paths config_fields)) × Distinct c.keys
bind_envs_lem_example = bind_envs_lem one_more config_fields config_fields-IsTagged

abbrev two_levels : Fields
two_levels =
    struct (some (codes "a")) (plain (some (codes "b")) (plain (some (codes "c")) no_fields))
      (plain none (plain (some (codes "d")) no_fields))

bind_envs_runs :
    (bind_envs one_more two_levels nil_slice (record { heap = nil_heap; keys = [] })).keys
    ≡ codes "a.b" ∷ codes "a.c" ∷ codes "d" ∷ []
unfolding bind_envs append
bind_envs_runs = refl

init_logging_runs :
    (init_logging (codes "debug") ≡ debug_level) × (init_logging (codes "verbose") ≡ info_level)
unfolding bytes_eq
init_logging_runs = (refl, refl)
