-- ===== src/Start/Context/Derived.antt =====
-- internal/global/context.go: what derived contexts keep, and what they add.
use waterhose.Prelude.{
  ℕ, ◌+◌, Bool, false, ◌||◌, leb, ◌≡◌, refl, Option, some, List, [], ◌∷◌, Bytes, bytes_eq,
  if◌then◌else◌, arith,
}
use waterhose.Start.{Config}
use waterhose.Start.Context.{
  GoContext, Context, World, is_done, earlier, deadline, value, as_context, new_context,
  with_cancel, with_deadline, with_value, with_timeout,
}

-- A call of one of the functions that derive a context.
pub data Derivation : Type 0 where
  cancels : ℕ → Derivation
  deadlines : ℕ → ℕ → Derivation
  values : Bytes → Bytes → Derivation
  timeouts : ℕ → ℕ → ℕ → Derivation

abbrev pub derive : Derivation → Context → Context
derive (cancels n) g = with_cancel n g
derive (deadlines n time) g = with_deadline n time g
derive (values key v) g = with_value key v g
derive (timeouts n now timeout) g = with_timeout n now timeout g

-- The last derivation comes first.
unfoldable pub derive_all : List Derivation → Context → Context
derive_all [] g = g
derive_all (d ∷ ds) g = derive d (derive_all ds g)

-- Whether a derivation has ended its context, what deadline it sets, and which value it adds.
abbrev pub ends : World → Derivation → Bool
ends w (cancels n) = w.called n
ends w (deadlines n time) = w.called n || leb time w.now
ends w (values key v) = false
ends w (timeouts n now timeout) = w.called n || leb (now + timeout) w.now

abbrev pub any_ends : World → List Derivation → Bool → Bool
any_ends w [] before = before
any_ends w (d ∷ ds) before = ends w d || any_ends w ds before

abbrev pub soonest : List Derivation → Option ℕ → Option ℕ
soonest [] before = before
soonest (cancels n ∷ ds) before = soonest ds before
soonest (deadlines n time ∷ ds) before = earlier time (soonest ds before)
soonest (values key v ∷ ds) before = soonest ds before
soonest (timeouts n now timeout ∷ ds) before = earlier (now + timeout) (soonest ds before)

abbrev pub latest : Bytes → List Derivation → Option Bytes → Option Bytes
latest k [] before = before
latest k (values key v ∷ ds) before =
    let rest = latest k ds before in if bytes_eq key k then some v else rest
latest k (cancels n ∷ ds) before = latest k ds before
latest k (deadlines n time ∷ ds) before = latest k ds before
latest k (timeouts n now timeout ∷ ds) before = latest k ds before

-- A context that is derived in any number of calls has the configuration and the instances of the first.
-- It is done if that is or one of its own cancel functions was called or deadlines passed, its deadline is
-- the soonest of theirs, and a value is that of the last call with the key.
pub derive_all_lem :
    (ds : List Derivation) (inst : ℕ) (c : GoContext) (config : Config) (w : World) (key : Bytes)
    → let g = derive_all ds (new_context inst c config) in
      (g.config ≡ config)
      × (g.inst ≡ inst)
      × (is_done w (as_context g) ≡ any_ends w ds (is_done w c))
      × (deadline (as_context g) ≡ soonest ds (deadline c))
      × (value key (as_context g) ≡ latest key ds (value key c))
unfolding derive_all is_done deadline value
derive_all_lem [] inst c config w key = (refl, refl, refl, refl, refl)
derive_all_lem (cancels n ∷ ds) inst c config w key =
    ground (arith, derive_all_lem ds inst c config w key)
derive_all_lem (deadlines n time ∷ ds) inst c config w key =
    ground (arith, derive_all_lem ds inst c config w key)
derive_all_lem (values k v ∷ ds) inst c config w key =
    ground (arith, derive_all_lem ds inst c config w key)
derive_all_lem (timeouts n now timeout ∷ ds) inst c config w key =
    ground (arith, derive_all_lem ds inst c config w key)
