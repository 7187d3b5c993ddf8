-- ===== src/Slave/Manager/Invariant.antt =====
-- internal/modes/slave/manager/manager.go: what the maps and the indices of the manager keep.
use waterhose.Prelude.{
  ℕ, ◌+◌, ◌<◌, Bool, true, false, not, none, some, ◌≡◌, ◌≢◌, ◌⊎◌, ◌∙◌, refl, sym, arith, inl, inr,
  Bytes, nat_eq, string_eq, bytes_cases, nat_cases,
}
use waterhose.Prelude.Dict.{
  Dict, lookup, insert, erase, IsMap, insert-IsMap, erase-IsMap, lookup-insert, lookup-insert_self,
  lookup-insert_ne, lookup-erase_ne, lookup-erase_self,
}
use waterhose.Slave.Connection.{Connection}
use waterhose.Slave.Connection.Changes.{Keyed}
use waterhose.Slave.Manager.{Allocation, Manager, conns, idx, store_conn, set_idx, new_manager}

-- A connection stands at its number, in the map of its kind.
pub record Fits (anon : Bool) (i : ℕ) (c : Connection) : Type 0 where
  pub number : c.idx ≡ i
  pub kind : c.anon ≡ anon
  pub keyed : Keyed c.channels

-- The connections below an index are there, each fits its place, and each allocation names one.
pub record Inv (m : Manager) : Type 0 where
  pub channels_map : IsMap m.channels
  pub there : (anon : Bool) (i : ℕ) → i < idx anon m → lookup i (conns anon m) ≢ none
  pub fits :
      (anon : Bool) (i : ℕ) (c : Connection) → lookup i (conns anon m) ≡ some c → Fits anon i c
  pub allocated :
      (id : Bytes) (a : Allocation) → lookup id m.channels ≡ some a → a.id < idx a.anon m

pub conns-channels :
    (b : Bool) (d : Dict Bytes Allocation) (m : Manager)
    → conns b (record m { channels = d }) ≡ conns b m
conns-channels true d m = refl
conns-channels false d m = refl

pub idx-channels :
    (b : Bool) (d : Dict Bytes Allocation) (m : Manager)
    → idx b (record m { channels = d }) ≡ idx b m
idx-channels true d m = refl
idx-channels false d m = refl

-- Other allocations, which name connections too.
channels-Inv :
    (d : Dict Bytes Allocation) (m : Manager)
    → IsMap d
    → ((id : Bytes) (a : Allocation) → lookup id d ≡ some a → a.id < idx a.anon m)
    → Inv m
    → Inv (record m { channels = d })
channels-Inv d m h names v = record {
  channels_map = h;
  there = λ b j. rw (idx-channels b d m, conns-channels b d m) (v.there b j);
  fits = λ b j c. rw (conns-channels b d m) (v.fits b j c);
  allocated = λ id a e. rw (idx-channels a.anon d m) (names id a e);
}

new_there :
    (anon : Bool) (i : ℕ) → i < idx anon new_manager → lookup i (conns anon new_manager) ≢ none
new_there true i h = absurd (omega (arith, h))
new_there false i h = absurd (omega (arith, h))

new-Fits :
    (anon : Bool) (i : ℕ) (c : Connection)
    → lookup i (conns anon new_manager) ≡ some c
    → Fits anon i c
unfolding lookup
new-Fits true i c e = absurd (cc)
new-Fits false i c e = absurd (cc)

-- The manager that `New` makes.
pub new_manager-Inv : Inv new_manager
new_manager-Inv = record {
  channels_map = tt;
  there = new_there;
  fits = new-Fits;
  allocated = unfold lookup in λ id a e. absurd (cc);
}

pub lookup-store_self :
    (anon : Bool) (i : ℕ) (c : Connection) (m : Manager)
    → lookup i (conns anon (store_conn anon i c m)) ≡ some c
lookup-store_self true i c m = lookup-insert_self i c m.irc_anon_conns
lookup-store_self false i c m = lookup-insert_self i c m.irc_conns

pub lookup-store_ne :
    (anon : Bool) (i j : ℕ) (c : Connection) (m : Manager)
    → i ≢ j
    → lookup j (conns anon (store_conn anon i c m)) ≡ lookup j (conns anon m)
lookup-store_ne true i j c m h = lookup-insert_ne i j c m.irc_anon_conns h
lookup-store_ne false i j c m h = lookup-insert_ne i j c m.irc_conns h

pub store-others :
    (anon : Bool) (i : ℕ) (c : Connection) (m : Manager)
    → conns (not anon) (store_conn anon i c m) ≡ conns (not anon) m
store-others true i c m = refl
store-others false i c m = refl

pub store-channels :
    (anon : Bool) (i : ℕ) (c : Connection) (m : Manager)
    → (store_conn anon i c m).channels ≡ m.channels
store-channels true i c m = refl
store-channels false i c m = refl

pub store-idx :
    (anon b : Bool) (i : ℕ) (c : Connection) (m : Manager) → idx b (store_conn anon i c m) ≡ idx b m
store-idx true true i c m = refl
store-idx true false i c m = refl
store-idx false true i c m = refl
store-idx false false i c m = refl

-- A lookup in either map, behind a store.
pub lookup-store :
    (anon b : Bool) (i j : ℕ) (c d : Connection) (m : Manager)
    → lookup j (conns b (store_conn anon i c m)) ≡ some d
    → ((b ≡ anon) × (j ≡ i) × (d ≡ c)) ⊎ (lookup j (conns b m) ≡ some d)
lookup-store true false i j c d m e = inr e
lookup-store false true i j c d m e = inr e
lookup-store true true i j c d m e = elim (nat_cases i j) [
  | inl same ↦ inl (refl, sym same, ground (arith, lookup-insert_self i c m.irc_anon_conns))
  | inr apart ↦ inr (sym (lookup-insert_ne i j c m.irc_anon_conns apart) ∙ e)
]
lookup-store false false i j c d m e = elim (nat_cases i j) [
  | inl same ↦ inl (refl, sym same, ground (arith, lookup-insert_self i c m.irc_conns))
  | inr apart ↦ inr (sym (lookup-insert_ne i j c m.irc_conns apart) ∙ e)
]

pub lookup-store_there :
    (anon b : Bool) (i j : ℕ) (c : Connection) (m : Manager)
    → lookup j (conns b m) ≢ none
    → lookup j (conns b (store_conn anon i c m)) ≢ none
lookup-store_there true false i j c m h = h
lookup-store_there false true i j c m h = h
lookup-store_there true true i j c m h =
    ground (arith, nat_eq.beq_iff i j, lookup-insert i j c m.irc_anon_conns)
lookup-store_there false false i j c m h =
    ground (arith, nat_eq.beq_iff i j, lookup-insert i j c m.irc_conns)

-- A connection that fits is stored.
pub store-Inv :
    (anon : Bool) (i : ℕ) (c : Connection) (m : Manager)
    → Fits anon i c
    → Inv m
    → Inv (store_conn anon i c m)
store-Inv anon i c m f v = record {
  channels_map = rw (store-channels anon i c m) v.channels_map;
  there =
      λ b j h. lookup-store_there anon b i j c m (v.there b j (rw (← store-idx anon b i c m) h));
  fits = λ b j d e. elim (lookup-store anon b i j c d m e) [
    | inl (kind, at, same) ↦ rw (kind, at, same) f
    | inr before ↦ v.fits b j d before
  ];
  allocated = λ id a e.
      rw (store-idx anon a.anon i c m) (v.allocated id a (rw (← store-channels anon i c m) e));
}

-- An allocation that names a connection is stored.
pub allocation-Inv :
    (id : Bytes) (a : Allocation) (m : Manager)
    → a.id < idx a.anon m
    → Inv m
    → Inv (record m { channels = insert id a m.channels })
allocation-Inv id a m h v =
    channels-Inv (insert id a m.channels) m (insert-IsMap id a m.channels v.channels_map)
      (λ other b e. elim (bytes_cases id other) [
        | inl same ↦ ground (arith, lookup-insert_self id a m.channels)
        | inr apart ↦ v.allocated other b (sym (lookup-insert_ne id other a m.channels apart) ∙ e)
      ])
      v

pub erase-Inv :
    (id : Bytes) (m : Manager) → Inv m → Inv (record m { channels = erase id m.channels })
erase-Inv id m v =
    channels-Inv (erase id m.channels) m (erase-IsMap id m.channels v.channels_map)
      (λ other b e. elim (bytes_cases id other) [
        | inl same ↦ absurd (ground (arith, lookup-erase_self id m.channels v.channels_map))
        | inr apart ↦ v.allocated other b (sym (lookup-erase_ne id other m.channels apart) ∙ e)
      ])
      v

bump_there :
    (anon b : Bool) (j : ℕ) (m : Manager)
    → lookup (idx anon m) (conns anon m) ≢ none
    → (j < idx b m → lookup j (conns b m) ≢ none)
    → j < idx b (set_idx anon (idx anon m + 1) m)
    → lookup j (conns b (set_idx anon (idx anon m + 1) m)) ≢ none
bump_there true true j m last v h = ground (arith, nat_cases m.irc_anon_idx j)
bump_there true false j m last v h = v h
bump_there false true j m last v h = v h
bump_there false false j m last v h = ground (arith, nat_cases m.irc_idx j)

bump_allocated :
    (anon b : Bool) (j : ℕ) (m : Manager)
    → j < idx b m
    → j < idx b (set_idx anon (idx anon m + 1) m)
bump_allocated true true j m h = omega arith
bump_allocated true false j m h = h
bump_allocated false true j m h = h
bump_allocated false false j m h = omega arith

conns-set_idx : (anon b : Bool) (i : ℕ) (m : Manager) → conns b (set_idx anon i m) ≡ conns b m
conns-set_idx true true i m = refl
conns-set_idx true false i m = refl
conns-set_idx false true i m = refl
conns-set_idx false false i m = refl

channels-set_idx : (anon : Bool) (i : ℕ) (m : Manager) → (set_idx anon i m).channels ≡ m.channels
channels-set_idx true i m = refl
channels-set_idx false i m = refl

-- An index counts a connection that is there.
bump-Inv :
    (anon : Bool) (m : Manager)
    → lookup (idx anon m) (conns anon m) ≢ none
    → Inv m
    → Inv (set_idx anon (idx anon m + 1) m)
bump-Inv anon m last v = record {
  channels_map = rw (channels-set_idx anon (idx anon m + 1) m) v.channels_map;
  there = λ b j. bump_there anon b j m last (v.there b j);
  fits = λ b j c. rw (conns-set_idx anon b (idx anon m + 1) m) (v.fits b j c);
  allocated = λ id a.
      rw (channels-set_idx anon (idx anon m + 1) m)
        (λ e. bump_allocated anon a.anon a.id m (v.allocated id a e));
}

store-set_idx :
    (anon : Bool) (c : Connection) (i j : ℕ) (m : Manager)
    → store_conn anon i c (set_idx anon j m) ≡ set_idx anon j (store_conn anon i c m)
store-set_idx true c i j m = refl
store-set_idx false c i j m = refl

-- The next connection of a kind is stored, and the index counts it.
pub grow-Inv :
    (anon : Bool) (c : Connection) (m : Manager)
    → Fits anon (idx anon m) c
    → Inv m
    → Inv (store_conn anon (idx anon m) c (set_idx anon (idx anon m + 1) m))
grow-Inv anon c m f v = rw (store-set_idx anon c (idx anon m) (idx anon m + 1) m) (
    count (store_conn anon (idx anon m) c m) (idx anon m) (store-idx anon anon (idx anon m) c m)
      (λ gone. cc (lookup-store_self anon (idx anon m) c m, gone))
      (store-Inv anon (idx anon m) c m f v))
  where
    count :
        (m' : Manager) (i : ℕ)
        → idx anon m' ≡ i
        → lookup i (conns anon m') ≢ none
        → Inv m'
        → Inv (set_idx anon (i + 1) m')
    count m' i e last v' = rw (← e) (bump-Inv anon m' (rw e last) v')
