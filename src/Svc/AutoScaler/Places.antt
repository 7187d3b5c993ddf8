-- ===== src/Svc/AutoScaler/Places.antt =====
-- internal/svc/autoscaler/autoscaler.go: what the placement of one user leaves.
use waterhose.Prelude.{
  ℕ, ◌+◌, ◌≤◌, ◌<◌, [], ◌∷◌, ◌++◌, ◌≡◌, ◌≢◌, sym, ap, ◌∙◌, ◌⊎◌, inl, inr, some, arith, Bytes,
  nat_cases, Option-cases, length, length-append, get_elem?, set, length-set, get_elem?-set_self,
  get_elem?-set_ne, get_elem?-some_lt, get_elem?-append_one, get_elem?_lt, string_eq,
}
use waterhose.Prelude.Dict.{Dict, lookup, insert}
use waterhose.Prelude.Int.{pos}
use waterhose.Structures.{Channel, User}
use waterhose.Svc.AutoScaler.{AutoScaler, put_channel}
use waterhose.Svc.AutoScaler.Invariant.{Inv, Within}

-- What the placement of the user `u` on edge `i` leaves: the two views of the channels agree, at
-- most `g` edges are new, the user's channel is `c`, a channel that had an edge keeps it, no other
-- channel is touched, and an edge that was within a bound not below the limit is so still.
pub record Places (limit g : ℕ) (u : User) (s s' : AutoScaler) (i : ℕ) (c : Channel) : Type 0 where
  pub inv : Inv s'
  pub grows : length s'.edges ≤ length s.edges + g
  pub channel_id : c.twitch_id ≡ u.id
  pub found : lookup u.id s'.channels ≡ some c
  pub node : c.edge_node ≡ pos i
  pub sticky : (old : Channel) → lookup u.id s.channels ≡ some old → old.edge_node ≡ pos i
  pub others : (id : Bytes) → id ≢ u.id → lookup id s'.channels ≡ lookup id s.channels
  pub within : (n : ℕ) → limit ≤ n → Within n s → Within n s'

pub put_channel-Within :
    (n : ℕ) (s : AutoScaler) (i : ℕ) (m : Dict Bytes Channel) (c : Channel)
    → length (insert c.twitch_id c m) ≤ n
    → Within n s
    → Within n (put_channel s i m c)
put_channel-Within n s i m c h w j m' e = elim (nat_cases i j) [
  | inl same ↦ elim (Option-cases (get_elem? s.edges i)) [
    | inl gone ↦ absurd (
        ground (
          arith,
          get_elem?-some_lt (set s.edges i (insert c.twitch_id c m)) j e,
          length-set s.edges i (insert c.twitch_id c m),
          get_elem?_lt s.edges i,
        ))
    | inr (old, at) ↦ ground (
      arith,
      get_elem?-set_self s.edges i (insert c.twitch_id c m) (get_elem?-some_lt s.edges i at),
    )
  ]
  | inr apart ↦ w j m' (sym (get_elem?-set_ne s.edges (insert c.twitch_id c m) apart) ∙ e)
]

pub lt_or_eq : (a b : ℕ) → a ≤ b → (a < b) ⊎ (a ≡ b)
lt_or_eq a b h = ground arith

pub lt_or_le : (a b : ℕ) → (a < b) ⊎ (b ≤ a)
lt_or_le a b = ground arith

pub skip-Inv :
    (s : AutoScaler)
    → Inv s
    → s.edge_idx < length s.edges
    → Inv (record s { edge_idx = s.edge_idx + 1 })
skip-Inv s v lt = record { in_range = omega arith; homed = v.homed; listed = v.listed }

module _ {limit : ℕ} {u : User} {s s' : AutoScaler} {i : ℕ} {c : Channel} where
  pub Places-skip :
      (g n : ℕ) → Places limit g u (record s { edge_idx = n }) s' i c → Places limit g u s s' i c
  Places-skip g n p = record {
    inv = p.inv;
    grows = p.grows;
    channel_id = p.channel_id;
    found = p.found;
    node = p.node;
    sticky = p.sticky;
    others = p.others;
    within = p.within;
  }

  pub Places-grow :
      Places limit 0 u (record s { edges = s.edges ++ [] ∷ [] }) s' i c → Places limit 1 u s s' i c
  Places-grow p = record {
    inv = p.inv;
    grows = omega (arith, p.grows, length-append s.edges ([] ∷ []));
    channel_id = p.channel_id;
    found = p.found;
    node = p.node;
    sticky = p.sticky;
    others = p.others;
    within = λ n h w. p.within n h (λ j m e. elim (get_elem?-append_one s.edges [] j e) [
      | inl old ↦ w j m old
      | inr new ↦ omega (arith, ap length new)
    ]);
  }

  pub Places-more : Places limit 0 u s s' i c → Places limit 1 u s s' i c
  Places-more p = record {
    inv = p.inv;
    grows = omega (arith, p.grows);
    channel_id = p.channel_id;
    found = p.found;
    node = p.node;
    sticky = p.sticky;
    others = p.others;
    within = p.within;
  }
