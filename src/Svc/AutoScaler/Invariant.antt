-- ===== src/Svc/AutoScaler/Invariant.antt =====
-- internal/svc/autoscaler/autoscaler.go: `a.edges` and `a.channels` hold the same channels.
use waterhose.Prelude.{
  ℕ, ◌≤◌, [], ◌∷◌, ◌++◌, ◌≡◌, ◌≢◌, ◌∙◌, inl, inr, some, arith, Bytes, bytes_cases, nat_cases,
  length, length-append, get_elem?-append_one, get_elem?, length-set, get_elem?-set_self,
  get_elem?-set_ne, get_elem?-some_lt, get_elem?-append_lt, string_eq,
}
use waterhose.Prelude.Dict.{Dict, lookup, insert, lookup-insert_self, lookup-insert_ne}
use waterhose.Prelude.Int.{pos}
use waterhose.Structures.{Channel}
use waterhose.Svc.AutoScaler.{AutoScaler, put_channel, new}

-- The channel `c` is in the map of its edge.
abbrev pub Homed : AutoScaler → Bytes → Channel → Type 0
Homed s id c =
    (i : ℕ) × (m : Dict Bytes Channel) × (c.edge_node ≡ pos i)
    × (get_elem? s.edges i ≡ some m)
    × (lookup id m ≡ some c)

pub record Inv (s : AutoScaler) : Type 0 where
  pub in_range : s.edge_idx ≤ length s.edges
  pub homed : (id : Bytes) (c : Channel) → lookup id s.channels ≡ some c → Homed s id c
  pub listed :
      (id : Bytes) (c : Channel) (i : ℕ) (m : Dict Bytes Channel)
      → get_elem? s.edges i ≡ some m
      → lookup id m ≡ some c
      → (lookup id s.channels ≡ some c) × (c.edge_node ≡ pos i)

-- No edge has more than `n` channels.
abbrev pub Within : ℕ → AutoScaler → Type 0
Within n s = (i : ℕ) (m : Dict Bytes Channel) → get_elem? s.edges i ≡ some m → length m ≤ n

pub new-Inv : Inv new
new-Inv = record {
  in_range = omega arith;
  homed = λ id c e. absurd (unfold lookup in ground arith);
  listed = λ id c i m e f. absurd (ground arith);
}

module _ (s : AutoScaler) (v : Inv s) where
  pub grow-Inv : Inv (record s { edges = s.edges ++ [] ∷ [] })
  grow-Inv = record {
    in_range = omega (arith, v.in_range, length-append s.edges ([] ∷ []));
    homed = λ id c e.
        let (i, m, node, at, key) = v.homed id c e in
        (
          i,
          m,
          node,
          get_elem?-append_lt s.edges ([] ∷ []) i (get_elem?-some_lt s.edges i at) ∙ at,
          key,
        );
    listed = λ id c i m e f. elim (get_elem?-append_one s.edges [] i e) [
      | inl old ↦ v.listed id c i m old f
      | inr new ↦ absurd (unfold lookup in ground arith)
    ];
  }

module _ (s : AutoScaler) (v : Inv s) (i : ℕ) (m : Dict Bytes Channel) (c : Channel)
    (at : get_elem? s.edges i ≡ some m) (node : c.edge_node ≡ pos i)
    (home : (old : Channel)
      → lookup c.twitch_id s.channels ≡ some old
      → old.edge_node ≡ pos i) where
  old_home :
      (id : Bytes) (d : Channel)
      → c.twitch_id ≢ id
      → Homed s id d
      → Homed (put_channel s i m c) id d
  old_home id d other (j, m', dn, dat, key) = elim (nat_cases i j) [
    | inl same ↦ (
      i,
      insert c.twitch_id c m,
      ground arith,
      get_elem?-set_self s.edges i _ (get_elem?-some_lt s.edges i at),
      ground (arith, lookup-insert_ne c.twitch_id id c m other),
    )
    | inr apart ↦ (j, m', dn, get_elem?-set_ne s.edges (insert c.twitch_id c m) apart ∙ dat, key)
  ]

  put-Homed :
      (id : Bytes) (d : Channel)
      → lookup id (put_channel s i m c).channels ≡ some d
      → Homed (put_channel s i m c) id d
  put-Homed id d e = elim (bytes_cases c.twitch_id id) [
    | inl same ↦ (
      i,
      insert c.twitch_id c m,
      ground (arith, lookup-insert_self c.twitch_id c s.channels),
      get_elem?-set_self s.edges i _ (get_elem?-some_lt s.edges i at),
      ground
          (arith, lookup-insert_self c.twitch_id c s.channels, lookup-insert_self c.twitch_id c m),
    )
    | inr other ↦
        old_home id d other
          (v.homed id d (rw (lookup-insert_ne c.twitch_id id c s.channels other) at e))
  ]

  here :
      (id : Bytes) (d : Channel) (j : ℕ) (m' : Dict Bytes Channel)
      → i ≡ j
      → m' ≡ insert c.twitch_id c m
      → lookup id m' ≡ some d
      → (lookup id (put_channel s i m c).channels ≡ some d) × (d.edge_node ≡ pos j)
  here id d j m' same e f = elim (bytes_cases c.twitch_id id) [
    | inl key ↦
        ground
          (arith, lookup-insert_self c.twitch_id c s.channels, lookup-insert_self c.twitch_id c m)
    | inr other ↦ ground (
      arith,
      lookup-insert_ne c.twitch_id id c s.channels other,
      lookup-insert_ne c.twitch_id id c m other,
      v.listed id d i m at,
    )
  ]

  there :
      (id : Bytes) (d : Channel) (j : ℕ)
      → i ≢ j
      → (lookup id s.channels ≡ some d) × (d.edge_node ≡ pos j)
      → (lookup id (put_channel s i m c).channels ≡ some d) × (d.edge_node ≡ pos j)
  there id d j apart (e, n) = elim (bytes_cases c.twitch_id id) [
    | inl key ↦ ground (arith, home d)
    | inr other ↦ (lookup-insert_ne c.twitch_id id c s.channels other ∙ e, n)
  ]

  put_listed :
      (id : Bytes) (d : Channel) (j : ℕ) (m' : Dict Bytes Channel)
      → get_elem? (put_channel s i m c).edges j ≡ some m'
      → lookup id m' ≡ some d
      → (lookup id (put_channel s i m c).channels ≡ some d) × (d.edge_node ≡ pos j)
  put_listed id d j m' e f = elim (nat_cases i j) [
    | inl same ↦
        here id d j m' same
          (ground (
            arith,
            get_elem?-set_self s.edges i (insert c.twitch_id c m) (get_elem?-some_lt s.edges i at),
          ))
          f
    | inr apart ↦ there id d j apart (
        v.listed id d j m' (ground (arith, get_elem?-set_ne s.edges (insert c.twitch_id c m) apart))
          f)
  ]

  -- Storing a channel in its edge, where it is in no other edge, keeps the two views equal.
  pub put_channel-Inv : Inv (put_channel s i m c)
  put_channel-Inv = record {
    in_range = omega (arith, v.in_range, length-set s.edges i (insert c.twitch_id c m));
    homed = put-Homed;
    listed = put_listed;
  }
