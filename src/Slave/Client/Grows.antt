-- ===== src/Slave/Client/Grows.antt =====
-- internal/modes/slave/manager/manager.go: a call of `JoinChat` makes at most one connection, and
-- keeps the login.
use waterhose.Prelude.{
  ℕ, ◌+◌, ◌-◌, ◌≤◌, ◌%◌, ◌^◌, Bool, true, false, ◌==◌, ◌≡◌, ◌≢◌, ◌∙◌, Bytes, refl, arith, inl, inr,
  if_both, ◌>>=◌, nat_eq, string_eq, Bool-cases, Option-cases, ok, panic, Outcome,
}
use waterhose.Prelude.Dict.{lookup, erase, lookup-erase_ne, lookup-insert_ne}
use waterhose.Prelude.Int.{pos_leb}
use waterhose.Structures.{PbChannel}
use waterhose.Irc.Client.{new_client}
use waterhose.Slave.Connection.{Connection, part_channel}
use waterhose.Slave.Manager.{
  Manager, conns, idx, store_conn, set_idx, creds, new_conn, new_connection, pick_conn,
  allocate_chat, join_chat, same_kind,
}

-- Two managers, before and behind a call for the channel `key`.
pub record Grows (key : Bytes) (m m' : Manager) : Type 0 where
  pub apart : (id : Bytes) → key ≢ id → lookup id m'.channels ≡ lookup id m.channels
  pub login : m'.options ≡ m.options
  pub few : m'.irc_idx ≤ m.irc_idx + 1
  pub few_anon : m'.irc_anon_idx ≤ m.irc_anon_idx + 1

module _ (key : Bytes) where
  store-Grows :
      (anon : Bool) (i : ℕ) (c : Connection) (m m' : Manager)
      → Grows key m m'
      → Grows key m (store_conn anon i c m')
  store-Grows true i c m m' g = record {
    apart = g.apart;
    login = g.login;
    few = g.few;
    few_anon = g.few_anon;
  }
  store-Grows false i c m m' g = record {
    apart = g.apart;
    login = g.login;
    few = g.few;
    few_anon = g.few_anon;
  }

  same-Grows : (m : Manager) → Grows key m m
  same-Grows m = record {
    apart = λ id h. refl;
    login = refl;
    few = omega arith;
    few_anon = omega arith;
  }

  count-Grows :
      (anon : Bool) (m : Manager) → Grows key m (set_idx anon ((idx anon m + 1) % 2 ^ 32) m)
  count-Grows true m = record {
    apart = λ id h. refl;
    login = refl;
    few = omega arith;
    few_anon = omega arith;
  }
  count-Grows false m = record {
    apart = λ id h. refl;
    login = refl;
    few = omega arith;
    few_anon = omega arith;
  }

  -- What a call that returns leaves.
  abbrev pub Within : {A : Type 0} → Manager → Outcome (Manager × A) → Type 0
  Within m panic = Unit
  Within m (ok (m', _)) = Grows key m m'

  >>=-Within :
      {A B : Type 0} (m : Manager) (call : Outcome (Manager × A))
      (rest : Manager × A → Outcome (Manager × B))
      → Within m call
      → ((m' : Manager) (a : A) → Grows key m m' → Within m (rest (m', a)))
      → Within m (call >>= rest)
  >>=-Within m panic rest h k = tt
  >>=-Within m (ok (m', a)) rest h k = k m' a h

  bind-Within :
      {A B : Type 0} (m : Manager) (call : Outcome A) (rest : A → Outcome (Manager × B))
      → ((a : A) → Within m (rest a))
      → Within m (call >>= rest)
  bind-Within m panic rest k = tt
  bind-Within m (ok a) rest k = k a

  new_conn-Within : (anon : Bool) (m : Manager) → Within m (new_conn anon m)
  unfolding new_conn
  new_conn-Within anon m =
      bind-Within m (new_client (creds anon m).username (creds anon m).oauth) _ (λ client.
        store-Grows anon (idx anon m) (new_connection client (idx anon m) anon (creds anon m)) m _
          (count-Grows anon m))

  pick_conn-Within : (limit : ℕ) (anon : Bool) (m : Manager) → Within m (pick_conn limit anon m)
  unfolding pick_conn
  pick_conn-Within limit anon m = elim (Bool-cases (idx anon m == 0)) [
    | inl first ↦ rw first (new_conn-Within anon m)
    | inr later ↦ elim (Option-cases (lookup (idx anon m - 1) (conns anon m))) [
      | inl gone ↦ rw (later, gone) tt
      | inr (c, e) ↦
          rw (later, e)
            (if_both (Within m) (pos_leb limit c.len) (new_conn-Within anon m) (same-Grows m))
    ]
  ]

  -- A manager with other connections, and another allocation for `key`.
  record Alike (m m' : Manager) : Type 0 where
    pub apart : (id : Bytes) → key ≢ id → lookup id m'.channels ≡ lookup id m.channels
    pub login : m'.options ≡ m.options
    pub same_idx : m'.irc_idx ≡ m.irc_idx
    pub same_anon_idx : m'.irc_anon_idx ≡ m.irc_anon_idx

  store-Alike :
      (anon : Bool) (i : ℕ) (c : Connection) (m : Manager)
      → Alike m
          (record (store_conn anon i c m) { channels = erase key (store_conn anon i c m).channels })
  store-Alike true i c m = record {
    apart = λ id h. lookup-erase_ne key id m.channels h;
    login = refl;
    same_idx = refl;
    same_anon_idx = refl;
  }
  store-Alike false i c m = record {
    apart = λ id h. lookup-erase_ne key id m.channels h;
    login = refl;
    same_idx = refl;
    same_anon_idx = refl;
  }

  Alike-Within :
      {A : Type 0} (m m' : Manager) (o : Outcome (Manager × A))
      → Alike m m'
      → Within m' o
      → Within m o
  Alike-Within m m' panic s g = tt
  Alike-Within m m' (ok (m'', _)) s g = record {
    apart = λ id h. g.apart id h ∙ s.apart id h;
    login = g.login ∙ s.login;
    few = omega (arith, g.few, s.same_idx);
    few_anon = omega (arith, g.few_anon, s.same_anon_idx);
  }

allocate_chat-Within :
    (limit now : ℕ) (channel : PbChannel) (m : Manager)
    → Within channel.id m (allocate_chat limit now channel m)
unfolding allocate_chat
allocate_chat-Within limit now channel m =
    >>=-Within channel.id m (pick_conn limit channel.use_anonymous m) _
      (pick_conn-Within channel.id limit channel.use_anonymous m)
      (λ m' c g. store-Grows channel.id channel.use_anonymous c.idx _ m _ (record {
        apart = λ id h. lookup-insert_ne channel.id id _ m'.channels h ∙ g.apart id h;
        login = g.login;
        few = g.few;
        few_anon = g.few_anon;
      }))

-- `JoinChat` keeps the login and the allocations of the other channels, and makes at most one
-- connection of each kind.
pub join_chat-Within :
    (limit now : ℕ) (channel : PbChannel) (m : Manager)
    → Within channel.id m (join_chat limit now channel m)
unfolding join_chat
join_chat-Within limit now channel m = elim (Option-cases (lookup channel.id m.channels)) [
  | inl new ↦ rw (join_chat, new) (allocate_chat-Within limit now channel m)
  | inr (a, f) ↦ elim (Option-cases (lookup a.id (conns a.anon m))) [
    | inl gone ↦ rw (join_chat, f, gone) tt
    | inr (c, at) ↦
        rw (join_chat, f, at)
          (if_both (Within channel.id m) (same_kind a.anon channel.use_anonymous)
            (store-Grows channel.id a.anon a.id _ m m (same-Grows channel.id m))
            (Alike-Within channel.id m _ (allocate_chat limit now channel _)
              (store-Alike channel.id a.anon a.id (part_channel channel.login c) m)
              (allocate_chat-Within limit now channel _)))
  ]
]
