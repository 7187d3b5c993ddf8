-- ===== src/Slave/Manager/Join.antt =====
-- internal/modes/slave/manager/manager.go: `JoinChat` brings a channel to a connection of its kind.
use waterhose.Prelude.{
  ℕ, Bool, true, false, not, none, some, ◌≡◌, ◌≢◌, ◌↔◌, ◌∙◌, refl, sym, ap, arith, inl, inr, Bytes,
  nat_eq, string_eq, Bool-cases, Option-cases, ok, List,
}
use waterhose.Prelude.Dict.{Dict, lookup, erase, lookup-erase_self}
use waterhose.Structures.{PbChannel}
use waterhose.Slave.Connection.{Connection, Action, join_channel, part_channel}
use waterhose.Slave.Manager.{
  Allocation, Manager, conns, store_conn, creds, allocate_chat, join_chat, same_kind,
}
use waterhose.Slave.Manager.Invariant.{
  Inv, store-Inv, erase-Inv, lookup-store_self, store-channels, store-idx, conns-channels,
  idx-channels,
}
use waterhose.Slave.Manager.Pick.{Ready}
use waterhose.Slave.Manager.Allocate.{
  join_channel-Has, join_channel-Fits, part_channel_lem, part_channel-Fits, Joined,
  allocate_chat_lem,
}

-- The connection that a channel had before, if it was of the other kind, is without the channel.
pub Left : PbChannel → Manager → Manager → Type 0
Left channel m m' =
    (a : Allocation)
    → lookup channel.id m.channels ≡ some a
    → a.anon ≢ channel.use_anonymous
    → (c : Connection) × (lookup a.id (conns a.anon m') ≡ some c)
      × (lookup channel.login c.channels ≡ none)

same_kind_iff : (a b : Bool) → (same_kind a b ≡ true) ↔ (a ≡ b)
same_kind_iff true true = (λ _. refl, λ _. refl)
same_kind_iff true false = ground arith
same_kind_iff false true = ground arith
same_kind_iff false false = (λ _. refl, λ _. refl)

some_eq : {A : Type 0} (x y : A) → some x ≡ some y → x ≡ y
some_eq x y e = cc

Bool-false : {b : Bool} {P : Type 0} → (b ≡ true) ↔ P → ¬ P → b ≡ false
Bool-false {b} h n = elim (Bool-cases b) [ inl t ↦ absurd (n (h.0 t)) | inr f ↦ f ]

other_kind : (a b : Bool) → a ≢ b → a ≡ not b
other_kind a b h = ground arith

store_at :
    (anon b : Bool)
    → anon ≡ b
    → (i : ℕ) (c : Connection) (m : Manager) → lookup i (conns b (store_conn anon i c m)) ≡ some c
store_at anon b e i c m = rw (← e) (lookup-store_self anon i c m)

old_kind :
    {a b : Bool} (i : ℕ)
    → a ≡ b
    → (m m' : Manager) → conns b m ≡ conns b m'
    → lookup i (conns a m) ≡ lookup i (conns a m')
old_kind i e m m' h = rw (e, h) refl

creds-store :
    (b anon : Bool) (i : ℕ) (c : Connection) (m : Manager)
    → creds b (store_conn anon i c m) ≡ creds b m
creds-store true anon i c m = refl
creds-store false true i c m = refl
creds-store false false i c m = refl

creds-channels :
    (b : Bool) (d : Dict Bytes Allocation) (m : Manager)
    → creds b (record m { channels = d }) ≡ creds b m
creds-channels true d m = refl
creds-channels false d m = refl

join_chat_new :
    (limit now : ℕ) (channel : PbChannel) (m : Manager)
    → lookup channel.id m.channels ≡ none
    → join_chat limit now channel m ≡ allocate_chat limit now channel m
unfolding join_chat
join_chat_new limit now channel m new = rw (join_chat, new) refl

-- What `JoinChat` gives.
abbrev Joins : ℕ → ℕ → PbChannel → Manager → Type 0
Joins limit now channel m =
    (m' : Manager) × (actions : List Action) × (join_chat limit now channel m ≡ ok (m', actions))
    × Joined channel m'
    × Left channel m m'

module _ (limit now : ℕ) (channel : PbChannel) (a : Allocation) (c : Connection) (m : Manager)
    (v : Inv m) (named : lookup channel.id m.channels ≡ some a)
    (at : lookup a.id (conns a.anon m) ≡ some c) where
  join_chat_same :
      a.anon ≡ channel.use_anonymous
      → join_chat limit now channel m
        ≡ ok (
          store_conn a.anon a.id (join_channel now channel c).0 m,
          (join_channel now channel c).1,
        )
  unfolding join_chat
  join_chat_same e =
      rw (join_chat, named, at, (same_kind_iff a.anon channel.use_anonymous).1 e) refl

  join_same : a.anon ≡ channel.use_anonymous → Joins limit now channel m
  unfolding Left
  join_same e =
      let c' : Connection = (join_channel now channel c).0 in
      (
        store_conn a.anon a.id c' m,
        _,
        join_chat_same e,
        record {
          inv =
              store-Inv a.anon a.id c' m
                (join_channel-Fits now channel a.anon a.id c (v.fits a.anon a.id c at)) v;
          allocation = a;
          conn = c';
          named = rw (store-channels a.anon a.id c' m) named;
          kind = e;
          at = store_at a.anon channel.use_anonymous e a.id c' m;
          has = join_channel-Has now channel c;
        },
        λ b f apart. absurd (apart (ap (λ x. x.anon) (some_eq b a (sym f ∙ named)) ∙ e)),
      )

  -- The manager in which the channel is joined afresh.
  parted_manager : Manager
  parted_manager =
      let m' : Manager = store_conn a.anon a.id (part_channel channel.login c) m in
      record m' { channels = erase channel.id m'.channels }

  parted-Inv : Inv parted_manager
  unfolding parted_manager
  parted-Inv = erase-Inv channel.id (store_conn a.anon a.id (part_channel channel.login c) m) (
      store-Inv a.anon a.id (part_channel channel.login c) m
        (part_channel-Fits channel.login a.anon a.id c (v.fits a.anon a.id c at)) v)

  parted-Ready : Ready channel.use_anonymous m → Ready channel.use_anonymous parted_manager
  unfolding parted_manager
  parted-Ready r =
      let c' : Connection = part_channel channel.login c in
      let m' : Manager = store_conn a.anon a.id c' m in
      let same =
        creds-channels channel.use_anonymous (erase channel.id m'.channels) m'
        ∙ creds-store channel.use_anonymous a.anon a.id c' m in
      record {
        login = rw same r.login;
        password = rw same r.password;
        room =
            rw
              (
                idx-channels channel.use_anonymous (erase channel.id m'.channels) m',
                store-idx a.anon channel.use_anonymous a.id c' m,
              )
              r.room;
      }

  join_chat_other :
      a.anon ≢ channel.use_anonymous
      → join_chat limit now channel m ≡ allocate_chat limit now channel parted_manager
  unfolding join_chat parted_manager
  join_chat_other apart =
      rw (join_chat, named, at, Bool-false (same_kind_iff a.anon channel.use_anonymous) apart) refl

  parted_at : lookup a.id (conns a.anon parted_manager) ≡ some (part_channel channel.login c)
  unfolding parted_manager
  parted_at =
      let c' : Connection = part_channel channel.login c in
      let m' : Manager = store_conn a.anon a.id c' m in
      rw (conns-channels a.anon (erase channel.id m'.channels) m')
        (lookup-store_self a.anon a.id c' m)

  -- The connection that the channel leaves, behind a step that keeps the map of its kind.
  parted-Left :
      (m' : Manager)
      → a.anon ≢ channel.use_anonymous
      → conns (not channel.use_anonymous) m' ≡ conns (not channel.use_anonymous) parted_manager
      → Left channel m m'
  unfolding parted_manager Left
  parted-Left m' apart others b f apart' =
      let c' : Connection = part_channel channel.login c in
      let m1 : Manager = store_conn a.anon a.id c' m in
      (
        c',
        rw (some_eq b a (sym f ∙ named)) (
            old_kind a.id (other_kind a.anon channel.use_anonymous apart) m' parted_manager others
            ∙ parted_at),
        rw ((part_channel_lem channel.login c).2)
            (lookup-erase_self channel.login c.channels ((v.fits a.anon a.id c at).keyed.is_map)),
      )

  join_other :
      Ready channel.use_anonymous m → a.anon ≢ channel.use_anonymous → Joins limit now channel m
  unfolding Left
  join_other r apart =
      let (m', actions, e, j, others) =
        allocate_chat_lem limit now channel parted_manager (parted-Ready r) parted-Inv in
      (m', actions, join_chat_other apart ∙ e, j, parted-Left m' apart others)

-- `JoinChat` of a manager whose maps agree, where a client can be made and the index has room for
-- one more below 2^32, returns, and no connection is nil. In the new manager the maps agree, the
-- channel has an allocation of its kind, and the connection that it names has the channel; if the
-- channel was allocated to a connection of the other kind, that one has it no more.
pub join_chat_lem :
    (limit now : ℕ) (channel : PbChannel) (m : Manager)
    → Ready channel.use_anonymous m
    → Inv m
    → (m' : Manager) × (actions : List Action) × (join_chat limit now channel m ≡ ok (m', actions))
      × Joined channel m'
      × Left channel m m'
unfolding Left
join_chat_lem limit now channel m r v = elim (Option-cases (lookup channel.id m.channels)) [
  | inl new ↦
      let (m', actions, e, j, others) = allocate_chat_lem limit now channel m r v in
      (m', actions, join_chat_new limit now channel m new ∙ e, j, λ a f. absurd (cc))
  | inr (a, f) ↦ elim (Option-cases (lookup a.id (conns a.anon m))) [
    | inl gone ↦ absurd (v.there a.anon a.id (v.allocated channel.id a f) gone)
    | inr (c, at) ↦ elim (Bool-cases (same_kind a.anon channel.use_anonymous)) [
      | inl same ↦
          join_same limit now channel a c m v f at
            ((same_kind_iff a.anon channel.use_anonymous).0 same)
      | inr other ↦
          join_other limit now channel a c m v f at r
            (λ e. cc ((same_kind_iff a.anon channel.use_anonymous).1 e, other))
    ]
  ]
]
