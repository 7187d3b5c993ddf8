-- ===== src/Slave/Manager/Allocate.antt =====
-- internal/modes/slave/manager/manager.go: the part of `JoinChat` that gives a channel a connection.
use waterhose.Prelude.{
  ℕ, ◌<◌, Bool, not, some, ◌≡◌, ◌∙◌, refl, arith, inl, inr, Bytes, nat_eq, string_eq, Bool-cases,
  Option-cases, ok, List,
}
use waterhose.Prelude.Dict.{lookup, insert, erase, lookup-insert_self}
use waterhose.Structures.{PbChannel}
use waterhose.Slave.Connection.{
  Channel, Connection, Action, join_channel, part_channel, is_joined, touch, new_entry,
}
use waterhose.Slave.Connection.Changes.{erase-Keyed, Change-Keyed, join_channel-Change}
use waterhose.Slave.Manager.{Allocation, Manager, conns, idx, store_conn, allocate_chat}
use waterhose.Slave.Manager.Invariant.{
  Fits, Inv, store-Inv, allocation-Inv, lookup-store_self, store-others, store-channels,
  conns-channels,
}
use waterhose.Slave.Manager.Pick.{Ready, pick_conn_lem}

-- A connection to which a channel is joined keeps its place, and has the channel under its login.
join_channel_lem :
    (now : ℕ) (channel : PbChannel) (c : Connection)
    → ((join_channel now channel c).0.idx ≡ c.idx) × ((join_channel now channel c).0.anon ≡ c.anon)
unfolding join_channel
join_channel_lem now channel c = ground arith

-- The connection has an entry for the channel, under its login.
pub Has : PbChannel → Connection → Type 0
Has channel c = (ch : Channel) × (lookup channel.login c.channels ≡ some ch) × (ch.raw ≡ channel)

pub join_channel-Has :
    (now : ℕ) (channel : PbChannel) (c : Connection) → Has channel (join_channel now channel c).0
unfolding join_channel Has
join_channel-Has now channel c = elim (Option-cases (lookup channel.login c.channels)) [
  | inl new ↦ (
    touch now (new_entry now channel c),
    ground
        (arith, lookup-insert_self channel.login (touch now (new_entry now channel c)) c.channels),
    refl,
  )
  | inr (old, e) ↦ elim (Bool-cases (is_joined old.state)) [
    | inl on ↦ (
      record old { raw = channel },
      ground (arith, lookup-insert_self channel.login (record old { raw = channel }) c.channels),
      refl,
    )
    | inr off ↦ (
      touch now (record old { raw = channel }),
      ground (
        arith,
        lookup-insert_self channel.login (touch now (record old { raw = channel })) c.channels,
      ),
      refl,
    )
  ]
]

pub join_channel-Fits :
    (now : ℕ) (channel : PbChannel) (anon : Bool) (i : ℕ) (c : Connection)
    → Fits anon i c
    → Fits anon i (join_channel now channel c).0
join_channel-Fits now channel anon i c f = record {
  number = (join_channel_lem now channel c).0 ∙ f.number;
  kind = (join_channel_lem now channel c).1 ∙ f.kind;
  keyed = Change-Keyed (join_channel-Change now channel c) f.keyed;
}

pub part_channel_lem :
    (login : Bytes) (c : Connection)
    → ((part_channel login c).idx ≡ c.idx)
      × ((part_channel login c).anon ≡ c.anon)
      × ((part_channel login c).channels ≡ erase login c.channels)
unfolding part_channel
part_channel_lem login c = ground arith

pub part_channel-Fits :
    (login : Bytes) (anon : Bool) (i : ℕ) (c : Connection)
    → Fits anon i c
    → Fits anon i (part_channel login c)
part_channel-Fits login anon i c f = record {
  number = (part_channel_lem login c).0 ∙ f.number;
  kind = (part_channel_lem login c).1 ∙ f.kind;
  keyed = rw ((part_channel_lem login c).2) (erase-Keyed login c.channels f.keyed);
}

-- The channel has an allocation of its kind, and the connection that it names has the channel.
pub record Joined (channel : PbChannel) (m : Manager) : Type 0 where
  pub inv : Inv m
  pub allocation : Allocation
  pub conn : Connection
  pub named : lookup channel.id m.channels ≡ some allocation
  pub kind : allocation.anon ≡ channel.use_anonymous
  pub at : lookup allocation.id (conns channel.use_anonymous m) ≡ some conn
  pub has : Has channel conn

-- The end of `JoinChat`, at the connection that was picked.
place-Joined :
    (now : ℕ) (channel : PbChannel) (c : Connection) (m : Manager)
    → c.idx < idx channel.use_anonymous m
    → Fits channel.use_anonymous c.idx c
    → Inv m
    → Joined channel (
        store_conn channel.use_anonymous c.idx (join_channel now channel c).0 (record m {
          channels =
              insert channel.id (record { id = c.idx; anon = channel.use_anonymous }) m.channels;
        }))
place-Joined now channel c m below f v =
    let a : Allocation = record { id = c.idx; anon = channel.use_anonymous } in
    let c' : Connection = (join_channel now channel c).0 in
    let m' : Manager = record m { channels = insert channel.id a m.channels } in
    record {
      inv =
          store-Inv channel.use_anonymous c.idx c' m'
            (join_channel-Fits now channel channel.use_anonymous c.idx c f)
            (allocation-Inv channel.id a m below v);
      allocation = a;
      conn = c';
      named =
          rw (store-channels channel.use_anonymous c.idx c' m')
            (lookup-insert_self channel.id a m.channels);
      kind = refl;
      at = lookup-store_self channel.use_anonymous c.idx c' m';
      has = join_channel-Has now channel c;
    }

pub allocate_chat_lem :
    (limit now : ℕ) (channel : PbChannel) (m : Manager)
    → Ready channel.use_anonymous m
    → Inv m
    → (m' : Manager) × (actions : List Action) × (allocate_chat limit now channel m
        ≡ ok (m', actions))
      × Joined channel m'
      × (conns (not channel.use_anonymous) m' ≡ conns (not channel.use_anonymous) m)
unfolding allocate_chat
allocate_chat_lem limit now channel m r v =
    let (m1, c, e, p) = pick_conn_lem limit channel.use_anonymous m r v in
    rw e (
      _,
      _,
      refl,
      place-Joined now channel c m1 p.below p.fits p.inv,
      store-others channel.use_anonymous c.idx _ _
          ∙ conns-channels (not channel.use_anonymous) _ m1
          ∙ p.others,
    )
