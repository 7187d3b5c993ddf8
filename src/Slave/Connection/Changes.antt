-- ===== src/Slave/Connection/Changes.antt =====
-- internal/modes/slave/manager/connection.go: what each step does to the map of channels and to
-- `length`.
use waterhose.Prelude.{
  ℕ, Bool, not, ◌&&◌, List, [], ◌∷◌, ◌≡◌, refl, sym, ◌∙◌, inl, inr, Option, none, some, arith,
  Bytes, if_both, bytes_eq, bytes_cases, Bool-cases, Option-cases, codes, ◌++◌, string_eq, ◌==◌,
}
use waterhose.Prelude.Dict.{
  Dict, lookup, insert, erase, IsMap, lookup-insert_self, lookup-insert_ne, lookup-erase_ne,
  lookup-erase_self, insert-IsMap, erase-IsMap,
}
use waterhose.Prelude.Int.{succ}
use waterhose.Structures.{PbChannel}
use waterhose.Irc.Slice.{trim_left_hash}
use waterhose.Irc.Message.{
  Message, MessageType, join, part, notice, room_state, channel_suspended, banned,
}
use waterhose.Irc.Client.{write}
use waterhose.Slave.Connection.{
  ChannelState, Channel, Connection, JoinTask, Action, range_channels, rejoin, bot_banned,
  is_own_join, anonymous, touch, update, store, join_channel, update_entry, start_join, finish_join,
  mark_joined, handle, on_message, on_connect, new_entry, is_joined, waiting_limits, join_requested,
  joined, parted, unknown, suspended, unban,
}

-- The map's keys are distinct, and each is the login of its channel.
pub record Keyed (m : Dict Bytes Channel) : Type 0 where
  pub is_map : IsMap m
  pub login_key : (login : Bytes) (ch : Channel) → lookup login m ≡ some ch → ch.raw.login ≡ login

-- What one statement of a handler does to the map and to `length`: nothing, a write to the entry of
-- a key, or a new entry, counted.
pub data Change (c c' : Connection) : Type 0 where
  leaves : c'.channels ≡ c.channels → c'.len ≡ c.len → Change c c'
  puts :
      (ch old : Channel)
      → lookup ch.raw.login c.channels ≡ some old
      → c'.channels ≡ insert ch.raw.login ch c.channels
      → c'.len ≡ c.len
      → Change c c'
  adds :
      (ch : Channel)
      → lookup ch.raw.login c.channels ≡ none
      → c'.channels ≡ insert ch.raw.login ch c.channels
      → c'.len ≡ succ c.len
      → Change c c'

pub data Changes (c : Connection) : Connection → Type 0 where
  here : Changes c c
  next : {d e : Connection} → Changes c d → Change d e → Changes c e

insert-Keyed : (ch : Channel) (m : Dict Bytes Channel) → Keyed m → Keyed (insert ch.raw.login ch m)
insert-Keyed ch m k = record {
  is_map = insert-IsMap ch.raw.login ch m k.is_map;
  login_key = λ other d f. elim (bytes_cases ch.raw.login other) [
    | inl same ↦ ground (arith, lookup-insert_self ch.raw.login ch m)
    | inr apart ↦ k.login_key other d (sym (lookup-insert_ne ch.raw.login other ch m apart) ∙ f)
  ];
}

pub erase-Keyed : (login : Bytes) (m : Dict Bytes Channel) → Keyed m → Keyed (erase login m)
erase-Keyed login m k = record {
  is_map = erase-IsMap login m k.is_map;
  login_key = λ other d f. elim (bytes_cases login other) [
    | inl same ↦ absurd (ground (arith, lookup-erase_self login m k.is_map))
    | inr apart ↦ k.login_key other d (sym (lookup-erase_ne login other m apart) ∙ f)
  ];
}

pub Change-Keyed : {c c' : Connection} → Change c c' → Keyed c.channels → Keyed c'.channels
Change-Keyed (leaves e l) k = rw e k
Change-Keyed {c} (puts ch old f e l) k = rw e (insert-Keyed ch c.channels k)
Change-Keyed {c} (adds ch f e l) k = rw e (insert-Keyed ch c.channels k)

pub join_channel-Change :
    (now : ℕ) (channel : PbChannel) (c : Connection) → Change c (join_channel now channel c).0
unfolding join_channel
join_channel-Change now channel c = elim (Option-cases (lookup channel.login c.channels)) [
  | inl new ↦ adds (touch now (new_entry now channel c)) new (ground arith) (ground arith)
  | inr (old, e) ↦ elim (Bool-cases (is_joined old.state)) [
    | inl on ↦ puts (record old { raw = channel }) old e (ground arith) (ground arith)
    | inr off ↦ puts (touch now (record old { raw = channel })) old e (ground arith) (ground arith)
  ]
]

update_entry-Change :
    (now : ℕ) (st : ChannelState) (t : JoinTask) (c : Connection)
    → Keyed c.channels
    → Change c (update_entry now st t c)
update_entry-Change now st t c k = elim (Option-cases (lookup t.channel.login c.channels)) [
  | inl gone ↦ leaves (ground arith) (ground arith)
  | inr (ch, e) ↦ elim (Bool-cases (ch.ref == t.ref)) [
    | inl mine ↦
        puts (update now st ch) ch (ground (arith, k.login_key t.channel.login ch e))
          (ground (arith, k.login_key t.channel.login ch e)) (ground arith)
    | inr other ↦ leaves (ground arith) (ground arith)
  ]
]

pub one : {c c' : Connection} → Change c c' → Changes c c'
one h = next here h

pub start_join-Changes :
    (now : ℕ) (t : JoinTask) (c : Connection) → Keyed c.channels → Changes c (start_join now t c)
unfolding start_join
start_join-Changes now t c k =
    if_both (Changes c) (not c.anon) (one (update_entry-Change now waiting_limits t c k)) here

pub finish_join-Changes :
    (now : ℕ) (granted : Bool) (t : JoinTask) (c : Connection)
    → Keyed c.channels
    → Changes c (finish_join now granted t c)
unfolding finish_join
finish_join-Changes now granted t c k =
    let asked = update_entry-Change now join_requested t c k in
    let c1 = update_entry now join_requested t c in
    elim (Bool-cases (not c.anon && not granted)) [
      | inl refused ↦ rw refused here
      | inr go ↦ elim (Option-cases (write (codes "JOIN #" ++ t.channel.login) c1.client)) [
        | inl off ↦
            rw (go) (
              rw off
                (next (one asked) (update_entry-Change now parted t c1 (Change-Keyed asked k))))
        | inr (client, on) ↦ rw (go) (rw on (next (one asked) (leaves refl refl)))
      ]
    ]

store-Change :
    (ch old : Channel) (login : Bytes) (c : Connection)
    → lookup login c.channels ≡ some old
    → ch.raw.login ≡ login
    → Change c (store ch login c)
store-Change ch old login c e l = puts ch old (rw l e) (rw l) refl

mark_joined-Change :
    (now : ℕ) (login : Bytes) (ch : Channel) (c : Connection)
    → lookup login c.channels ≡ some ch
    → ch.raw.login ≡ login
    → Change c (mark_joined now login ch c).0
unfolding mark_joined
mark_joined-Change now login ch c e l = elim (Bool-cases (is_joined ch.state)) [
  | inl on ↦ rw on (store-Change (update now joined ch) ch login c e l)
  | inr off ↦ rw off (
      store-Change (update now joined (record ch { raw = unban c ch })) ch login c e (ground arith))
]

-- The changes of the connection in the result of a handler.
abbrev pub Result : Connection → Connection × List Action → Type 0
Result c r = Changes c r.0

module _ (now : ℕ) (login : Bytes) (m : Message) (ch : Channel) (c : Connection)
    (at : lookup login c.channels ≡ some ch) (l : ch.raw.login ≡ login) where
  part-Changes : Changes c (join_channel now ch.raw (store (update now parted ch) login c)).0
  part-Changes =
      next (one (store-Change (update now parted ch) ch login c at l))
        (join_channel-Change now ch.raw _)

  handle-Changes : (t : MessageType) → Result c (handle t now login m ch c)
  unfolding handle
  handle-Changes room_state = one (mark_joined-Change now login ch c at l)
  handle-Changes join =
      if_both (Result c) (is_own_join m c) (one (mark_joined-Change now login ch c at l)) here
  handle-Changes part = if_both (Result c) (bytes_eq m.user c.username) part-Changes here
  handle-Changes notice =
      if_both (Result c) (channel_suspended m.tags)
        (one (store-Change (update now suspended ch) ch login c at l))
        (if_both (Result c) (banned m.tags)
          (one (
            store-Change (update now bot_banned (record ch { raw = anonymous ch.raw })) ch login c
              at l))
          here)
  handle-Changes _ = here

Changes-trans : {c d e : Connection} → Changes c d → Changes d e → Changes c e
Changes-trans h here = h
Changes-trans h (next k l) = next (Changes-trans h k) l

Changes-Keyed : {c c' : Connection} → Changes c c' → Keyed c.channels → Keyed c'.channels
Changes-Keyed here k = k
Changes-Keyed (next hs h) k = Change-Keyed h (Changes-Keyed hs k)

pub on_message-Changes :
    (now : ℕ) (m : Message) (c : Connection) → Keyed c.channels → Result c (on_message now m c)
unfolding on_message
on_message-Changes now m c k = go (lookup login c.channels) refl
  where
    login : Bytes
    login = trim_left_hash m.channel

    go : (r : Option Channel) → lookup login c.channels ≡ r → Result c (on_message now m c)
    go none e = rw (e, on_message) here
    go (some ch) e =
        rw (e, on_message)
          (Changes-trans (one (store-Change (touch now ch) ch login c e (k.login_key login ch e))) (
            handle-Changes now login m (touch now ch) (store (touch now ch) login c)
              (lookup-insert_self login (touch now ch) c.channels) (k.login_key login ch e) m.type))

range_channels-Changes :
    (f : Bytes → Channel → Connection → Connection × List Action)
    → ((login : Bytes) (ch : Channel) (c : Connection)
        → Keyed c.channels
        → lookup login c.channels ≡ some ch
        → Result c (f login ch c))
    → (logins : List Bytes) (c : Connection) → Keyed c.channels
    → Result c (range_channels f logins c)
unfolding range_channels
range_channels-Changes f h [] c k = here
range_channels-Changes f h (login ∷ logins) c k =
    go (λ c' k'. range_channels-Changes f h logins c' k') (lookup login c.channels) refl
  where
    go :
        ((c' : Connection) → Keyed c'.channels → Result c' (range_channels f logins c'))
        → (r : Option Channel) → lookup login c.channels ≡ r
        → Result c (range_channels f (login ∷ logins) c)
    go rest none e = rw (e, range_channels) (rest c k)
    go rest (some ch) e =
        let now = h login ch c k e in
        rw (e, range_channels) (Changes-trans now (rest (f login ch c).0 (Changes-Keyed now k)))

rejoin-Changes :
    (now : ℕ) (login : Bytes) (ch : Channel) (c : Connection)
    → Keyed c.channels
    → lookup login c.channels ≡ some ch
    → Result c (rejoin now login ch c)
rejoin-Changes now login ch c k e =
    next (one (store-Change (update now unknown ch) ch login c e (k.login_key login ch e)))
      (join_channel-Change now ch.raw _)

pub on_connect-Changes :
    (now : ℕ) (logins : List Bytes) (c : Connection)
    → Keyed c.channels
    → Result c (on_connect now logins c)
unfolding on_connect
on_connect-Changes now = range_channels-Changes (rejoin now) (rejoin-Changes now)
