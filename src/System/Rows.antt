-- ===== src/System/Rows.antt =====
-- internal/modes/slave/manager/connection.go with internal/modes/master/server/server.go: what a message
-- changes in a slave, and what the events that it publishes change in the rows of the master.
pub mod Heard
mod Tests
use mathlib.Core.Option
use mathlib.Core.Path.{subst}
use waterhose.Prelude.{
  ℕ, Bool, true, false, not, ◌&&◌, ◌||◌, List, [], ◌∷◌, ◌++◌, Option, none, some, ◌≡◌, ◌≢◌, refl,
  arith, Bytes, bytes_eq, string_eq, if◌then◌else◌, Outcome, ok, panic, ◌>>=◌, if_both, Bool-cases,
  inl, inr, ap, sym, ◌∙◌,
}
use waterhose.Prelude.Dict.{lookup, lookup-insert_self}
use waterhose.Structures.{PbChannel}
use waterhose.Structures
use waterhose.Irc.Slice.{trim_left_hash}
use waterhose.Irc.Message.{
  Message, MessageType, room_state, join, part, notice, channel_suspended, banned,
}
use waterhose.Slave.Connection.{
  Channel, ChannelState, Connection, Action, on_message, handle, join_channel, mark_joined,
  is_joined, is_own_join, touch, update, store, parted, publish_event, publish_chat,
  join_chat_later, joined_event, suspended_event, bot_banned_event, unknown_event, EventType,
  joined, suspended, bot_banned, chat_actions, with_chat, unban, anonymous, request_join,
}
use waterhose.Master.Server.{Collection, Loader, Answer, Update, publish_slave_channel_event}
use waterhose.Master.Server.Calls.{IsCollection, IsLoader, noted, publish_slave_channel_event_lem}
use waterhose.System.Rows.Heard.{heard, Agrees, handle-Handles}

-- The events of some actions, as the master takes them; an error that it answers is logged.
module _ (loader : Loader) (collection : Collection) where
  unfoldable pub tell_all :
      List Action → collection.State → loader.State → Outcome (collection.State × loader.State)
  unfolding publish_slave_channel_event
  tell_all [] rows s = ok (rows, s)
  tell_all (publish_event event channel ∷ actions) rows s = do
    (a, rows', s') ← publish_slave_channel_event loader collection event channel rows s
    tell_all actions rows' s'
  tell_all (_ ∷ actions) rows s = tell_all actions rows s

-- Events of one channel, none of them that of an unknown one.
abbrev About : Bytes → List Action → Type 0
About id [] = Unit
About id (publish_event event channel ∷ actions) =
    (channel.id ≡ id) × (event ≢ unknown_event) × About id actions
About id (_ ∷ actions) = About id actions

mark_joined-About :
    (now : ℕ) (login : Bytes) (m : Message) (raw : PbChannel) (ch : Channel) (c : Connection)
    → About ch.raw.id (with_chat m raw (mark_joined now login ch c)).1
unfolding mark_joined
mark_joined-About now login m raw ch c =
    if_both (λ r. About ch.raw.id (with_chat m raw r).1) (is_joined ch.state) tt
      (
        if_both (λ (r : PbChannel). r.id ≡ ch.raw.id) (ch.raw.bot_banned && not c.anon) refl refl,
        (λ e. cc),
        tt,
      )

join_channel-About :
    (now : ℕ) (login : Bytes) (m : Message) (raw : PbChannel) (ch : Channel) (c : Connection)
    → ch.raw.login ≡ login
    → About raw.id
        (with_chat m raw (join_channel now ch.raw (store (update now parted ch) login c))).1
unfolding join_channel
join_channel-About now login m raw ch c l = rw (parted_lem) tt
  where
    parted_lem : (join_channel now ch.raw (store (update now parted ch) login c)).1 ≡ []
    parted_lem = ground (arith, l, lookup-insert_self login (update now parted ch) c.channels)

handle-About :
    (t : MessageType) (now : ℕ) (login : Bytes) (m : Message) (ch : Channel) (c : Connection)
    → ch.raw.login ≡ login
    → About ch.raw.id (handle t now login m ch c).1
unfolding handle
handle-About room_state now login m ch c l = mark_joined-About now login m ch.raw ch c
handle-About join now login m ch c l =
    if_both (λ r. About ch.raw.id (with_chat m ch.raw r).1) (is_own_join m c)
      (mark_joined-About now login m ch.raw ch c) tt
handle-About part now login m ch c l =
    if_both (λ r. About ch.raw.id (with_chat m ch.raw r).1) (bytes_eq m.user c.username)
      (join_channel-About now login m ch.raw ch c l) tt
handle-About notice now login m ch c l =
    if_both (λ (r : Connection × List Action). About ch.raw.id r.1) (channel_suspended m.tags)
      (refl, (λ e. cc), tt)
      (if_both (λ (r : Connection × List Action). About ch.raw.id r.1) (banned m.tags)
        (refl, (λ e. cc), tt) tt)
handle-About _ now login m ch c l = tt

map-nil : (o : Option Structures.Channel) → o ≡ Option.map (heard []) o
unfolding heard
map-nil none = refl
map-nil (some row) = refl

map-noted :
    (event : EventType) (channel : PbChannel) (actions : List Action)
    (o : Option Structures.Channel)
    → Option.map (heard actions) (Option.map (noted event channel) o)
      ≡ Option.map (heard (publish_event event channel ∷ actions)) o
unfolding heard
map-noted event channel actions none = refl
map-noted event channel actions (some row) = refl

module _ (loader : Loader) (l : IsLoader loader) (collection : Collection)
    (row : collection.State → Bytes → Option Structures.Channel) (law : IsCollection collection row)
    (works : (s : collection.State) (id : Bytes) (u : Update)
      → (collection.update_one s id u).0 ≡ true) where
  tell_all_lem :
      (actions : List Action) (id : Bytes) (rows : collection.State) (s : loader.State)
      → About id actions
      → (rows' : collection.State) × (tell_all loader collection actions rows s ≡ ok (rows', s))
        × (row rows' id ≡ Option.map (heard actions) (row rows id))
        × ((other : Bytes) → id ≢ other → row rows' other ≡ row rows other)
  unfolding tell_all heard
  tell_all_lem [] id rows s h = (rows, refl, map-nil (row rows id), λ other n. refl)
  tell_all_lem (publish_event event channel ∷ actions) id rows s h =
      let (a, rows1, s1, e1, fine, own, others) =
        publish_slave_channel_event_lem loader l collection row law event channel rows s in
      let (rows2, e2, r2, o2) = tell_all_lem actions id rows1 s h.2 in
      let noted_row : row rows1 id ≡ Option.map (noted event channel) (row rows id) =
        subst (λ i. row rows1 i ≡ Option.map (noted event channel) (row rows i)) h.0
          (own (works rows channel.id _)) in
      (
        rows2,
        rw (tell_all, e1, (fine h.1).1) e2,
        r2
            ∙ (ap (Option.map (heard actions)) noted_row
                ∙ map-noted event channel actions (row rows id)),
        λ other n. o2 other n ∙ others other (λ z. n (sym h.0 ∙ z)),
      )
  tell_all_lem (publish_chat topic text ∷ actions) id rows s h = tell_all_lem actions id rows s h
  tell_all_lem (join_chat_later channel ∷ actions) id rows s h = tell_all_lem actions id rows s h

  -- A message in a channel that a connection has, under its own login, leaves the entry in agreement with
  -- the row of the channel in the master, if it was before and the updates of the rows succeed: the events
  -- that it publishes do not panic there, change no other row, and allocate nothing.
  pub on_message_rows :
      (now : ℕ) (m : Message) (c : Connection) (ch : Channel) (rows : collection.State)
      (s : loader.State) (r : Structures.Channel)
      → lookup (trim_left_hash m.channel) c.channels ≡ some ch
      → ch.raw.login ≡ trim_left_hash m.channel
      → row rows ch.raw.id ≡ some r
      → Agrees ch r
      → (rows' : collection.State) × (ch' : Channel) × (r' : Structures.Channel) × (tell_all loader
            collection
            (on_message now m c).1
            rows
            s
          ≡ ok (rows', s))
        × (lookup (trim_left_hash m.channel) (on_message now m c).0.channels ≡ some ch')
        × (row rows' ch.raw.id ≡ some r')
        × Agrees ch' r'
        × ((other : Bytes) → ch.raw.id ≢ other → row rows' other ≡ row rows other)
  unfolding on_message
  on_message_rows now m c ch rows s r e l k a =
      let login = trim_left_hash m.channel in
      let found = touch now ch in
      let base = store found login c in
      let (rows', t, w, o) =
        tell_all_lem (handle m.type now login m found base).1 ch.raw.id rows s
          (handle-About m.type now login m found base l) in
      let (ch', f, g) =
        handle-Handles m.type now login m found base r l (lookup-insert_self login found c.channels)
          a' in
      (
        rows',
        ch',
        heard (handle m.type now login m found base).1 r,
        rw (on_message, e) t,
        rw (on_message, e) f,
        w ∙ ap (Option.map (heard (handle m.type now login m found base).1)) k,
        g,
        o,
      )
    where
      a' : Agrees (touch now ch) r
      a' = record {
        when_joined = a.when_joined;
        when_suspended = a.when_suspended;
        when_banned = a.when_banned;
      }
