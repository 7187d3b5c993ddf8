-- ===== src/System/Rows/Heard.antt =====
-- internal/modes/slave/manager/connection.go with internal/modes/master/server/server.go: the entry of a
-- channel behind a message, and its row behind the events of the message.
use waterhose.Prelude.{
  ℕ, true, List, [], ◌∷◌, some, ◌≡◌, refl, arith, Bytes, bytes_eq, string_eq, if_both, Bool-cases,
  inl, inr,
}
use waterhose.Prelude.Dict.{lookup, lookup-insert_self}
use waterhose.Structures.{PbChannel}
use waterhose.Structures
use waterhose.Irc.Message.{
  Message, MessageType, room_state, join, part, notice, channel_suspended, banned,
}
use waterhose.Slave.Connection.{
  Channel, Connection, Action, handle, join_channel, mark_joined, is_joined, is_own_join, touch,
  update, store, parted, publish_event, join_chat_later, joined_event, suspended_event,
  bot_banned_event, joined, suspended, bot_banned, chat_actions, with_chat, unban, anonymous,
}
use waterhose.Master.Server.Calls.{noted}

-- A row behind the events of some actions.
unfoldable pub heard : List Action → Structures.Channel → Structures.Channel
heard [] row = row
heard (publish_event event channel ∷ actions) row = heard actions (noted event channel row)
heard (_ ∷ actions) row = heard actions row

-- What a row says of an entry that is joined, suspended, or marked with the ban of the bot.
pub record Agrees (ch : Channel) (row : Structures.Channel) : Type 0 where
  pub when_joined :
      ch.state ≡ joined → (row.state ≡ Structures.joined) × (row.bot_banned ≡ ch.raw.bot_banned)
  pub when_suspended : ch.state ≡ suspended → row.state ≡ Structures.suspended
  pub when_banned : ch.state ≡ bot_banned → row.bot_banned ≡ true

heard-chat :
    (m : Message) (raw : PbChannel) (row : Structures.Channel)
    → heard (chat_actions m raw) row ≡ row
unfolding heard
heard-chat m raw row = refl

-- Behind a handler, the entry of the channel agrees with the row behind the events.
abbrev pub Handles : Bytes → Structures.Channel → Connection × List Action → Type 0
Handles login row r =
    (ch : Channel) × (lookup login r.0.channels ≡ some ch) × Agrees ch (heard r.1 row)

-- Where an entry is stored and the actions are heard, it is enough that the entry agrees.
stored :
    (login : Bytes) (ch : Channel) (c : Connection) (actions : List Action)
    (row : Structures.Channel)
    → Agrees ch (heard actions row)
    → Handles login row (store ch login c, actions)
stored login ch c actions row a = (ch, lookup-insert_self login ch c.channels, a)

mark_joined-Handles :
    (now : ℕ) (login : Bytes) (m : Message) (raw : PbChannel) (ch : Channel) (c : Connection)
    (row : Structures.Channel)
    → Agrees ch row
    → Handles login row (with_chat m raw (mark_joined now login ch c))
unfolding mark_joined heard
mark_joined-Handles now login m raw ch c row a = elim (Bool-cases (is_joined ch.state)) [
  | inl y ↦ rw y (stored login (update now joined ch) c (chat_actions m raw) row (ground arith))
  | inr n ↦ rw n (
      stored login (update now joined (record ch { raw = unban c ch })) c
        (publish_event joined_event (unban c ch) ∷ chat_actions m raw) row (ground arith))
]

join_channel-Handles :
    (now : ℕ) (login : Bytes) (m : Message) (raw : PbChannel) (ch : Channel) (c : Connection)
    (row : Structures.Channel)
    → ch.raw.login ≡ login
    → Handles login row
        (with_chat m raw (join_channel now ch.raw (store (update now parted ch) login c)))
unfolding join_channel heard
join_channel-Handles now login m raw ch c row l =
    let p = update now parted ch in
    let c' = store p login c in
    let found = lookup-insert_self login p c.channels in
    let again = lookup-insert_self login (touch now p) c'.channels in
    (touch now p, ground (arith, l, found, again), ground arith)

pub handle-Handles :
    (t : MessageType) (now : ℕ) (login : Bytes) (m : Message) (ch : Channel) (c : Connection)
    (row : Structures.Channel)
    → ch.raw.login ≡ login
    → lookup login c.channels ≡ some ch
    → Agrees ch row
    → Handles login row (handle t now login m ch c)
unfolding handle heard
handle-Handles room_state now login m ch c row l e a =
    mark_joined-Handles now login m ch.raw ch c row a
handle-Handles join now login m ch c row l e a =
    if_both (λ r. Handles login row (with_chat m ch.raw r)) (is_own_join m c)
      (mark_joined-Handles now login m ch.raw ch c row a) (ch, e, a)
handle-Handles part now login m ch c row l e a =
    if_both (λ r. Handles login row (with_chat m ch.raw r)) (bytes_eq m.user c.username)
      (join_channel-Handles now login m ch.raw ch c row l) (ch, e, a)
handle-Handles notice now login m ch c row l e a =
    if_both (Handles login row) (channel_suspended m.tags)
      (stored login (update now suspended ch) c (publish_event suspended_event ch.raw ∷ []) row
        (ground arith))
      (if_both (Handles login row) (banned m.tags)
        (stored login (update now bot_banned (record ch { raw = anonymous ch.raw })) c
          (publish_event bot_banned_event ch.raw ∷ join_chat_later (anonymous ch.raw) ∷ []) row
          (ground arith))
        (ch, e, a))
handle-Handles _ now login m ch c row l e a = (ch, e, a)
