-- ===== src/Slave/Connection/Messages.antt =====
-- internal/modes/slave/manager/connection.go: what `onMessage` announces to the master and what it
-- publishes on Redis.
use waterhose.Prelude.{
  ℕ, Bool, true, false, not, map, codes, ◌++◌, ◌&&◌, ◌||◌, List, [], ◌∷◌, some, ◌≡◌, refl, arith,
  Bytes, string_eq, if◌then◌else◌,
}
use waterhose.Prelude.Dict.{lookup, lookup-insert_self}
use waterhose.Irc.Slice.{trim_left_hash}
use waterhose.Structures.{PbChannel}
use waterhose.Irc.Message.{
  Message, MessageType, type_name, room_state, join, part, notice, channel_suspended, banned,
}
use waterhose.Slave.Connection.{
  Channel, Connection, Action, on_message, handle, join_channel, mark_joined, is_joined,
  is_own_join, touch, update, store, parted, publish_event, publish_chat, joined_event,
}

-- The channels that are announced as joined.
abbrev pub announced : List Action → List PbChannel
announced [] = []
announced (publish_event joined_event channel ∷ actions) = channel ∷ announced actions
announced (_ ∷ actions) = announced actions

-- What goes out on the chat topics: the topics, with the texts.
abbrev pub chats : List Action → List (Bytes × Bytes)
chats [] = []
chats (publish_chat topic text ∷ actions) = (topic, text) ∷ chats actions
chats (_ ∷ actions) = chats actions

-- The topics of a message of a type in the channel with an id: of all messages, of all in the channel,
-- of all of the type, and of those of the type in the channel.
abbrev pub topics : Bytes → Bytes → List Bytes
topics type id =
    codes "twitch-irc-chat-messages:ALL:GLOBAL"
    ∷ (codes "twitch-irc-chat-messages:ALL:" ++ id)
    ∷ (codes "twitch-irc-chat-messages:" ++ (type ++ codes ":GLOBAL"))
    ∷ (codes "twitch-irc-chat-messages:" ++ (type ++ (codes ":" ++ id)))
    ∷ []

-- The entry that is announced: a ban of the bot stands in it only where the connection is anonymous.
abbrev pub unbanned : Connection → PbChannel → PbChannel
unbanned c raw = record raw { bot_banned = raw.bot_banned && c.anon }

-- A message that says that the bot is in the channel.
abbrev pub confirms : MessageType → Message → Connection → Bool
confirms room_state m c = true
confirms join m c = is_own_join m c
confirms _ m c = false

-- A notice that the channel is suspended, or that the bot is banned in it.
abbrev pub refuses : MessageType → Message → Bool
refuses notice m = channel_suspended m.tags || banned m.tags
refuses _ m = false

-- The actions of a handler for a message of the type, where the entry is `ch`.
abbrev Acts : MessageType → Message → Channel → Connection → Connection × List Action → Type 0
Acts t m ch c r =
    (announced r.1
      ≡ (if not (is_joined ch.state) && confirms t m c then unbanned c ch.raw ∷ [] else []))
    × (chats r.1 ≡ (
        if refuses t m
        then []
        else map (λ topic. (topic, m.raw)) (topics (type_name m.type) ch.raw.id)))

join_parted :
    (now : ℕ) (login : Bytes) (ch : Channel) (c : Connection)
    → ch.raw.login ≡ login
    → (join_channel now ch.raw (store (update now parted ch) login c)).1 ≡ []
unfolding join_channel
join_parted now login ch c l =
    ground (arith, l, lookup-insert_self login (update now parted ch) c.channels)

handle-Acts :
    (t : MessageType) (now : ℕ) (login : Bytes) (m : Message) (ch : Channel) (c : Connection)
    → ch.raw.login ≡ login
    → Acts t m ch c (handle t now login m ch c)
unfolding handle mark_joined
handle-Acts room_state now login m ch c l = ground arith
handle-Acts join now login m ch c l = ground arith
handle-Acts part now login m ch c l = ground (arith, join_parted now login ch c l)
handle-Acts notice now login m ch c l = ground arith
handle-Acts _ now login m ch c l = ground arith

confirms-store :
    (t : MessageType) (m : Message) (ch : Channel) (login : Bytes) (c : Connection)
    → confirms t m (store ch login c) ≡ confirms t m c
confirms-store join m ch login c = refl
confirms-store _ m ch login c = refl

-- A message in a channel that the connection has, under its own login, announces one channel as
-- joined, which is that of the entry, without a ban of the bot unless the connection is anonymous, if
-- the entry was not joined and the message is ROOMSTATE or the bot's own JOIN, and no channel
-- otherwise; and the text of the message is published once on each of its four topics, which name all
-- types or its type, and all channels or the id of its channel, unless it is a notice of a suspension
-- or of a ban of the bot.
pub on_message_acts :
    (now : ℕ) (m : Message) (ch : Channel) (c : Connection)
    → lookup (trim_left_hash m.channel) c.channels ≡ some ch
    → ch.raw.login ≡ trim_left_hash m.channel
    → (announced (on_message now m c).1
        ≡ (if not (is_joined ch.state) && confirms m.type m c then unbanned c ch.raw ∷ [] else []))
      × (chats (on_message now m c).1 ≡ (
          if refuses m.type m
          then []
          else map (λ topic. (topic, m.raw)) (topics (type_name m.type) ch.raw.id)))
unfolding on_message
on_message_acts now m ch c e l =
    let login = trim_left_hash m.channel in
    rw (on_message, e, ← confirms-store m.type m (touch now ch) login c)
      (handle-Acts m.type now login m (touch now ch) (store (touch now ch) login c) l)
