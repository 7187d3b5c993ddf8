-- ===== src/Svc/Events.antt =====
-- internal/svc/events/events.go: the topics of the events between the parts of the master.
pub mod Topics
use waterhose.Prelude.{List, [], ◌∷◌, ◌++◌, Bytes, codes}
use waterhose.Prelude.Int.{ℤ}
use waterhose.Structures.{Channel}
use waterhose.Strconv.{itoa}

-- `SlaveChannelUpdateFormat`
unfoldable pub slave_channel_update_format : ℤ → Bytes
slave_channel_update_format idx = codes "slave-channel-update:" ++ itoa idx

-- `TwitchChatLoginFormat`
unfoldable pub twitch_chat_login_format : Bytes → Bytes
twitch_chat_login_format account_id = codes "twitch-chat-login:" ++ account_id

-- What `PublishRaw` is given: a topic, and channels or nothing.
pub data Event : Type 0 where
  channels_event : Bytes → List Channel → Event
  login_event : Bytes → Event

abbrev pub topic : Event → Bytes
topic (channels_event t _) = t
topic (login_event t) = t

-- `PublishSlaveChannelUpdate`
abbrev pub publish_slave_channel_update : ℤ → List Channel → Event
publish_slave_channel_update idx channels =
    channels_event (slave_channel_update_format idx) channels

-- `PublishTwitchChatLogin`
abbrev pub publish_twitch_chat_login : Bytes → Event
publish_twitch_chat_login account_id = login_event (twitch_chat_login_format account_id)
