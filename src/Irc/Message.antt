-- ===== src/Irc/Message.antt =====
-- internal/modes/slave/irc/irc.go: message types, messages and their tags.
pub mod Names
use waterhose.Prelude.{
  ℕ, Bool, List, [], ◌∷◌, Option, none, some, Bytes, codes, bytes_eq, string_eq, if◌then◌else◌,
}
use waterhose.Prelude.Dict.{Dict, lookup}

pub data MessageType : Type 0 where
  privmsg notice ping pong cap : MessageType
  n001 n002 n003 n004 n353 n366 n372 n375 n376 : MessageType
  unknown join part global_user_state whisper room_state user_state : MessageType
  clear_chat reconnect user_notice : MessageType

pub MessageType-discrete : Discrete MessageType
MessageType-discrete = hlevel

-- The string that a constant `MessageType…` stands for.
unfoldable pub type_name : MessageType → Bytes
type_name privmsg = codes "PRIVMSG"
type_name notice = codes "NOTICE"
type_name ping = codes "PING"
type_name pong = codes "PONG"
type_name cap = codes "CAP"
type_name n001 = codes "001"
type_name n002 = codes "002"
type_name n003 = codes "003"
type_name n004 = codes "004"
type_name n353 = codes "353"
type_name n366 = codes "366"
type_name n372 = codes "372"
type_name n375 = codes "375"
type_name n376 = codes "376"
type_name unknown = codes "UNKNOWN"
type_name join = codes "JOIN"
type_name part = codes "PART"
type_name global_user_state = codes "GLOBALUSERSTATE"
type_name whisper = codes "WHISPER"
type_name room_state = codes "ROOMSTATE"
type_name user_state = codes "USERSTATE"
type_name clear_chat = codes "CLEARCHAT"
type_name reconnect = codes "RECONNECT"
type_name user_notice = codes "USERNOTICE"

-- The constants that the `switch` of `ToMessageType` lists, in its order.
abbrev pub known_types : List MessageType
known_types =
    privmsg ∷ notice ∷ ping ∷ pong ∷ cap ∷ n001 ∷ n002 ∷ n003 ∷ n004 ∷ n353 ∷ n366 ∷ n372 ∷ n375
    ∷ n376 ∷ join ∷ part ∷ whisper ∷ global_user_state ∷ room_state ∷ user_state ∷ clear_chat
    ∷ user_notice ∷ reconnect ∷ []

-- The first case of a `switch s` that fits.
pub first_case : List MessageType → Bytes → MessageType
first_case [] s = unknown
first_case (t ∷ ts) s = if bytes_eq s (type_name t) then t else first_case ts s

unfoldable pub to_message_type : Bytes → MessageType
unfolding first_case
to_message_type s = first_case known_types s

abbrev pub IrcTags : Type 0
IrcTags = Dict Bytes Bytes

pub record Message : Type 0 where
  pub raw : Bytes
  pub source : Bytes
  pub type : MessageType
  pub channel : Bytes
  pub user : Bytes
  pub content : Bytes
  pub tags : IrcTags

abbrev pub msg_id_channel_suspended : Bytes
msg_id_channel_suspended = codes "msg_channel_suspended"

abbrev pub msg_id_banned : Bytes
msg_id_banned = codes "msg_banned"

-- A missing key reads as the empty string.
unfoldable pub message_id : IrcTags → Bytes
message_id tags = elim (lookup (codes "msg-id") tags) [ none ↦ [] | some v ↦ v ]

unfoldable pub channel_suspended : IrcTags → Bool
channel_suspended tags = bytes_eq (message_id tags) msg_id_channel_suspended

unfoldable pub banned : IrcTags → Bool
banned tags = bytes_eq (message_id tags) msg_id_banned
