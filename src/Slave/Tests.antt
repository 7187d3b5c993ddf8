-- ===== src/Slave/Tests.antt =====
-- The connections and the manager at concrete inputs.
use waterhose.Prelude.{
  true, false, not, ◌&&◌, ◌≡◌, refl, [], ◌∷◌, List, some, codes, ok, bytes_eq, bytes_eq_iff, arith,
  if◌then◌else◌, string_eq, nat_eq,
}
use waterhose.Prelude.Dict.{lookup, insert}
use waterhose.Prelude.Int.{pos}
use waterhose.Structures.{PbChannel}
use waterhose.Irc.Client.{Client, waiting}
use waterhose.Irc.Slice.{trim_left_hash}
use waterhose.Irc.Message.{Message, room_state}
use waterhose.Slave.Connection.{
  on_message, is_joined, Channel, Connection, Action, join_requested, part_channel,
}
use waterhose.Prelude.{map}
use waterhose.Irc.Message.{type_name}
use waterhose.Slave.Connection.Count.{Sound, joins, run, run-Sound}
use waterhose.Slave.Connection.Messages.{
  announced, chats, confirms, refuses, topics, unbanned, on_message_acts,
}
use waterhose.Slave.Manager.{
  Manager, Allocation, ConnectionOptions, new_manager, new_connection, join_chat, part_chat,
}
use waterhose.Slave.Manager.Invariant.{new_manager-Inv}
use waterhose.Slave.Manager.Pick.{Ready}
use waterhose.Slave.Manager.Allocate.{Joined}
use waterhose.Slave.Manager.Join.{Left, join_chat_lem}

abbrev channel : PbChannel
channel = record {
  id = codes "1";
  login = codes "forsen";
  priority = pos 0;
  use_anonymous = true;
  bot_banned = false;
}

abbrev client : Client
client = record {
  username = codes "bot";
  oauth = codes "oauth:x";
  write_ch = [];
  err = waiting;
  ping_sent = false;
  connected = true;
}

abbrev entry : Channel
entry = record { ref = 0; state = join_requested; last_event = 0; raw = channel }

abbrev empty : Connection
empty = new_connection client 0 true (record { username = codes "bot"; oauth = codes "oauth:x" })

empty-Sound : Sound 0 empty
unfolding lookup
empty-Sound = record {
  keyed = record { is_map = tt; login_key = λ login ch e. absurd (cc) };
  counted = refl;
}

-- The connection with one entry.
abbrev one : Connection
one = record empty { channels = (channel.login, entry) ∷ []; len = pos 1 }

one_lookup : lookup channel.login one.channels ≡ some entry
unfolding lookup bytes_eq
one_lookup = refl

one-Sound : Sound 0 one
unfolding lookup
one-Sound = record {
  keyed = record {
    is_map = (refl, tt);
    login_key = λ login ch e. ground (arith, bytes_eq_iff channel.login login);
  };
  counted = refl;
}

run-Sound_example : Sound 0 (run ((5, joins channel) ∷ []) empty)
run-Sound_example = run-Sound ((5, joins channel) ∷ []) 0 empty empty-Sound

-- The ROOMSTATE of the channel.
abbrev roomstate : Message
roomstate = record {
  raw = codes ":tmi.twitch.tv ROOMSTATE #forsen";
  source = codes "tmi.twitch.tv";
  type = room_state;
  channel = codes "#forsen";
  user = [];
  content = [];
  tags = [];
}

roomstate_lookup : lookup (trim_left_hash roomstate.channel) one.channels ≡ some entry
unfolding lookup bytes_eq trim_left_hash
roomstate_lookup = refl

roomstate_login : entry.raw.login ≡ trim_left_hash roomstate.channel
unfolding trim_left_hash
roomstate_login = refl

on_message_acts_example :
    (announced (on_message 7 roomstate one).1 ≡ (
      if not (is_joined entry.state) && confirms room_state roomstate one
      then unbanned one entry.raw ∷ []
      else []))
    × (chats (on_message 7 roomstate one).1 ≡ (
        if refuses room_state roomstate
        then []
        else map (λ topic. (topic, roomstate.raw)) (topics (type_name room_state) entry.raw.id)))
on_message_acts_example = on_message_acts 7 roomstate entry one roomstate_lookup roomstate_login

anonymous-Ready : Ready true new_manager
unfolding bytes_eq
anonymous-Ready = record { login = refl; password = refl; room = omega arith }

join_chat_lem_example :
    (m' : Manager) × (actions : List Action) × (join_chat 50 5 channel new_manager
      ≡ ok (m', actions))
    × Joined channel m'
    × Left channel new_manager m'
join_chat_lem_example = join_chat_lem 50 5 channel new_manager anonymous-Ready new_manager-Inv

abbrev anonymous_0 : Allocation
anonymous_0 = record { id = 0; anon = true }

-- A manager with an anonymous connection that has the channel, and a connection with an account.
abbrev both : Manager
both = record {
  channels = (codes "1", anonymous_0) ∷ [];
  irc_conns = (0, empty) ∷ [];
  irc_idx = 1;
  irc_anon_conns = (0, one) ∷ [];
  irc_anon_idx = 1;
  options = record { username = codes "bot"; oauth = codes "oauth:x" };
}

both_lookup : lookup channel.id both.channels ≡ some anonymous_0
unfolding lookup bytes_eq
both_lookup = refl

abbrev parted : Manager
parted = record both { irc_conns = (0, part_channel channel.login empty) ∷ [] }

parts : part_chat channel both ≡ ok parted
unfolding part_chat lookup bytes_eq insert
parts = refl

abbrev renewed : ConnectionOptions
renewed = record { username = codes "bot"; oauth = codes "oauth:y" }

first_conn : lookup 0 both.irc_conns ≡ some empty
unfolding lookup
first_conn = refl
