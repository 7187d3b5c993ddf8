-- ===== src/System/Rows/Tests.antt =====
-- A ROOMSTATE of a channel that a slave has asked to join, and the row of the channel.
use mathlib.Core.Option
use waterhose.Prelude.{
  ℕ, suc, true, false, [], ◌∷◌, map, Option, none, some, ◌≡◌, ◌≢◌, refl, ap, arith, Bytes, codes,
  bytes_eq, bytes_eq_refl, bytes_eq_iff, string_eq, if◌then◌else◌, ok,
}
use waterhose.Prelude.Dict.{lookup}
use waterhose.Prelude.Int.{pos}
use waterhose.Structures
use waterhose.Structures.{PbChannel}
use waterhose.Irc.Client.{Client, waiting}
use waterhose.Irc.Slice.{trim_left_hash}
use waterhose.Irc.Message.{Message, room_state}
use waterhose.Slave.Connection.{Channel, Connection, join_requested, on_message}
use waterhose.Slave.Manager.{new_connection}
use waterhose.Master.Server.{Collection, Loader}
use waterhose.Master.Server.Calls.{IsLoader, IsCollection, apply_update}
use waterhose.System.Rows.Heard.{Agrees}
use waterhose.System.Rows.{tell_all, on_message_rows}

abbrev loader : Loader
loader = record { State = ℕ; load_all = λ s channels. (map (λ c. none) channels, s) }

loader-IsLoader : IsLoader loader
loader-IsLoader s [] = refl
loader-IsLoader s (channel ∷ channels) = ap suc (loader-IsLoader s channels)

abbrev rows : Collection
rows = record {
  State = Bytes → Option Structures.Channel;
  update_one = λ s id u.
      (true, λ other. if bytes_eq id other then Option.map (apply_update u) (s other) else s other);
}

rows-IsCollection : IsCollection rows (λ s. s)
rows-IsCollection = record {
  own_row = λ s id u h. rw (bytes_eq_refl id) refl;
  other_row = λ s id other u h. ground (arith, bytes_eq_iff id other);
}

abbrev channel : PbChannel
channel = record {
  id = codes "1";
  login = codes "forsen";
  priority = pos 0;
  use_anonymous = true;
  bot_banned = false;
}

abbrev stored_row : Structures.Channel
stored_row = record {
  twitch_id = codes "1";
  twitch_login = codes "forsen";
  priority = pos 0;
  edge_node = pos 0;
  state = Structures.unknown;
  use_anonymous = true;
  bot_banned = true;
}

abbrev one_row : Bytes → Option Structures.Channel
one_row id = some stored_row

abbrev entry : Channel
entry = record { ref = 0; state = join_requested; last_event = 0; raw = channel }

abbrev client : Client
client = record {
  username = codes "bot";
  oauth = codes "oauth:x";
  write_ch = [];
  err = waiting;
  ping_sent = false;
  connected = true;
}

abbrev connection : Connection
connection =
    record (new_connection client 0 true
      (record { username = codes "bot"; oauth = codes "oauth:x" })) {
        channels = (channel.login, entry) ∷ [];
        len = pos 1;
      }

abbrev roomstate : Message
roomstate = record {
  raw = codes ":tmi.twitch.tv ROOMSTATE #forsen";
  source = codes "tmi.twitch.tv";
  type = room_state;
  channel = codes "#forsen";
  user = [];
  content = [];
  tags = [];
}

on_message_rows_example :
    (rows' : rows.State) × (ch' : Channel) × (r' : Structures.Channel) × (tell_all loader rows
        (on_message 7 roomstate connection).1
        one_row
        0
      ≡ ok (rows', 0))
    × (lookup (trim_left_hash roomstate.channel) (on_message 7 roomstate connection).0.channels
        ≡ some ch')
    × (rows' channel.id ≡ some r')
    × Agrees ch' r'
    × ((other : Bytes) → channel.id ≢ other → rows' other ≡ one_row other)
unfolding lookup bytes_eq trim_left_hash
on_message_rows_example =
    on_message_rows loader loader-IsLoader rows (λ s. s) rows-IsCollection (λ s id u. refl) 7
      roomstate connection entry one_row 0 stored_row refl refl refl
      (record { when_joined = λ e. absurd cc; when_suspended = λ e. cc; when_banned = λ e. cc })
