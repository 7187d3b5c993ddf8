-- ===== src/Irc/Tests.antt =====
-- Runs of the parser of irc.go on concrete lines, and the properties at concrete inputs.
use waterhose.Prelude.{
  ◌++◌, ◌+◌, false, ◌≡◌, ◌≢◌, refl, [], ◌∷◌, some, codes, ok, panic, bytes_eq, length, arith, true,
}
use waterhose.Prelude.Dict.{insert}
use waterhose.Irc.Slice.{slice_to, slice_from, split_n, index_byte, trim_space, trim_front}
use waterhose.Irc.Message.{privmsg, to_message_type, type_name}
use waterhose.Irc.Tags.{parse_tags}
use waterhose.Irc.Tags.RoundTrip.{IsTag, print_tags, insert_tags, parse_tags-print_tags}
use waterhose.Irc.Parse.{parse_message, has_no_params}
use waterhose.Irc.Parse.RoundTrip.{
  Line, IsLine, client, print_line, print_origin, origin_user, tags_map, parse_message-print_line,
}
use waterhose.Irc.Parse.Panics.{Causes, parse_message_panics}
use waterhose.Irc.Client.{Client, waiting, continues, pinger_tick, ping_line}
use waterhose.Irc.Client.Session.{here, pinger_tick_unanswered}

tagged_privmsg :
    parse_message (codes "@badge-info=;mod=0 :u!u@x PRIVMSG #chan :hi: there")
    ≡ ok (
        some (record {
          raw = codes "@badge-info=;mod=0 :u!u@x PRIVMSG #chan :hi: there";
          source = codes "u!u@x";
          type = privmsg;
          channel = codes "#chan";
          user = codes "u";
          content = codes "hi: there";
          tags = (codes "badge-info", []) ∷ (codes "mod", codes "0") ∷ [];
        }))
unfolding parse_message slice_to bytes_eq parse_tags slice_from split_n index_byte has_no_params
    to_message_type type_name trim_space insert
tagged_privmsg = refl

mod_pair-IsTag : IsTag (codes "mod", codes "1")
mod_pair-IsTag = record {
  key_plain = ground arith;
  key_ne_nil = λ e. cc;
  value_plain = ground arith;
}

parse_tags-print_tags_example :
    parse_tags (b'@' ∷ print_tags (codes "mod", codes "1") [] (codes "x"))
    ≡ ok (
        some (
          insert_tags (codes "mod", codes "1") [] [],
          1 + length (print_tags (codes "mod", codes "1") [] []),
        ))
parse_tags-print_tags_example =
    parse_tags-print_tags (codes "mod", codes "1") [] (codes "x") mod_pair-IsTag tt

trailing : parse_tags (codes "@a=b;") ≡ ok (some ((codes "a", codes "b") ∷ [], 6))
unfolding parse_tags insert bytes_eq
trailing = refl

abbrev line : Line
line = record {
  tags = (codes "mod", codes "1") ∷ [];
  origin = client (codes "u") (codes "u@x");
  type = privmsg;
  channel = codes "#chan";
  content = codes "hi: there";
}

line-IsLine : IsLine line
unfolding has_no_params
line-IsLine = record {
  tags_fit = (mod_pair-IsTag, tt);
  origin_fits = ground arith;
  origin_one_word = ground arith;
  has_channel = refl;
  channel_one_word = ground arith;
  channel_no_colon = ground arith;
}

parse_message-print_line_example :
    parse_message (print_line line)
    ≡ ok (
        some (record {
          raw = print_line line;
          source = print_origin line.origin;
          type = privmsg;
          channel = codes "#chan";
          user = origin_user line.origin;
          content = codes "hi: there";
          tags = tags_map line.tags;
        }))
parse_message-print_line_example = parse_message-print_line line line-IsLine

-- A no-break space is trimmed, like Go's `strings.TrimSpace` does.
wide_space_trims : trim_space (codes "#x" ++ 194 ∷ 160 ∷ []) ≡ codes "#x"
unfolding trim_space trim_front
wide_space_trims = refl

reconnect_panics : parse_message (codes ":tmi RECONNECT") ≡ panic
unfolding parse_message slice_to bytes_eq parse_tags slice_from split_n index_byte has_no_params
    to_message_type type_name
reconnect_panics = refl

parse_message_panics_example : Causes (codes ":tmi RECONNECT")
parse_message_panics_example = parse_message_panics (codes ":tmi RECONNECT") reconnect_panics

abbrev online : Client
online = record {
  username = codes "bot";
  oauth = codes "oauth:x";
  write_ch = [];
  err = waiting;
  ping_sent = false;
  connected = true;
}

abbrev pinged : Client
pinged = record online { write_ch = ping_line ∷ []; ping_sent = true }

first_tick : pinger_tick online ≡ ok (continues pinged [])
unfolding pinger_tick
first_tick = refl

pinger_tick_unanswered_example : pinger_tick pinged ≢ ok (continues online [])
pinger_tick_unanswered_example =
    pinger_tick_unanswered online pinged pinged online [] [] first_tick here
