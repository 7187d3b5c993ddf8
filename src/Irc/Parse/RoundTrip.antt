-- ===== src/Irc/Parse/RoundTrip.antt =====
-- internal/modes/slave/irc/irc.go: `ParseMessage` on lines in the wire format.
use mathlib.Core.List.{append_assoc}
use waterhose.Prelude.{
  ℕ, ◌≤◌, false, List, [], ◌∷◌, ◌++◌, ◌≡◌, refl, ap, ◌∙◌, some, arith, Bytes, bytes_eq, ◌==◌,
  length, length-append, take-append, All, ok,
}
use waterhose.Irc.Slice.{slice_from, slice_to, index_byte, split_n}
use waterhose.Irc.Slice.Laws.{
  Lacks, index_byte-append, index_byte-none, drop_add-append, split_n-cut, slice_from-append,
  AsciiWord, trim_space-append,
}
use waterhose.Irc.Message.{IrcTags, Message, MessageType, privmsg, type_name}
use waterhose.Irc.Message.Names.{to_message_type-type_name}
use waterhose.Irc.Tags.{parse_tags}
use waterhose.Irc.Tags.RoundTrip.{
  IsTag, print_tags, insert_tags, print_tags-append, parse_tags-print_tags,
}
use waterhose.Irc.Parse.{
  has_no_params, blank_message, set_user, set_params, read_command, parse_tagged, parse_message,
}

-- A line that does not begin with `P` is neither PING nor PONG.
pub parse_message-parse_tagged :
    (c : ℕ) (cs : Bytes)
    → (c == b'P') ≡ false
    → 3 ≤ length cs
    → parse_message (c ∷ cs) ≡ parse_tagged (c ∷ cs)
unfolding parse_message slice_to bytes_eq
parse_message-parse_tagged c cs h n = ground arith

-- The split of a line into its source, command and parameters.
pub split_three :
    (source command params : Bytes)
    → Lacks b' ' source
    → Lacks b' ' command
    → split_n (source ++ (b' ' ∷ (command ++ (b' ' ∷ params)))) b' ' 3
      ≡ source ∷ command ∷ params ∷ []
unfolding split_n
split_three source command params h k =
    split_n-cut source _ b' ' 1 h ∙ ap (◌∷◌ source) (split_n-cut command params b' ' 0 k)

pub type_name-Lacks : (t : MessageType) → Lacks b' ' (type_name t)
unfolding type_name
type_name-Lacks privmsg = ground arith
type_name-Lacks _ = ground arith

-- The source of a message: a server, or a client with its nickname in front of `!`.
pub data Origin : Type 0 where
  server : Bytes → Origin
  client : Bytes → Bytes → Origin

abbrev pub print_origin : Origin → Bytes
print_origin (server host) = host
print_origin (client nick host) = nick ++ (b'!' ∷ host)

abbrev pub origin_user : Origin → Bytes
origin_user (server host) = []
origin_user (client nick host) = nick

abbrev pub IsOrigin : Origin → Type 0
IsOrigin (server host) = Lacks b'!' host
IsOrigin (client nick host) = Lacks b'!' nick

-- The parts of a line: tags, source, command, channel and text.
pub record Line : Type 0 where
  pub tags : List (Bytes × Bytes)
  pub origin : Origin
  pub type : MessageType
  pub channel : Bytes
  pub content : Bytes

abbrev command_text : Line → Bytes
command_text l =
    print_origin l.origin
    ++ (b' ' ∷ (type_name l.type ++ (b' ' ∷ (l.channel ++ (b' ' ∷ b':' ∷ l.content)))))

abbrev pub print_command : Line → Bytes
print_command l = b':' ∷ command_text l

abbrev pub with_tags : List (Bytes × Bytes) → Bytes → Bytes
with_tags [] rest = rest
with_tags (t ∷ ts) rest = b'@' ∷ print_tags t ts rest

abbrev pub tags_map : List (Bytes × Bytes) → IrcTags
tags_map [] = []
tags_map (t ∷ ts) = insert_tags t ts []

abbrev pub print_line : Line → Bytes
print_line l = with_tags l.tags (print_command l)

-- What the format can express, for the types that have a channel parameter.
pub record IsLine (l : Line) : Type 0 where
  pub tags_fit : All IsTag l.tags
  pub origin_fits : IsOrigin l.origin
  pub origin_one_word : Lacks b' ' (print_origin l.origin)
  pub has_channel : has_no_params l.type ≡ false
  pub channel_one_word : AsciiWord l.channel
  pub channel_no_colon : Lacks b':' l.channel

Lacks-append : (b : ℕ) (xs ys : Bytes) → Lacks b xs → Lacks b ys → Lacks b (xs ++ ys)
Lacks-append b [] ys h k = k
Lacks-append b (x ∷ xs) ys h k = (h.0, Lacks-append b xs ys h.1 k)

set_user_lem :
    (m : Message) (o : Origin)
    → m.source ≡ print_origin o
    → m.user ≡ []
    → IsOrigin o
    → set_user m ≡ record m { user = origin_user o }
set_user_lem m (server host) e u h = ground (arith, index_byte-none m.source b'!' (rw e h))
set_user_lem m (client nick host) e u h =
    ground (arith, index_byte-append nick host b'!' h, take-append nick (b'!' ∷ host))

set_params_lem :
    (m : Message) (channel content : Bytes)
    → AsciiWord channel
    → Lacks b':' channel
    → set_params m (channel ++ (b' ' ∷ b':' ∷ content))
      ≡ record m { content = content; channel = channel }
set_params_lem m channel content s c = rw assoc (
    rw (found, set_params)
      (rw (take-append p _, drop_add-append p content b':', trim_space-append channel s)))
  where
    p : Bytes
    p = channel ++ b' ' ∷ []

    assoc : channel ++ (b' ' ∷ b':' ∷ content) ≡ p ++ (b':' ∷ content)
    assoc = simp append_assoc

    found : index_byte (p ++ (b':' ∷ content)) b':' ≡ some (length p)
    found = index_byte-append p content b':' (Lacks-append b':' channel (b' ' ∷ []) c (refl, tt))

-- Behind the tags: the whole of `ParseMessage` on the split line.
read_command_lem :
    (m : Message) (l : Line)
    → m.user ≡ []
    → IsLine l
    → read_command m (split_n (print_command l) b' ' 3)
      ≡ ok (record m {
        source = print_origin l.origin;
        user = origin_user l.origin;
        type = l.type;
        content = l.content;
        channel = l.channel;
      })
unfolding read_command
read_command_lem m l u h =
    rw
      (split_three (b':' ∷ print_origin l.origin) (type_name l.type) _ (refl, h.origin_one_word)
        (type_name-Lacks l.type))
      (rw (set_user_lem (record m { source = print_origin l.origin }) l.origin refl u h.origin_fits)
        (rw (to_message_type-type_name l.type, h.has_channel)
          (ap ok (
            set_params_lem
              (record m {
                source = print_origin l.origin;
                user = origin_user l.origin;
                type = l.type;
              })
              l.channel l.content h.channel_one_word h.channel_no_colon))))

pub parse_tags-with_tags :
    (ts : List (Bytes × Bytes)) (rest : Bytes)
    → All IsTag ts
    → parse_tags (with_tags ts (b':' ∷ rest)) ≡ ok (some (tags_map ts, length (with_tags ts [])))
parse_tags-with_tags [] rest h = unfold parse_tags in refl
parse_tags-with_tags (t ∷ ts) rest h =
    parse_tags-print_tags t ts (b':' ∷ rest) h.0 h.1
    ∙ ap (λ n. ok (some (insert_tags t ts [], n))) (omega arith)

with_tags-append :
    (ts : List (Bytes × Bytes)) (rest : Bytes) → with_tags ts rest ≡ with_tags ts [] ++ rest
with_tags-append [] rest = refl
with_tags-append (t ∷ ts) rest = ap (◌∷◌ b'@') (print_tags-append t ts rest)

pub slice_from-with_tags :
    (ts : List (Bytes × Bytes)) (rest : Bytes)
    → slice_from (with_tags ts rest) (length (with_tags ts [])) ≡ ok rest
slice_from-with_tags ts rest =
    rw (with_tags-append ts rest) (slice_from-append (with_tags ts []) rest _ refl)

parse_tagged-print_line :
    (l : Line)
    → IsLine l
    → parse_tagged (print_line l)
      ≡ ok (
          some (record {
            raw = print_line l;
            source = print_origin l.origin;
            type = l.type;
            channel = l.channel;
            user = origin_user l.origin;
            content = l.content;
            tags = tags_map l.tags;
          }))
unfolding parse_tagged
parse_tagged-print_line l h = rw (parse_tags-with_tags l.tags (command_text l) h.tags_fit) (
    rw (slice_from-with_tags l.tags (print_command l)) (
      rw (
        read_command_lem (record (blank_message (print_line l)) { tags = tags_map l.tags }) l refl
          h)))

length-print_command : (l : Line) → 5 ≤ length (print_command l)
length-print_command l = omega (
  arith,
  length-append (print_origin l.origin)
      (b' ' ∷ (type_name l.type ++ (b' ' ∷ (l.channel ++ (b' ' ∷ b':' ∷ l.content))))),
  length-append (type_name l.type) (b' ' ∷ (l.channel ++ (b' ' ∷ b':' ∷ l.content))),
  length-append l.channel (b' ' ∷ b':' ∷ l.content),
)

-- A line with tags or a source in front is no PING or PONG.
pub parse_message-with_tags :
    (ts : List (Bytes × Bytes)) (rest : Bytes)
    → 3 ≤ length rest
    → parse_message (with_tags ts (b':' ∷ rest)) ≡ parse_tagged (with_tags ts (b':' ∷ rest))
parse_message-with_tags [] rest h = parse_message-parse_tagged b':' rest refl h
parse_message-with_tags (t ∷ ts) rest h =
    parse_message-parse_tagged b'@' (print_tags t ts (b':' ∷ rest)) refl (
      omega (
        arith,
        ap length (print_tags-append t ts (b':' ∷ rest)),
        length-append (print_tags t ts []) (b':' ∷ rest),
      ))

-- `ParseMessage` reads back every line that is printed as optional tags, a source, a command with a
-- channel parameter, and a text behind ` :`. The user is the nickname in front of `!`, and is empty
-- for a source that holds no `!`. The text is arbitrary; the channel is one word of ASCII without a colon.
pub parse_message-print_line :
    (l : Line)
    → IsLine l
    → parse_message (print_line l)
      ≡ ok (
          some (record {
            raw = print_line l;
            source = print_origin l.origin;
            type = l.type;
            channel = l.channel;
            user = origin_user l.origin;
            content = l.content;
            tags = tags_map l.tags;
          }))
parse_message-print_line l h =
    parse_message-with_tags l.tags _ (omega (arith, length-print_command l))
    ∙ parse_tagged-print_line l h
