-- ===== src/Irc/Parse.antt =====
-- internal/modes/slave/irc/irc.go: `ParseMessage`.
pub mod RoundTrip
pub mod Panics
use waterhose.Prelude.{
  ◌+◌, Bool, true, false, List, [], ◌∷◌, Option, none, some, Bytes, codes, bytes_eq, if◌then◌else◌,
  take, drop, Outcome, ok, panic, ◌>>=◌,
}
use waterhose.Irc.Slice.{slice_from, slice_to, index_byte, split_n, trim_space}
use waterhose.Irc.Message.{
  MessageType, ping, cap, n001, n002, n003, n004, n353, n366, n372, n375, n376, unknown,
  global_user_state, Message, to_message_type,
}
use waterhose.Irc.Tags.{parse_tags}

-- The types for which `ParseMessage` reads no parameters.
unfoldable pub has_no_params : MessageType → Bool
has_no_params unknown = true
has_no_params global_user_state = true
has_no_params n001 = true
has_no_params n002 = true
has_no_params n003 = true
has_no_params n004 = true
has_no_params n353 = true
has_no_params n366 = true
has_no_params n372 = true
has_no_params n375 = true
has_no_params n376 = true
has_no_params cap = true
has_no_params _ = false

abbrev pub blank_message : Bytes → Message
blank_message line = record {
  raw = line;
  source = [];
  type = unknown;
  channel = [];
  user = [];
  content = [];
  tags = [];
}

-- The nickname in front of `!`, if there is one.
abbrev pub set_user : Message → Message
set_user m = elim (index_byte m.source b'!') [
  | none ↦ m
  | some i ↦ record m { user = take i m.source }
]

-- The channel, and the text behind the first `:`.
abbrev pub set_params : Message → Bytes → Message
set_params m line = elim (index_byte line b':') [
  | none ↦ record m { channel = trim_space line }
  | some i ↦ record m { content = drop (i + 1) line; channel = trim_space (take i line) }
]

-- The `switch` on the type, over the third part of the line, if there is one.
pub read_params : Message → List Bytes → Outcome Message
read_params m rest =
    if has_no_params m.type
    then ok m
    else elim rest [ [] ↦ panic | line ∷ _ ↦ ok (set_params m line) ]

-- What follows the split into source, command and parameters.
pub read_command : Message → List Bytes → Outcome Message
unfolding read_params
read_command m [] = ok m
read_command m (source ∷ []) = ok m
read_command m ([] ∷ command ∷ rest) = ok m
read_command m ((_ ∷ source) ∷ command ∷ rest) =
    let m' = set_user (record m { source = source }) in
    read_params (record m' { type = to_message_type command }) rest

-- A line whose first four bytes are neither PING nor PONG.
pub parse_tagged : Bytes → Outcome (Option Message)
unfolding read_command
parse_tagged line = do
  found ← parse_tags line
  elim found [
    | none ↦ ok none
    | some (tags, idx) ↦ do
      rest ← slice_from line idx
      m ← read_command (record (blank_message line) { tags = tags }) (split_n rest b' ' 3)
      ok (some m)
  ]

abbrev pub ping_message : Bytes → Bytes → Message
ping_message line source = record (blank_message line) { source = source; type = ping }

-- `ok none` stands for the error that `ParseTags` returned.
unfoldable pub parse_message : Bytes → Outcome (Option Message)
unfolding parse_tagged
parse_message line = do
  head ← slice_to line 4
  if bytes_eq head (codes "PING")
      then (do source ← slice_from line 6; ok (some (ping_message line source)))
      else if bytes_eq head (codes "PONG")
      then (do source ← slice_from line 6; ok (some (ping_message line source)))
      else parse_tagged line
