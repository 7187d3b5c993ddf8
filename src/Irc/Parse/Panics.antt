-- ===== src/Irc/Parse/Panics.antt =====
-- internal/modes/slave/irc/irc.go: the lines on which `ParseMessage` panics.
use waterhose.Prelude.{
  ℕ, zero, suc, ◌+◌, ◌≤◌, ◌<◌, false, List, [], ◌∷◌, ◌++◌, ◌≡◌, ◌≢◌, refl, ap, ◌∙◌, ◌⊎◌, inl, inr,
  Option, none, some, arith, Bytes, leb, Bool-cases, Option-cases, length, take, drop,
  length-append, All, Outcome, ok, panic,
}
use waterhose.Irc.Slice.{slice_from, slice_to, index_byte, split_n}
use waterhose.Irc.Slice.Laws.{Lacks, split_n-cut, split_n-whole}
use waterhose.Irc.Message.{IrcTags, Message, MessageType, privmsg, type_name, to_message_type}
use waterhose.Irc.Message.Names.{to_message_type-type_name}
use waterhose.Irc.Tags.{parse_tags}
use waterhose.Irc.Tags.Bounds.{EndsIn, parse_tags_bounds, parse_tags-ne-panic}
use waterhose.Irc.Tags.RoundTrip.{IsTag, scan_pair, scan_next}
use waterhose.Irc.Parse.RoundTrip.{
  with_tags, parse_tags-with_tags, slice_from-with_tags, parse_message-with_tags,
  parse_message-parse_tagged, type_name-Lacks,
}
use waterhose.Irc.Parse.{has_no_params, blank_message, read_command, parse_tagged, parse_message}

-- Behind its tags, the line is two words, a source and a command, where the command is of a type that
-- `ParseMessage` reads parameters of: nothing stands behind the command.
pub record LacksParams (line : Bytes) : Type 0 where
  pub tags : IrcTags
  pub idx : ℕ
  pub tagged : parse_tags line ≡ ok (some (tags, idx))
  pub source : Bytes
  pub command : Bytes
  pub splits : line ≡ take idx line ++ (source ++ (b' ' ∷ command))
  pub source_word : Lacks b' ' source
  pub source_ne_nil : source ≢ []
  pub command_word : Lacks b' ' command
  pub wants_params : has_no_params (to_message_type command) ≡ false

-- The tags run to the end of the line, which is a `;`: the index behind them is outside.
pub record EndsInTags (line : Bytes) : Type 0 where
  pub tags : IrcTags
  pub tagged : parse_tags line ≡ ok (some (tags, length line + 1))
  pub ends : EndsIn b';' line

-- Why `ParseMessage` may panic.
abbrev pub Causes : Bytes → Type 0
Causes line = (length line < 6) ⊎ (EndsInTags line ⊎ LacksParams line)

read_command_panics :
    (m : Message) (parts : List Bytes)
    → read_command m parts ≡ panic
    → (source command : Bytes) × (parts ≡ source ∷ command ∷ [])
      × (source ≢ [])
      × (has_no_params (to_message_type command) ≡ false)
unfolding read_command
read_command_panics m [] e = cc
read_command_panics m (a ∷ []) e = cc
read_command_panics m ([] ∷ c ∷ rest) e = cc
read_command_panics m ((x ∷ s) ∷ c ∷ []) e = (x ∷ s, c, refl, (λ h. cc), ground arith)
read_command_panics m ((x ∷ s) ∷ c ∷ (r ∷ rest)) e = absurd (ground arith)

index_byte_cut :
    (s : Bytes) (b i : ℕ) → index_byte s b ≡ some i → s ≡ take i s ++ (b ∷ drop (suc i) s)
unfolding index_byte
index_byte_cut [] b i e = cc
index_byte_cut (c ∷ cs) b zero e = ground (arith, Option-cases (index_byte cs b))
index_byte_cut (c ∷ cs) b (suc i) e =
    ground (arith, Option-cases (index_byte cs b), index_byte_cut cs b i)

index_byte-Lacks : (s : Bytes) (b : ℕ) → index_byte s b ≡ none → Lacks b s
unfolding index_byte
index_byte-Lacks [] b e = tt
index_byte-Lacks (c ∷ cs) b e =
    ground (arith, Option-cases (index_byte cs b), index_byte-Lacks cs b)

take-index_byte-Lacks : (s : Bytes) (b i : ℕ) → index_byte s b ≡ some i → Lacks b (take i s)
unfolding index_byte
take-index_byte-Lacks [] b i e = cc
take-index_byte-Lacks (c ∷ cs) b zero e = tt
take-index_byte-Lacks (c ∷ cs) b (suc i) e =
    ground (arith, Option-cases (index_byte cs b), take-index_byte-Lacks cs b i)

module _ (source command : Bytes) where
  split_three_words :
      (s : Bytes)
      → split_n s b' ' 3 ≡ source ∷ command ∷ []
      → Lacks b' ' source × Lacks b' ' command
  unfolding split_n
  split_three_words s e = elim (Option-cases (index_byte s b' ')) [
    | inl k ↦ absurd (ground arith)
    | inr (i, k) ↦ ground (
      arith,
      take-index_byte-Lacks s b' ' i k,
      Option-cases (index_byte (drop (suc i) s) b' '),
      index_byte-Lacks (drop (suc i) s) b' ',
    )
  ]

  split_three_two :
      (s : Bytes) → split_n s b' ' 3 ≡ source ∷ command ∷ [] → s ≡ source ++ (b' ' ∷ command)
  unfolding split_n
  split_three_two s e = elim (Option-cases (index_byte s b' ')) [
    | inl k ↦ absurd (ground arith)
    | inr (i, k) ↦
        ground (arith, index_byte_cut s b' ' i k, Option-cases (index_byte (drop (suc i) s) b' '))
  ]

slice_from_panics : (s : Bytes) (n : ℕ) → slice_from s n ≡ panic → length s < n
unfolding slice_from
slice_from_panics s n e = ground arith

slice_from_outside : (s : Bytes) (n : ℕ) → length s < n → slice_from s n ≡ panic
unfolding slice_from
slice_from_outside s n h = ground arith

length_pos : (s : Bytes) → s ≢ [] → 0 < length s
length_pos [] h = absurd (h refl)
length_pos (c ∷ cs) h = omega arith

slice_from_ok : (s rest : Bytes) (n : ℕ) → slice_from s n ≡ ok rest → s ≡ take n s ++ rest
unfolding slice_from
slice_from_ok s rest n e = ground (arith, take_drop n s)
  where
    take_drop : (n : ℕ) (s : Bytes) → s ≡ take n s ++ drop n s
    take_drop zero s = refl
    take_drop (suc n) [] = refl
    take_drop (suc n) (c ∷ cs) = ap (◌∷◌ c) (take_drop n cs)

abbrev Parts : Type 0
Parts = Outcome (Option (IrcTags × ℕ))

-- Behind the tags.
tail_panics :
    (line : Bytes) (tags : IrcTags) (n : ℕ)
    → (n ≤ length line) ⊎ (EndsIn b';' line × (n ≡ length line + 1))
    → parse_tags line ≡ ok (some (tags, n))
    → parse_tagged line ≡ panic
    → Causes line
tail_panics line tags n (inr (ends, all)) p e =
    inr (inl (record { tags = tags; tagged = rw all at p; ends = ends }))
tail_panics line tags n (inl h) p e = go (slice_from line n) refl
  where
    m : Message
    m = record (blank_message line) { tags = tags }

    go : (r : Outcome Bytes) → slice_from line n ≡ r → Causes line
    go panic s = absurd (omega (arith, slice_from_panics line n s))
    go (ok rest) s =
        let (source, command, parts, named, wants) =
          read_command_panics m (split_n rest b' ' 3) (unfold parse_tagged in ground arith) in
        inr (
          inr (record {
            tags = tags;
            idx = n;
            tagged = p;
            source = source;
            command = command;
            splits =
                slice_from_ok line rest n s
                ∙ ap (◌++◌ (take n line)) (split_three_two source command rest parts);
            source_word = (split_three_words source command rest parts).0;
            source_ne_nil = named;
            command_word = (split_three_words source command rest parts).1;
            wants_params = wants;
          }))

tagged_panics :
    (line : Bytes) (r : Parts)
    → parse_tags line ≡ r
    → 0 < length line
    → parse_tagged line ≡ panic
    → Causes line
tagged_panics line panic p h e = absurd (parse_tags-ne-panic line h p)
tagged_panics line (ok none) p h e = absurd (unfold parse_tagged in ground arith)
tagged_panics line (ok (some (tags, n))) p h e =
    tail_panics line tags n (parse_tags_bounds line p) p e

-- `ParseMessage` panics only on a line of less than six bytes, on a line whose tags run to its end,
-- which is a `;`, and on
-- a line that is, behind its tags, a source and a command of a type that has parameters, both single
-- words, and nothing more.
pub parse_message_panics : (line : Bytes) → parse_message line ≡ panic → Causes line
unfolding parse_message slice_to
parse_message_panics line e = elim (Bool-cases (leb 6 (length line))) [
  | inl long ↦
      tagged_panics line (parse_tags line) refl (ground arith) (unfold slice_from in ground arith)
  | inr short ↦ inl (ground arith)
]

length-type_name : (t : MessageType) → 2 ≤ length (type_name t)
unfolding type_name
length-type_name privmsg = omega arith
length-type_name _ = omega arith

-- `ParseMessage` panics on every line that ends behind the command, where the command is one of the
-- types that have a channel, RECONNECT among them: it reads a third part that is not there.
pub parse_message_without_params :
    (ts : List (Bytes × Bytes)) (source : Bytes) (t : MessageType)
    → All IsTag ts
    → Lacks b' ' source
    → has_no_params t ≡ false
    → parse_message (with_tags ts (b':' ∷ (source ++ (b' ' ∷ type_name t)))) ≡ panic
parse_message_without_params ts source t h l w =
    parse_message-with_tags ts rest long
    ∙ unfold parse_tagged in
      (rw (parse_tags-with_tags ts rest h) (
        rw (slice_from-with_tags ts (b':' ∷ rest))
          (rw parts (unfold read_command in ground (arith, to_message_type-type_name t)))))
  where
    rest : Bytes
    rest = source ++ (b' ' ∷ type_name t)

    long : 3 ≤ length rest
    long = omega (arith, length-append source (b' ' ∷ type_name t), length-type_name t)

    parts : split_n (b':' ∷ rest) b' ' 3 ≡ (b':' ∷ source) ∷ type_name t ∷ []
    parts =
        split_n-cut (b':' ∷ source) (type_name t) b' ' 1 (refl, l)
        ∙ ap (◌∷◌ (b':' ∷ source)) (split_n-whole (type_name t) b' ' 0 (type_name-Lacks t))

-- `ParseMessage` panics on a line that is one tag with a `;` behind it.
pub parse_message_trailing_semicolon :
    (k v : Bytes) → IsTag (k, v) → parse_message (b'@' ∷ (k ++ (b'=' ∷ (v ++ b';' ∷ [])))) ≡ panic
parse_message_trailing_semicolon k v h =
    parse_message-parse_tagged b'@' text refl long
    ∙ unfold parse_tagged parse_tags in
      (rw
        (scan_pair k v (b';' ∷ []) 1 [] false h
          ∙ scan_next k v [] (1 + length k + 1 + length v) [] h.key_ne_nil
          ∙ refl)
        (rw outside))
  where
    text : Bytes
    text = k ++ (b'=' ∷ (v ++ b';' ∷ []))

    size : length text ≡ length k + 1 + length v + 1
    size = omega (arith, length-append k (b'=' ∷ (v ++ b';' ∷ [])), length-append v (b';' ∷ []))

    long : 3 ≤ length text
    long = omega (arith, size, length_pos k h.key_ne_nil)

    outside : slice_from (b'@' ∷ text) (1 + length k + 1 + length v + 1 + 1) ≡ panic
    outside = slice_from_outside (b'@' ∷ text) _ (omega (arith, size))
