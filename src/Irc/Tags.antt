-- ===== src/Irc/Tags.antt =====
-- internal/modes/slave/irc/irc.go: `ParseTags`.
pub mod RoundTrip
pub mod Bounds
use waterhose.Prelude.{
  ℕ, ◌+◌, Bool, true, false, ◌||◌, not, [], ◌∷◌, ◌++◌, Option, none, some, Bytes, string_eq, ◌==◌,
  if◌then◌else◌, Outcome, ok, panic,
}
use waterhose.Prelude.Dict.{insert}
use waterhose.Irc.Message.{IrcTags}

abbrev pub is_empty : Bytes → Bool
is_empty [] = true
is_empty (_ ∷ _) = false

-- The variables of the loop. `seg` is the slice `msg[s:i]`. After a `;` the source moves `i` twice,
-- so that the byte behind it is not looked at: `skip` stands for the second move.
pub record Scan : Type 0 where
  pub i : ℕ
  pub seg : Bytes
  pub key : Bytes
  pub tags : IrcTags
  pub skip : Bool

-- One round: the loop goes on, returns the tags and an index, or returns `errInvalidTags`.
pub data Round : Type 0 where
  more : Scan → Round
  done : IrcTags → ℕ → Round
  invalid : Round

pub skip_byte : Scan → ℕ → Scan
skip_byte st c = record st { i = st.i + 1; seg = st.seg ++ c ∷ []; skip = false }

pub read_byte : Scan → ℕ → Round
read_byte st c =
    if c == b'='
    then (if not (is_empty st.key) || is_empty st.seg
        then invalid
        else more (record st { i = st.i + 1; key = st.seg; seg = [] }))
    else if c == b';'
    then (if is_empty st.key
        then invalid
        else more (record {
          i = st.i + 1;
          seg = [];
          key = [];
          tags = insert st.key st.seg st.tags;
          skip = true;
        }))
    else if c == b' '
    then (if is_empty st.key then invalid else done (insert st.key st.seg st.tags) (st.i + 1))
    else more (record st { i = st.i + 1; seg = st.seg ++ c ∷ [] })

unfoldable pub scan_round : Scan → ℕ → Round
unfolding skip_byte read_byte
scan_round st c = if st.skip then more (skip_byte st c) else read_byte st c

-- The loop over the bytes that are left; `ok none` stands for `errInvalidTags`.
unfoldable pub scan : Scan → Bytes → Outcome (Option (IrcTags × ℕ))
unfolding scan_round
scan st [] = ok (some (st.tags, if st.skip then st.i + 1 else st.i))
scan st (c ∷ cs) = elim (scan_round st c) [
  | more st' ↦ scan st' cs
  | done tags n ↦ ok (some (tags, n))
  | invalid ↦ ok none
]

abbrev pub scan_start : Scan
scan_start = record { i = 1; seg = []; key = []; tags = []; skip = false }

-- The tags, and the index behind them.
unfoldable pub parse_tags : Bytes → Outcome (Option (IrcTags × ℕ))
unfolding scan
parse_tags [] = panic
parse_tags (c ∷ cs) = if c == b'@' then scan scan_start cs else ok (some ([], 0))
