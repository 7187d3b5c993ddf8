-- ===== src/Irc/Slice.antt =====
-- What irc.go uses of Go's slices of strings and of the package `strings`.
pub mod Laws
use waterhose.Prelude.{
  ℕ, zero, suc, ◌≤◌, Bool, true, false, ◌&&◌, ◌||◌, List, [], ◌∷◌, ◌++◌, Option, none, some, Bytes,
  leb, ◌==◌, if◌then◌else◌, length, take, drop, Outcome, ok, panic, bytes_eq,
}
use mathlib.Core.List.{reverse}
use mathlib.Core.Option

-- `s[n:]`
unfoldable pub slice_from : Bytes → ℕ → Outcome Bytes
slice_from s n = if leb n (length s) then ok (drop n s) else panic

-- `s[:n]`
unfoldable pub slice_to : Bytes → ℕ → Outcome Bytes
slice_to s n = if leb n (length s) then ok (take n s) else panic

-- `strings.IndexByte`, with `none` for -1.
unfoldable pub index_byte : Bytes → ℕ → Option ℕ
index_byte [] b = none
index_byte (c ∷ cs) b = if c == b then some 0 else Option.map suc (index_byte cs b)

-- `strings.SplitN(s, sep, n)` for a separator of one byte and `0 ≤ n`.
unfoldable pub split_n : Bytes → ℕ → ℕ → List Bytes
split_n s sep zero = []
split_n s sep (suc zero) = s ∷ []
split_n s sep (suc (suc n)) = elim (index_byte s sep) [
  | none ↦ s ∷ []
  | some i ↦ take i s ∷ split_n (drop (suc i) s) sep (suc n)
]

-- `unicode.IsSpace` on ASCII.
abbrev pub is_space : ℕ → Bool
is_space c = c == b' ' || c == b'\t' || c == b'\n' || c == 11 || c == 12 || c == b'\r'

-- `unicode.IsSpace` on what two bytes of UTF-8 encode: U+0085 and U+00A0.
abbrev pub is_space_2 : ℕ → ℕ → Bool
is_space_2 a b = a == 194 && (b == 133 || b == 160)

-- `unicode.IsSpace` on what three bytes of UTF-8 encode: U+1680, U+2000 to U+200A, U+2028, U+2029,
-- U+202F, U+205F and U+3000.
abbrev pub is_space_3 : ℕ → ℕ → ℕ → Bool
is_space_3 a b c =
    a == 225 && (b == 154 && c == 128)
    || a == 226 && b == 128 && (leb 128 c && leb c 138 || c == 168 || c == 169 || c == 175)
    || a == 226 && (b == 129 && c == 159)
    || a == 227 && (b == 128 && c == 128)

-- The text behind its leading spaces, where two and three bytes are a space by `two` and `three`.
unfoldable pub trim_front : (ℕ → ℕ → Bool) → (ℕ → ℕ → ℕ → Bool) → Bytes → Bytes
trim_front two three [] = []
trim_front two three (a ∷ []) = if is_space a then [] else a ∷ []
trim_front two three (a ∷ b ∷ []) = elim (is_space a) [
  | true ↦ trim_front two three (b ∷ [])
  | false ↦ if two a b then [] else a ∷ b ∷ []
]
trim_front two three (a ∷ b ∷ c ∷ s) = elim (is_space a) [
  | true ↦ trim_front two three (b ∷ c ∷ s)
  | false ↦ elim (two a b) [
    | true ↦ trim_front two three (c ∷ s)
    | false ↦ elim (three a b c) [ true ↦ trim_front two three s | false ↦ a ∷ b ∷ c ∷ s ]
  ]
]

-- `strings.TrimSpace`: the spaces in front, and those behind, whose bytes come in reverse.
unfoldable pub trim_space : Bytes → Bytes
unfolding trim_front
trim_space s = reverse (
    trim_front (λ b a. is_space_2 a b) (λ c b a. is_space_3 a b c)
      (reverse (trim_front is_space_2 is_space_3 s)))

-- `strings.TrimLeft(s, "#")`
unfoldable pub trim_left_hash : Bytes → Bytes
trim_left_hash [] = []
trim_left_hash (c ∷ cs) = if c == b'#' then trim_left_hash cs else c ∷ cs

-- `strings.TrimPrefix`
unfoldable pub trim_prefix : Bytes → Bytes → Bytes
unfolding bytes_eq
trim_prefix s p = if bytes_eq (take (length p) s) p then drop (length p) s else s
