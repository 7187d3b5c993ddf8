-- ===== src/Irc/Slice/Laws.antt =====
-- Laws of the slice and string operations that irc.go uses.
use mathlib.Core.List.{reverse, reverse-cons, reverse-append, reverse-reverse}
use native.Mathlib.Numerals.{add-one}
use waterhose.Prelude.{
  ℕ, suc, Bool, ◌<◌, ◌≢◌, ◌+◌, false, [], ◌∷◌, ◌++◌, ◌≡◌, refl, none, some, arith, Bytes, ◌==◌,
  length, length-append, All, drop, take-append, drop-append, ok,
}
use waterhose.Irc.Slice.{
  slice_from, index_byte, split_n, is_space, is_space_2, is_space_3, trim_front, trim_space,
}

-- The byte `b` does not occur.
abbrev pub Lacks : ℕ → Bytes → Type 0
Lacks b = All (λ c. (c == b) ≡ false)

pub index_byte-append :
    (s rest : Bytes) (b : ℕ) → Lacks b s → index_byte (s ++ (b ∷ rest)) b ≡ some (length s)
unfolding index_byte
index_byte-append [] rest b h = ground arith
index_byte-append (c ∷ cs) rest b h = rw h.0 (rw (index_byte-append cs rest b h.1))

pub index_byte-none : (s : Bytes) (b : ℕ) → Lacks b s → index_byte s b ≡ none
unfolding index_byte
index_byte-none [] b h = refl
index_byte-none (c ∷ cs) b h = rw h.0 (rw (index_byte-none cs b h.1))

pub drop-suc-append : (s rest : Bytes) (b : ℕ) → drop (suc (length s)) (s ++ (b ∷ rest)) ≡ rest
drop-suc-append [] rest b = refl
drop-suc-append (c ∷ cs) rest b = drop-suc-append cs rest b

pub drop_add-append : (s rest : Bytes) (b : ℕ) → drop (length s + 1) (s ++ (b ∷ rest)) ≡ rest
drop_add-append s rest b = rw add-one (drop-suc-append s rest b)

pub split_n-cut :
    (s rest : Bytes) (b n : ℕ)
    → Lacks b s
    → split_n (s ++ (b ∷ rest)) b (suc (suc n)) ≡ s ∷ split_n rest b (suc n)
unfolding split_n
split_n-cut s rest b n h =
    rw (index_byte-append s rest b h, split_n)
      (rw (take-append s (b ∷ rest), drop-suc-append s rest b))

pub split_n-whole : (s : Bytes) (b n : ℕ) → Lacks b s → split_n s b (suc (suc n)) ≡ s ∷ []
unfolding split_n
split_n-whole s b n h = rw (index_byte-none s b h, split_n)

pub slice_from-append : (s rest : Bytes) (n : ℕ) → n ≡ length s → slice_from (s ++ rest) n ≡ ok rest
unfolding slice_from
slice_from-append s rest n e = rw e (ground (arith, length-append s rest, drop-append s rest))

-- ASCII without a space.
abbrev pub AsciiWord : Bytes → Type 0
AsciiWord = All (λ c. (is_space c ≡ false) × (c < 128))

All-append : (xs ys : Bytes) → AsciiWord xs → AsciiWord ys → AsciiWord (xs ++ ys)
All-append [] ys h k = k
All-append (x ∷ xs) ys h k = (h.0, All-append xs ys h.1 k)

All-reverse : (xs : Bytes) → AsciiWord xs → AsciiWord (reverse xs)
All-reverse [] h = tt
All-reverse (x ∷ xs) h =
    rw reverse-cons (All-append (reverse xs) (x ∷ []) (All-reverse xs h.1) (h.0, tt))

module _ (two : ℕ → ℕ → Bool) (three : ℕ → ℕ → ℕ → Bool)
    (no_two : (a b : ℕ) → a < 128 → two a b ≡ false)
    (no_three : (a b c : ℕ) → a < 128 → three a b c ≡ false) where
  trim_front_id : (xs : Bytes) → AsciiWord xs → trim_front two three xs ≡ xs
  unfolding trim_front
  trim_front_id [] h = refl
  trim_front_id (a ∷ []) h = rw h.0.0
  trim_front_id (a ∷ b ∷ []) h = rw (h.0.0, no_two a b h.0.1, trim_front)
  trim_front_id (a ∷ b ∷ c ∷ s) h = rw (h.0.0, no_two a b h.0.1, no_three a b c h.0.1, trim_front)

  trim_front_space : (xs : Bytes) → trim_front two three (b' ' ∷ xs) ≡ trim_front two three xs
  unfolding trim_front
  trim_front_space [] = refl
  trim_front_space (b ∷ []) = refl
  trim_front_space (b ∷ c ∷ s) = refl

front_two : (a b : ℕ) → a < 128 → is_space_2 a b ≡ false
front_two a b h = ground arith

front_three : (a b c : ℕ) → a < 128 → is_space_3 a b c ≡ false
front_three a b c h = ground arith

back_two : (b a : ℕ) → b < 128 → is_space_2 a b ≡ false
back_two b a h = ground arith

back_three : (c b a : ℕ) → c < 128 → is_space_3 a b c ≡ false
back_three c b a h = ground arith

trim_back_id :
    (xs : Bytes)
    → AsciiWord xs
    → trim_front (λ b a. is_space_2 a b) (λ c b a. is_space_3 a b c) xs ≡ xs
trim_back_id = trim_front_id (λ b a. is_space_2 a b) (λ c b a. is_space_3 a b c) back_two back_three

trim_front-append :
    (xs : Bytes)
    → AsciiWord xs
    → xs ≢ []
    → trim_front is_space_2 is_space_3 (xs ++ b' ' ∷ []) ≡ xs ++ b' ' ∷ []
unfolding trim_front
trim_front-append [] h n = absurd (n refl)
trim_front-append (a ∷ []) h n = rw (h.0.0, front_two a b' ' h.0.1, trim_front)
trim_front-append (a ∷ b ∷ []) h n =
    rw (h.0.0, front_two a b h.0.1, front_three a b b' ' h.0.1, trim_front)
trim_front-append (a ∷ b ∷ c ∷ s) h n =
    rw (h.0.0, front_two a b h.0.1, front_three a b c h.0.1, trim_front)

-- A word of ASCII, and a space behind it.
pub trim_space-append : (xs : Bytes) → AsciiWord xs → trim_space (xs ++ b' ' ∷ []) ≡ xs
unfolding trim_space
trim_space-append [] h = unfold trim_front in refl
trim_space-append (x ∷ xs) h =
    rw
      (
        trim_front-append (x ∷ xs) h (λ e. cc),
        reverse-append (x ∷ xs) (b' ' ∷ []),
        trim_front_space (λ b a. is_space_2 a b) (λ c b a. is_space_3 a b c) back_two back_three
            (reverse (x ∷ xs)),
        trim_back_id (reverse (x ∷ xs)) (All-reverse (x ∷ xs) h),
      )
      (reverse-reverse (x ∷ xs))
