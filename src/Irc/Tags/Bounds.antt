-- ===== src/Irc/Tags/Bounds.antt =====
-- internal/modes/slave/irc/irc.go: the index that `ParseTags` returns.
use waterhose.Prelude.{
  ℕ, suc, ◌+◌, ◌≤◌, ◌<◌, true, [], ◌∷◌, ◌++◌, ◌≡◌, ◌≢◌, refl, ap, ◌⊎◌, inl, inr, some, arith, Bytes,
  ◌==◌, length, ok, panic, Bool-cases,
}
use waterhose.Irc.Message.{IrcTags}
use waterhose.Irc.Tags.{Scan, Round, more, done, invalid, scan_round, scan, scan_start, parse_tags}

abbrev pub EndsIn : ℕ → Bytes → Type 0
EndsIn b s = (w : Bytes) × (s ≡ w ++ b ∷ [])

abbrev RoundFacts : Scan → ℕ → Round → Type 0
RoundFacts st c (more st') = (st'.i ≡ st.i + 1) × (st'.skip ≡ true → c ≡ b';')
RoundFacts st c (done tags n) = n ≡ st.i + 1
RoundFacts st c invalid = Unit

scan_round-RoundFacts : (st : Scan) (c : ℕ) → RoundFacts st c (scan_round st c)
unfolding scan_round
scan_round-RoundFacts st c = ground arith

-- Where the index can lie when `cs` is left to read.
abbrev Lies : Scan → Bytes → ℕ → Type 0
Lies st cs n =
    (n ≤ st.i + length cs)
    ⊎ (((st.skip ≡ true) × (cs ≡ []) × (n ≡ st.i + 1))
        ⊎ (EndsIn b';' cs × (n ≡ st.i + length cs + 1)))

Lies-cons :
    (st st' : Scan) (c : ℕ) (cs : Bytes) (n : ℕ)
    → RoundFacts st c (more st')
    → Lies st' cs n
    → Lies st (c ∷ cs) n
Lies-cons st st' c cs n (e, s) (inl h) = inl (omega arith)
Lies-cons st st' c cs n (e, s) (inr (inl (k, nil, m))) =
    inr (inr (([], rw (nil, s k)), omega (arith, ap length nil)))
Lies-cons st st' c cs n (e, s) (inr (inr ((w, ends), m))) =
    inr (inr ((c ∷ w, ap (◌∷◌ c) ends), omega arith))

scan-Lies :
    (cs : Bytes) (st : Scan) {tags : IrcTags} {n : ℕ}
    → scan st cs ≡ ok (some (tags, n))
    → Lies st cs n
scan-Lies [] st {tags} {n} e = elim (Bool-cases st.skip) [
  | inl k ↦ inr (inl (k, refl, unfold scan in ground arith))
  | inr k ↦ inl (unfold scan in ground arith)
]
scan-Lies (c ∷ cs) st {tags} {n} e =
    go (scan_round st c) refl (scan_round-RoundFacts st c) (λ st' h. scan-Lies cs st' h)
  where
    go :
        (r : Round)
        → scan_round st c ≡ r
        → RoundFacts st c r
        → ((st' : Scan) → scan st' cs ≡ ok (some (tags, n)) → Lies st' cs n)
        → Lies st (c ∷ cs) n
    go (more st') r f ih = Lies-cons st st' c cs n f (ih st' (unfold scan in rw (r, scan) at e))
    go (done t m) r f ih = inl (unfold scan in ground arith)
    go invalid r f ih = absurd (unfold scan in ground arith)

-- The index that `ParseTags` returns is within the line, or it lies one behind the end and the
-- line ends in `;`.
pub parse_tags_bounds :
    (line : Bytes) {tags : IrcTags} {n : ℕ}
    → parse_tags line ≡ ok (some (tags, n))
    → (n ≤ length line) ⊎ (EndsIn b';' line × (n ≡ length line + 1))
parse_tags_bounds [] e = unfold parse_tags in cc
parse_tags_bounds (c ∷ cs) {tags} {n} e = elim (Bool-cases (c == b'@')) [
  | inl at_sign ↦ shifted (
      scan-Lies cs scan_start {tags = tags} {n = n}
        (unfold parse_tags in rw (at_sign, parse_tags) at e))
  | inr other ↦ inl (unfold parse_tags in ground arith)
]
  where
    shifted :
        Lies scan_start cs n
        → (n ≤ suc (length cs)) ⊎ (EndsIn b';' (c ∷ cs) × (n ≡ suc (length cs) + 1))
    shifted (inl h) = inl (omega arith)
    shifted (inr (inl (k, nil, m))) = cc
    shifted (inr (inr ((w, ends), m))) = inr ((c ∷ w, ap (◌∷◌ c) ends), omega arith)

scan-ne-panic : (cs : Bytes) (st : Scan) → scan st cs ≢ panic
unfolding scan
scan-ne-panic [] st = ground arith
scan-ne-panic (c ∷ cs) st = go (scan_round st c) refl (λ st'. scan-ne-panic cs st')
  where
    go :
        (r : Round)
        → scan_round st c ≡ r
        → ((st' : Scan) → scan st' cs ≢ panic)
        → scan st (c ∷ cs) ≢ panic
    go (more st') r ih = rw (r, scan) (ih st')
    go (done t m) r ih = ground arith
    go invalid r ih = ground arith

pub parse_tags-ne-panic : (line : Bytes) → 0 < length line → parse_tags line ≢ panic
unfolding parse_tags
parse_tags-ne-panic [] h = absurd (omega arith)
parse_tags-ne-panic (c ∷ cs) h = ground (arith, scan-ne-panic cs scan_start)
