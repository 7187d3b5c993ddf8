-- ===== src/Strconv/RoundTrip.antt =====
-- Go's `strconv`: every number is read back from its decimal print.
use Prim.Native.Nat.{◌/◌, ◌%◌}
use waterhose.Prelude.{
  ℕ, zero, suc, ◌+◌, ◌≤◌, ◌<◌, ◌^◌, [], ◌∷◌, ◌≡◌, false, refl, ◌∙◌, ap, sym, some, arith, Bytes,
  ◌==◌, Bool-cases, inl, inr,
}
use waterhose.Prelude.Int.{ℤ, pos, negsuc}
use waterhose.Strconv.{digits, itoa_pos, itoa, scan_digits, magnitude, positive, atoi}
use waterhose.Irc.Slice.Laws.{Lacks}

scan_digits-digits :
    (fuel n : ℕ) (out : Bytes) → n ≤ fuel → scan_digits (digits fuel n out) 0 ≡ scan_digits out n
unfolding digits scan_digits
scan_digits-digits zero n out h = ground arith
scan_digits-digits (suc fuel) n out h =
    ground (arith, scan_digits-digits fuel (n / 10) ((b'0' + n % 10) ∷ out))

-- A text that starts with a digit.
abbrev StartsWithDigit : Bytes → Type 0
StartsWithDigit [] = ⊥
StartsWithDigit (c ∷ s) = (b'0' ≤ c) × (c ≤ b'9')

digits-StartsWithDigit :
    (fuel n : ℕ) (out : Bytes) → StartsWithDigit out → StartsWithDigit (digits fuel n out)
unfolding digits
digits-StartsWithDigit zero n out h = h
digits-StartsWithDigit (suc fuel) n out h = elim (Bool-cases (n == 0)) [
  | inl done ↦ rw done h
  | inr more ↦ rw more (digits-StartsWithDigit fuel (n / 10) ((b'0' + n % 10) ∷ out) (omega arith))
]

itoa_pos-StartsWithDigit : (n : ℕ) → StartsWithDigit (itoa_pos n)
unfolding itoa_pos digits
itoa_pos-StartsWithDigit zero = omega arith
itoa_pos-StartsWithDigit (suc k) =
    rw (nonzero k) (digits-StartsWithDigit k (suc k / 10) ((b'0' + suc k % 10) ∷ []) (omega arith))
  where
    nonzero : (k : ℕ) → (suc k == 0) ≡ false
    nonzero k = ground arith

magnitude-scan : (s : Bytes) → StartsWithDigit s → magnitude s ≡ scan_digits s 0
unfolding magnitude
magnitude-scan [] h = absurd h
magnitude-scan (c ∷ s) h = refl

scan-itoa_pos : (n : ℕ) → scan_digits (itoa_pos n) 0 ≡ some n
unfolding itoa_pos scan_digits
scan-itoa_pos n = ground (arith, scan_digits-digits n n [])

magnitude-itoa_pos : (n : ℕ) → magnitude (itoa_pos n) ≡ some n
magnitude-itoa_pos n = magnitude-scan (itoa_pos n) (itoa_pos-StartsWithDigit n) ∙ scan-itoa_pos n

atoi-positive : (s : Bytes) → StartsWithDigit s → atoi s ≡ positive (magnitude s)
unfolding atoi
atoi-positive [] h = absurd h
atoi-positive (c ∷ s) h = ground arith

atoi-itoa_pos : (n : ℕ) → n < 2 ^ 63 → atoi (itoa_pos n) ≡ some (pos n)
atoi-itoa_pos n h =
    atoi-positive (itoa_pos n) (itoa_pos-StartsWithDigit n)
    ∙ rw (magnitude-itoa_pos n) (ground arith)

atoi-itoa_neg : (n : ℕ) → n < 2 ^ 63 → atoi (itoa (negsuc n)) ≡ some (negsuc n)
unfolding atoi itoa
atoi-itoa_neg n h = rw (magnitude-itoa_pos (suc n)) (ground arith)

-- The numbers that an `int` holds.
abbrev pub IsInt : ℤ → Type 0
IsInt (pos n) = n < 2 ^ 63
IsInt (negsuc n) = n < 2 ^ 63

pub atoi-itoa : (i : ℤ) → IsInt i → atoi (itoa i) ≡ some i
atoi-itoa (pos n) h = unfold itoa in atoi-itoa_pos n h
atoi-itoa (negsuc n) h = atoi-itoa_neg n h

-- `itoa` prints different numbers differently.
pub itoa_injective : (i j : ℤ) → IsInt i → IsInt j → itoa i ≡ itoa j → i ≡ j
itoa_injective i j hi hj e = some_eq i j (sym (atoi-itoa i hi) ∙ ap atoi e ∙ atoi-itoa j hj)
  where
    some_eq : (i j : ℤ) → some i ≡ some j → i ≡ j
    some_eq i j e = cc

digits-Lacks : (b fuel n : ℕ) (out : Bytes) → b < b'-' → Lacks b out → Lacks b (digits fuel n out)
unfolding digits
digits-Lacks b zero n out h l = l
digits-Lacks b (suc fuel) n out h l = elim (Bool-cases (n == 0)) [
  | inl done ↦ rw done l
  | inr more ↦ rw more (digits-Lacks b fuel (n / 10) ((b'0' + n % 10) ∷ out) h (ground arith, l))
]

itoa_pos-Lacks : (b n : ℕ) → b < b'-' → Lacks b (itoa_pos n)
unfolding itoa_pos
itoa_pos-Lacks b n h = elim (Bool-cases (n == 0)) [
  | inl zero_digit ↦ rw zero_digit (ground arith, tt)
  | inr more ↦ rw more (digits-Lacks b n n [] h tt)
]

-- A byte below the sign and the digits is in no printed number.
pub itoa-Lacks : (b : ℕ) (i : ℤ) → b < b'-' → Lacks b (itoa i)
unfolding itoa itoa_pos
itoa-Lacks b (pos n) h = itoa_pos-Lacks b n h
itoa-Lacks b (negsuc n) h = (ground arith, itoa_pos-Lacks b (suc n) h)
