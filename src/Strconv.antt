-- ===== src/Strconv.antt =====
-- Go's `strconv.Itoa`, which is also the verb `%d`, and `strconv.Atoi`, on 64-bit machines.
pub mod RoundTrip
use Prim.Native.Nat.{◌/◌, ◌*◌}
use waterhose.Prelude.{
  ℕ, zero, suc, ◌+◌, ◌-◌, ◌%◌, ◌^◌, ◌||◌, [], ◌∷◌, Option, none, some, Bytes, ltb, leb, ◌==◌,
  if◌then◌else◌,
}
use waterhose.Prelude.Int.{ℤ, pos, negsuc}

-- The digits of `n` in front of `out`, with fuel for at least as many rounds as there are digits.
pub digits : ℕ → ℕ → Bytes → Bytes
digits zero n out = out
digits (suc fuel) n out =
    let more = digits fuel (n / 10) ((b'0' + n % 10) ∷ out) in if n == 0 then out else more

pub itoa_pos : ℕ → Bytes
unfolding digits
itoa_pos n = if n == 0 then b'0' ∷ [] else digits n n []

unfoldable pub itoa : ℤ → Bytes
unfolding itoa_pos
itoa (pos n) = itoa_pos n
itoa (negsuc n) = b'-' ∷ itoa_pos (suc n)

-- The number that digits spell behind `n`.
pub scan_digits : Bytes → ℕ → Option ℕ
scan_digits [] n = some n
scan_digits (c ∷ s) n =
    if ltb c b'0' || ltb b'9' c then none else scan_digits s (n * 10 + (c - b'0'))

pub magnitude : Bytes → Option ℕ
unfolding scan_digits
magnitude [] = none
magnitude (c ∷ s) = scan_digits (c ∷ s) 0

abbrev pub positive : Option ℕ → Option ℤ
positive none = none
positive (some n) = if ltb n (2 ^ 63) then some (pos n) else none

abbrev pub negative : Option ℕ → Option ℤ
negative none = none
negative (some zero) = some (pos 0)
negative (some (suc n)) = if leb (suc n) (2 ^ 63) then some (negsuc n) else none

-- `none` is an error: no digit, another byte, or a number that is no int64.
unfoldable pub atoi : Bytes → Option ℤ
unfolding magnitude
atoi [] = none
atoi (c ∷ s) =
    if c == b'-'
    then negative (magnitude s)
    else positive (magnitude (if c == b'+' then s else c ∷ s))
