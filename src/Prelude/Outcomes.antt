-- ===== src/Prelude/Outcomes.antt =====
-- What a Go call gives back: a value, or a panic (an index out of range, a nil dereference, an
-- explicit `panic`, a fatal log line).
use mathlib.Core.Path.{◌≡◌, refl}

pub data Outcome {ℓ} (A : Type ℓ) : Type ℓ where
  ok : A → Outcome A
  panic : Outcome A

infixl 5 ◌>>=◌
abbrev pub ◌>>=◌ {ℓ κ} : {A : Type ℓ} {B : Type κ} → Outcome A → (A → Outcome B) → Outcome B
panic >>= rest = panic
ok a >>= rest = rest a

pub >>=-eq-ok {ℓ κ} :
    {A : Type ℓ} {B : Type κ} (call : Outcome A) (rest : A → Outcome B) {value : B}
    → (call >>= rest) ≡ ok value
    → (a : A) × (call ≡ ok a) × (rest a ≡ ok value)
>>=-eq-ok panic rest e = cc
>>=-eq-ok (ok a) rest e = (a, refl, e)
