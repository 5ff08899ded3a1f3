-- ===== src/Common/Outcomes.antt =====
-- How a call ends: a value, an `Err`, a Rust panic, or, for a loop that runs on fuel, no fuel.
use mathlib.Core.Path.{◌≡◌, refl}

pub data Outcome {ℓ κ} (E : Type κ) (A : Type ℓ) : Type (ℓ ⊔ κ) where
  ok : A → Outcome E A
  err : E → Outcome E A
  panic : Outcome E A
  out_of_fuel : Outcome E A

infixl 5 ◌>>=◌ ◌>>◌
-- What comes next runs on a value only.
abbrev pub ◌>>=◌ {ℓ κ μ} :
    {E : Type κ} {A : Type ℓ} {B : Type μ} → Outcome E A → (A → Outcome E B) → Outcome E B
panic >>= next = panic
err failure >>= next = err failure
out_of_fuel >>= next = out_of_fuel
ok value >>= next = next value

abbrev pub ◌>>◌ {κ μ} : {E : Type κ} {B : Type μ} → Outcome E (Unit {0}) → Outcome E B → Outcome E B
first >> next = first >>= λ done. next

-- Where two calls in a row end with a value, the first of them did, and the second on that value.
pub bind-ok {ℓ κ μ} :
    {E : Type κ} {A : Type ℓ} {B : Type μ} (first : Outcome E A) (next : A → Outcome E B)
    {result : B}
    → (first >>= next) ≡ ok result
    → (value : A) × (first ≡ ok value) × (next value ≡ ok result)
bind-ok panic next ends = cc
bind-ok (err failure) next ends = cc
bind-ok out_of_fuel next ends = cc
bind-ok (ok value) next ends = (value, refl, ends)
