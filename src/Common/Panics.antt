-- ===== src/Common/Panics.antt =====
-- A call that returns or panics. The message of a panic is left out.
use mathlib.Core.Path.{◌≡◌, refl}
use mathlib.Core.Logic.{◌⊎◌, inl, inr}
use mathlib.Core.Bool.{◌&&◌}
use zenoh_c.Common.Lists.{length, take, drop}
use zenoh_c.Common.Tests.{leb, if◌then◌else◌}
use zenoh_c.Common.Text.{Text}
use Prim.Native.Nat.{ℕ, ◌-◌}

pub data Panics {ℓ} (A : Type ℓ) : Type ℓ where
  ok : A → Panics A
  panic : Panics A

infixl 5 ◌>>=◌
abbrev pub ◌>>=◌ {ℓ μ} : {A : Type ℓ} {B : Type μ} → Panics A → (A → Panics B) → Panics B
panic >>= next = panic
ok value >>= next = next value

-- `&s[a..b]`
unfoldable pub slice : Text → ℕ → ℕ → Panics Text
slice s a b = if leb a b && leb b (length s) then ok (take (b - a) (drop a s)) else panic

pub Panics-cases {ℓ} : {A : Type ℓ} (r : Panics A) → (r ≡ panic) ⊎ ((value : A) × (r ≡ ok value))
Panics-cases panic = inl refl
Panics-cases (ok value) = inr (value, refl)

-- Where two calls in a row return, the first of them did, and the second on its value.
pub bind-ok {ℓ μ} :
    {A : Type ℓ} {B : Type μ} (first : Panics A) (next : A → Panics B) {result : B}
    → (first >>= next) ≡ ok result
    → (value : A) × (first ≡ ok value) × (next value ≡ ok result)
bind-ok panic next ends = cc
bind-ok (ok value) next ends = (value, refl, ends)

pub bind_assoc {ℓ μ ν} :
    {A : Type ℓ} {B : Type μ} {C : Type ν} (first : Panics A) (next : A → Panics B)
    (last : B → Panics C)
    → (first >>= next >>= last) ≡ (first >>= λ a. next a >>= last)
bind_assoc panic next last = refl
bind_assoc (ok value) next last = refl

-- Two calls in a row that go on alike.
pub bind-cong {ℓ μ} :
    {A : Type ℓ} {B : Type μ} (first : Panics A) (next next' : A → Panics B)
    → ((a : A) → next a ≡ next' a)
    → (first >>= next) ≡ (first >>= next')
bind-cong panic next next' h = refl
bind-cong (ok value) next next' h = h value

pub bind-ok_id {ℓ} : {A : Type ℓ} (first : Panics A) → (first >>= ok) ≡ first
bind-ok_id panic = refl
bind-ok_id (ok value) = refl

pub ok_injective {ℓ} : {A : Type ℓ} {a b : A} → Panics.ok a ≡ ok b → a ≡ b
ok_injective e = cc e

-- The call returns.
abbrev pub Returns {ℓ} : {A : Type ℓ} → Panics A → Type 0
Returns panic = ⊥
Returns (ok value) = Unit

pub bind-Returns {ℓ μ} :
    {A : Type ℓ} {B : Type μ} (first : Panics A) (next : A → Panics B)
    → Returns first
    → ((a : A) → Returns (next a))
    → Returns (first >>= next)
bind-Returns panic next h k = h
bind-Returns (ok value) next h k = k value

pub Returns-bind {ℓ μ} :
    {A : Type ℓ} {B : Type μ} (first : Panics A) (next : A → Panics B)
    → Returns (first >>= next)
    → Returns first
Returns-bind panic next h = h
Returns-bind (ok value) next h = tt

pub Returns-ok {ℓ} : {A : Type ℓ} (r : Panics A) → Returns r → (value : A) × (r ≡ ok value)
Returns-ok panic h = absurd h
Returns-ok (ok value) h = (value, refl)

pub Returns-next {ℓ μ} :
    {A : Type ℓ} {B : Type μ} (first : Panics A) (next : A → Panics B)
    → Returns (first >>= next)
    → (a : A) × Returns (next a)
Returns-next panic next h = absurd h
Returns-next (ok value) next h = (value, h)
