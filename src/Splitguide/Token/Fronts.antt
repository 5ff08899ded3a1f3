-- ===== src/Splitguide/Token/Fronts.antt =====
-- Texts that stand at the front of another, and how they come through the steps of a recognizer.
use zenoh_c.Common.{
  ℕ, zero, suc, ◌+◌, ◌<◌, ◌≡◌, refl, ◌∙◌, Bool, true, false, leb, ◌&&◌, ◌||◌, Option, none, some,
  [], ◌∷◌, ◌++◌, ap, append-nil, arith, ◌==◌, inl, inr, Bool-cases, Option-cases, length, take,
  drop, take-append-drop-length, Outcome, ok, err, panic, out_of_fuel, ◌>>=◌, subst, if◌then◌else◌,
}
use zenoh_c.Common.Int.{ℤ}
use zenoh_c.Common.Text.{Text, codes, starts_with, find, slice, Unicode}
use zenoh_c.Splitguide.Failure.{Failure}
use zenoh_c.Splitguide.Token.{
  TokenType, Token, token, Recognised, or_else, and_then, expect, unwrap, last_is_wide, until_incl,
  line_of, typedef_len, typedef_tail, function_id, const_id,
}

-- `span` stands at the front of `s`, and is not empty.
abbrev pub IsFront : Text → Text → Type 0
IsFront s span = (span ++ drop (length span) s ≡ s) × (0 < length span)

abbrev pub Reads : Text → Token → Type 0
Reads s t = IsFront s t.span

-- What is recognised, if anything is, satisfies `P`; nothing but a panic can stop the recogniser.
abbrev pub Ensures : (Token → Type 0) → Recognised → Type 0
Ensures P (ok none) = Unit
Ensures P (ok (some t)) = P t
Ensures P (err e) = ⊥
Ensures P panic = Unit
Ensures P out_of_fuel = ⊥

-- A value or a panic.
abbrev Cuts : Outcome Failure Text → Type 0
Cuts (ok t) = Unit
Cuts (err e) = ⊥
Cuts panic = Unit
Cuts out_of_fuel = ⊥

pub slice-Cuts : (s : Text) (a b : ℕ) → Cuts (slice s a b)
unfolding slice
slice-Cuts s a b = elim (Bool-cases (leb a b && leb b (length s))) [
  | inl h ↦ rw h tt
  | inr h ↦ rw h tt
]

pub unwrap-Cuts : (o : Option Text) → Cuts (unwrap o)
unwrap-Cuts none = tt
unwrap-Cuts (some t) = tt

pub typedef_tail-Cuts : (u : Unicode) (span : Text) → Cuts (typedef_tail u span)
unfolding typedef_tail
typedef_tail-Cuts u span = elim (Bool-cases (last_is_wide span)) [
  | inl h ↦ rw h tt
  | inr h ↦ rw h (slice-Cuts span _ _)
]

pub function_id-Cuts : (u : Unicode) (span : Text) → Cuts (function_id u span)
unfolding function_id
function_id-Cuts u span = slice-Cuts span _ _

pub const_id-Cuts : (u : Unicode) (span : Text) → Cuts (const_id u span)
unfolding const_id
const_id-Cuts u span = slice-Cuts span _ _

module _ (P : Token → Type 0) where
  pub Ensures-or_else : (a b : Recognised) → Ensures P a → Ensures P b → Ensures P (or_else a b)
  Ensures-or_else (ok none) b ha hb = hb
  Ensures-or_else (ok (some t)) b ha hb = ha
  Ensures-or_else (err e) b ha hb = ha
  Ensures-or_else panic b ha hb = tt
  Ensures-or_else out_of_fuel b ha hb = ha

  pub Ensures-and_then :
      (o : Option Text) (k : Text → Recognised)
      → ((span : Text) → o ≡ some span → Ensures P (k span))
      → Ensures P (and_then o k)
  Ensures-and_then none k h = tt
  Ensures-and_then (some span) k h = h span refl

  pub Ensures-bind :
      (m : Outcome Failure Text) (k : Text → Recognised)
      → Cuts m
      → ((id : Text) → Ensures P (k id))
      → Ensures P (m >>= k)
  Ensures-bind (ok id) k c h = h id
  Ensures-bind (err e) k c h = c
  Ensures-bind panic k c h = tt
  Ensures-bind out_of_fuel k c h = c

  pub Ensures-expect :
      (o : Option Text) (k : Text → Recognised)
      → ((span : Text) → o ≡ some span → Ensures P (k span))
      → Ensures P (expect o >>= k)
  Ensures-expect none k h = tt
  Ensures-expect (some span) k h = h span refl

  pub Ensures-if :
      (b : Bool) (a : Recognised) → (b ≡ true → Ensures P a) → Ensures P (if b then a else ok none)
  Ensures-if true a h = h refl
  Ensures-if false a h = tt

length-take_pos : (n : ℕ) (s : Text) → 0 < n → 0 < length s → 0 < length (take n s)
length-take_pos zero s h k = absurd (omega arith)
length-take_pos (suc n) [] h k = k
length-take_pos (suc n) (c ∷ s) h k = omega arith

pub take-IsFront : (n : ℕ) (s : Text) → 0 < n → 0 < length s → IsFront s (take n s)
take-IsFront n s h k = (take-append-drop-length n s, length-take_pos n s h k)

drop_all : (s : Text) → drop (length s) s ≡ []
drop_all [] = refl
drop_all (c ∷ s) = drop_all s

pub self-IsFront : (s : Text) → 0 < length s → IsFront s s
self-IsFront s h = (ap (◌++◌ s) (drop_all s) ∙ append-nil s, h)

pub starts_with_pos : (s : Text) (p : ℕ) (ps : Text) → starts_with s (p ∷ ps) ≡ true → 0 < length s
unfolding starts_with
starts_with_pos [] p ps h = cc
starts_with_pos (c ∷ s) p ps h = omega arith

-- The line of a text that starts with another character than the newline.
pub line_of-IsFront :
    (s : Text) (p : ℕ) (ps : Text)
    → (p == b'\n') ≡ false
    → starts_with s (p ∷ ps) ≡ true
    → IsFront s (line_of s)
unfolding line_of find starts_with
line_of-IsFront [] p ps h k = cc
line_of-IsFront (c ∷ s) p ps h k =
    let other : (c == b'\n') ≡ false = ground arith in
    elim (Option-cases (find s (codes "\n"))) [
      | inl e ↦ rw (other, e) (self-IsFront (c ∷ s) (omega arith))
      | inr (l, e) ↦ rw (other, e) (take-IsFront (suc l) (c ∷ s) (omega arith) (omega arith))
    ]

pub until_incl-IsFront :
    (s p span : Text) → 0 < length p → 0 < length s → until_incl s p ≡ some span → IsFront s span
unfolding until_incl
until_incl-IsFront s p span h k e = elim (Option-cases (find s p)) [
  | inl e' ↦ absurd (ground (arith))
  | inr (l, e') ↦
      let cut : take (l + length p) s ≡ span = ground arith in
      subst (IsFront s) cut (take-IsFront (l + length p) s (omega arith) k)
]

-- A token of `span`, whatever is taken for its identifier.
pub Ensures-token :
    (s span : Text) (kind : Text → TokenType) (m : Outcome Failure Text)
    → Cuts m
    → IsFront s span
    → Ensures (Reads s) (m >>= λ id. ok (some (token (kind id) id span)))
Ensures-token s span kind (ok id) c h = h
Ensures-token s span kind (err e) c h = c
Ensures-token s span kind panic c h = tt
Ensures-token s span kind out_of_fuel c h = c

pub or-elim :
    {P : Type 0} (a b c : Bool)
    → (a ≡ true → P)
    → (b ≡ true → P)
    → (c ≡ true → P)
    → (a || b || c) ≡ true
    → P
or-elim true b c f g h e = f refl
or-elim false true c f g h e = g refl
or-elim false false true f g h e = h refl
or-elim false false false f g h e = cc

-- The line of a preprocessor directive.
pub directive-IsFront : (s ps : Text) → starts_with s (b'#' ∷ ps) ≡ true → IsFront s (line_of s)
directive-IsFront s ps = line_of-IsFront s b'#' ps refl

until_incl-pos : (s span : Text) → until_incl s (codes ";") ≡ some span → 0 < length s
unfolding until_incl find starts_with
until_incl-pos [] span e = cc
until_incl-pos (c ∷ s) span e = omega arith

pub semicolon-IsFront : (s span : Text) → until_incl s (codes ";") ≡ some span → IsFront s span
semicolon-IsFront s span e =
    until_incl-IsFront s (codes ";") span (omega arith) (until_incl-pos s span e) e

pub typedef_len_pos : (c : ℕ) (s : Text) (n : ℤ) → 0 < typedef_len (c ∷ s) n
unfolding typedef_len
typedef_len_pos c s n = ground arith
