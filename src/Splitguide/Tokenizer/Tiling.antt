-- ===== src/Splitguide/Tokenizer/Tiling.antt =====
-- The tokens that the tokenizer of buildrs/splitguide.rs makes of a text.
use zenoh_c.Common.{
  ℕ, zero, suc, ◌≤◌, ◌<◌, ◌≡◌, refl, ap, ◌∙◌, none, some, List, [], ◌∷◌, ◌++◌, length, drop,
  Outcome, ok, err, panic, out_of_fuel, ◌>>=◌, arith, length-append,
}
use zenoh_c.Common.Text.{Text, Unicode}
use zenoh_c.Splitguide.Failure.{Failure}
use zenoh_c.Splitguide.Token.{Token, next, Recognised}
use zenoh_c.Splitguide.Token.Fronts.{Reads, Ensures}
use zenoh_c.Splitguide.Token.Spans.{next-Reads}
use zenoh_c.Splitguide.Tokenizer.{advance, next_token, tokens}

-- The texts of the tokens, one behind another.
abbrev pub spans : List Token → Text
spans [] = []
spans (t ∷ ts) = t.span ++ spans ts

-- A step of the tokenizer cuts `s` in two, the first part not empty, or panics.
abbrev pub Steps : Text → Outcome Failure (Token × Text) → Type 0
Steps s (ok (t, rest)) = (t.span ++ rest ≡ s) × (length rest < length s)
Steps s (err e) = ⊥
Steps s panic = Unit
Steps s out_of_fuel = ⊥

shorter : (a b s : Text) → a ++ b ≡ s → 0 < length a → length b < length s
shorter a b s e h = omega (arith, ap length e, length-append a b)

advance-Steps : (s : Text) (r : Recognised) → Ensures (Reads s) r → Steps s (r >>= advance s)
advance-Steps s (ok none) h = tt
advance-Steps s (ok (some t)) h = (h.0, shorter t.span (drop (length t.span) s) s h.0 h.1)
advance-Steps s (err e) h = h
advance-Steps s panic h = tt
advance-Steps s out_of_fuel h = h

-- Either a panic, or tokens whose texts, one behind another, are `s`.
abbrev pub Tiles : Text → Outcome Failure (List Token) → Type 0
Tiles s (ok ts) = spans ts ≡ s
Tiles s (err e) = ⊥
Tiles s panic = Unit
Tiles s out_of_fuel = ⊥

Tiles-push :
    (s rest : Text) (t : Token) (r : Outcome Failure (List Token))
    → t.span ++ rest ≡ s
    → Tiles rest r
    → Tiles s (r >>= λ ts. ok (t ∷ ts))
Tiles-push s rest t (ok ts) e h = ap (◌++◌ t.span) h ∙ e
Tiles-push s rest t (err f) e h = h
Tiles-push s rest t panic e h = tt
Tiles-push s rest t out_of_fuel e h = h

Tiles-cons :
    (s : Text) (m : Outcome Failure (Token × Text)) (k : Text → Outcome Failure (List Token))
    → Steps s m
    → ((rest : Text) → length rest < length s → Tiles rest (k rest))
    → Tiles s (m >>= λ x. k x.1 >>= λ ts. ok (x.0 ∷ ts))
Tiles-cons s (ok (t, rest)) k h ih = Tiles-push s rest t (k rest) h.0 (ih rest h.1)
Tiles-cons s (err e) k h ih = h
Tiles-cons s panic k h ih = tt
Tiles-cons s out_of_fuel k h ih = h

module _ (u : Unicode) where
  pub next_token-Steps : (s : Text) → Steps s (next_token u s)
  unfolding next_token
  next_token-Steps s = advance-Steps s (next u s) (next-Reads u s)

  pub tokens-Tiles : (fuel : ℕ) (s : Text) → length s ≤ fuel → Tiles s (tokens u fuel s)
  unfolding tokens
  tokens-Tiles zero [] h = refl
  tokens-Tiles (suc fuel) [] h = refl
  tokens-Tiles zero (c ∷ s) h = absurd (omega arith)
  tokens-Tiles (suc fuel) (c ∷ s) h =
      Tiles-cons (c ∷ s) (next_token u (c ∷ s)) (tokens u fuel) (next_token-Steps (c ∷ s))
        λ rest shorter. tokens-Tiles fuel rest (omega arith)

  -- The tokenizer comes to an end on every text, with the text's length as fuel, and never with an `Err`: it either
  -- panics or returns tokens whose texts, one behind another, are the whole text.
  pub tokenize-Tiles : (s : Text) → Tiles s (tokens u (length s) s)
  tokenize-Tiles s = tokens-Tiles (length s) s (omega arith)
