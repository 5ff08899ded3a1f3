-- ===== src/Keyexpr/Tests.antt =====
-- Key expressions that are any text but the empty one, and the theorems of src/keyexpr.rs at them.
use zenoh_c.Common.{
  take-append, ℕ, ◌≤◌, ◌≡◌, refl, false, Option, none, some, [], ◌∷◌, ◌++◌, if◌then◌else◌, ◌==◌,
  is_empty, length, length-append, arith, take, subst, inl, inr, Bool-cases, true,
}
use zenoh_c.Common.Utf8.{is_utf8}
use zenoh_c.Common.Text.{text_eq}
use zenoh_c.Collections.Memory.{Bytes, Memory, read, write}
use zenoh_c.ResultCodes.{z_ok}
use zenoh_c.Collections.Strings.{Strlen, strlen_or_zero}
use zenoh_c.Keyexpr.Interface.{Zenoh, IsLawful, disjoint}
use zenoh_c.Keyexpr.Canonical.{EndsInZero, canonize_null_terminated-EndsInZero}
use zenoh_c.Keyexpr.Idempotent.{z_keyexpr_canonize-is_canon}
use zenoh_c.Keyexpr.Outcomes.{Makes, from_substr-Makes}
use zenoh_c.Keyexpr.{
  z_keyexpr_from_substr, z_view_keyexpr_from_substr, z_keyexpr_canonize, z_keyexpr_is_canon,
  z_keyexpr_canonize_null_terminated,
}

abbrev non_empty : Bytes → Option Bytes
non_empty [] = none
non_empty (b ∷ bs) = some (b ∷ bs)

-- The canonical form leaves out the first byte where it is `*`.
abbrev without_star : Bytes → Bytes × ℕ
without_star [] = ([], 0)
without_star (b ∷ bs) = if b == 42 then (bs ++ b ∷ [], length bs) else (b ∷ bs, length (b ∷ bs))

abbrev texts : Zenoh
texts = record {
  KeyExpr = Bytes;
  dummy = [];
  is_dummy = is_empty;
  as_bytes = λ k. k;
  try_from = non_empty;
  autocanonize = non_empty;
  canonize = without_star;
  from_unchecked = λ s. s;
  concat = λ k s. non_empty (k ++ s);
  join = λ k s. non_empty (k ++ 47 ∷ s);
  equals = text_eq;
  intersects = text_eq;
  includes = text_eq;
  relation_to = λ k s. disjoint;
}

non_empty-is_empty : (s k : Bytes) → non_empty s ≡ some k → is_empty k ≡ false
non_empty-is_empty [] k e = absurd cc
non_empty-is_empty (b ∷ s) [] e = absurd cc
non_empty-is_empty (b ∷ s) (c ∷ k) e = refl

non_empty-same : (s k : Bytes) → non_empty s ≡ some k → k ≡ s
non_empty-same [] k e = absurd cc
non_empty-same (b ∷ s) k e = cc

without_star-size : (s : Bytes) → length (without_star s).0 ≡ length s
without_star-size [] = refl
without_star-size (b ∷ bs) = ground (arith, length-append bs (b ∷ []))

without_star-shortens : (s : Bytes) → (without_star s).1 ≤ length s
without_star-shortens [] = omega arith
without_star-shortens (b ∷ bs) = ground arith

is_utf8-star : (b : ℕ) (bs : Bytes) → (b == 42) ≡ true → is_utf8 (b ∷ bs) ≡ true → is_utf8 bs ≡ true
unfolding is_utf8
is_utf8-star b bs e u =
    let same : b ≡ 42 = ground arith in subst (λ c. is_utf8 (c ∷ bs) ≡ true) same u

take-length : (xs : Bytes) → take (length xs) xs ≡ xs
take-length [] = refl
take-length (x ∷ xs) = rw (take-length xs)

without_star-is_utf8 :
    (s : Bytes) → is_utf8 s ≡ true → is_utf8 (take (without_star s).1 (without_star s).0) ≡ true
without_star-is_utf8 [] u = u
without_star-is_utf8 (b ∷ bs) u = elim (Bool-cases (b == 42)) [
  | inl e ↦ rw (e, take-append bs (b ∷ [])) (is_utf8-star b bs e u)
  | inr e ↦ rw (e, take-length bs) u
]

texts-IsLawful : IsLawful texts
texts-IsLawful = record {
  dummy_is = refl;
  try_from_not_dummy = non_empty-is_empty;
  try_from_bytes = non_empty-same;
  autocanonize_not_dummy = non_empty-is_empty;
  canonize_size = without_star-size;
  canonize_utf8 = without_star-is_utf8;
  canonize_shortens = without_star-shortens;
}

-- "*a" and its terminator at address 10, and 7 everywhere else.
abbrev text_memory : Memory
text_memory = record {
  byte = λ p. if p == 10 then 42 else if p == 11 then 97 else if p == 12 then 0 else 7;
  next = 100;
  boxes = [];
  calls = [];
}

from_substr-Makes_example :
    Makes texts
      (read text_memory.byte 10 2)
      text_memory
      (z_keyexpr_from_substr texts 10 2 text_memory)
    × Makes texts
        (read text_memory.byte 10 2)
        text_memory
        (z_view_keyexpr_from_substr texts 10 2 text_memory)
from_substr-Makes_example = from_substr-Makes texts 10 2 text_memory texts-IsLawful

abbrev two : Strlen
two f p = 2

canonize_null_terminated-EndsInZero_example :
    EndsInZero 10
      (strlen_or_zero two text_memory.byte 10)
      text_memory
      (z_keyexpr_canonize_null_terminated texts two 10 text_memory)
canonize_null_terminated-EndsInZero_example =
    canonize_null_terminated-EndsInZero texts two 10 text_memory texts-IsLawful

-- "a" followed by the "*" that the canonization leaves out.
abbrev canonical_memory : Memory
canonical_memory = record text_memory { byte = write text_memory.byte 10 (97 ∷ 42 ∷ []) }

canonize_run : z_keyexpr_canonize texts 10 2 text_memory ≡ some ((z_ok, 1), canonical_memory)
unfolding z_keyexpr_canonize is_utf8
canonize_run = refl

z_keyexpr_canonize-is_canon_example :
    z_keyexpr_is_canon texts 10 1 canonical_memory ≡ some (z_ok, canonical_memory)
z_keyexpr_canonize-is_canon_example =
    z_keyexpr_canonize-is_canon texts 10 2 1 text_memory canonical_memory texts-IsLawful
      canonize_run
