-- ===== src/Keyexpr/Idempotent.antt =====
-- The canonization of src/keyexpr.rs, and the test for canonical text after it.
use zenoh_c.Common.{
  ℕ, zero, suc, ◌+◌, ◌≡◌, refl, sym, ap, ap₂, ◌∙◌, subst, true, false, Option, some, [], ◌∷◌, inl,
  inr, Bool-cases, Option-cases, ◌==◌, length, take,
}
use zenoh_c.Common.Utf8.{is_utf8}
use zenoh_c.ResultCodes.{ZResult, z_ok, z_einval, z_eparse, ok, err}
use zenoh_c.Collections.Memory.{Ptr, null, Bytes, Memory, pure, bind-some, read}
use zenoh_c.Collections.Slice.Copies.{read-write}
use zenoh_c.Keyexpr.Interface.{Zenoh, IsLawful}
use zenoh_c.Keyexpr.Outcomes.{create_from}
use zenoh_c.Keyexpr.Canonical.{report, with_buffer, inner_in_place}
use zenoh_c.Keyexpr.{
  lift, code_of, keyexpr_create, keyexpr_create_inner, z_keyexpr_canonize, z_keyexpr_is_canon,
}

read-take :
    (f : Ptr → ℕ) (p n : ℕ) (xs : Bytes)
    → read f p (length xs) ≡ xs
    → read f p (length (take n xs)) ≡ take n xs
read-take f p zero xs h = refl
read-take f p (suc n) [] h = refl
read-take f p (suc n) (x ∷ xs) h =
    let head : f p ≡ x = cc in
    let tail : read f (p + 1) (length xs) ≡ xs = cc in ap₂ ◌∷◌ head (read-take f (p + 1) n xs tail)

inner_check :
    (z : Zenoh) (p : Ptr) (name : Bytes) (m : Memory)
    → keyexpr_create_inner z p name false false m ≡ some (lift z (z.try_from name), m)
unfolding keyexpr_create_inner
inner_check z p name m = refl

same_result :
    {c : ZResult} {a b : ℕ} {m m' : Memory}
    → ◌≡◌ {A = Option ((ZResult × ℕ) × Memory)} (some ((c, a), m)) (some ((c, b), m'))
    → (a ≡ b) × (m ≡ m')
same_result e = (cc, cc)

-- What the canonization has left behind, in full.
module _ (z : Zenoh) (p n : ℕ) (m : Memory) (law : IsLawful z) (e : (p == null) ≡ false) where
  abbrev name : Bytes
  name = read m.byte p n

  abbrev text : Bytes
  text = take (z.canonize name).1 (z.canonize name).0

  abbrev after : Memory
  after = with_buffer m p (z.canonize name).0

  text_is_there : read after.byte p (length text) ≡ text
  text_is_there =
      read-take after.byte p (z.canonize name).1 (z.canonize name).0
        (read-write m.byte p (z.canonize name).0)

  canonize_refused : is_utf8 name ≡ false → z_keyexpr_canonize z p n m ≡ some ((z_eparse, n), m)
  unfolding z_keyexpr_canonize
  canonize_refused u = rw e (
      bind-some (keyexpr_create z p n true false) (report z n) {m = m} {a = err z_eparse}
        (create_from z p n true false m e ∙ rw u))

  canonize_made :
      is_utf8 name ≡ true → z_keyexpr_canonize z p n m ≡ report z n (lift z (z.try_from text)) after
  unfolding z_keyexpr_canonize
  canonize_made u = rw e (
      bind-some (keyexpr_create z p n true false) (report z n) {m = m}
        {a = lift z (z.try_from text)}
        (create_from z p n true false m e ∙ rw u (inner_in_place z p name m)))

  checked :
      is_utf8 name ≡ true
      → (k : z.KeyExpr) → z.try_from text ≡ some k
      → z_keyexpr_is_canon z p (length (z.as_bytes k)) after ≡ some (z_ok, after)
  unfolding z_keyexpr_is_canon
  checked u k t =
      let same : read after.byte p (length (z.as_bytes k)) ≡ text =
        ap (λ (bs : Bytes). read after.byte p (length bs)) (law.try_from_bytes text k t)
        ∙ text_is_there in
      bind-some (keyexpr_create z p (length (z.as_bytes k)) false false) (λ r. pure (code_of z r))
        {m = after} {a = ok k}
        (create_from z p (length (z.as_bytes k)) false false after e
          ∙ rw (same, law.canonize_utf8 name u) (inner_check z p text after ∙ rw t))

  canonized-is_canon :
      (n' : ℕ) (m' : Memory)
      → z_keyexpr_canonize z p n m ≡ some ((z_ok, n'), m')
      → z_keyexpr_is_canon z p n' m' ≡ some (z_ok, m')
  canonized-is_canon n' m' c = elim (Bool-cases (is_utf8 name)) [
    | inr u ↦ absurd (let d = sym (canonize_refused u) ∙ c in cc)
    | inl u ↦ elim (Option-cases (z.try_from text)) [
      | inl t ↦
          absurd (
            let d = ap (λ r. report z n (lift z r) after) (sym t) ∙ sym (canonize_made u) ∙ c in cc)
      | inr (k, t) ↦
          let (same_length, same_memory) =
            same_result
              (ap (λ r. report z n (lift z r) after) (sym t) ∙ sym (canonize_made u) ∙ c) in
          subst (λ i. z_keyexpr_is_canon z p i m' ≡ some (z_ok, m')) same_length
            (subst (λ a. z_keyexpr_is_canon z p (length (z.as_bytes k)) a ≡ some (z_ok, a))
              same_memory (checked u k t))
    ]
  ]

null_refused :
    (z : Zenoh) (p n : ℕ) (m : Memory)
    → (p == null) ≡ true
    → z_keyexpr_canonize z p n m ≡ some ((z_einval, n), m)
unfolding z_keyexpr_canonize
null_refused z p n m e = rw e

-- Where zenoh's key expressions read as what they were made of, and its canonization makes text of
-- text: if `z_keyexpr_canonize` returns `Z_OK`, then `z_keyexpr_is_canon` returns `Z_OK` for what it
-- has left in memory, with the length that it has written.
pub z_keyexpr_canonize-is_canon :
    (z : Zenoh) (start len n' : ℕ) (m m' : Memory)
    → IsLawful z
    → z_keyexpr_canonize z start len m ≡ some ((z_ok, n'), m')
    → z_keyexpr_is_canon z start n' m' ≡ some (z_ok, m')
z_keyexpr_canonize-is_canon z start len n' m m' law c = elim (Bool-cases (start == null)) [
  | inl e ↦ absurd (let d = sym (null_refused z start len m e) ∙ c in cc)
  | inr e ↦ canonized-is_canon z start len m law e n' m' c
]
