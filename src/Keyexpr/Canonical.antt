-- ===== src/Keyexpr/Canonical.antt =====
-- Which bytes the canonization of src/keyexpr.rs in place touches.
use zenoh_c.Common.{
  ℕ, zero, suc, ◌+◌, ◌≤◌, ◌<◌, ◌≡◌, refl, sym, ◌∙◌, subst, true, false, Option, none, some, List,
  [], ◌∷◌, inl, inr, Bool-cases, Option-cases, ◌==◌, length, take, arith,
}
use zenoh_c.Common.Utf8.{is_utf8}
use zenoh_c.ResultCodes.{ZResult, z_ok, z_eparse, Result, err, same_code}
use zenoh_c.Collections.Memory.{Ptr, null, Bytes, Memory, M, pure, ◌>>=◌, bind-some, read, write}
use zenoh_c.Collections.Slice.Copies.{length-read, write_below}
use zenoh_c.Collections.Strings.{Strlen, strlen_or_zero}
use zenoh_c.Keyexpr.Interface.{Zenoh, IsLawful}
use zenoh_c.Keyexpr.Outcomes.{create_from}
use zenoh_c.Keyexpr.{
  lift, keyexpr_create, keyexpr_create_inner, canonized, z_keyexpr_canonize, is_ok, terminate_code,
  z_keyexpr_canonize_null_terminated,
}

pub length-take : {A : Type 0} (n : ℕ) (xs : List A) → length (take n xs) ≤ n
length-take zero xs = omega arith
length-take (suc n) [] = omega arith
length-take (suc n) (x ∷ xs) = omega (arith, length-take n xs)

write_above :
    (f : Ptr → ℕ) (p : Ptr) (bs : Bytes) (q : Ptr) → p + length bs ≤ q → write f p bs q ≡ f q
write_above f p [] q h = refl
write_above f p (b ∷ bs) q h = ground (arith, write_above f (p + 1) bs q)

-- Memory `m'` is `m` but for the `n` bytes at `p`.
pub record OnlyIn (p n : ℕ) (m m' : Memory) : Type 0 where
  pub below : (q : Ptr) → q < p → m'.byte q ≡ m.byte q
  pub above : (q : Ptr) → p + n ≤ q → m'.byte q ≡ m.byte q
  pub same_boxes : m'.boxes ≡ m.boxes
  pub same_calls : m'.calls ≡ m.calls

unchanged-OnlyIn : (p n : ℕ) (m : Memory) → OnlyIn p n m m
unchanged-OnlyIn p n m = record {
  below = λ q h. refl;
  above = λ q h. refl;
  same_boxes = refl;
  same_calls = refl;
}

-- The memory after the canonization has left `buffer` at `p`.
abbrev pub with_buffer : Memory → Ptr → Bytes → Memory
with_buffer m p buffer = record m { byte = write m.byte p buffer }

written-OnlyIn :
    (p n : ℕ) (m : Memory) (buffer : Bytes)
    → length buffer ≤ n
    → OnlyIn p n m (with_buffer m p buffer)
written-OnlyIn p n m buffer h = record {
  below = write_below m.byte p buffer;
  above = λ q k. write_above m.byte p buffer q (omega arith);
  same_boxes = refl;
  same_calls = refl;
}

-- No fault; only those bytes change; what `len` holds then is no more than it held before.
abbrev pub InPlace : ℕ → ℕ → Memory → Option ((ZResult × ℕ) × Memory) → Type 0
InPlace p n m none = ⊥
InPlace p n m (some ((code, n'), m')) = OnlyIn p n m m' × (n' ≤ n)

canonized-length :
    (z : Zenoh) (n : ℕ) (name : Bytes)
    → IsLawful z
    → length name ≤ n
    → (canonized z n (lift z (z.try_from (take (z.canonize name).1 (z.canonize name).0)))).1 ≤ n
canonized-length z n name law h =
    elim (Option-cases (z.try_from (take (z.canonize name).1 (z.canonize name).0))) [
      | inl e ↦ rw e (omega arith)
      | inr (k, e) ↦
          let text = take (z.canonize name).1 (z.canonize name).0 in
          let short : length (z.as_bytes k) ≤ n =
            subst (λ (bs : Bytes). length bs ≤ n) (sym (law.try_from_bytes text k e))
              (omega (
                arith,
                length-take (z.canonize name).1 (z.canonize name).0,
                law.canonize_shortens name,
              )) in
          rw e short
    ]

abbrev pub report : (z : Zenoh) → ℕ → Result z.KeyExpr → M (ZResult × ℕ)
report z n r = pure (canonized z n r)

pub inner_in_place :
    (z : Zenoh) (p : Ptr) (name : Bytes) (m : Memory)
    → keyexpr_create_inner z p name true false m
      ≡ some (
        lift z (z.try_from (take (z.canonize name).1 (z.canonize name).0)),
        with_buffer m p (z.canonize name).0,
      )
unfolding keyexpr_create_inner
inner_in_place z p name m = refl

created-InPlace :
    (z : Zenoh) (p n : ℕ) (m : Memory)
    → IsLawful z
    → (p == null) ≡ false
    → InPlace p n m ((keyexpr_create z p n true false >>= report z n) m)
created-InPlace z p n m law e = elim (Bool-cases (is_utf8 (read m.byte p n))) [
  | inl u ↦
      let name = read m.byte p n in
      subst (InPlace p n m)
        (sym (
          bind-some (keyexpr_create z p n true false) (report z n) {m = m}
            (create_from z p n true false m e ∙ rw u (inner_in_place z p name m))))
        (
          written-OnlyIn p n m (z.canonize name).0
              (omega (arith, law.canonize_size name, length-read m.byte p n)),
          canonized-length z n name law (omega (arith, length-read m.byte p n)),
        )
  | inr u ↦
      subst (InPlace p n m)
        (sym (
          bind-some (keyexpr_create z p n true false) (report z n) {m = m} {a = err z_eparse}
            (create_from z p n true false m e ∙ rw u)))
        (unchanged-OnlyIn p n m, omega arith)
]

-- Where zenoh's canonization keeps the size of its buffer and does not lengthen the text:
-- `z_keyexpr_canonize` does not fault for any pointer and length, changes no byte but the `len` bytes
-- at `start`, frees and allocates nothing, and what `len` holds then is no more than before.
pub z_keyexpr_canonize-InPlace :
    (z : Zenoh) (start len : ℕ) (m : Memory)
    → IsLawful z
    → InPlace start len m (z_keyexpr_canonize z start len m)
unfolding z_keyexpr_canonize
z_keyexpr_canonize-InPlace z start len m law = elim (Bool-cases (start == null)) [
  | inl e ↦ rw e (unchanged-OnlyIn start len m, omega arith)
  | inr e ↦ rw e (created-InPlace z start len m law e)
]

-- As above, and for `Z_OK` there is a terminator no further than the measured length.
abbrev pub EndsInZero : ℕ → ℕ → Memory → Option (ZResult × Memory) → Type 0
EndsInZero p n m none = ⊥
EndsInZero p n m (some (code, m')) =
    OnlyIn p (n + 1) m m' × (same_code code z_ok ≡ true → (k : ℕ) × (k ≤ n) × (m'.byte (p + k) ≡ 0))

grow-OnlyIn :
    (p n k : ℕ) (m m' : Memory)
    → k ≤ n
    → OnlyIn p n m m'
    → OnlyIn p (n + 1) m (with_buffer m' (p + k) (0 ∷ []))
grow-OnlyIn p n k m m' le h = record {
  below = λ q lt. write_below m'.byte (p + k) (0 ∷ []) q (omega arith) ∙ h.below q lt;
  above = λ q lt. write_above m'.byte (p + k) (0 ∷ []) q (omega arith) ∙ h.above q (omega arith);
  same_boxes = h.same_boxes;
  same_calls = h.same_calls;
}

wider-OnlyIn : (p n : ℕ) (m m' : Memory) → OnlyIn p n m m' → OnlyIn p (n + 1) m m'
wider-OnlyIn p n m m' h = record {
  below = h.below;
  above = λ q lt. h.above q (omega arith);
  same_boxes = h.same_boxes;
  same_calls = h.same_calls;
}

terminate-EndsInZero :
    (z : Zenoh) (strlen : Strlen) (p n : ℕ) (m : Memory) (o : Option ((ZResult × ℕ) × Memory))
    → InPlace p n m o
    → EndsInZero p n m (elim o [ none ↦ none | some (r, m') ↦ terminate_code z strlen p r m' ])
terminate-EndsInZero z strlen p n m none h = h
terminate-EndsInZero z strlen p n m (some ((code, k), m')) h =
    elim (Bool-cases (is_ok z strlen code)) [
      | inl e ↦ rw e (grow-OnlyIn p n k m m' h.1 h.0, λ i. (k, h.1, ground arith))
      | inr e ↦ rw e (wider-OnlyIn p n m m' h.0, λ i. absurd cc)
    ]

-- Where zenoh's canonization keeps the size of its buffer and does not lengthen the text:
-- `z_keyexpr_canonize_null_terminated` does not fault, whatever `strlen` measures; it changes no byte
-- but the measured ones and the one behind them; and if it returns `Z_OK` there is a terminator
-- among those.
pub canonize_null_terminated-EndsInZero :
    (z : Zenoh) (strlen : Strlen) (start : Ptr) (m : Memory)
    → IsLawful z
    → EndsInZero start
        (strlen_or_zero strlen m.byte start)
        m
        (z_keyexpr_canonize_null_terminated z strlen start m)
unfolding z_keyexpr_canonize_null_terminated
canonize_null_terminated-EndsInZero z strlen start m law =
    let n = strlen_or_zero strlen m.byte start in
    terminate-EndsInZero z strlen start n m (z_keyexpr_canonize z start n m)
      (z_keyexpr_canonize-InPlace z start n m law)
