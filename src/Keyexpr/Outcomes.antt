-- ===== src/Keyexpr/Outcomes.antt =====
-- What a constructor of key expressions in src/keyexpr.rs returns.
use zenoh_c.Common.{
  ℕ, ◌≡◌, ◌≢◌, refl, sym, ◌∙◌, subst, Bool, true, false, Option, none, some, ◌⊎◌, inl, inr,
  Bool-cases, Option-cases, ◌==◌, if◌then◌else◌,
}
use zenoh_c.Common.Utf8.{is_utf8}
use zenoh_c.ResultCodes.{ZResult, z_ok, z_einval, z_eparse, Result, err}
use zenoh_c.Collections.Memory.{
  Ptr, null, Bytes, Memory, M, pure, ◌>>=◌, bind-some, read, from_raw_parts, from_raw_parts-read,
}
use zenoh_c.Keyexpr.Interface.{Zenoh, IsLawful}
use zenoh_c.Keyexpr.{
  lift, gravestone, keyexpr_create, keyexpr_create_inner, write_keyexpr, drop_len,
  z_keyexpr_from_substr, z_view_keyexpr_from_substr, z_internal_keyexpr_check,
}

-- What `keyexpr_create` does once the bytes have been read.
pub create_from :
    (z : Zenoh) (p n : ℕ) (auto copy : Bool) (m : Memory)
    → (p == null) ≡ false
    → keyexpr_create z p n auto copy m
      ≡ (if is_utf8 (read m.byte p n)
            then keyexpr_create_inner z p (read m.byte p n) auto copy
            else pure (err z_eparse))
          m
unfolding keyexpr_create
create_from z p n auto copy m e =
    bind-some (from_raw_parts p n)
      (λ name.
        if is_utf8 name then keyexpr_create_inner z p name auto copy else pure (err z_eparse))
      (from_raw_parts-read p n m e)

-- A key expression that reads as the bytes and that the check accepts, with `Z_OK`; or an error with
-- the gravestone, which the check refuses.
abbrev pub Made : (z : Zenoh) → Bytes → z.KeyExpr × ZResult → Type 0
Made z bytes (k, code) =
    (code ≡ z_ok) × (z.as_bytes k ≡ bytes) × (z_internal_keyexpr_check z k ≡ true)
    ⊎ (code ≢ z_ok) × (k ≡ gravestone z) × (z_internal_keyexpr_check z k ≡ false)

-- No fault, the memory as before, and such a result.
abbrev pub Makes : (z : Zenoh) → Bytes → Memory → Option ((z.KeyExpr × ZResult) × Memory) → Type 0
Makes z bytes m none = ⊥
Makes z bytes m (some (r, m')) = (m' ≡ m) × Made z bytes r

refused-Made :
    (z : Zenoh) (bytes : Bytes) (e : ZResult) → IsLawful z → e ≢ z_ok → Made z bytes (z.dummy, e)
unfolding gravestone z_internal_keyexpr_check
refused-Made z bytes e law h = inr (h, refl, rw law.dummy_is)

lift-Made :
    (z : Zenoh) (n : ℕ) (bytes : Bytes)
    → IsLawful z
    → Made z bytes (drop_len z (write_keyexpr z n (lift z (z.try_from bytes))))
unfolding z_internal_keyexpr_check
lift-Made z n bytes law = elim (Option-cases (z.try_from bytes)) [
  | inl e ↦ rw e (refused-Made z bytes z_einval law (λ c. cc))
  | inr (k, e) ↦
      rw e (inl (refl, law.try_from_bytes bytes k e, rw (law.try_from_not_dummy bytes k e)))
]

-- What the two constructors write for a result of `keyexpr_create`.
abbrev report : (z : Zenoh) → ℕ → Result z.KeyExpr → M (z.KeyExpr × ZResult)
report z n r = pure (drop_len z (write_keyexpr z n r))

inner_plain :
    (z : Zenoh) (p : Ptr) (name : Bytes) (copy : Bool) (m : Memory)
    → keyexpr_create_inner z p name false copy m ≡ some (lift z (z.try_from name), m)
unfolding keyexpr_create_inner
inner_plain z p name true m = refl
inner_plain z p name false m = refl

created-Makes :
    (z : Zenoh) (p n : ℕ) (copy : Bool) (m : Memory)
    → IsLawful z
    → (p == null) ≡ false
    → Makes z (read m.byte p n) m ((keyexpr_create z p n false copy >>= report z n) m)
created-Makes z p n copy m law e = elim (Bool-cases (is_utf8 (read m.byte p n))) [
  | inl u ↦
      let made : keyexpr_create z p n false copy m
          ≡ some (lift z (z.try_from (read m.byte p n)), m) =
        create_from z p n false copy m e ∙ rw u (inner_plain z p (read m.byte p n) copy m) in
      subst (Makes z (read m.byte p n) m)
        (sym (bind-some (keyexpr_create z p n false copy) (report z n) {m = m} made))
        (refl, lift-Made z n (read m.byte p n) law)
  | inr u ↦
      let made : keyexpr_create z p n false copy m ≡ some (err z_eparse, m) =
        create_from z p n false copy m e ∙ rw u in
      subst (Makes z (read m.byte p n) m)
        (sym (bind-some (keyexpr_create z p n false copy) (report z n) {m = m} made))
        (refl, refused-Made z (read m.byte p n) z_eparse law (λ c. cc))
]

-- Where zenoh's key expressions are not its dummy and read as what they were made of: for every
-- pointer and length `z_keyexpr_from_substr` and `z_view_keyexpr_from_substr` do not fault and change
-- no memory. Either the code is `Z_OK`, the check accepts the result, and it reads as the given
-- bytes; or the code is an error and the result is the gravestone, which the check refuses.
pub from_substr-Makes :
    (z : Zenoh) (p n : ℕ) (m : Memory)
    → IsLawful z
    → Makes z (read m.byte p n) m (z_keyexpr_from_substr z p n m)
      × Makes z (read m.byte p n) m (z_view_keyexpr_from_substr z p n m)
unfolding z_keyexpr_from_substr z_view_keyexpr_from_substr
from_substr-Makes z p n m law = elim (Bool-cases (p == null)) [
  | inl e ↦
      let made = refused-Made z (read m.byte p n) z_einval law (λ c. cc) in
      (rw e (refl, made), rw e (refl, made))
  | inr e ↦ (rw e (created-Makes z p n true m law e), rw e (created-Makes z p n false m law e))
]
