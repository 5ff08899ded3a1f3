-- ===== src/Encoding/Schemas.antt =====
-- How the constructors and setters of src/encoding.rs end.
use zenoh_c.Common.{
  ℕ, zero, suc, ◌≡◌, refl, ◌∙◌, Bool, true, false, some, inl, inr, Bool-cases, ◌==◌, if◌then◌else◌,
  [],
}
use zenoh_c.Common.Utf8.{is_utf8}
use zenoh_c.ResultCodes.{ZResult, z_ok, z_einval}
use zenoh_c.Collections.Memory.{
  Ptr, null, Bytes, Memory, pure, bind-some, read, from_raw_parts, from_raw_parts-read,
}
use zenoh_c.Collections.Slice.Copies.{suc_ne_zero}
use zenoh_c.Encoding.Interface.{ZenohEncoding}
use zenoh_c.Encoding.{z_encoding_from_substr, z_encoding_set_schema_from_substr}

-- What a call on `n` bytes makes of them, and of what it is given up for.
abbrev pub judged : {A : Type 0} → Bool → A → A → A × ZResult
judged true good bad = (good, z_ok)
judged false good bad = (bad, z_einval)

judged_if :
    {A : Type 0} (b : Bool) (good bad : A) (m : Memory)
    → (if b then pure (good, z_ok) else pure (bad, z_einval)) m ≡ some (judged b good bad, m)
judged_if true good bad m = refl
judged_if false good bad m = refl

-- What `z_encoding_from_substr` is to make of a pointer and the bytes behind it.
abbrev pub named : (z : ZenohEncoding) → Ptr → Bytes → z.Encoding × ZResult
named z p bytes =
    if p == null then (z.default, z_ok) else judged (is_utf8 bytes) (z.from_str bytes) z.default

-- What `z_encoding_set_schema_from_substr` is to make of an encoding.
abbrev pub given : (z : ZenohEncoding) → z.Encoding → Ptr → ℕ → Bytes → z.Encoding × ZResult
given z e p zero bytes = (z.with_schema e [], z_ok)
given z e p (suc n) bytes =
    if p == null then (e, z_einval) else judged (is_utf8 bytes) (z.with_schema e bytes) e

made-named :
    (z : ZenohEncoding) (p n : ℕ) (m : Memory)
    → z_encoding_from_substr z p n m ≡ some (named z p (read m.byte p n), m)
unfolding z_encoding_from_substr
made-named z p n m = elim (Bool-cases (p == null)) [
  | inl e ↦ rw e
  | inr e ↦ rw e (
      bind-some (from_raw_parts p n)
        (λ bytes.
          if is_utf8 bytes then pure (z.from_str bytes, z_ok) else pure (z.default, z_einval))
        {m = m} (from_raw_parts-read p n m e)
      ∙ judged_if (is_utf8 (read m.byte p n)) (z.from_str (read m.byte p n)) z.default m)
]

set-given :
    (z : ZenohEncoding) (e : z.Encoding) (p n : ℕ) (m : Memory)
    → z_encoding_set_schema_from_substr z e p n m ≡ some (given z e p n (read m.byte p n), m)
unfolding z_encoding_set_schema_from_substr
set-given z e p zero m = refl
set-given z e p (suc n) m = elim (Bool-cases (p == null)) [
  | inl i ↦ rw (suc_ne_zero n, i)
  | inr i ↦
      rw (suc_ne_zero n, i)
        (bind-some (from_raw_parts p (suc n))
            (λ bytes.
              if is_utf8 bytes then pure (z.with_schema e bytes, z_ok) else pure (e, z_einval))
            {m = m} (from_raw_parts-read p (suc n) m i)
          ∙ judged_if (is_utf8 (read m.byte p (suc n))) (z.with_schema e (read m.byte p (suc n))) e
              m)
]

-- For every pointer and length, `z_encoding_from_substr` and `z_encoding_set_schema_from_substr` do
-- not fault and change no memory. The first makes the default encoding of NULL, the encoding that
-- the bytes name where they are UTF-8, and else the default encoding with `Z_EINVAL`. The second sets
-- the empty schema for length 0, whatever the pointer; else it sets the bytes as the schema where the
-- pointer is not NULL and they are UTF-8, and otherwise leaves the encoding as it was and returns
-- `Z_EINVAL`.
pub substr-judged :
    (z : ZenohEncoding) (e : z.Encoding) (p n : ℕ) (m : Memory)
    → (z_encoding_from_substr z p n m ≡ some (named z p (read m.byte p n), m))
      × (z_encoding_set_schema_from_substr z e p n m ≡ some (given z e p n (read m.byte p n), m))
substr-judged z e p n m = (made-named z p n m, set-given z e p n m)
