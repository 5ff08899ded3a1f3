-- ===== src/Payload/Copies.antt =====
-- What the constructors of payloads in src/zbytes.rs hold or refuse.
use zenoh_c.Common.{
  ℕ, ◌≤◌, ◌<◌, ◌≡◌, refl, sym, subst, ◌∙◌, Bool, true, false, Option, none, some, Bool-cases, inl,
  inr, arith,
}
use zenoh_c.ResultCodes.{ZResult, z_ok, z_einval, Result, ok}
use zenoh_c.Collections.Memory.{Ptr, null, Bytes, Memory, M, pure, ◌>>=◌, bind-some, read}
use zenoh_c.Collections.Slice.{
  CSlice, Deleter, is_invalid, new, new_owned, new_owned_unchecked, from_vec, new_unchecked,
}
use zenoh_c.Collections.Slice.Copies.{
  IsCopy, CopiesTo, from_vec-IsCopied, new_owned_unchecked-IsCopy, slice-read, copied-CopiesTo,
}
use zenoh_c.Payload.Interface.{Zenoh, IsLawful, into_owned}
use zenoh_c.Payload.{
  bytes_or_default, z_bytes_from_buf, z_bytes_from_static_buf, z_bytes_copy_from_buf,
  z_bytes_to_slice, z_internal_bytes_check,
}

-- A payload of these bytes with `Z_OK`, or the default payload with `Z_EINVAL`, which the check
-- refuses, where the pointer is refused.
abbrev pub Judged : (z : Zenoh) → IsLawful z → Memory → Bytes → Bool → z.ZBytes × ZResult → Type 0
Judged z law m bytes true (b, code) =
    (code ≡ z_einval) × (b ≡ z.zbytes_default) × (z_internal_bytes_check z b ≡ false)
Judged z law m bytes false (b, code) = (code ≡ z_ok) × (law.holds m.byte b ≡ bytes)

module _ (z : Zenoh) (law : IsLawful z) where
  -- `z_bytes_from_buf` and `z_bytes_from_static_buf` refuse NULL with a length that is not 0: they
  -- make the default payload, which the check refuses, with `Z_EINVAL`. In every other case they
  -- return `Z_OK` and a payload of the bytes at the pointer.
  from_buf-Judged :
      (p n : ℕ) (d : Option Deleter) (c : ℕ) (m : Memory)
      → Judged z law m (read m.byte p n) (is_invalid p n) (z_bytes_from_buf z p n d c)
        × Judged z law m (read m.byte p n) (is_invalid p n) (z_bytes_from_static_buf z p n)
  unfolding z_bytes_from_buf z_bytes_from_static_buf z_internal_bytes_check new new_unchecked
      bytes_or_default
  from_buf-Judged p n d c m = elim (Bool-cases (is_invalid p n)) [
    | inl y ↦
        rw y (let e = law.default-is_empty in ((refl, refl, rw e refl), (refl, refl, rw e refl)))
    | inr y ↦ rw y (
      (
        refl,
        law.zbytes_from-holds m (new_unchecked p n d c) _ (slice-read (new_unchecked p n d c) m y),
      ),
      (
        refl,
        law.zbytes_from-holds m (new_unchecked p n none null) _
            (slice-read (new_unchecked p n none null) m y),
      ),
    )
  ]

  read_out :
      (b : z.ZBytes) (m : Memory) (bytes : Bytes)
      → 0 < m.next
      → law.holds m.byte b ≡ bytes
      → CopiesTo m bytes (z_bytes_to_slice z b m)
  unfolding z_bytes_to_slice
  read_out b m bytes h e =
      let same : into_owned m.byte (z.to_bytes m.byte b) ≡ bytes =
        law.to_bytes-holds m.byte b ∙ e in
      rw same (copied-CopiesTo m bytes (from_vec bytes) (from_vec-IsCopied bytes m h))

  -- A copy of bytes that is made into a payload.
  copied_payload :
      (p n : ℕ) (m : Memory)
      → 0 < m.next
      → is_invalid p n ≡ false
      → (s : CSlice) × (m' : Memory) × (z_bytes_copy_from_buf z p n m
          ≡ some ((z.zbytes_from s, z_ok), m'))
        × IsCopy m (read m.byte p n) s m'
  unfolding z_bytes_copy_from_buf new_owned bytes_or_default
  copied_payload p n m h k =
      let (s, m', e, c) = new_owned_unchecked-IsCopy p n m h k in
      let attempt : M (Result CSlice) = new_owned_unchecked p n >>= λ t. pure (ok t) in
      let copied = bind-some (new_owned_unchecked p n) (λ t. pure (ok t)) e in
      (s, m', rw k (bind-some attempt (λ r. pure (bytes_or_default z r)) {m = m} copied), c)

  -- What a payload that was made by a copy reads as, whatever is written later to the addresses that
  -- were in use before.
  abbrev pub KeptFrom : Memory → Bytes → Option ((z.ZBytes × ZResult) × Memory) → Type 0
  KeptFrom m bytes none = ⊥
  KeptFrom m bytes (some ((b, code), m')) =
      (code ≡ z_ok)
      × ((f : Ptr → ℕ)
          → ((q : Ptr) → m.next ≤ q → f q ≡ m'.byte q)
          → CopiesTo (record m' { byte = f }) bytes (z_bytes_to_slice z b (record m' { byte = f })))

  -- Where the pointer is not NULL or the length is 0, and NULL is not a free address,
  -- `z_bytes_copy_from_buf` does not fault and returns `Z_OK` and a payload; and whatever is written
  -- later to the addresses in use before, `z_bytes_to_slice` makes a slice of the bytes that were
  -- copied, with `Z_OK`.
  pub z_bytes_copy_from_buf-KeptFrom :
      (p n : ℕ) (m : Memory)
      → 0 < m.next
      → is_invalid p n ≡ false
      → KeptFrom m (read m.byte p n) (z_bytes_copy_from_buf z p n m)
  z_bytes_copy_from_buf-KeptFrom p n m h k =
      let (s, m', e, c) = copied_payload p n m h k in
      subst (KeptFrom m (read m.byte p n)) (sym e) (
        refl,
        λ f same.
            read_out (z.zbytes_from s) (record m' { byte = f }) (read m.byte p n)
              (omega (arith, h, c.grows))
              (law.zbytes_from-holds (record m' { byte = f }) s (read m.byte p n) (c.holds f same)),
      )
