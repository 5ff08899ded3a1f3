-- ===== src/Collections/Strings/Terminators.antt =====
-- What a copy of a C string holds.
use zenoh_c.Common.{ℕ, zero, suc, ◌+◌, ◌<◌, ◌≡◌, ◌≢◌, sym, ap, ◌∙◌, subst, false, All, ◌==◌, arith}
use zenoh_c.Collections.Memory.{Ptr, null, Memory, read}
use zenoh_c.Collections.Slice.{is_invalid}
use zenoh_c.Collections.Slice.Copies.{CopiesTo, z_slice_copy_from_buf-CopiesTo}
use zenoh_c.Collections.Strings.Nulls.{substr-eq-slice}
use zenoh_c.Collections.Strings.{
  Strlen, strlen_or_zero, z_string_copy_from_str, z_string_copy_from_substr,
}

-- What the C standard says of `strlen`: how far it is to the first byte 0.
pub record IsStrlen (strlen : Strlen) (f : Ptr → ℕ) (p : Ptr) : Type 0 where
  pub terminated : f (p + strlen f p) ≡ 0
  pub first : (k : ℕ) → k < strlen f p → f (p + k) ≢ 0

read-All :
    (f : Ptr → ℕ) (p n : ℕ) → ((k : ℕ) → k < n → f (p + k) ≢ 0) → All (λ b. b ≢ 0) (read f p n)
read-All f p zero h = tt
read-All f p (suc n) h = (
  subst (λ q. f q ≢ 0) (omega arith) (h 0 (omega arith)),
  read-All f (p + 1) n (λ k lt. subst (λ q. f q ≢ 0) (omega arith) (h (k + 1) (omega arith))),
)

strlen_or_zero-eq :
    (strlen : Strlen) (f : Ptr → ℕ) (p : Ptr) → p ≢ null → strlen_or_zero strlen f p ≡ strlen f p
unfolding strlen_or_zero
strlen_or_zero-eq strlen f p ne = let nonnull : (p == null) ≡ false = ground arith in rw nonnull

not_null-valid : (p n : ℕ) → p ≢ null → is_invalid p n ≡ false
not_null-valid p n ne = ground arith

-- For a C string that is not NULL, where `strlen` does what the C standard says and NULL is not a
-- free address, `z_string_copy_from_str` does not fault and returns `Z_OK` and a copy of the bytes
-- in front of the terminator: none of them is 0, and the byte behind them in the source is.
pub z_string_copy_from_str-CopiesTo :
    (strlen : Strlen) (p : Ptr) (m : Memory)
    → 0 < m.next
    → p ≢ null
    → IsStrlen strlen m.byte p
    → CopiesTo m (read m.byte p (strlen m.byte p)) (z_string_copy_from_str strlen p m)
      × All (λ b. b ≢ 0) (read m.byte p (strlen m.byte p))
      × (m.byte (p + strlen m.byte p) ≡ 0)
unfolding z_string_copy_from_str
z_string_copy_from_str-CopiesTo strlen p m h ne law = (
  subst (CopiesTo m (read m.byte p (strlen m.byte p)))
      (substr-eq-slice p (strlen m.byte p) m
        ∙ ap (λ n. z_string_copy_from_substr p n m) (sym (strlen_or_zero-eq strlen m.byte p ne)))
      (z_slice_copy_from_buf-CopiesTo p (strlen m.byte p) m h
        (not_null-valid p (strlen m.byte p) ne)),
  read-All m.byte p (strlen m.byte p) law.first,
  law.terminated,
)
