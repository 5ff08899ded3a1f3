-- ===== src/Collections/Strings/Nulls.antt =====
-- What the constructors of strings that measure their argument make of it, NULL included.
use zenoh_c.Common.{ℕ, ◌≡◌, ◌<◌, refl, subst, false, Option, inl, inr, Bool-cases, ◌==◌}
use zenoh_c.ResultCodes.{z_ok}
use zenoh_c.Collections.Memory.{Ptr, null, Memory, read}
use zenoh_c.Collections.Slice.{
  Deleter, is_invalid, z_slice_copy_from_buf, new_unchecked, new_borrowed_unchecked,
}
use zenoh_c.Collections.Slice.Copies.{CopiesTo, z_slice_copy_from_buf-CopiesTo}
use zenoh_c.Collections.Strings.{
  Strlen, strlen_or_zero, z_string_copy_from_str, z_string_copy_from_substr, z_string_from_str,
  z_view_string_from_str,
}

pub measured-valid :
    (strlen : Strlen) (f : Ptr → ℕ) (p : Ptr) → is_invalid p (strlen_or_zero strlen f p) ≡ false
unfolding strlen_or_zero
measured-valid strlen f p = elim (Bool-cases (p == null)) [ inl e ↦ rw e | inr e ↦ rw e ]

pub substr-eq-slice :
    (p n : ℕ) (m : Memory) → z_slice_copy_from_buf p n m ≡ z_string_copy_from_substr p n m
unfolding z_slice_copy_from_buf z_string_copy_from_substr
substr-eq-slice p n m = refl

-- Where NULL is not a free address, none of the three constructors that measure their argument
-- refuses a pointer, NULL included: each returns `Z_OK`. `z_view_string_from_str` borrows and
-- `z_string_from_str` takes over the measured bytes at the pointer, and `z_string_copy_from_str`
-- does not fault and copies them; for NULL the measured length is 0.
pub from_str-accepts :
    (strlen : Strlen) (p : Ptr) (m : Memory) (d : Option Deleter) (c : ℕ)
    → 0 < m.next
    → (z_view_string_from_str strlen m.byte p
        ≡ (new_borrowed_unchecked p (strlen_or_zero strlen m.byte p), z_ok))
      × (z_string_from_str strlen m.byte p d c
          ≡ (new_unchecked p (strlen_or_zero strlen m.byte p) d c, z_ok))
      × CopiesTo m
          (read m.byte p (strlen_or_zero strlen m.byte p))
          (z_string_copy_from_str strlen p m)
      × (strlen_or_zero strlen m.byte null ≡ 0)
unfolding z_string_copy_from_str z_view_string_from_str z_string_from_str
from_str-accepts strlen p m d c h = (
  rw (measured-valid strlen m.byte p),
  rw (measured-valid strlen m.byte p),
  subst (CopiesTo m (read m.byte p (strlen_or_zero strlen m.byte p)))
      (substr-eq-slice p (strlen_or_zero strlen m.byte p) m)
      (z_slice_copy_from_buf-CopiesTo p (strlen_or_zero strlen m.byte p) m h
        (measured-valid strlen m.byte p)),
  refl,
)
