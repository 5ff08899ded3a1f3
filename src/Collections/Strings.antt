-- ===== src/Collections/Strings.antt =====
-- `CStringInner`, `CStringOwned` and `CStringView` of src/collections.rs, which are slices, and the
-- functions `z_string_*` and `z_view_string_*`. `strlen` is that of the C library, a function of the
-- memory's bytes and an address.
pub mod Nulls
pub mod Terminators
use zenoh_c.Common.{ℕ, Bool, not, Option, none, some, ◌==◌, if◌then◌else◌}
use zenoh_c.ResultCodes.{ZResult, Result}
use zenoh_c.Collections.Memory.{Ptr, null, Bytes, M, ◌>>=◌, ◌>>◌, pure}
use zenoh_c.Collections.Slice.{
  CSlice, Deleter, gravestone, new, new_borrowed, new_owned, is_empty, clone_to_owned, drop_slice,
  from_vec, write_or_gravestone,
}

-- `strlen` of the C library.
abbrev pub Strlen : Type 0
Strlen = (Ptr → ℕ) → Ptr → ℕ

unfoldable pub strlen_or_zero : Strlen → (Ptr → ℕ) → Ptr → ℕ
strlen_or_zero strlen f p = if p == null then 0 else strlen f p

-- `From<String>`
unfoldable pub from_string : Bytes → M CSlice
unfolding from_vec
from_string s = from_vec s

unfoldable pub z_string_drop : CSlice → M CSlice
unfolding drop_slice gravestone
z_string_drop s = drop_slice s >> pure gravestone

unfoldable pub z_internal_string_check : CSlice → Bool
unfolding is_empty
z_internal_string_check s = not (is_empty s)

unfoldable pub z_view_string_is_empty : CSlice → Bool
unfolding is_empty
z_view_string_is_empty s = is_empty s

unfoldable pub z_string_empty : CSlice
unfolding gravestone
z_string_empty = gravestone

unfoldable pub z_view_string_empty : CSlice
unfolding gravestone
z_view_string_empty = gravestone

unfoldable pub z_string_copy_from_substr : Ptr → ℕ → M (CSlice × ZResult)
unfolding new_owned gravestone
z_string_copy_from_substr str len = do r ← new_owned str len; pure (write_or_gravestone r)

unfoldable pub z_string_copy_from_str : Strlen → Ptr → M (CSlice × ZResult)
unfolding z_string_copy_from_substr strlen_or_zero
z_string_copy_from_str strlen str m =
    z_string_copy_from_substr str (strlen_or_zero strlen m.byte str) m

unfoldable pub z_string_from_str : Strlen → (Ptr → ℕ) → Ptr → Option Deleter → ℕ → CSlice × ZResult
unfolding new gravestone strlen_or_zero
z_string_from_str strlen f str d c = write_or_gravestone (new str (strlen_or_zero strlen f str) d c)

unfoldable pub z_view_string_from_substr : Ptr → ℕ → CSlice × ZResult
unfolding new_borrowed gravestone
z_view_string_from_substr str len = write_or_gravestone (new_borrowed str len)

unfoldable pub z_view_string_from_str : Strlen → (Ptr → ℕ) → Ptr → CSlice × ZResult
unfolding new_borrowed gravestone strlen_or_zero
z_view_string_from_str strlen f str =
    write_or_gravestone (new_borrowed str (strlen_or_zero strlen f str))

unfoldable pub z_string_len : CSlice → ℕ
z_string_len s = s.len

unfoldable pub z_string_data : CSlice → Ptr
z_string_data s = s.data_ptr

unfoldable pub z_string_clone : CSlice → M CSlice
unfolding clone_to_owned
z_string_clone s = clone_to_owned s

unfoldable pub z_string_is_empty : CSlice → Bool
unfolding is_empty
z_string_is_empty s = is_empty s
