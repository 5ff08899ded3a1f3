-- ===== src/Collections/Slice.antt =====
-- `CSlice` of src/collections.rs and the functions `z_slice_*` and `z_view_slice_*`.
-- An out parameter is a result. A variable that is moved from is left with the gravestone.
pub mod Copies
pub mod Deleters
pub mod Drops
pub mod Program
pub mod Ownership
use zenoh_c.Common.{
  ℕ, zero, suc, ◌+◌, Bool, true, false, not, ◌&&◌, Option, none, some, List, [], ◌∷◌, ltb, ◌==◌,
  if◌then◌else◌, is_some, length,
}
use zenoh_c.Common.Text.{text_eq}
use zenoh_c.ResultCodes.{ZResult, z_ok, z_einval, Result, ok, err}
use zenoh_c.Collections.Memory.{
  Ptr, null, Bytes, M, pure, ◌>>=◌, ◌>>◌, from_raw_parts, box_leak, box_free, call_deleter,
}

-- The function in `drop`: `_z_drop_c_slice_default`, or one that C code gave.
pub data Deleter : Type 0 where
  default : Deleter
  foreign : ℕ → Deleter

-- `context` is a pointer, or for the default deleter the length.
pub record CSlice : Type 0 where
  pub data_ptr : Ptr
  pub len : ℕ
  pub deleter : Option Deleter
  pub context : ℕ

unfoldable pub new_unchecked : Ptr → ℕ → Option Deleter → ℕ → CSlice
new_unchecked p n d c = record { data_ptr = p; len = n; deleter = d; context = c }

unfoldable pub gravestone : CSlice
gravestone = record { data_ptr = null; len = 0; deleter = none; context = null }

unfoldable pub is_gravestone : CSlice → Bool
is_gravestone s = s.data_ptr == null

unfoldable pub new_borrowed_unchecked : Ptr → ℕ → CSlice
unfolding new_unchecked
new_borrowed_unchecked p n = new_unchecked p n none null

-- `data.is_null() && len > 0`
abbrev pub is_invalid : Ptr → ℕ → Bool
is_invalid p n = p == null && ltb 0 n

-- `CSlice::new`
unfoldable pub new : Ptr → ℕ → Option Deleter → ℕ → Result CSlice
unfolding new_unchecked
new p n d c = if is_invalid p n then err z_einval else ok (new_unchecked p n d c)

unfoldable pub new_borrowed : Ptr → ℕ → Result CSlice
unfolding new_borrowed_unchecked
new_borrowed p n = if is_invalid p n then err z_einval else ok (new_borrowed_unchecked p n)

unfoldable pub wrap : Ptr → ℕ → CSlice
unfolding new_unchecked
wrap p n = new_unchecked p n (some default) n

unfoldable pub new_owned_unchecked : Ptr → ℕ → M CSlice
unfolding gravestone from_raw_parts box_leak wrap
new_owned_unchecked p n =
    if n == 0
    then pure gravestone
    else do bytes ← from_raw_parts p n; q ← box_leak bytes; pure (wrap q n)

-- `?` and `Ok` around it
unfoldable pub new_owned : Ptr → ℕ → M (Result CSlice)
unfolding new_owned_unchecked
new_owned p n =
    if is_invalid p n then pure (err z_einval) else (do s ← new_owned_unchecked p n; pure (ok s))

-- `CSlice::slice`, its bytes read
unfoldable pub slice : CSlice → M Bytes
unfolding from_raw_parts
slice s = if s.len == 0 then pure [] else from_raw_parts s.data_ptr s.len

unfoldable pub is_empty : CSlice → Bool
is_empty s = s.len == 0

unfoldable pub is_owned : CSlice → Bool
is_owned s = is_some s.deleter

unfoldable pub clone_to_borrowed : CSlice → CSlice
unfolding new_borrowed_unchecked
clone_to_borrowed s = new_borrowed_unchecked s.data_ptr s.len

unfoldable pub clone_to_owned : CSlice → M CSlice
unfolding new_owned_unchecked
clone_to_owned s = new_owned_unchecked s.data_ptr s.len

-- `From<Vec<u8>>`
unfoldable pub from_vec : Bytes → M CSlice
unfolding box_leak wrap
from_vec bytes = do p ← box_leak bytes; pure (wrap p (length bytes))

abbrev run_deleter : Option Deleter → Ptr → ℕ → M (Unit {0})
run_deleter none p c = pure tt
run_deleter (some default) p c = box_free p c
run_deleter (some (foreign f)) p c = call_deleter f p c

-- `Drop for CSlice`
unfoldable pub drop_slice : CSlice → M (Unit {0})
unfolding box_free call_deleter
drop_slice s = run_deleter s.deleter s.data_ptr s.context

-- `PartialEq for CSlice`
unfoldable pub slice_eq : CSlice → CSlice → M Bool
unfolding slice text_eq
slice_eq s t = do a ← slice s; b ← slice t; pure (text_eq a b)

-- The match at the end of a constructor: the value written, and the code returned.
abbrev pub write_or_gravestone : Result CSlice → CSlice × ZResult
write_or_gravestone (ok s) = (s, z_ok)
write_or_gravestone (err e) = (gravestone, e)

unfoldable pub z_view_slice_empty : CSlice
unfolding gravestone
z_view_slice_empty = gravestone

unfoldable pub z_view_slice_from_buf : Ptr → ℕ → CSlice × ZResult
unfolding new_borrowed gravestone
z_view_slice_from_buf start n = write_or_gravestone (new_borrowed start n)

unfoldable pub z_slice_empty : CSlice
unfolding gravestone
z_slice_empty = gravestone

-- The variable behind `this_` after the call.
unfoldable pub z_slice_drop : CSlice → M CSlice
unfolding drop_slice gravestone
z_slice_drop s = drop_slice s >> pure gravestone

unfoldable pub z_slice_clone : CSlice → M CSlice
unfolding clone_to_owned
z_slice_clone s = clone_to_owned s

unfoldable pub z_internal_slice_check : CSlice → Bool
unfolding is_empty
z_internal_slice_check s = not (is_empty s)

unfoldable pub z_slice_len : CSlice → ℕ
z_slice_len s = s.len

unfoldable pub z_slice_data : CSlice → Ptr
z_slice_data s = s.data_ptr

unfoldable pub z_slice_is_empty : CSlice → Bool
unfolding is_empty
z_slice_is_empty s = is_empty s

unfoldable pub z_slice_copy_from_buf : Ptr → ℕ → M (CSlice × ZResult)
unfolding new_owned gravestone
z_slice_copy_from_buf start n = do r ← new_owned start n; pure (write_or_gravestone r)

unfoldable pub z_slice_from_buf : Ptr → ℕ → Option Deleter → ℕ → CSlice × ZResult
unfolding new gravestone
z_slice_from_buf p n d c = write_or_gravestone (new p n d c)
