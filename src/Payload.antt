-- ===== src/Payload.antt =====
-- src/zbytes.rs: the payloads that C code makes, reads and writes. `ZBytes` and its readers and
-- writers are of the zenoh crate, which is the parameter `z`. An out parameter is a result; where
-- the code leaves it alone, its old value is an argument.
pub mod Interface
pub mod Readers
pub mod Copies
pub mod Streams
pub mod Tests
use zenoh_c.Common.{ℕ, Bool, true, false, not, Option, none, some, ◌==◌, if◌then◌else◌}
use zenoh_c.ResultCodes.{ZResult, z_ok, z_einval, Result, ok, err}
use zenoh_c.Collections.Memory.{Ptr, null, Bytes, M, pure, ◌>>=◌, ◌>>◌, read}
use zenoh_c.Collections.Slice.{
  CSlice, Deleter, gravestone, new, new_owned, new_borrowed_unchecked, clone_to_owned, from_vec,
}
use zenoh_c.Collections.Strings.{Strlen, strlen_or_zero, from_string}
use zenoh_c.Payload.Interface.{Cow, borrowed, owned, into_owned, Zenoh}

module _ (z : Zenoh) where
  open z use {
    ZBytes, Slices, zbytes_default, zbytes_from, zbytes_is_empty, zbytes_len, zbytes_clone,
    drop_zbytes, to_bytes, try_to_string, slices, slices_next,
  }

  -- `Gravestone for ZBytes`
  unfoldable pub bytes_gravestone : ZBytes
  bytes_gravestone = zbytes_default

  unfoldable pub is_bytes_gravestone : ZBytes → Bool
  is_bytes_gravestone bytes = zbytes_is_empty bytes

  unfoldable pub z_internal_bytes_null : ZBytes
  z_internal_bytes_null = zbytes_default

  unfoldable pub z_bytes_empty : ZBytes
  z_bytes_empty = zbytes_default

  -- The variable behind `this_` after the call.
  unfoldable pub z_bytes_drop : ZBytes → M ZBytes
  unfolding bytes_gravestone
  z_bytes_drop bytes = drop_zbytes bytes >> pure bytes_gravestone

  unfoldable pub z_internal_bytes_check : ZBytes → Bool
  z_internal_bytes_check bytes = not (zbytes_is_empty bytes)

  unfoldable pub z_bytes_is_empty : ZBytes → Bool
  z_bytes_is_empty bytes = zbytes_is_empty bytes

  unfoldable pub z_bytes_clone : ZBytes → ZBytes
  z_bytes_clone bytes = zbytes_clone bytes

  unfoldable pub z_bytes_len : ZBytes → ℕ
  z_bytes_len bytes = zbytes_len bytes

  to_string : Option Bytes → M (CSlice × ZResult)
  unfolding from_string gravestone
  to_string none = pure (gravestone, z_einval)
  to_string (some s) = do t ← from_string s; pure (t, z_ok)

  unfoldable pub z_bytes_to_string : ZBytes → M (CSlice × ZResult)
  unfolding to_string
  z_bytes_to_string bytes m = to_string (try_to_string m.byte bytes) m

  unfoldable pub z_bytes_to_slice : ZBytes → M (CSlice × ZResult)
  unfolding from_vec
  z_bytes_to_slice bytes m =
      (do s ← from_vec (into_owned m.byte (to_bytes m.byte bytes)); pure (s, z_ok)) m

  -- The payload, and the variable that the slice is moved from.
  unfoldable pub z_bytes_from_slice : CSlice → ZBytes × CSlice
  unfolding gravestone
  z_bytes_from_slice s = (zbytes_from s, gravestone)

  unfoldable pub z_bytes_copy_from_slice : CSlice → M ZBytes
  unfolding clone_to_owned
  z_bytes_copy_from_slice s = do t ← clone_to_owned s; pure (zbytes_from t)

  -- The match at the end of a constructor: what is written to `this`, and the code.
  unfoldable pub bytes_or_default : Result CSlice → ZBytes × ZResult
  bytes_or_default (ok s) = (zbytes_from s, z_ok)
  bytes_or_default (err e) = (zbytes_default, z_einval)

  unfoldable pub z_bytes_from_buf : Ptr → ℕ → Option Deleter → ℕ → ZBytes × ZResult
  unfolding new bytes_or_default
  z_bytes_from_buf buf len deleter context = bytes_or_default (new buf len deleter context)

  unfoldable pub z_bytes_from_static_buf : Ptr → ℕ → ZBytes × ZResult
  unfolding new bytes_or_default
  z_bytes_from_static_buf buf len = bytes_or_default (new buf len none null)

  unfoldable pub z_bytes_copy_from_buf : Ptr → ℕ → M (ZBytes × ZResult)
  unfolding new_owned bytes_or_default
  z_bytes_copy_from_buf buf len = do r ← new_owned buf len; pure (bytes_or_default r)

  unfoldable pub z_bytes_from_string : CSlice → ZBytes × CSlice
  unfolding gravestone
  z_bytes_from_string s = (zbytes_from s, gravestone)

  unfoldable pub z_bytes_copy_from_string : CSlice → M ZBytes
  unfolding clone_to_owned
  z_bytes_copy_from_string s = do t ← clone_to_owned s; pure (zbytes_from t)

  module _ (strlen : Strlen) where
    unfoldable pub z_bytes_from_str : (Ptr → ℕ) → Ptr → Option Deleter → ℕ → ZBytes × ZResult
    unfolding new bytes_or_default strlen_or_zero
    z_bytes_from_str f str deleter context =
        bytes_or_default (new str (strlen_or_zero strlen f str) deleter context)

    unfoldable pub z_bytes_from_static_str : (Ptr → ℕ) → Ptr → ZBytes × ZResult
    unfolding new bytes_or_default strlen_or_zero
    z_bytes_from_static_str f str =
        bytes_or_default (new str (strlen_or_zero strlen f str) none null)

    unfoldable pub z_bytes_copy_from_str : Ptr → M (ZBytes × ZResult)
    unfolding new_owned bytes_or_default strlen_or_zero
    z_bytes_copy_from_str str m =
        (do r ← new_owned str (strlen_or_zero strlen m.byte str); pure (bytes_or_default r)) m

  unfoldable pub z_bytes_get_slice_iterator : ZBytes → Slices
  z_bytes_get_slice_iterator bytes = slices bytes

  next_view : CSlice → Option (Ptr × ℕ) × Slices → Bool × CSlice × Slices
  unfolding new_borrowed_unchecked
  next_view old (none, it) = (false, old, it)
  next_view old (some (p, n), it) = (true, new_borrowed_unchecked p n, it)

  -- The result, the view then, and the iterator.
  unfoldable pub z_bytes_slice_iterator_next : Slices → CSlice → Bool × CSlice × Slices
  unfolding next_view
  z_bytes_slice_iterator_next it slice = next_view slice (slices_next it)

  contiguous : CSlice → Cow → CSlice × ZResult
  unfolding new_borrowed_unchecked
  contiguous old (borrowed p n) = (new_borrowed_unchecked p n, z_ok)
  contiguous old (owned _) = (old, z_einval)

  unfoldable pub z_bytes_get_contiguous_view : (Ptr → ℕ) → ZBytes → CSlice → CSlice × ZResult
  unfolding contiguous
  z_bytes_get_contiguous_view f bytes view = contiguous view (to_bytes f bytes)
