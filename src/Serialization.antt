-- ===== src/Serialization.antt =====
-- src/serialization.rs: the functions that C code serializes and deserializes with. The encoding
-- itself is the zenoh-ext crate, which is the parameter `z`. The memory behind an out parameter is a
-- result; where the code leaves it alone on an error, its old value is an argument.
pub mod Interface
pub mod RoundTrip
pub mod Nulls
pub mod Streams
mod Tests
use zenoh_c.Common.{ℕ, Bool, Option, none, some, if◌then◌else◌, is_some}
use zenoh_c.Common.Utf8.{is_utf8}
use zenoh_c.ResultCodes.{ZResult, z_ok, z_eparse, z_edeserialize, z_eutf8}
use zenoh_c.Collections.Memory.{Ptr, Bytes, M, pure, fault, ◌>>=◌, from_raw_parts}
use zenoh_c.Collections.Slice.{CSlice, slice, from_vec}
use zenoh_c.Collections.Slice as Slice
use zenoh_c.Collections.Strings.{Strlen, strlen_or_zero, from_string}
use zenoh_c.Serialization.Interface.{
  Number, uint8, uint16, uint32, uint64, int8, int16, int32, int64, float32, float64, boolean, Kind,
  number, vec_u8, string, var_int, ZenohExt, Value,
}

module _ (z : ZenohExt) where
  open z use {
    Num, ZBytes, Serializer, Deserializer, zbytes_new, z_serialize, z_deserialize, serializer_new,
    serialize, finish, deserializer_new, deserialize, done,
  }

  -- A variable of type `ze_owned_serializer_t`; `none` is the gravestone.
  abbrev pub OwnedSerializer : Type 0
  OwnedSerializer = Option Serializer

  unfoldable pub ze_serializer_empty : OwnedSerializer × ZResult
  ze_serializer_empty = (some serializer_new, z_ok)

  -- The variable behind `this_` after the call.
  unfoldable pub ze_serializer_drop : OwnedSerializer → OwnedSerializer
  ze_serializer_drop s = none

  unfoldable pub ze_internal_serializer_check : OwnedSerializer → Bool
  ze_internal_serializer_check s = is_some s

  unfoldable pub ze_internal_serializer_null : OwnedSerializer
  ze_internal_serializer_null = none

  -- The variable after the call, and the bytes; to finish the gravestone is undefined.
  unfoldable pub ze_serializer_finish : OwnedSerializer → Option (OwnedSerializer × ZBytes)
  ze_serializer_finish none = none
  ze_serializer_finish (some s) = some (none, finish s)

  unfoldable pub ze_serialize_arithmetic : (k : Number) → Num k → ZBytes
  ze_serialize_arithmetic k v = z_serialize (number k) v

  abbrev received : (k : Number) → Num k → ZResult → Option (Num k) → Num k × ZResult
  received k old e none = (old, e)
  received k old e (some v) = (v, z_ok)

  -- What `val` holds then, and the code.
  unfoldable pub ze_deserialize_arithmetic : (k : Number) → ZBytes → Num k → Num k × ZResult
  ze_deserialize_arithmetic k bytes val = received k val z_eparse (z_deserialize (number k) bytes)

  unfoldable pub ze_serialize_uint8 : Num uint8 → ZBytes × ZResult
  unfolding ze_serialize_arithmetic
  ze_serialize_uint8 val = (ze_serialize_arithmetic uint8 val, z_ok)

  unfoldable pub ze_serialize_uint16 : Num uint16 → ZBytes × ZResult
  unfolding ze_serialize_arithmetic
  ze_serialize_uint16 val = (ze_serialize_arithmetic uint16 val, z_ok)

  unfoldable pub ze_serialize_uint32 : Num uint32 → ZBytes × ZResult
  unfolding ze_serialize_arithmetic
  ze_serialize_uint32 val = (ze_serialize_arithmetic uint32 val, z_ok)

  unfoldable pub ze_serialize_uint64 : Num uint64 → ZBytes × ZResult
  unfolding ze_serialize_arithmetic
  ze_serialize_uint64 val = (ze_serialize_arithmetic uint64 val, z_ok)

  unfoldable pub ze_serialize_int8 : Num int8 → ZBytes × ZResult
  unfolding ze_serialize_arithmetic
  ze_serialize_int8 val = (ze_serialize_arithmetic int8 val, z_ok)

  unfoldable pub ze_serialize_int16 : Num int16 → ZBytes × ZResult
  unfolding ze_serialize_arithmetic
  ze_serialize_int16 val = (ze_serialize_arithmetic int16 val, z_ok)

  unfoldable pub ze_serialize_int32 : Num int32 → ZBytes × ZResult
  unfolding ze_serialize_arithmetic
  ze_serialize_int32 val = (ze_serialize_arithmetic int32 val, z_ok)

  unfoldable pub ze_serialize_int64 : Num int64 → ZBytes × ZResult
  unfolding ze_serialize_arithmetic
  ze_serialize_int64 val = (ze_serialize_arithmetic int64 val, z_ok)

  unfoldable pub ze_serialize_float : Num float32 → ZBytes × ZResult
  unfolding ze_serialize_arithmetic
  ze_serialize_float val = (ze_serialize_arithmetic float32 val, z_ok)

  unfoldable pub ze_serialize_double : Num float64 → ZBytes × ZResult
  unfolding ze_serialize_arithmetic
  ze_serialize_double val = (ze_serialize_arithmetic float64 val, z_ok)

  unfoldable pub ze_serialize_bool : Num boolean → ZBytes × ZResult
  unfolding ze_serialize_arithmetic
  ze_serialize_bool val = (ze_serialize_arithmetic boolean val, z_ok)

  unfoldable pub ze_deserialize_uint8 : ZBytes → Num uint8 → Num uint8 × ZResult
  unfolding ze_deserialize_arithmetic
  ze_deserialize_uint8 bytes dst = ze_deserialize_arithmetic uint8 bytes dst

  unfoldable pub ze_deserialize_uint16 : ZBytes → Num uint16 → Num uint16 × ZResult
  unfolding ze_deserialize_arithmetic
  ze_deserialize_uint16 bytes dst = ze_deserialize_arithmetic uint16 bytes dst

  unfoldable pub ze_deserialize_uint32 : ZBytes → Num uint32 → Num uint32 × ZResult
  unfolding ze_deserialize_arithmetic
  ze_deserialize_uint32 bytes dst = ze_deserialize_arithmetic uint32 bytes dst

  unfoldable pub ze_deserialize_uint64 : ZBytes → Num uint64 → Num uint64 × ZResult
  unfolding ze_deserialize_arithmetic
  ze_deserialize_uint64 bytes dst = ze_deserialize_arithmetic uint64 bytes dst

  unfoldable pub ze_deserialize_int8 : ZBytes → Num int8 → Num int8 × ZResult
  unfolding ze_deserialize_arithmetic
  ze_deserialize_int8 bytes dst = ze_deserialize_arithmetic int8 bytes dst

  unfoldable pub ze_deserialize_int16 : ZBytes → Num int16 → Num int16 × ZResult
  unfolding ze_deserialize_arithmetic
  ze_deserialize_int16 bytes dst = ze_deserialize_arithmetic int16 bytes dst

  unfoldable pub ze_deserialize_int32 : ZBytes → Num int32 → Num int32 × ZResult
  unfolding ze_deserialize_arithmetic
  ze_deserialize_int32 bytes dst = ze_deserialize_arithmetic int32 bytes dst

  unfoldable pub ze_deserialize_int64 : ZBytes → Num int64 → Num int64 × ZResult
  unfolding ze_deserialize_arithmetic
  ze_deserialize_int64 bytes dst = ze_deserialize_arithmetic int64 bytes dst

  unfoldable pub ze_deserialize_float : ZBytes → Num float32 → Num float32 × ZResult
  unfolding ze_deserialize_arithmetic
  ze_deserialize_float bytes dst = ze_deserialize_arithmetic float32 bytes dst

  unfoldable pub ze_deserialize_double : ZBytes → Num float64 → Num float64 × ZResult
  unfolding ze_deserialize_arithmetic
  ze_deserialize_double bytes dst = ze_deserialize_arithmetic float64 bytes dst

  unfoldable pub ze_deserialize_bool : ZBytes → Num boolean → Num boolean × ZResult
  unfolding ze_deserialize_arithmetic
  ze_deserialize_bool bytes dst = ze_deserialize_arithmetic boolean bytes dst

  unfoldable pub ze_serialize_slice : CSlice → M (ZBytes × ZResult)
  unfolding slice
  ze_serialize_slice s = do cslice ← slice s; pure (z_serialize vec_u8 cslice, z_ok)

  unfoldable pub ze_serialize_buf : Ptr → ℕ → M (ZBytes × ZResult)
  unfolding from_raw_parts
  ze_serialize_buf data_ptr len = do
    bytes ← from_raw_parts data_ptr len
    pure (z_serialize vec_u8 bytes, z_ok)

  abbrev pub into_slice : Option Bytes → M (CSlice × ZResult)
  into_slice none = pure (Slice.gravestone, z_edeserialize)
  into_slice (some bytes) = do s ← from_vec bytes; pure (s, z_ok)

  unfoldable pub ze_deserialize_slice : ZBytes → M (CSlice × ZResult)
  unfolding from_vec Slice.gravestone
  ze_deserialize_slice payload = into_slice (z_deserialize vec_u8 payload)

  abbrev pub checked : Bytes → ZBytes × ZResult
  checked bytes = if is_utf8 bytes then (z_serialize string bytes, z_ok) else (zbytes_new, z_eutf8)

  unfoldable pub ze_serialize_string : CSlice → M (ZBytes × ZResult)
  unfolding slice is_utf8
  ze_serialize_string str = do bytes ← slice str; pure (checked bytes)

  unfoldable pub ze_serialize_substr : Ptr → ℕ → M (ZBytes × ZResult)
  unfolding from_raw_parts is_utf8
  ze_serialize_substr start len = do bytes ← from_raw_parts start len; pure (checked bytes)

  unfoldable pub ze_serialize_str : Strlen → Ptr → M (ZBytes × ZResult)
  unfolding ze_serialize_substr strlen_or_zero
  ze_serialize_str strlen str m = ze_serialize_substr str (strlen_or_zero strlen m.byte str) m

  abbrev pub into_string : Option Bytes → M (CSlice × ZResult)
  into_string none = pure (Slice.gravestone, z_edeserialize)
  into_string (some bytes) = do s ← from_string bytes; pure (s, z_ok)

  unfoldable pub ze_deserialize_string : ZBytes → M (CSlice × ZResult)
  unfolding from_string Slice.gravestone
  ze_deserialize_string payload = into_string (z_deserialize string payload)

  unfoldable pub ze_deserializer_from_bytes : ZBytes → Deserializer
  ze_deserializer_from_bytes bytes = deserializer_new bytes

  unfoldable pub ze_deserializer_is_done : Deserializer → Bool
  ze_deserializer_is_done d = done d
