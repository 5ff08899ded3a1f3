-- ===== src/Serialization/Streams.antt =====
-- The functions `ze_serializer_serialize_*` and `ze_deserializer_deserialize_*` of
-- src/serialization.rs, which write to a serializer and read from a deserializer: the state of either
-- goes in and comes out.
pub mod Sequence
use zenoh_c.Common.{ℕ, Option, none, some, if◌then◌else◌}
use zenoh_c.Common.Utf8.{is_utf8}
use zenoh_c.ResultCodes.{ZResult, z_ok, z_edeserialize, z_eutf8}
use zenoh_c.Collections.Memory.{Ptr, Bytes, M, pure, ◌>>=◌, from_raw_parts}
use zenoh_c.Collections.Slice.{CSlice, slice, from_vec}
use zenoh_c.Collections.Slice as Slice
use zenoh_c.Collections.Strings.{Strlen, strlen_or_zero, from_string}
use zenoh_c.Serialization.Interface.{
  Number, uint8, uint16, uint32, uint64, int8, int16, int32, int64, float32, float64, boolean, Kind,
  number, vec_u8, string, var_int, ZenohExt, Value,
}

module _ (z : ZenohExt) where
  open z use {Num, Serializer, Deserializer, serialize, deserialize}

  unfoldable pub ze_serializer_serialize_arithmetic : (k : Number) → Serializer → Num k → Serializer
  ze_serializer_serialize_arithmetic k s v = serialize (number k) v s

  abbrev read_into :
      (k : Number) → Num k → Option (Num k) × Deserializer → Num k × ZResult × Deserializer
  read_into k old (none, d) = (old, z_edeserialize, d)
  read_into k old (some v, d) = (v, z_ok, d)

  -- What `val` holds then, the code, and the deserializer.
  unfoldable pub ze_deserializer_deserialize_arithmetic :
      (k : Number) → Deserializer → Num k → Num k × ZResult × Deserializer
  ze_deserializer_deserialize_arithmetic k d val = read_into k val (deserialize (number k) d)

  unfoldable pub ze_serializer_serialize_uint8 : Serializer → Num uint8 → Serializer × ZResult
  unfolding ze_serializer_serialize_arithmetic
  ze_serializer_serialize_uint8 s val = (ze_serializer_serialize_arithmetic uint8 s val, z_ok)

  unfoldable pub ze_serializer_serialize_uint16 : Serializer → Num uint16 → Serializer × ZResult
  unfolding ze_serializer_serialize_arithmetic
  ze_serializer_serialize_uint16 s val = (ze_serializer_serialize_arithmetic uint16 s val, z_ok)

  unfoldable pub ze_serializer_serialize_uint32 : Serializer → Num uint32 → Serializer × ZResult
  unfolding ze_serializer_serialize_arithmetic
  ze_serializer_serialize_uint32 s val = (ze_serializer_serialize_arithmetic uint32 s val, z_ok)

  unfoldable pub ze_serializer_serialize_uint64 : Serializer → Num uint64 → Serializer × ZResult
  unfolding ze_serializer_serialize_arithmetic
  ze_serializer_serialize_uint64 s val = (ze_serializer_serialize_arithmetic uint64 s val, z_ok)

  unfoldable pub ze_serializer_serialize_int8 : Serializer → Num int8 → Serializer × ZResult
  unfolding ze_serializer_serialize_arithmetic
  ze_serializer_serialize_int8 s val = (ze_serializer_serialize_arithmetic int8 s val, z_ok)

  unfoldable pub ze_serializer_serialize_int16 : Serializer → Num int16 → Serializer × ZResult
  unfolding ze_serializer_serialize_arithmetic
  ze_serializer_serialize_int16 s val = (ze_serializer_serialize_arithmetic int16 s val, z_ok)

  unfoldable pub ze_serializer_serialize_int32 : Serializer → Num int32 → Serializer × ZResult
  unfolding ze_serializer_serialize_arithmetic
  ze_serializer_serialize_int32 s val = (ze_serializer_serialize_arithmetic int32 s val, z_ok)

  unfoldable pub ze_serializer_serialize_int64 : Serializer → Num int64 → Serializer × ZResult
  unfolding ze_serializer_serialize_arithmetic
  ze_serializer_serialize_int64 s val = (ze_serializer_serialize_arithmetic int64 s val, z_ok)

  unfoldable pub ze_serializer_serialize_float : Serializer → Num float32 → Serializer × ZResult
  unfolding ze_serializer_serialize_arithmetic
  ze_serializer_serialize_float s val = (ze_serializer_serialize_arithmetic float32 s val, z_ok)

  unfoldable pub ze_serializer_serialize_double : Serializer → Num float64 → Serializer × ZResult
  unfolding ze_serializer_serialize_arithmetic
  ze_serializer_serialize_double s val = (ze_serializer_serialize_arithmetic float64 s val, z_ok)

  unfoldable pub ze_serializer_serialize_bool : Serializer → Num boolean → Serializer × ZResult
  unfolding ze_serializer_serialize_arithmetic
  ze_serializer_serialize_bool s val = (ze_serializer_serialize_arithmetic boolean s val, z_ok)

  unfoldable pub ze_deserializer_deserialize_uint8 :
      Deserializer → Num uint8 → Num uint8 × ZResult × Deserializer
  unfolding ze_deserializer_deserialize_arithmetic
  ze_deserializer_deserialize_uint8 d dst = ze_deserializer_deserialize_arithmetic uint8 d dst

  unfoldable pub ze_deserializer_deserialize_uint16 :
      Deserializer → Num uint16 → Num uint16 × ZResult × Deserializer
  unfolding ze_deserializer_deserialize_arithmetic
  ze_deserializer_deserialize_uint16 d dst = ze_deserializer_deserialize_arithmetic uint16 d dst

  unfoldable pub ze_deserializer_deserialize_uint32 :
      Deserializer → Num uint32 → Num uint32 × ZResult × Deserializer
  unfolding ze_deserializer_deserialize_arithmetic
  ze_deserializer_deserialize_uint32 d dst = ze_deserializer_deserialize_arithmetic uint32 d dst

  unfoldable pub ze_deserializer_deserialize_uint64 :
      Deserializer → Num uint64 → Num uint64 × ZResult × Deserializer
  unfolding ze_deserializer_deserialize_arithmetic
  ze_deserializer_deserialize_uint64 d dst = ze_deserializer_deserialize_arithmetic uint64 d dst

  unfoldable pub ze_deserializer_deserialize_int8 :
      Deserializer → Num int8 → Num int8 × ZResult × Deserializer
  unfolding ze_deserializer_deserialize_arithmetic
  ze_deserializer_deserialize_int8 d dst = ze_deserializer_deserialize_arithmetic int8 d dst

  unfoldable pub ze_deserializer_deserialize_int16 :
      Deserializer → Num int16 → Num int16 × ZResult × Deserializer
  unfolding ze_deserializer_deserialize_arithmetic
  ze_deserializer_deserialize_int16 d dst = ze_deserializer_deserialize_arithmetic int16 d dst

  unfoldable pub ze_deserializer_deserialize_int32 :
      Deserializer → Num int32 → Num int32 × ZResult × Deserializer
  unfolding ze_deserializer_deserialize_arithmetic
  ze_deserializer_deserialize_int32 d dst = ze_deserializer_deserialize_arithmetic int32 d dst

  unfoldable pub ze_deserializer_deserialize_int64 :
      Deserializer → Num int64 → Num int64 × ZResult × Deserializer
  unfolding ze_deserializer_deserialize_arithmetic
  ze_deserializer_deserialize_int64 d dst = ze_deserializer_deserialize_arithmetic int64 d dst

  unfoldable pub ze_deserializer_deserialize_float :
      Deserializer → Num float32 → Num float32 × ZResult × Deserializer
  unfolding ze_deserializer_deserialize_arithmetic
  ze_deserializer_deserialize_float d dst = ze_deserializer_deserialize_arithmetic float32 d dst

  unfoldable pub ze_deserializer_deserialize_double :
      Deserializer → Num float64 → Num float64 × ZResult × Deserializer
  unfolding ze_deserializer_deserialize_arithmetic
  ze_deserializer_deserialize_double d dst = ze_deserializer_deserialize_arithmetic float64 d dst

  unfoldable pub ze_deserializer_deserialize_bool :
      Deserializer → Num boolean → Num boolean × ZResult × Deserializer
  unfolding ze_deserializer_deserialize_arithmetic
  ze_deserializer_deserialize_bool d dst = ze_deserializer_deserialize_arithmetic boolean d dst

  unfoldable pub ze_serializer_serialize_slice : Serializer → CSlice → M (Serializer × ZResult)
  unfolding slice
  ze_serializer_serialize_slice s cslice = do
    bytes ← slice cslice
    pure (serialize vec_u8 bytes s, z_ok)

  unfoldable pub ze_serializer_serialize_buf : Serializer → Ptr → ℕ → M (Serializer × ZResult)
  unfolding from_raw_parts
  ze_serializer_serialize_buf s data_ptr len = do
    bytes ← from_raw_parts data_ptr len
    pure (serialize vec_u8 bytes s, z_ok)

  abbrev pub read_slice : Option Bytes × Deserializer → M (CSlice × ZResult × Deserializer)
  read_slice (none, d) = pure (Slice.gravestone, z_edeserialize, d)
  read_slice (some bytes, d) = do s ← from_vec bytes; pure (s, z_ok, d)

  unfoldable pub ze_deserializer_deserialize_slice :
      Deserializer → M (CSlice × ZResult × Deserializer)
  unfolding from_vec Slice.gravestone
  ze_deserializer_deserialize_slice d = read_slice (deserialize vec_u8 d)

  abbrev pub serialize_checked : Serializer → Bytes → Serializer × ZResult
  serialize_checked s bytes =
      if is_utf8 bytes then (serialize string bytes s, z_ok) else (s, z_eutf8)

  unfoldable pub ze_serializer_serialize_string : Serializer → CSlice → M (Serializer × ZResult)
  unfolding slice is_utf8
  ze_serializer_serialize_string s str = do bytes ← slice str; pure (serialize_checked s bytes)

  unfoldable pub ze_serializer_serialize_substr : Serializer → Ptr → ℕ → M (Serializer × ZResult)
  unfolding from_raw_parts is_utf8
  ze_serializer_serialize_substr s start len = do
    bytes ← from_raw_parts start len
    pure (serialize_checked s bytes)

  unfoldable pub ze_serializer_serialize_str : Strlen → Serializer → Ptr → M (Serializer × ZResult)
  unfolding ze_serializer_serialize_substr strlen_or_zero
  ze_serializer_serialize_str strlen s str m =
      ze_serializer_serialize_substr s str (strlen_or_zero strlen m.byte str) m

  abbrev pub read_string : Option Bytes × Deserializer → M (CSlice × ZResult × Deserializer)
  read_string (none, d) = pure (Slice.gravestone, z_edeserialize, d)
  read_string (some bytes, d) = do s ← from_string bytes; pure (s, z_ok, d)

  unfoldable pub ze_deserializer_deserialize_string :
      Deserializer → M (CSlice × ZResult × Deserializer)
  unfolding from_string Slice.gravestone
  ze_deserializer_deserialize_string d = read_string (deserialize string d)

  unfoldable pub ze_serializer_serialize_sequence_length : Serializer → ℕ → Serializer × ZResult
  ze_serializer_serialize_sequence_length s len = (serialize var_int len s, z_ok)

  abbrev read_length : Option ℕ × Deserializer → ℕ × ZResult × Deserializer
  read_length (none, d) = (0, z_edeserialize, d)
  read_length (some l, d) = (l, z_ok, d)

  -- What `len` holds then, the code, and the deserializer.
  unfoldable pub ze_deserializer_deserialize_sequence_length :
      Deserializer → ℕ × ZResult × Deserializer
  ze_deserializer_deserialize_sequence_length d = read_length (deserialize var_int d)
