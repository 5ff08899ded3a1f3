-- ===== src/Serialization/Interface.antt =====
-- What src/serialization.rs uses of the zenoh-ext crate: the kinds of values that it serializes, its
-- serializers and deserializers, and separately what its documentation says of them.
use zenoh_c.Common.{ℕ, ◌≡◌, Bool, true, Option, some, List, [], ◌∷◌, ◌++◌}
use zenoh_c.Collections.Memory.{Bytes}

-- The types of a number or a Boolean.
pub data Number : Type 0 where
  uint8 uint16 uint32 uint64 int8 int16 int32 int64 float32 float64 boolean : Number

-- The types of a value: a number, `&[u8]` or `Vec<u8>`, `&str` or `String`, `VarInt<usize>`.
pub data Kind : Type 0 where
  number : Number → Kind
  vec_u8 string var_int : Kind

abbrev pub Value : (Number → Type 0) → Kind → Type 0
Value num (number k) = num k
Value num vec_u8 = Bytes
Value num string = Bytes
Value num var_int = ℕ

pub record ZenohExt : Type 1 where
  pub Num : Number → Type 0
  pub ZBytes : Type 0
  pub Serializer : Type 0
  pub Deserializer : Type 0
  -- `ZBytes::new`
  pub zbytes_new : ZBytes
  pub z_serialize : (k : Kind) → Value Num k → ZBytes
  pub z_deserialize : (k : Kind) → ZBytes → Option (Value Num k)
  pub serializer_new : Serializer
  pub serialize : (k : Kind) → Value Num k → Serializer → Serializer
  pub finish : Serializer → ZBytes
  pub deserializer_new : ZBytes → Deserializer
  pub deserialize : (k : Kind) → Deserializer → Option (Value Num k) × Deserializer
  pub done : Deserializer → Bool

-- What is serialized is what is deserialized at the same type.
pub record IsLawful (z : ZenohExt) : Type 0 where
  pub z_deserialize-z_serialize :
      (k : Kind) (v : Value z.Num k) → z.z_deserialize k (z.z_serialize k v) ≡ some v

-- A value of a kind.
abbrev pub Entry : (Number → Type 0) → Type 0
Entry num = (k : Kind) × Value num k

-- What is serialized one after another is deserialized in the same order, and then nothing is left:
-- `filled es` is a serializer that `es` have been written to, and `left es` a deserializer that still
-- has them to read.
pub record IsStream (z : ZenohExt) : Type 0 where
  pub filled : List (Entry z.Num) → z.Serializer
  pub left : List (Entry z.Num) → z.Deserializer
  pub serializer_new-filled : z.serializer_new ≡ filled []
  pub serialize-filled :
      (es : List (Entry z.Num)) (k : Kind) (v : Value z.Num k)
      → z.serialize k v (filled es) ≡ filled (es ++ (k, v) ∷ [])
  pub finish-filled :
      (es : List (Entry z.Num)) → z.deserializer_new (z.finish (filled es)) ≡ left es
  pub deserialize-left :
      (es : List (Entry z.Num)) (k : Kind) (v : Value z.Num k)
      → z.deserialize k (left ((k, v) ∷ es)) ≡ (some v, left es)
  pub done-left : z.done (left []) ≡ true
