-- ===== src/Serialization/RoundTrip.antt =====
-- What comes back from src/serialization.rs of what was serialized.
use zenoh_c.Common.{◌≡◌, ◌<◌, refl, sym, ap, ◌∙◌, subst, Bool, true, false, some}
use zenoh_c.Common.Utf8.{is_utf8}
use zenoh_c.ResultCodes.{ZResult, z_ok, z_eutf8}
use zenoh_c.Collections.Memory.{Bytes, Memory, pure, ◌>>=◌, bind-some}
use zenoh_c.Collections.Slice.{CSlice, slice, from_vec}
use zenoh_c.Collections.Strings.{from_string}
use zenoh_c.Collections.Slice.Copies.{CopiesTo, from_vec-IsCopied, copied-CopiesTo}
use zenoh_c.Serialization.Interface.{
  Number, uint8, uint16, uint32, uint64, int8, int16, int32, int64, float32, float64, boolean,
  number, vec_u8, string, ZenohExt, IsLawful,
}
use zenoh_c.Serialization.{
  ze_serialize_arithmetic, ze_deserialize_arithmetic, ze_serialize_slice, ze_deserialize_slice,
  checked, ze_serialize_string, ze_deserialize_string, ze_serialize_uint8, ze_serialize_uint16,
  ze_serialize_uint32, ze_serialize_uint64, ze_serialize_int8, ze_serialize_int16,
  ze_serialize_int32, ze_serialize_int64, ze_serialize_float, ze_serialize_double,
  ze_serialize_bool, ze_deserialize_uint8, ze_deserialize_uint16, ze_deserialize_uint32,
  ze_deserialize_uint64, ze_deserialize_int8, ze_deserialize_int16, ze_deserialize_int32,
  ze_deserialize_int64, ze_deserialize_float, ze_deserialize_double, ze_deserialize_bool,
}

-- With `Z_OK`, what one function writes is what the other reads, whatever was there before.
abbrev pub Returns : {A B : Type 0} → (A → B × ZResult) → (B → A → A × ZResult) → Type 0
Returns {A} put get = (v old : A) → ((put v).1 ≡ z_ok) × (get (put v).0 old ≡ (v, z_ok))

returns-number :
    (z : ZenohExt)
    → IsLawful z
    → (k : Number) (v old : z.Num k)
    → ze_deserialize_arithmetic z k (ze_serialize_arithmetic z k v) old ≡ (v, z_ok)
unfolding ze_deserialize_arithmetic ze_serialize_arithmetic
returns-number z law k v old = rw (law.z_deserialize-z_serialize (number k) v)

-- If a value is deserialized as what was serialized at the same type, then for each of the eleven
-- types of numbers and Booleans `ze_serialize_*` returns `Z_OK`, and `ze_deserialize_*` of its result
-- returns `Z_OK` and writes the same value, whatever the out parameter held before.
pub numbers-Returns :
    (z : ZenohExt)
    → IsLawful z
    → Returns (ze_serialize_uint8 z) (ze_deserialize_uint8 z)
      × Returns (ze_serialize_uint16 z) (ze_deserialize_uint16 z)
      × Returns (ze_serialize_uint32 z) (ze_deserialize_uint32 z)
      × Returns (ze_serialize_uint64 z) (ze_deserialize_uint64 z)
      × Returns (ze_serialize_int8 z) (ze_deserialize_int8 z)
      × Returns (ze_serialize_int16 z) (ze_deserialize_int16 z)
      × Returns (ze_serialize_int32 z) (ze_deserialize_int32 z)
      × Returns (ze_serialize_int64 z) (ze_deserialize_int64 z)
      × Returns (ze_serialize_float z) (ze_deserialize_float z)
      × Returns (ze_serialize_double z) (ze_deserialize_double z)
      × Returns (ze_serialize_bool z) (ze_deserialize_bool z)
unfolding ze_serialize_uint8 ze_serialize_uint16 ze_serialize_uint32 ze_serialize_uint64
    ze_serialize_int8 ze_serialize_int16 ze_serialize_int32 ze_serialize_int64 ze_serialize_float
    ze_serialize_double ze_serialize_bool ze_deserialize_uint8 ze_deserialize_uint16
    ze_deserialize_uint32 ze_deserialize_uint64 ze_deserialize_int8 ze_deserialize_int16
    ze_deserialize_int32 ze_deserialize_int64 ze_deserialize_float ze_deserialize_double
    ze_deserialize_bool
numbers-Returns z law = (
  λ v old. (refl, returns-number z law uint8 v old),
  λ v old. (refl, returns-number z law uint16 v old),
  λ v old. (refl, returns-number z law uint32 v old),
  λ v old. (refl, returns-number z law uint64 v old),
  λ v old. (refl, returns-number z law int8 v old),
  λ v old. (refl, returns-number z law int16 v old),
  λ v old. (refl, returns-number z law int32 v old),
  λ v old. (refl, returns-number z law int64 v old),
  λ v old. (refl, returns-number z law float32 v old),
  λ v old. (refl, returns-number z law float64 v old),
  λ v old. (refl, returns-number z law boolean v old),
)

serialized-slice :
    (z : ZenohExt) (s : CSlice) (m : Memory) (bytes : Bytes)
    → slice s m ≡ some (bytes, m)
    → ze_serialize_slice z s m ≡ some ((z.z_serialize vec_u8 bytes, z_ok), m)
unfolding ze_serialize_slice
serialized-slice z s m bytes e = bind-some (slice s) (λ bs. pure (z.z_serialize vec_u8 bs, z_ok)) e

deserialized-slice :
    (z : ZenohExt) (m : Memory) (bytes : Bytes)
    → IsLawful z
    → 0 < m.next
    → CopiesTo m bytes (ze_deserialize_slice z (z.z_serialize vec_u8 bytes) m)
unfolding ze_deserialize_slice
deserialized-slice z m bytes law h =
    rw (law.z_deserialize-z_serialize vec_u8 bytes)
      (copied-CopiesTo m bytes (from_vec bytes) (from_vec-IsCopied bytes m h))

serialized-string :
    (z : ZenohExt) (s : CSlice) (m : Memory) (bytes : Bytes)
    → slice s m ≡ some (bytes, m)
    → ze_serialize_string z s m ≡ some (checked z bytes, m)
unfolding ze_serialize_string
serialized-string z s m bytes e = bind-some (slice s) (λ bs. pure (checked z bs)) e

deserialized-string :
    (z : ZenohExt) (m : Memory) (bytes : Bytes)
    → IsLawful z
    → 0 < m.next
    → CopiesTo m bytes (ze_deserialize_string z (z.z_serialize string bytes) m)
unfolding ze_deserialize_string from_string
deserialized-string z m bytes law h =
    rw (law.z_deserialize-z_serialize string bytes)
      (copied-CopiesTo m bytes (from_vec bytes) (from_vec-IsCopied bytes m h))

-- If a value is deserialized as what was serialized at the same type, and NULL is not a free
-- address, then for a slice that can be read `ze_serialize_slice` and then `ze_deserialize_slice`
-- return `Z_OK` and make a slice of the same bytes, which no later write to an address in use before
-- changes.
pub slice-CopiesTo :
    (z : ZenohExt) (s : CSlice) (m : Memory) (bytes : Bytes)
    → IsLawful z
    → 0 < m.next
    → slice s m ≡ some (bytes, m)
    → CopiesTo m bytes ((ze_serialize_slice z s >>= λ r. ze_deserialize_slice z r.0) m)
slice-CopiesTo z s m bytes law h e =
    subst (CopiesTo m bytes)
      (sym (
        bind-some (ze_serialize_slice z s) (λ r. ze_deserialize_slice z r.0) {m = m}
          (serialized-slice z s m bytes e)))
      (deserialized-slice z m bytes law h)

checked_valid :
    (z : ZenohExt) (bytes : Bytes)
    → is_utf8 bytes ≡ true
    → checked z bytes ≡ (z.z_serialize string bytes, z_ok)
checked_valid z bytes u = rw u

checked_invalid :
    (z : ZenohExt) (bytes : Bytes)
    → is_utf8 bytes ≡ false
    → checked z bytes ≡ (z.zbytes_new, z_eutf8)
checked_invalid z bytes u = rw u

-- Either the bytes are UTF-8 and come back, or they are not and the code says so.
abbrev pub StringReturns : (z : ZenohExt) → CSlice → Memory → Bytes → Bool → Type 0
StringReturns z s m bytes true =
    CopiesTo m bytes ((ze_serialize_string z s >>= λ r. ze_deserialize_string z r.0) m)
StringReturns z s m bytes false = ze_serialize_string z s m ≡ some ((z.zbytes_new, z_eutf8), m)

string-StringReturns_by :
    (z : ZenohExt) (s : CSlice) (m : Memory) (bytes : Bytes) (b : Bool)
    → IsLawful z
    → 0 < m.next
    → slice s m ≡ some (bytes, m)
    → is_utf8 bytes ≡ b
    → StringReturns z s m bytes b
string-StringReturns_by z s m bytes true law h e u =
    subst (CopiesTo m bytes)
      (sym (
        bind-some (ze_serialize_string z s) (λ r. ze_deserialize_string z r.0) {m = m}
          (serialized-string z s m bytes e ∙ ap (λ r. some (r, m)) (checked_valid z bytes u))))
      (deserialized-string z m bytes law h)
string-StringReturns_by z s m bytes false law h e u =
    serialized-string z s m bytes e ∙ ap (λ r. some (r, m)) (checked_invalid z bytes u)

-- If a value is deserialized as what was serialized at the same type, and NULL is not a free
-- address, then for a string that can be read: if its bytes are UTF-8, `ze_serialize_string` and then
-- `ze_deserialize_string` return `Z_OK` and make a string of the same bytes; if they are not,
-- `ze_serialize_string` returns `Z_EUTF8` and no bytes, and changes no memory.
pub string-StringReturns :
    (z : ZenohExt) (s : CSlice) (m : Memory) (bytes : Bytes)
    → IsLawful z
    → 0 < m.next
    → slice s m ≡ some (bytes, m)
    → StringReturns z s m bytes (is_utf8 bytes)
string-StringReturns z s m bytes law h e =
    string-StringReturns_by z s m bytes (is_utf8 bytes) law h e refl
