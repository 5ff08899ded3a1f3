-- ===== src/Encoding/Transfers.antt =====
-- An encoding that is taken apart and put together again.
use zenoh_c.Common.{
  ℕ, ◌≡◌, refl, Option, none, some, ltb, ◌==◌, if◌then◌else◌, Bool-cases, inl, inr,
}
use zenoh_c.Collections.Memory.{Ptr, null, Memory, read, from_raw_parts}
use zenoh_c.Encoding.Interface.{ZenohEncoding}
use zenoh_c.Encoding.{zc_internal_encoding_get_data, zc_internal_encoding_from_data, data_of}

-- What comes back of an encoding with this schema.
abbrev pub transferred :
    (z : ZenohEncoding) → ℕ → Option (Ptr × ℕ) → Memory → Option (z.Encoding × Memory)
transferred z i none m = none
transferred z i (some (p, n)) m =
    if p == null
    then none
    else some (z.new_encoding i (if ltb 0 n then some (read m.byte p n) else none), m)

from_data-data_of :
    (z : ZenohEncoding) (i : ℕ) (o : Option (Ptr × ℕ)) (m : Memory)
    → zc_internal_encoding_from_data z (data_of z i o) m ≡ transferred z i o m
unfolding zc_internal_encoding_from_data
from_data-data_of z i none m = refl
from_data-data_of z i (some (p, n)) m = elim (Bool-cases (p == null)) [
  | inl e ↦ rw (e, from_raw_parts)
  | inr e ↦ rw (e, from_raw_parts)
]

-- `zc_internal_encoding_from_data` of what `zc_internal_encoding_get_data` returns: an encoding with
-- a schema that is not NULL comes back with the same number and, unless the schema is empty, the
-- bytes of the schema, and with no schema if it is empty. For an encoding without a schema the call
-- is undefined, since a slice is made from NULL before NULL is tested.
pub from_data-get_data :
    (z : ZenohEncoding) (e : z.Encoding) (m : Memory)
    → zc_internal_encoding_from_data z (zc_internal_encoding_get_data z e) m
      ≡ transferred z (z.id_of e) (z.schema_of e) m
unfolding zc_internal_encoding_get_data
from_data-get_data z e m = from_data-data_of z (z.id_of e) (z.schema_of e) m
