-- ===== src/Encoding/Tests.antt =====
-- Encodings that are a number and a place of a schema, and the theorems of src/encoding.rs at them.
use zenoh_c.Common.{ℕ, ◌≡◌, refl, Option, none, some, [], ◌==◌, length}
use zenoh_c.Collections.Memory.{Ptr, Bytes, Memory, read}
use zenoh_c.Encoding.Interface.{ZenohEncoding}
use zenoh_c.Encoding.Schemas.{named, given, substr-judged}
use zenoh_c.Encoding.Transfers.{transferred, from_data-get_data}
use zenoh_c.Encoding.{
  z_encoding_from_substr, z_encoding_set_schema_from_substr, zc_internal_encoding_get_data,
  zc_internal_encoding_from_data,
}

-- A number and the length of the schema, whose bytes are at address 20.
abbrev Lengths : Type 0
Lengths = ℕ × Option ℕ

abbrev schema_at : Option ℕ → Option (Ptr × ℕ)
schema_at none = none
schema_at (some n) = some (20, n)

abbrev schema_length : Option Bytes → Option ℕ
schema_length none = none
schema_length (some bytes) = some (length bytes)

abbrev pub lengths : ZenohEncoding
lengths = record {
  Encoding = Lengths;
  default = (0, none);
  same = λ e f. e.0 == f.0;
  from_str = λ bytes. (length bytes, none);
  with_schema = λ e bytes. (e.0, some (length bytes));
  id_of = λ e. e.0;
  schema_of = λ e. schema_at e.1;
  new_encoding = λ i schema. (i, schema_length schema);
}

abbrev ascii_memory : Memory
ascii_memory = record { byte = λ p. 104; next = 100; boxes = []; calls = [] }

substr-judged_example :
    (z_encoding_from_substr lengths 10 2 ascii_memory
      ≡ some (named lengths 10 (read ascii_memory.byte 10 2), ascii_memory))
    × (z_encoding_set_schema_from_substr lengths (3, none) 10 2 ascii_memory
        ≡ some (given lengths (3, none) 10 2 (read ascii_memory.byte 10 2), ascii_memory))
substr-judged_example = substr-judged lengths (3, none) 10 2 ascii_memory

from_data-get_data_example :
    zc_internal_encoding_from_data lengths
      (zc_internal_encoding_get_data lengths (3, none))
      ascii_memory
    ≡ transferred lengths 3 none ascii_memory
from_data-get_data_example = from_data-get_data lengths (3, none) ascii_memory

from_data_with_schema :
    zc_internal_encoding_from_data lengths
      (zc_internal_encoding_get_data lengths (3, some 2))
      ascii_memory
    ≡ some ((3, some 2), ascii_memory)
unfolding zc_internal_encoding_from_data zc_internal_encoding_get_data
from_data_with_schema = refl
