-- ===== src/Encoding.antt =====
-- src/encoding.rs: encodings that C code makes from text, and how they are handed to another
-- language in parts. What an encoding is belongs to the zenoh crate, which is the parameter `z`. An
-- out parameter is a result; the encoding behind `this` goes in and comes out.
pub mod Interface
pub mod Schemas
pub mod Transfers
pub mod Tests
use zenoh_c.Common.{ℕ, Bool, not, ◌&&◌, Option, none, some, List, [], ◌==◌, ltb, if◌then◌else◌}
use zenoh_c.Common.Utf8.{is_utf8}
use zenoh_c.ResultCodes.{ZResult, z_ok, z_einval}
use zenoh_c.Collections.Memory.{Ptr, null, Bytes, M, pure, ◌>>=◌, from_raw_parts}
use zenoh_c.Collections.Strings.{Strlen, strlen_or_zero}
use zenoh_c.Encoding.Interface.{ZenohEncoding}

-- `zc_internal_encoding_data_t`
pub record EncodingData : Type 0 where
  pub id : ℕ
  pub schema_ptr : Ptr
  pub schema_len : ℕ

module _ (z : ZenohEncoding) where
  open z use {Encoding, default, same, from_str, with_schema, id_of, schema_of, new_encoding}

  -- `Encoding::gravestone`
  unfoldable pub default_gravestone : Encoding
  default_gravestone = default

  unfoldable pub is_default_gravestone : Encoding → Bool
  is_default_gravestone e = same e default

  unfoldable pub z_internal_encoding_null : Encoding
  z_internal_encoding_null = default

  -- The variable behind `this_` after the call.
  unfoldable pub z_encoding_drop : Encoding → Encoding
  unfolding default_gravestone
  z_encoding_drop encoding = default_gravestone

  unfoldable pub z_internal_encoding_check : Encoding → Bool
  z_internal_encoding_check encoding = not (same encoding default)

  unfoldable pub z_encoding_equals : Encoding → Encoding → Bool
  z_encoding_equals encoding other = same encoding other

  unfoldable pub z_encoding_from_substr : Ptr → ℕ → M (Encoding × ZResult)
  unfolding from_raw_parts is_utf8
  z_encoding_from_substr s len = if s == null then pure (default, z_ok) else do
    bytes ← from_raw_parts s len
    if is_utf8 bytes then pure (from_str bytes, z_ok) else pure (default, z_einval)

  unfoldable pub z_encoding_set_schema_from_substr : Encoding → Ptr → ℕ → M (Encoding × ZResult)
  unfolding from_raw_parts is_utf8
  z_encoding_set_schema_from_substr encoding s len =
      if len == 0
      then pure (with_schema encoding [], z_ok)
      else if s == null
      then pure (encoding, z_einval)
      else do
        schema ← from_raw_parts s len
        if is_utf8 schema
            then pure (with_schema encoding schema, z_ok)
            else pure (encoding, z_einval)

  unfoldable pub z_encoding_set_schema_from_str : Strlen → Encoding → Ptr → M (Encoding × ZResult)
  unfolding z_encoding_set_schema_from_substr strlen_or_zero
  z_encoding_set_schema_from_str strlen encoding s m =
      z_encoding_set_schema_from_substr encoding s (strlen_or_zero strlen m.byte s) m

  unfoldable pub z_encoding_from_str : Strlen → Ptr → M (Encoding × ZResult)
  unfolding z_encoding_from_substr strlen_or_zero
  z_encoding_from_str strlen s m = z_encoding_from_substr s (strlen_or_zero strlen m.byte s) m

  abbrev pub data_of : ℕ → Option (Ptr × ℕ) → EncodingData
  data_of i none = record { id = i; schema_ptr = null; schema_len = 0 }
  data_of i (some (p, n)) = record { id = i; schema_ptr = p; schema_len = n }

  unfoldable pub zc_internal_encoding_get_data : Encoding → EncodingData
  zc_internal_encoding_get_data encoding = data_of (id_of encoding) (schema_of encoding)

  -- `then_some`, whose argument has been computed before
  abbrev pub then_some : Bool → Bytes → Option Bytes
  then_some b schema = if b then some schema else none

  unfoldable pub zc_internal_encoding_from_data : EncodingData → M Encoding
  unfolding from_raw_parts
  zc_internal_encoding_from_data d = do
    schema ← from_raw_parts d.schema_ptr d.schema_len
    pure (new_encoding d.id (then_some (not (d.schema_ptr == null) && ltb 0 d.schema_len) schema))
