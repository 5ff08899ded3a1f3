-- ===== src/Encoding/Interface.antt =====
-- What src/encoding.rs uses of the zenoh crate: the type of encodings and its operations.
use zenoh_c.Common.{ℕ, Bool, Option}
use zenoh_c.Collections.Memory.{Ptr, Bytes}

pub record ZenohEncoding : Type 1 where
  pub Encoding : Type 0
  pub default : Encoding
  -- `==`
  pub same : Encoding → Encoding → Bool
  pub from_str : Bytes → Encoding
  pub with_schema : Encoding → Bytes → Encoding
  pub id_of : Encoding → ℕ
  -- where the bytes of the schema are, and how many
  pub schema_of : Encoding → Option (Ptr × ℕ)
  -- `Encoding::new`
  pub new_encoding : ℕ → Option Bytes → Encoding
