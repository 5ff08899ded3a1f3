-- ===== src/Splitguide/Failure.antt =====
-- The `Err` values of buildrs/splitguide.rs, which are formatted messages there.
use zenoh_c.Common.{List}
use zenoh_c.Common.Text.{Text}

-- What a record of the header holds: `RecordType`.
pub data RecordType : Type 0 where
  empty multiple private_token typedef_record function_record const_record : RecordType
  prepr_define prepr_include : RecordType

pub data Failure : Type 0 where
  -- "unmatched #endif"
  unmatched_endif : Failure
  -- "{} not found (requested explicitly by splitguide.yaml)"
  not_found : Text → Failure
  -- "Unused {:?} record: {:?}"
  unused : RecordType → List Text → Failure
