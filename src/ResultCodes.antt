-- ===== src/ResultCodes.antt =====
-- The codes of src/result.rs: `z_result_t` is an `i8`.
use zenoh_c.Common.{Bool, false, ◌==◌}
use zenoh_c.Common.Int.{ℤ, pos, negsuc}

abbrev pub ZResult : Type 0
ZResult = ℤ

-- `Result<A, z_result_t>`
pub data Result (A : Type 0) : Type 0 where
  ok : A → Result A
  err : ZResult → Result A

-- `negsuc n` is -(n + 1).
abbrev pub z_channel_disconnected : ZResult
z_channel_disconnected = pos 1

abbrev pub z_channel_nodata : ZResult
z_channel_nodata = pos 2

abbrev pub z_ok : ZResult
z_ok = pos 0

abbrev pub z_einval : ZResult
z_einval = negsuc 0

abbrev pub z_eparse : ZResult
z_eparse = negsuc 1

abbrev pub z_eio : ZResult
z_eio = negsuc 2

abbrev pub z_enetwork : ZResult
z_enetwork = negsuc 3

abbrev pub z_edeserialize : ZResult
z_edeserialize = negsuc 6

abbrev pub z_esession_closed : ZResult
z_esession_closed = negsuc 7

abbrev pub z_eutf8 : ZResult
z_eutf8 = negsuc 8

abbrev pub z_ebusy_mutex : ZResult
z_ebusy_mutex = negsuc 15

abbrev pub z_einval_mutex : ZResult
z_einval_mutex = negsuc 21

-- The same number.
abbrev pub z_epoison_mutex : ZResult
z_epoison_mutex = negsuc 21

-- `i8::MIN`
abbrev pub z_egeneric : ZResult
z_egeneric = negsuc 127

-- `==` of two codes
abbrev pub same_code : ZResult → ZResult → Bool
same_code (pos a) (pos b) = a == b
same_code (negsuc a) (negsuc b) = a == b
same_code _ _ = false
