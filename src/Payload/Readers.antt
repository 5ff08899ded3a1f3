-- ===== src/Payload/Readers.antt =====
-- The readers and writers of src/zbytes.rs. A variable of type `z_owned_bytes_writer_t` is an
-- option, and `none` is its gravestone.
use zenoh_c.Common.{
  ℕ, ◌-◌, ◌%◌, ◌^◌, Bool, true, false, Option, none, some, ◌==◌, if◌then◌else◌, ltb, is_some,
  length,
}
use zenoh_c.Common.Int.{ℤ, pos, negsuc}
use zenoh_c.ResultCodes.{ZResult, z_ok, z_einval, z_eio}
use zenoh_c.Collections.Memory.{Ptr, Bytes, M, pure, fault, ◌>>=◌, ◌>>◌, from_raw_parts, write}
use zenoh_c.Payload.Interface.{SeekFrom, start, current, end_of, Zenoh}

-- `SEEK_SET`, `SEEK_CUR` and `SEEK_END` of the C library.
pub record Origins : Type 0 where
  pub seek_set : ℤ
  pub seek_cur : ℤ
  pub seek_end : ℤ

unfoldable pub same_int : ℤ → ℤ → Bool
same_int (pos a) (pos b) = a == b
same_int (negsuc a) (negsuc b) = a == b
same_int _ _ = false

-- `offset.try_into()` from `i64` to `u64`
unfoldable pub start_at : ℤ → Option SeekFrom
start_at (pos n) = some (start n)
start_at (negsuc n) = none

-- The match on `origin`; `none` is the return of `Z_EINVAL`.
unfoldable pub seek_pos : Origins → ℤ → ℤ → Option SeekFrom
unfolding same_int start_at
seek_pos libc offset origin =
    if same_int origin libc.seek_set
    then start_at offset
    else if same_int origin libc.seek_cur
    then some (current offset)
    else if same_int origin libc.seek_end
    then some (end_of offset)
    else none

-- `p as i64` of a `u64`
unfoldable pub as_i64 : ℕ → ℤ
as_i64 p = let w = p % 2 ^ 64 in if ltb w (2 ^ 63) then pos w else negsuc (2 ^ 64 - w - 1)

module _ (z : Zenoh) where
  open z use {
    ZBytes, Reader, Writer, reader, reader_read, reader_seek, stream_position, reader_remaining,
    writer_new, drop_writer, writer_write_all, writer_append, writer_finish, zbytes_default,
  }

  unfoldable pub z_bytes_get_reader : ZBytes → Reader
  z_bytes_get_reader bytes = reader bytes

  -- What `read` has put into the buffer at `dst`, and how much of it.
  unfoldable pub fill : Ptr → Option Bytes × Reader → M (ℕ × Reader)
  fill dst (none, r) m = some ((0, r), m)
  fill dst (some bytes, r) m = some ((length bytes, r), record m { byte = write m.byte dst bytes })

  unfoldable pub z_bytes_reader_read : Reader → Ptr → ℕ → M (ℕ × Reader)
  unfolding from_raw_parts fill
  z_bytes_reader_read r dst len =
      from_raw_parts dst len >>= λ old. λ m. fill dst (reader_read m.byte r len) m

  unfoldable pub code_of_seek : Bool × Reader → ZResult × Reader
  code_of_seek (true, r) = (z_ok, r)
  code_of_seek (false, r) = (z_einval, r)

  unfoldable pub seek_to : Reader → Option SeekFrom → ZResult × Reader
  unfolding code_of_seek
  seek_to r none = (z_einval, r)
  seek_to r (some p) = code_of_seek (reader_seek r p)

  unfoldable pub z_bytes_reader_seek : Origins → Reader → ℤ → ℤ → ZResult × Reader
  unfolding seek_pos seek_to
  z_bytes_reader_seek libc r offset origin = seek_to r (seek_pos libc offset origin)

  unfoldable pub told : Option ℕ × Reader → ℤ × Reader
  unfolding as_i64
  told (none, r) = (negsuc 0, r)
  told (some p, r) = (as_i64 p, r)

  unfoldable pub z_bytes_reader_tell : Reader → ℤ × Reader
  unfolding told
  z_bytes_reader_tell r = told (stream_position r)

  unfoldable pub z_bytes_reader_remaining : Reader → ℕ
  z_bytes_reader_remaining r = reader_remaining r

  abbrev pub OwnedWriter : Type 0
  OwnedWriter = Option Writer

  unfoldable pub z_bytes_writer_empty : OwnedWriter × ZResult
  z_bytes_writer_empty = (some writer_new, z_ok)

  unfoldable pub z_bytes_writer_drop : OwnedWriter → M OwnedWriter
  z_bytes_writer_drop none = pure none
  z_bytes_writer_drop (some w) = drop_writer w >> pure none

  unfoldable pub z_internal_bytes_writer_check : OwnedWriter → Bool
  z_internal_bytes_writer_check w = is_some w

  unfoldable pub z_internal_bytes_writer_null : OwnedWriter
  z_internal_bytes_writer_null = none

  -- The loaned writer; to loan the gravestone is undefined.
  unfoldable pub z_bytes_writer_loan_mut : OwnedWriter → M Writer
  z_bytes_writer_loan_mut none = fault
  z_bytes_writer_loan_mut (some w) = pure w

  -- The payload, and the variable that is moved from; to finish the gravestone is undefined.
  unfoldable pub z_bytes_writer_finish : OwnedWriter → M (ZBytes × OwnedWriter)
  z_bytes_writer_finish none = fault
  z_bytes_writer_finish (some w) = pure (writer_finish w, none)

  unfoldable pub write_code : Bool × Writer → ZResult × Writer
  write_code (true, w) = (z_ok, w)
  write_code (false, w) = (z_eio, w)

  unfoldable pub z_bytes_writer_write_all : Writer → Ptr → ℕ → M (ZResult × Writer)
  unfolding from_raw_parts write_code
  z_bytes_writer_write_all w src len =
      from_raw_parts src len >>= λ bytes. pure (write_code (writer_write_all bytes w))

  -- The code, the writer, and the payload's variable afterwards.
  unfoldable pub z_bytes_writer_append : Writer → ZBytes → ZResult × Writer × ZBytes
  z_bytes_writer_append w bytes = (z_ok, writer_append bytes w, zbytes_default)
