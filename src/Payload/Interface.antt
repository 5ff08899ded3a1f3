-- ===== src/Payload/Interface.antt =====
-- What src/zbytes.rs uses of the zenoh crate: `ZBytes` with its slices, readers and writers, and
-- separately what its documentation says of them. What a `ZBytes` holds may lie in memory that it
-- does not own, so its contents depend on the bytes of the memory.
use zenoh_c.Common.{ℕ, ◌+◌, ◌-◌, ◌≤◌, ◌≡◌, Bool, true, Option, some, [], ◌++◌, length, take, drop}
use zenoh_c.Common.Int.{ℤ}
use zenoh_c.Collections.Memory.{Ptr, Bytes, Memory, Effect, read}
use zenoh_c.Collections.Slice.{CSlice, slice}

-- `Cow<[u8]>`
pub data Cow : Type 0 where
  borrowed : Ptr → ℕ → Cow
  owned : Bytes → Cow

-- `into_owned`
abbrev pub into_owned : (Ptr → ℕ) → Cow → Bytes
into_owned f (borrowed p n) = read f p n
into_owned f (owned bytes) = bytes

-- `std::io::SeekFrom`
pub data SeekFrom : Type 0 where
  start : ℕ → SeekFrom
  current : ℤ → SeekFrom
  end_of : ℤ → SeekFrom

pub record Zenoh : Type 1 where
  pub ZBytes : Type 0
  pub Slices : Type 0
  pub Reader : Type 0
  pub Writer : Type 0
  pub zbytes_default : ZBytes
  -- `ZBytes::from(ZBuf::from(slice))`
  pub zbytes_from : CSlice → ZBytes
  pub zbytes_is_empty : ZBytes → Bool
  pub zbytes_len : ZBytes → ℕ
  pub zbytes_clone : ZBytes → ZBytes
  pub drop_zbytes : ZBytes → Effect
  pub to_bytes : (Ptr → ℕ) → ZBytes → Cow
  -- `none` for bytes that are not UTF-8
  pub try_to_string : (Ptr → ℕ) → ZBytes → Option Bytes
  pub slices : ZBytes → Slices
  pub slices_next : Slices → Option (Ptr × ℕ) × Slices
  pub reader : ZBytes → Reader
  -- the bytes that go into a buffer of a length; `none` is an error
  pub reader_read : (Ptr → ℕ) → Reader → ℕ → Option Bytes × Reader
  -- whether the call returns `Ok`
  pub reader_seek : Reader → SeekFrom → Bool × Reader
  pub stream_position : Reader → Option ℕ × Reader
  pub reader_remaining : Reader → ℕ
  pub writer_new : Writer
  pub drop_writer : Writer → Effect
  pub writer_write_all : Bytes → Writer → Bool × Writer
  pub writer_append : ZBytes → Writer → Writer
  pub writer_finish : Writer → ZBytes

-- A `ZBytes` of a slice holds the bytes of the slice, and the default holds none.
pub record IsLawful (z : Zenoh) : Type 0 where
  pub holds : (Ptr → ℕ) → z.ZBytes → Bytes
  pub default-holds : (f : Ptr → ℕ) → holds f z.zbytes_default ≡ []
  pub default-is_empty : z.zbytes_is_empty z.zbytes_default ≡ true
  pub zbytes_from-holds :
      (m : Memory) (s : CSlice) (bytes : Bytes)
      → slice s m ≡ some (bytes, m)
      → holds m.byte (z.zbytes_from s) ≡ bytes
  pub to_bytes-holds : (f : Ptr → ℕ) (b : z.ZBytes) → into_owned f (z.to_bytes f b) ≡ holds f b

-- A writer keeps what is written to it in order, and a reader of what it finishes begins at the
-- front: `filled bs` is a writer that `bs` have been written to, and `at bs p` a reader of `bs` at
-- position `p`. A seek is said to go to a position that is in the bytes, and nothing of others.
pub record IsStream (z : Zenoh) : Type 0 where
  pub filled : Bytes → z.Writer
  pub at : Bytes → ℕ → z.Reader
  pub writer_new-filled : z.writer_new ≡ filled []
  pub write_all-filled :
      (bs cs : Bytes) → z.writer_write_all cs (filled bs) ≡ (true, filled (bs ++ cs))
  pub finish-filled : (bs : Bytes) → z.reader (z.writer_finish (filled bs)) ≡ at bs 0
  pub read-at :
      (f : Ptr → ℕ) (bs : Bytes) (p n : ℕ)
      → z.reader_read f (at bs p) n
        ≡ (some (take n (drop p bs)), at bs (p + length (take n (drop p bs))))
  pub seek_start-at :
      (bs : Bytes) (p n : ℕ) → n ≤ length bs → z.reader_seek (at bs p) (start n) ≡ (true, at bs n)
  pub stream_position-at : (bs : Bytes) (p : ℕ) → z.stream_position (at bs p) ≡ (some p, at bs p)
  pub remaining-at : (bs : Bytes) (p : ℕ) → z.reader_remaining (at bs p) ≡ length bs - p
