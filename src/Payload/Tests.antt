-- ===== src/Payload/Tests.antt =====
-- Concrete inputs for the models of src/zbytes.rs.
use zenoh_c.Common.{
  ℕ, ◌+◌, ◌-◌, ◌≡◌, refl, ap, subst, ◌∙◌, Bool, true, false, Option, none, some, List, [], ◌∷◌,
  ◌++◌, ◌==◌, if◌then◌else◌, leb, length, take, drop, arith, inl, inr, Bool-cases,
}
use zenoh_c.Common.Int.{pos}
use zenoh_c.ResultCodes.{z_ok}
use zenoh_c.Collections.Memory.{Ptr, null, Bytes, Memory, M, pure, read, write, from_raw_parts}
use zenoh_c.Collections.Slice.{CSlice, slice, drop_slice}
use zenoh_c.Payload.Interface.{
  Cow, borrowed, owned, into_owned, SeekFrom, start, current, end_of, Zenoh, IsLawful, IsStream,
}
use zenoh_c.Payload.{z_bytes_copy_from_buf}
use zenoh_c.Payload.Copies.{KeptFrom, z_bytes_copy_from_buf-KeptFrom}
use zenoh_c.Payload.Readers.{Origins, as_i64}
use zenoh_c.Payload.Streams.{copy_through, copy_through-reads}

-- A payload is a slice of C code or bytes of its own.
pub data Piece : Type 0 where
  foreign : CSlice → Piece
  held : Bytes → Piece

abbrev pub slice_cow : Bool → CSlice → Cow
slice_cow true s = owned []
slice_cow false s = borrowed s.data_ptr s.len

abbrev pub cow : Piece → Cow
cow (foreign s) = slice_cow (s.len == 0) s
cow (held bytes) = owned bytes

abbrev pub piece_len : Piece → ℕ
piece_len (foreign s) = s.len
piece_len (held bytes) = length bytes

abbrev pub drop_piece : Piece → M (Unit {0})
drop_piece (foreign s) = drop_slice s
drop_piece (held bytes) = pure tt

-- Only a seek from the front is supported.
abbrev pub seek : Piece × ℕ → SeekFrom → Bool × (Piece × ℕ)
seek (b, p) (start n) = if leb n (piece_len b) then (true, (b, n)) else (false, (b, p))
seek r (current _) = (false, r)
seek r (end_of _) = (false, r)

abbrev pub read_piece : (Ptr → ℕ) → Piece × ℕ → ℕ → Option Bytes × (Piece × ℕ)
read_piece f (b, p) n =
    let bytes = take n (drop p (into_owned f (cow b))) in (some bytes, (b, p + length bytes))

abbrev pub pieces : Zenoh
pieces = record {
  ZBytes = Piece;
  Slices = List (Ptr × ℕ);
  Reader = Piece × ℕ;
  Writer = Bytes;
  zbytes_default = held [];
  zbytes_from = foreign;
  zbytes_is_empty = λ b. piece_len b == 0;
  zbytes_len = piece_len;
  zbytes_clone = λ b. b;
  drop_zbytes = drop_piece;
  to_bytes = λ f b. cow b;
  try_to_string = λ f b. some (into_owned f (cow b));
  slices = λ b. [];
  slices_next = λ it. (none, it);
  reader = λ b. (b, 0);
  reader_read = read_piece;
  reader_seek = seek;
  stream_position = λ r. (some r.1, r);
  reader_remaining = λ r. piece_len r.0 - r.1;
  writer_new = [];
  drop_writer = λ w. pure tt;
  writer_write_all = λ bs w. (true, w ++ bs);
  writer_append = λ b w. w;
  writer_finish = held;
}

foreign-holds :
    (m : Memory) (s : CSlice) (bytes : Bytes)
    → slice s m ≡ some (bytes, m)
    → into_owned m.byte (cow (foreign s)) ≡ bytes
unfolding slice from_raw_parts
foreign-holds m s bytes e = elim (Bool-cases (s.len == 0)) [
  | inl y ↦
      let k : some ([], m) ≡ some (bytes, m) = subst chosen y e in
      ap (λ b. into_owned m.byte (slice_cow b s)) y ∙ cc k
  | inr n ↦ elim (Bool-cases (s.data_ptr == null)) [
    | inl z ↦ let k : none ≡ some (bytes, m) = subst given z (subst chosen n e) in cc k
    | inr z ↦
        let k : some (read m.byte s.data_ptr s.len, m) ≡ some (bytes, m) =
          subst given z (subst chosen n e) in
        ap (λ b. into_owned m.byte (slice_cow b s)) n ∙ cc k
  ]
]
  where
    chosen : Bool → Type 0
    chosen b = (if b then pure [] else from_raw_parts s.data_ptr s.len) m ≡ some (bytes, m)

    given : Bool → Type 0
    given b =
        let there : Option (Bytes × Memory) = some (read m.byte s.data_ptr s.len, m) in
        (if b then none else there) ≡ some (bytes, m)

pieces-IsLawful : IsLawful pieces
pieces-IsLawful = record {
  holds = λ f b. into_owned f (cow b);
  default-holds = λ f. refl;
  default-is_empty = refl;
  zbytes_from-holds = foreign-holds;
  to_bytes-holds = λ f b. refl;
}

pieces-IsStream : IsStream pieces
pieces-IsStream = record {
  filled = λ bs. bs;
  at = λ bs p. (held bs, p);
  writer_new-filled = refl;
  write_all-filled = λ bs cs. refl;
  finish-filled = λ bs. refl;
  read-at = λ f bs p n. refl;
  seek_start-at = λ bs p n h.
      let fits : leb n (length bs) ≡ true = ground (arith, h) in
      ap (λ b. if b then (true, (held bs, n)) else (false, (held bs, p))) fits;
  stream_position-at = λ bs p. refl;
  remaining-at = λ bs p. refl;
}

abbrev pub memory : Memory
memory = record { byte = λ p. p + 1; next = 100; boxes = []; calls = [] }

z_bytes_copy_from_buf-KeptFrom_example :
    KeptFrom pieces pieces-IsLawful memory (11 ∷ 12 ∷ []) (z_bytes_copy_from_buf pieces 10 2 memory)
z_bytes_copy_from_buf-KeptFrom_example =
    z_bytes_copy_from_buf-KeptFrom pieces pieces-IsLawful 10 2 memory (omega arith) refl

abbrev pub libc : Origins
libc = record { seek_set = pos 0; seek_cur = pos 1; seek_end = pos 2 }

copy_through-reads_example :
    copy_through pieces libc ((10, 2) ∷ (20, 3) ∷ []) (pos 1) 50 3 memory
    ≡ some (
      record {
        codes_ok = true;
        writer = none;
        seek_code = z_ok;
        count = 3;
        position = as_i64 4;
        remaining = 1;
      },
      record memory { byte = write memory.byte 50 (12 ∷ 21 ∷ 22 ∷ []) },
    )
copy_through-reads_example =
    copy_through-reads pieces libc pieces-IsStream ((10, 2) ∷ (20, 3) ∷ []) 1 50 3 memory
      (refl, (refl, tt)) refl (omega arith)
