-- ===== src/Payload/Streams.antt =====
-- What the readers of src/zbytes.rs find of what its writers have written.
use zenoh_c.Common.{
  ℕ, ◌+◌, ◌-◌, ◌≤◌, ◌≡◌, refl, sym, ap, ap₂, ◌∙◌, Bool, true, false, Option, none, some, List, [],
  ◌∷◌, ◌++◌, append_assoc, append-nil, ◌==◌, length, take, drop, if◌then◌else◌, All, arith,
}
use zenoh_c.Common.Int.{ℤ, pos, negsuc}
use zenoh_c.ResultCodes.{ZResult, z_ok}
use zenoh_c.Collections.Memory.{
  Ptr, null, Bytes, Block, Memory, M, pure, ◌>>=◌, bind-some, read, write, from_raw_parts,
  from_raw_parts-read,
}
use zenoh_c.Payload.Interface.{Zenoh, IsStream}
use zenoh_c.Payload.Readers.{
  Origins, as_i64, same_int, start_at, seek_pos, OwnedWriter, z_bytes_get_reader,
  z_bytes_reader_read, z_bytes_reader_seek, z_bytes_reader_tell, z_bytes_reader_remaining,
  z_bytes_writer_empty, z_bytes_writer_loan_mut, z_bytes_writer_write_all, z_bytes_writer_finish,
  fill, told, code_of_seek, seek_to, write_code,
}

-- The bytes of the buffers, one behind another.
abbrev pub gathered : (Ptr → ℕ) → List Block → Bytes
gathered f [] = []
gathered f ((p, n) ∷ bufs) = read f p n ++ gathered f bufs

-- What the calls have returned and left behind.
pub record Readout (z : Zenoh) : Type 0 where
  pub codes_ok : Bool
  pub writer : OwnedWriter z
  pub seek_code : ZResult
  pub count : ℕ
  pub position : ℤ
  pub remaining : ℕ

same_int_refl : (a : ℤ) → same_int a a ≡ true
unfolding same_int
same_int_refl (pos n) = ground arith
same_int_refl (negsuc n) = ground arith

module _ (z : Zenoh) (libc : Origins) where
  -- `z_bytes_writer_write_all` for each buffer, until one does not return `Z_OK`.
  abbrev pub write_bufs : List Block → z.Writer → M (Bool × z.Writer)
  write_bufs [] w = pure (true, w)
  write_bufs ((p, n) ∷ bufs) w = z_bytes_writer_write_all z w p n >>= λ (code, w').
      if same_int code z_ok then write_bufs bufs w' else pure (false, w')

  -- A payload is written from the buffers and finished; a reader of it seeks to `offset` from the
  -- front and reads up to `len` bytes to `dst`, and is asked for its position and what is left.
  abbrev pub copy_through : List Block → ℤ → Ptr → ℕ → M (Readout z)
  copy_through bufs offset dst len = z_bytes_writer_loan_mut z (z_bytes_writer_empty z).0 >>= λ w.
      write_bufs bufs w >>= λ (good, w'). z_bytes_writer_finish z (some w') >>= λ (payload, moved).
      let (code, r) =
        z_bytes_reader_seek z libc (z_bytes_get_reader z payload) offset libc.seek_set in
      z_bytes_reader_read z r dst len >>= λ (n, r'). pure (record {
        codes_ok = good;
        writer = moved;
        seek_code = code;
        count = n;
        position = (z_bytes_reader_tell z r').0;
        remaining = z_bytes_reader_remaining z r';
      })

  module _ (st : IsStream z) where
    writes_all :
        (bufs : List Block) (xs : Bytes) (m : Memory)
        → All (λ (b : Block). (b.0 == null) ≡ false) bufs
        → write_bufs bufs (st.filled xs) m
          ≡ some ((true, st.filled (xs ++ gathered m.byte bufs)), m)
    unfolding z_bytes_writer_write_all write_code same_int
    writes_all [] xs m h = ap (λ bs. some ((true, st.filled bs), m)) (sym (append-nil xs))
    writes_all ((p, n) ∷ bufs) xs m h =
        let bytes = read m.byte p n in
        let once : z_bytes_writer_write_all z (st.filled xs) p n m
            ≡ some ((z_ok, st.filled (xs ++ bytes)), m) =
          bind-some (from_raw_parts p n)
            (λ bs. pure (write_code z (z.writer_write_all bs (st.filled xs))))
            (from_raw_parts-read p n m h.0)
          ∙ ap (λ r. some (write_code z r, m)) (st.write_all-filled xs bytes) in
        bind-some (z_bytes_writer_write_all z (st.filled xs) p n) _ once
        ∙ writes_all bufs (xs ++ bytes) m h.1
        ∙ ap (λ bs. some ((true, st.filled bs), m)) (append_assoc xs bytes (gathered m.byte bufs))

    seeks :
        (bs : Bytes) (p o : ℕ)
        → o ≤ length bs
        → z_bytes_reader_seek z libc (st.at bs p) (pos o) libc.seek_set ≡ (z_ok, st.at bs o)
    unfolding z_bytes_reader_seek seek_pos seek_to code_of_seek start_at
    seeks bs p o h = rw (same_int_refl libc.seek_set, st.seek_start-at bs p o h) refl

    reads :
        (bs : Bytes) (p dst len : ℕ) (m : Memory)
        → (dst == null) ≡ false
        → z_bytes_reader_read z (st.at bs p) dst len m
          ≡ some (
            (length (take len (drop p bs)), st.at bs (p + length (take len (drop p bs)))),
            record m { byte = write m.byte dst (take len (drop p bs)) },
          )
    unfolding z_bytes_reader_read fill
    reads bs p dst len m h =
        bind-some (from_raw_parts dst len)
          (λ old. λ m'. fill z dst (z.reader_read m'.byte (st.at bs p) len) m')
          (from_raw_parts-read dst len m h)
        ∙ ap (λ r. fill z dst r m) (st.read-at m.byte bs p len)

    -- Where the zenoh crate keeps what is written and reads it in order: for buffers and a target
    -- that are not NULL, and a position that is not behind the end, a payload is written from the
    -- buffers, finished, sought in and read without a fault. Every write and the seek return `Z_OK`
    -- and the writer's variable is left with the gravestone; the target then holds the bytes of the
    -- buffers, one behind another, from the position on, as many as `len` and the end allow; their
    -- number is returned, and the reader stands behind them.
    pub copy_through-reads :
        (bufs : List Block) (o dst len : ℕ) (m : Memory)
        → All (λ (b : Block). (b.0 == null) ≡ false) bufs
        → (dst == null) ≡ false
        → o ≤ length (gathered m.byte bufs)
        → let piece = take len (drop o (gathered m.byte bufs)) in
          copy_through bufs (pos o) dst len m
          ≡ some (
            record {
              codes_ok = true;
              writer = none;
              seek_code = z_ok;
              count = length piece;
              position = as_i64 (o + length piece);
              remaining = length (gathered m.byte bufs) - (o + length piece);
            },
            record m { byte = write m.byte dst piece },
          )
    unfolding z_bytes_writer_empty z_bytes_writer_loan_mut z_bytes_writer_finish z_bytes_get_reader
        z_bytes_reader_tell z_bytes_reader_remaining told
    copy_through-reads bufs o dst len m h k fits =
        let all = gathered m.byte bufs in
        let written : write_bufs bufs z.writer_new m ≡ some ((true, st.filled all), m) =
          ap (λ w. write_bufs bufs w m) st.writer_new-filled ∙ writes_all bufs [] m h in
        bind-some (write_bufs bufs z.writer_new) _ written
        ∙ ap (λ r. finishing (z_bytes_reader_seek z libc r (pos o) libc.seek_set))
            (st.finish-filled all)
        ∙ ap finishing (seeks all 0 o fits)
        ∙ bind-some (z_bytes_reader_read z (st.at all o) dst len) _ (reads all o dst len m k)
        ∙ ap₂
            (λ t rest. some (
              record {
                codes_ok = true;
                writer = none;
                seek_code = z_ok;
                count = length (take len (drop o all));
                position = (told z t).0;
                remaining = rest;
              },
              record m { byte = write m.byte dst (take len (drop o all)) },
            ))
            (st.stream_position-at all (o + length (take len (drop o all))))
            (st.remaining-at all (o + length (take len (drop o all))))
      where
        finishing : ZResult × z.Reader → Option (Readout z × Memory)
        finishing (code, r) =
            (z_bytes_reader_read z r dst len >>= λ (n, r'). pure (record {
              codes_ok = true;
              writer = none;
              seek_code = code;
              count = n;
              position = (z_bytes_reader_tell z r').0;
              remaining = z_bytes_reader_remaining z r';
            }))
              m
