-- ===== src/Collections/Slice/Copies.antt =====
-- The copies that src/collections.rs makes of slices.
use zenoh_c.Common.{
  ℕ, zero, suc, ◌+◌, ◌≤◌, ◌<◌, ◌≡◌, refl, ap, ap₂, sym, subst, ◌∙◌, true, false, Option, some, none,
  List, [], ◌∷◌, ◌++◌, ◌==◌, length, arith,
}
use zenoh_c.ResultCodes.{ZResult, z_ok, z_einval, Result, ok}
use zenoh_c.Collections.Memory.{
  Ptr, null, Bytes, Block, Memory, M, pure, ◌>>=◌, bind-some, read, write, from_raw_parts, dangling,
}
use zenoh_c.Collections.Slice.{
  CSlice, Deleter, default, is_invalid, write_or_gravestone, gravestone, new_unchecked, wrap,
  new_owned_unchecked, slice, z_slice_copy_from_buf, z_slice_clone, from_vec,
}

pub suc_ne_zero : (n : ℕ) → (suc n == 0) ≡ false
suc_ne_zero n = ground arith

pub read-cong :
    (f g : Ptr → ℕ) (p n : ℕ) → ((q : Ptr) → p ≤ q → f q ≡ g q) → read f p n ≡ read g p n
read-cong f g p zero h = refl
read-cong f g p (suc n) h =
    ap₂ ◌∷◌ (h p (omega arith)) (read-cong f g (p + 1) n (λ q k. h q (omega arith)))

pub length-read : (f : Ptr → ℕ) (p n : ℕ) → length (read f p n) ≡ n
length-read f p zero = refl
length-read f p (suc n) = ap suc (length-read f (p + 1) n)

write-head : (f : Ptr → ℕ) (p b : ℕ) (bs : Bytes) → write f p (b ∷ bs) p ≡ b
write-head f p b bs = ground arith

write-tail :
    (f : Ptr → ℕ) (p b : ℕ) (bs : Bytes) (q : Ptr)
    → p + 1 ≤ q
    → write f p (b ∷ bs) q ≡ write f (p + 1) bs q
write-tail f p b bs q h = ground arith

pub read-write : (f : Ptr → ℕ) (p : ℕ) (bs : Bytes) → read (write f p bs) p (length bs) ≡ bs
read-write f p [] = refl
read-write f p (b ∷ bs) = ap₂ ◌∷◌ (write-head f p b bs) (
    read-cong (write f p (b ∷ bs)) (write f (p + 1) bs) (p + 1) (length bs) (write-tail f p b bs)
    ∙ read-write f (p + 1) bs)

pub write_below : (f : Ptr → ℕ) (p : ℕ) (bs : Bytes) (q : Ptr) → q < p → write f p bs q ≡ f q
write_below f p [] q h = refl
write_below f p (b ∷ bs) q h = ground (arith, write_below f (p + 1) bs q)

-- The block that the deleter of a slice frees.
abbrev pub owned_block : Option Deleter → Ptr → ℕ → List Block
owned_block (some default) p (suc n) = (p, suc n) ∷ []
owned_block _ p n = []

-- The slice `s` of memory `m'` is a copy of `bytes`, made from memory `m`.
pub record IsCopy (m : Memory) (bytes : Bytes) (s : CSlice) (m' : Memory) : Type 0 where
  pub len_is : s.len ≡ length bytes
  -- it holds the bytes, whatever is written later to the addresses in use before the copy
  pub holds :
      (f : Ptr → ℕ)
      → ((q : Ptr) → m.next ≤ q → f q ≡ m'.byte q)
      → slice s (record m' { byte = f }) ≡ some (bytes, record m' { byte = f })
  -- no byte in use before has changed, and no deleter has been called
  pub same : (q : Ptr) → q < m.next → m'.byte q ≡ m.byte q
  pub no_call : m'.calls ≡ m.calls
  -- the one block that is new is the one that the slice's deleter frees
  pub boxes_are : m'.boxes ≡ owned_block s.deleter s.data_ptr s.context ++ m.boxes
  pub grows : m.next ≤ m'.next
  pub not_null : is_invalid s.data_ptr s.len ≡ false

-- The memory after a block with these contents has been leaked.
abbrev pub leaked : Memory → Bytes → Memory
leaked m bytes = record m {
  byte = write m.byte m.next bytes;
  next = m.next + length bytes;
  boxes = (m.next, length bytes) ∷ m.boxes;
}

pub leaked-IsCopy :
    (m : Memory) (bytes : Bytes)
    → 0 < m.next
    → 0 < length bytes
    → IsCopy m bytes (wrap m.next (length bytes)) (leaked m bytes)
unfolding wrap slice
leaked-IsCopy m [] h k = absurd (omega arith)
leaked-IsCopy m (b ∷ bs) h k = record {
  len_is = refl;
  holds = λ f e.
      let nonnull : (m.next == null) ≡ false = ground arith in
      rw (suc_ne_zero (length bs), nonnull, slice, from_raw_parts)
        (ap (λ (bytes : Bytes). some (bytes, record (leaked m (b ∷ bs)) { byte = f }))
          (read-cong f (write m.byte m.next (b ∷ bs)) m.next (length (b ∷ bs)) e
            ∙ read-write m.byte m.next (b ∷ bs)));
  same = write_below m.byte m.next (b ∷ bs);
  no_call = refl;
  boxes_are = refl;
  grows = omega arith;
  not_null = ground arith;
}

gravestone-IsCopy : (m : Memory) → IsCopy m [] gravestone m
unfolding gravestone slice
gravestone-IsCopy m = record {
  len_is = refl;
  holds = λ f e. refl;
  same = λ q h. refl;
  no_call = refl;
  boxes_are = refl;
  grows = omega arith;
  not_null = refl;
}

-- An empty vector makes a slice that points to no block and owns none.
dangling-IsCopy : (m : Memory) → IsCopy m [] (wrap dangling 0) m
unfolding wrap slice
dangling-IsCopy m = record {
  len_is = refl;
  holds = λ f e. refl;
  same = λ q h. refl;
  no_call = refl;
  boxes_are = refl;
  grows = omega arith;
  not_null = refl;
}

-- What the pair of a slice and a memory is a copy of.
abbrev pub IsCopied : Memory → Bytes → Option (CSlice × Memory) → Type 0
IsCopied m bytes none = ⊥
IsCopied m bytes (some (t, m')) = IsCopy m bytes t m'

pub from_vec-IsCopied :
    (bytes : Bytes) (m : Memory) → 0 < m.next → IsCopied m bytes (from_vec bytes m)
unfolding from_vec
from_vec-IsCopied [] m h = dangling-IsCopy m
from_vec-IsCopied (b ∷ bs) m h = leaked-IsCopy m (b ∷ bs) h (omega arith)

pub new_owned_unchecked-IsCopy :
    (p n : ℕ) (m : Memory)
    → 0 < m.next
    → is_invalid p n ≡ false
    → (s : CSlice) × (m' : Memory) × (new_owned_unchecked p n m ≡ some (s, m'))
      × IsCopy m (read m.byte p n) s m'
unfolding new_owned_unchecked
new_owned_unchecked-IsCopy p zero m h k = (gravestone, m, refl, gravestone-IsCopy m)
new_owned_unchecked-IsCopy p (suc n) m h k =
    let bytes = read m.byte p (suc n) in
    let nonnull : (p == null) ≡ false = ground arith in
    (
      wrap m.next (suc n),
      leaked m bytes,
      ground arith,
      subst (λ k. IsCopy m bytes (wrap m.next k) (leaked m bytes)) (length-read m.byte p (suc n))
          (leaked-IsCopy m bytes h (omega arith)),
    )

-- The pair that a constructor of a copy returns, in the memory that it leaves.
abbrev pub CopiesTo : Memory → Bytes → Option ((CSlice × ZResult) × Memory) → Type 0
CopiesTo m bytes none = ⊥
CopiesTo m bytes (some ((s, code), m')) = (code ≡ z_ok) × IsCopy m bytes s m'

wrapped-CopiesTo :
    (m : Memory) (bytes : Bytes) (o : Option (CSlice × Memory))
    → IsCopied m bytes o
    → CopiesTo m bytes (elim o [ none ↦ none | some (s, m') ↦ some ((s, z_ok), m') ])
wrapped-CopiesTo m bytes none h = h
wrapped-CopiesTo m bytes (some (s, m')) h = (refl, h)

-- A copy that is returned with `Z_OK`.
pub copied-CopiesTo :
    (m : Memory) (bytes : Bytes) (k : M CSlice)
    → IsCopied m bytes (k m)
    → CopiesTo m bytes ((k >>= λ s. pure (s, z_ok)) m)
copied-CopiesTo m bytes k h = wrapped-CopiesTo m bytes (k m) h

-- Where `start` is not NULL or `len` is 0, and NULL is not a free address, `z_slice_copy_from_buf`
-- does not fault and returns `Z_OK` and a slice of the `len` bytes at `start`; what is written later
-- to any address that was in use before does not change what the slice holds, and no byte that was
-- in use has changed.
pub z_slice_copy_from_buf-CopiesTo :
    (start len : ℕ) (m : Memory)
    → 0 < m.next
    → is_invalid start len ≡ false
    → CopiesTo m (read m.byte start len) (z_slice_copy_from_buf start len m)
unfolding z_slice_copy_from_buf
z_slice_copy_from_buf-CopiesTo start len m h k =
    let (s, m', e, c) = new_owned_unchecked-IsCopy start len m h k in
    let attempt : M (Result CSlice) = new_owned_unchecked start len >>= λ s'. pure (ok s') in
    let copied = bind-some (new_owned_unchecked start len) (λ s'. pure (ok s')) e in
    rw k (
      subst (CopiesTo m (read m.byte start len))
        (sym (bind-some attempt (λ r. pure (write_or_gravestone r)) {m = m} copied)) (refl, c))

-- The NULL pointer with a length that is not 0 is refused: the gravestone is written, the code is
-- `Z_EINVAL`, and the memory is left alone.
pub z_slice_copy_from_buf_invalid :
    (start len : ℕ) (m : Memory)
    → is_invalid start len ≡ true
    → z_slice_copy_from_buf start len m ≡ some ((gravestone, z_einval), m)
unfolding z_slice_copy_from_buf
z_slice_copy_from_buf_invalid start len m k = rw k

slice_of-read :
    (p n : ℕ) (d : Option Deleter) (c : ℕ) (m : Memory)
    → is_invalid p n ≡ false
    → slice (new_unchecked p n d c) m ≡ some (read m.byte p n, m)
unfolding slice new_unchecked
slice_of-read p zero d c m k = refl
slice_of-read p (suc n) d c m k =
    let nonnull : (p == null) ≡ false = ground arith in
    rw (suc_ne_zero n, nonnull, slice, from_raw_parts)

-- What a slice that is not NULL holds.
pub slice-read :
    (s : CSlice) (m : Memory)
    → is_invalid s.data_ptr s.len ≡ false
    → slice s m ≡ some (read m.byte s.data_ptr s.len, m)
unfolding new_unchecked
slice-read s m k = slice_of-read s.data_ptr s.len s.deleter s.context m k

same_bytes :
    {m : Memory} {o : Option (Bytes × Memory)} {xs ys : Bytes}
    → o ≡ some (xs, m)
    → o ≡ some (ys, m)
    → xs ≡ ys
same_bytes e e' = cc

abbrev pub IsCloned : Memory → Bytes → Option (CSlice × Memory) → Type 0
IsCloned m bytes o = IsCopied m bytes o

-- For a slice with no NULL data unless it is empty, where NULL is not a free address,
-- `z_slice_clone` does not fault and makes a slice of the same bytes, which no later write to an
-- address in use before changes.
pub z_slice_clone-IsCloned :
    (s : CSlice) (m : Memory) (bytes : Bytes)
    → 0 < m.next
    → is_invalid s.data_ptr s.len ≡ false
    → slice s m ≡ some (bytes, m)
    → IsCloned m bytes (z_slice_clone s m)
unfolding z_slice_clone
z_slice_clone-IsCloned s m bytes h k e =
    let (t, m', e', c) = new_owned_unchecked-IsCopy s.data_ptr s.len m h k in
    rw e' (subst (λ bs. IsCopy m bs t m') (same_bytes (slice-read s m k) e) c)
