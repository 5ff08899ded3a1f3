-- ===== src/Collections/Slice/Deleters.antt =====
-- When the deleter that C code hands to `z_slice_from_buf` is called.
use zenoh_c.Common.{ℕ, ◌≡◌, some, [], ◌∷◌, ◌++◌, if◌then◌else◌, inl, inr, Bool-cases}
use zenoh_c.Collections.Memory.{Ptr, Memory}
use zenoh_c.Collections.Slice.{foreign, is_invalid, gravestone, z_slice_from_buf, z_slice_drop}

-- The memory after one more call of a deleter.
abbrev called : Memory → ℕ → Ptr → ℕ → Memory
called m f p c = record m {
  calls = m.calls ++ record { deleter = f; target = p; context = c } ∷ [];
}

-- Dropping what `z_slice_from_buf` made calls the given deleter once, with the given data and
-- context, and changes nothing else; where the data was NULL and the length was not 0 it is never
-- called. Either way the variable is left with the gravestone.
z_slice_drop-z_slice_from_buf :
    (p n f c : ℕ) (m : Memory)
    → z_slice_drop (z_slice_from_buf p n (some (foreign f)) c).0 m
      ≡ some (gravestone, (if is_invalid p n then m else called m f p c))
unfolding z_slice_drop z_slice_from_buf
z_slice_drop-z_slice_from_buf p n f c m = elim (Bool-cases (is_invalid p n)) [
  | inl e ↦ rw e
  | inr e ↦ rw e
]
