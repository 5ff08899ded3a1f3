-- ===== src/Collections/Slice/Drops.antt =====
-- The drop of a slice of src/collections.rs, and the blocks of memory.
use mathlib.Core.Path.{fun_ext}
use zenoh_c.Common.{
  ℕ, zero, suc, ◌+◌, ◌≤◌, ◌<◌, ◌≡◌, refl, Option, some, none, List, [], ◌∷◌, ◌++◌, if◌then◌else◌,
  inl, inr, Bool-cases, arith,
}
use zenoh_c.Collections.Memory.{
  Block, Memory, ◌>>=◌, same_block, remove, box_free, box_free-some, call_deleter,
}
use zenoh_c.Collections.Slice.Copies.{owned_block}
use zenoh_c.Collections.Slice.{
  CSlice, Deleter, default, foreign, gravestone, run_deleter, z_slice_drop,
}

-- What `z_slice_drop` makes of a run of the deleter.
abbrev dropped : Option (Unit {0} × Memory) → Option (CSlice × Memory)
dropped none = none
dropped (some (_, m)) = some (gravestone, m)

dropped_again :
    (o : Option (Unit {0} × Memory))
    → elim (dropped o) [ none ↦ none | some x ↦ z_slice_drop x.0 x.1 ] ≡ dropped o
unfolding z_slice_drop
dropped_again none = refl
dropped_again (some x) = refl

-- Dropping a slice a second time does nothing more: the first drop leaves the gravestone behind.
pub z_slice_drop_twice : (s : CSlice) → (z_slice_drop s >>= z_slice_drop) ≡ z_slice_drop s
unfolding z_slice_drop
z_slice_drop_twice s = fun_ext λ m. dropped_again (run_deleter s.deleter s.data_ptr s.context m)

unfoldable pub count : Block → List Block → ℕ
count b [] = 0
count b (x ∷ xs) = (if same_block b x then 1 else 0) + count b xs

unfoldable pub owned : List CSlice → List Block
owned [] = []
owned (s ∷ ss) = owned_block s.deleter s.data_ptr s.context ++ owned ss

pub count-append : (b : Block) (xs ys : List Block) → count b (xs ++ ys) ≡ count b xs + count b ys
unfolding count
count-append b [] ys = omega arith
count-append b (x ∷ xs) ys = omega (arith, count-append b xs ys)

-- A block that is there can be removed, and each block is then there as often as before but it.
remove-count :
    (b : Block) (xs : List Block)
    → 0 < count b xs
    → (ys : List Block) × (remove b xs ≡ some ys)
      × ((x : Block) → count x xs ≡ (if same_block x b then 1 else 0) + count x ys)
unfolding count remove
remove-count b [] h = absurd (omega arith)
remove-count b (x ∷ xs) h = elim (Bool-cases (same_block b x)) [
  | inl e ↦ (xs, rw e, λ y. ground arith)
  | inr e ↦
      let (ys, r, k) = remove-count b xs (ground arith) in
      (x ∷ ys, rw (e, r), λ y. omega (arith, k y))
]

-- Running the deleter of a slice whose block is there frees that block, and no other.
pub run_deleter-frees :
    (d : Option Deleter) (p c : ℕ) (m : Memory)
    → ((b : Block) → count b (owned_block d p c) ≤ count b m.boxes)
    → (m' : Memory) × (run_deleter d p c m ≡ some (tt, m'))
      × ((b : Block) → count b m.boxes ≡ count b (owned_block d p c) + count b m'.boxes)
      × (m'.next ≡ m.next)
unfolding count box_free call_deleter
run_deleter-frees none p c m h = (m, refl, λ b. omega arith, refl)
run_deleter-frees (some (foreign f)) p c m h = (_, refl, λ b. omega arith, refl)
run_deleter-frees (some default) p zero m h = (m, refl, λ b. omega arith, refl)
run_deleter-frees (some default) p (suc n) m h =
    let here : 0 < count (p, suc n) m.boxes = ground (arith, h (p, suc n)) in
    let (ys, e, k) = remove-count (p, suc n) m.boxes here in
    (record m { boxes = ys }, box_free-some p n m e, λ b. omega (arith, k b), refl)
