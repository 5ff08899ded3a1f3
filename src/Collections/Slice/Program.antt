-- ===== src/Collections/Slice/Program.antt =====
-- A program that calls the slice functions of src/collections.rs in any order. Its variables of type
-- `z_owned_slice_t` are a list.
use mathlib.Core.Option
use zenoh_c.Common.{ℕ, Option, some, none, List, [], ◌∷◌, ◌++◌, get_elem?, set}
use zenoh_c.Collections.Memory.{Ptr, Memory}
use zenoh_c.Collections.Slice.{
  CSlice, foreign, z_slice_drop, z_slice_copy_from_buf, z_slice_from_buf, z_slice_clone,
}

-- The variables of the program, and the memory.
pub record State : Type 0 where
  pub slots : List CSlice
  pub memory : Memory

abbrev pub state : List CSlice → Memory → State
state ss m = record { slots = ss; memory = m }

-- A call on owned slices. `clone i` makes a new variable; a variable that is not there is skipped.
pub data Op : Type 0 where
  copy_from_buf : Ptr → ℕ → Op
  from_buf : Ptr → ℕ → Option ℕ → ℕ → Op
  clone : ℕ → Op
  drop : ℕ → Op

unfoldable pub step : Op → State → Option State
step (copy_from_buf p n) st = elim (z_slice_copy_from_buf p n st.memory) [
  | none ↦ none
  | some ((s, code), m) ↦ some (state (st.slots ++ s ∷ []) m)
]
step (from_buf p n f c) st =
    some (state (st.slots ++ (z_slice_from_buf p n (Option.map foreign f) c).0 ∷ []) st.memory)
step (clone i) st = elim (get_elem? st.slots i) [
  | none ↦ some st
  | some s ↦ elim (z_slice_clone s st.memory) [
    | none ↦ none
    | some (t, m) ↦ some (state (st.slots ++ t ∷ []) m)
  ]
]
step (drop i) st = elim (get_elem? st.slots i) [
  | none ↦ some st
  | some s ↦ elim (z_slice_drop s st.memory) [
    | none ↦ none
    | some (t, m) ↦ some (state (set st.slots i t) m)
  ]
]

unfoldable pub run : List Op → State → Option State
unfolding step
run [] st = some st
run (op ∷ ops) st = elim (step op st) [ none ↦ none | some st' ↦ run ops st' ]
