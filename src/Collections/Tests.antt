-- ===== src/Collections/Tests.antt =====
-- A small memory, and the theorems of src/collections.rs at it.
use zenoh_c.Common.{◌≡◌, refl, none, some, List, [], ◌∷◌, if◌then◌else◌, ◌==◌, ◌≢◌, All, arith}
use zenoh_c.ResultCodes.{z_ok}
use zenoh_c.Collections.Memory.{null, Memory, read}
use zenoh_c.Collections.Arrays.{z_string_array_push_by_copy}
use zenoh_c.Collections.Arrays.Pushes.{PushesCopy, z_string_array_push_by_copy-PushesCopy}
use zenoh_c.Collections.Slice.{
  CSlice, Deleter, default, foreign, gravestone, slice, clone_to_borrowed, z_slice_copy_from_buf,
  z_slice_clone, z_slice_drop, z_slice_from_buf,
}
use zenoh_c.Collections.Slice as Slice
use zenoh_c.Collections.Slice.Copies.{CopiesTo}
use zenoh_c.Collections.Slice.Drops.{owned}
use zenoh_c.Collections.Slice.Program.{State, Op, copy_from_buf, from_buf, clone, drop, run}
use zenoh_c.Collections.Slice.Ownership.{IsBalanced, Survives, run-Survives}
use zenoh_c.Collections.Strings.{
  Strlen, strlen_or_zero, z_string_copy_from_str, z_string_from_str, z_view_string_from_str,
}
use zenoh_c.Collections.Strings.Nulls.{from_str-accepts}
use zenoh_c.Collections.Strings.Terminators.{IsStrlen, z_string_copy_from_str-CopiesTo}

-- "hi" and its terminator at address 10, and 7 everywhere else.
abbrev text_memory : Memory
text_memory = record {
  byte = λ p. if p == 10 then 104 else if p == 11 then 105 else if p == 12 then 0 else 7;
  next = 100;
  boxes = [];
  calls = [];
}

abbrev view : CSlice
view = record { data_ptr = 10; len = 2; deleter = none; context = null }

view_holds : slice view text_memory ≡ some (104 ∷ 105 ∷ [], text_memory)
unfolding slice
view_holds = refl

abbrev owned_view : CSlice
owned_view = record { data_ptr = 10; len = 2; deleter = some default; context = 2 }

abbrev start : State
start = record { slots = []; memory = text_memory }

start-IsBalanced : IsBalanced start
unfolding owned
start-IsBalanced = record { balance = λ b. refl; not_null = tt; positive = omega arith }

-- A copy, a clone of it, a slice with a deleter of C, and drops in another order, one of them twice.
abbrev program : List Op
program =
    copy_from_buf 10 2
    ∷ clone 0
    ∷ from_buf 10 2 (some 3) 42
    ∷ drop 0
    ∷ copy_from_buf null 5
    ∷ drop 0
    ∷ drop 2
    ∷ drop 1
    ∷ []

run-Survives_example : Survives (run program start)
run-Survives_example = run-Survives program start start-IsBalanced

abbrev two : Strlen
two f p = 2

from_str-accepts_example :
    (z_view_string_from_str two text_memory.byte null
      ≡ (Slice.new_borrowed_unchecked null (strlen_or_zero two text_memory.byte null), z_ok))
    × (z_string_from_str two text_memory.byte null (some default) 9 ≡ (
      Slice.new_unchecked null (strlen_or_zero two text_memory.byte null) (some default) 9,
      z_ok,
    ))
    × CopiesTo text_memory
        (read text_memory.byte null (strlen_or_zero two text_memory.byte null))
        (z_string_copy_from_str two null text_memory)
    × (strlen_or_zero two text_memory.byte null ≡ 0)
from_str-accepts_example = from_str-accepts two null text_memory (some default) 9 (omega arith)

two-IsStrlen : IsStrlen two text_memory.byte 10
two-IsStrlen = record { terminated = refl; first = λ k h e. ground arith }

z_string_copy_from_str-CopiesTo_example :
    CopiesTo text_memory (read text_memory.byte 10 2) (z_string_copy_from_str two 10 text_memory)
    × All (λ b. b ≢ 0) (read text_memory.byte 10 2)
    × (text_memory.byte 12 ≡ 0)
z_string_copy_from_str-CopiesTo_example =
    z_string_copy_from_str-CopiesTo two 10 text_memory (omega arith) (λ e. omega arith) two-IsStrlen

z_string_array_push_by_copy-PushesCopy_example :
    PushesCopy
      (view ∷ [])
      (104 ∷ 105 ∷ [])
      text_memory
      (z_string_array_push_by_copy (view ∷ []) view text_memory)
z_string_array_push_by_copy-PushesCopy_example =
    z_string_array_push_by_copy-PushesCopy (view ∷ []) view text_memory (104 ∷ 105 ∷ [])
      (omega arith) refl view_holds
