-- ===== src/Closures.antt =====
-- The closures of src/closures/sample_closure.rs. `S` is the state of the program that the callbacks
-- of C code change, and `T` is what `&mut z_loaned_sample_t` points to. A function pointer is what
-- its call does; `none` stands for a call that does not return.
pub mod Lifetime
pub mod Queries
pub mod Replies
mod Tests
use zenoh_c.Common.{Bool, true, false, not, ◌&&◌, Option, none, some, ◌==◌, is_some}
use zenoh_c.Collections.Memory.{Ptr, null}

-- `z_owned_closure_sample_t`
pub record Closure (S T : Type 0) : Type 0 where
  pub context : Ptr
  pub call : Option (T → Ptr → S → Option (T × S))
  pub drop : Option (Ptr → S → Option S)

module _ {S T : Type 0} where
  unfoldable pub default_closure : Closure S T
  default_closure = record { context = null; call = none; drop = none }

  unfoldable pub is_empty_closure : Closure S T → Bool
  is_empty_closure c = not (is_some c.call) && not (is_some c.drop) && c.context == null

  -- `Drop for z_owned_closure_sample_t`
  unfoldable pub drop_closure : Closure S T → S → Option S
  drop_closure c s = elim c.drop [ none ↦ some s | some f ↦ f c.context s ]

  unfoldable pub z_internal_closure_sample_null : Closure S T
  unfolding default_closure
  z_internal_closure_sample_null = default_closure

  unfoldable pub z_internal_closure_sample_check : Closure S T → Bool
  unfolding is_empty_closure
  z_internal_closure_sample_check c = not (is_empty_closure c)

  -- What the sample is then, and the state.
  unfoldable pub z_closure_sample_call : Closure S T → T → S → Option (T × S)
  z_closure_sample_call c sample s = elim c.call [
    | none ↦ some (sample, s)
    | some f ↦ f sample c.context s
  ]

  unfoldable pub dropped : Option S → Option (Closure S T × S)
  unfolding default_closure
  dropped none = none
  dropped (some s) = some (default_closure, s)

  -- The variable behind `closure_` after the call, and the state.
  unfoldable pub z_closure_sample_drop : Closure S T → S → Option (Closure S T × S)
  unfolding drop_closure dropped
  z_closure_sample_drop c s = dropped (drop_closure c s)

  unfoldable pub z_closure_sample :
      Option (T → Ptr → S → Option (T × S)) → Option (Ptr → S → Option S) → Ptr → Closure S T
  z_closure_sample f d p = record { context = p; call = f; drop = d }
