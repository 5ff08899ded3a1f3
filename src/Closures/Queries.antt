-- ===== src/Closures/Queries.antt =====
-- The closures of src/closures/query_closure.rs, whose text is that of src/closures/sample_closure.rs
-- with other names; `T` is what `&mut z_loaned_query_t` points to.
use zenoh_c.Common.{Bool, Option}
use zenoh_c.Collections.Memory.{Ptr}
use zenoh_c.Closures.{
  Closure, z_internal_closure_sample_null, z_internal_closure_sample_check, z_closure_sample_call,
  z_closure_sample_drop, z_closure_sample,
}

module _ {S T : Type 0} where
  unfoldable pub z_internal_closure_query_null : Closure S T
  unfolding z_internal_closure_sample_null
  z_internal_closure_query_null = z_internal_closure_sample_null

  unfoldable pub z_internal_closure_query_check : Closure S T → Bool
  unfolding z_internal_closure_sample_check
  z_internal_closure_query_check c = z_internal_closure_sample_check c

  unfoldable pub z_closure_query_call : Closure S T → T → S → Option (T × S)
  unfolding z_closure_sample_call
  z_closure_query_call c query s = z_closure_sample_call c query s

  unfoldable pub z_closure_query_drop : Closure S T → S → Option (Closure S T × S)
  unfolding z_closure_sample_drop
  z_closure_query_drop c s = z_closure_sample_drop c s

  unfoldable pub z_closure_query :
      Option (T → Ptr → S → Option (T × S)) → Option (Ptr → S → Option S) → Ptr → Closure S T
  unfolding z_closure_sample
  z_closure_query f d p = z_closure_sample f d p
