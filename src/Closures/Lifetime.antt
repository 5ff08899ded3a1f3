-- ===== src/Closures/Lifetime.antt =====
-- Which callbacks run when a closure of src/closures/sample_closure.rs is called and dropped.
use zenoh_c.Common.{◌≡◌, refl, Option, none, some, List, [], ◌∷◌}
use zenoh_c.Collections.Memory.{Ptr}
use zenoh_c.Closures.{
  Closure, default_closure, drop_closure, dropped, z_closure_sample, z_closure_sample_call,
  z_closure_sample_drop,
}

-- A call of the closure's variable with a sample, or its drop.
pub data Op (T : Type 0) : Type 0 where
  call_with : T → Op T
  drop_it : Op T

module _ {S T : Type 0} where
  unfoldable pub then_go :
      (S → Option (Closure S T × S)) → Option (T × S) → Option (Closure S T × S)
  then_go go none = none
  then_go go (some (sample, s)) = go s

  unfoldable pub then_run :
      (Closure S T → S → Option (Closure S T × S))
      → Option (Closure S T × S)
      → Option (Closure S T × S)
  then_run go none = none
  then_run go (some (c, s)) = go c s

  -- The operations one after another, on the same variable.
  abbrev pub run_ops : List (Op T) → Closure S T → S → Option (Closure S T × S)
  run_ops [] c s = some (c, s)
  run_ops (call_with sample ∷ ops) c s = then_go (run_ops ops c) (z_closure_sample_call c sample s)
  run_ops (drop_it ∷ ops) c s = then_run (run_ops ops) (z_closure_sample_drop c s)

  module _ (f : T → Ptr → S → Option (T × S)) (d : Ptr → S → Option S) (p : Ptr) where
    abbrev constructed : Closure S T
    constructed = z_closure_sample (some f) (some d) p

    -- The body runs for each call up to the first drop, then `drop` runs, and then nothing.
    abbrev pub until_drop : List (Op T) → S → Option (Closure S T × S)
    until_drop [] s = some (constructed, s)
    until_drop (call_with sample ∷ ops) s = then_go (until_drop ops) (f sample p s)
    until_drop (drop_it ∷ ops) s = dropped (d p s)

    -- What has been dropped stays as it is.
    run_ops_dropped :
        (ops : List (Op T)) (s : S) → run_ops ops default_closure s ≡ some (default_closure, s)
    unfolding default_closure z_closure_sample_call z_closure_sample_drop drop_closure dropped
        then_go then_run
    run_ops_dropped [] s = refl
    run_ops_dropped (call_with sample ∷ ops) s = run_ops_dropped ops s
    run_ops_dropped (drop_it ∷ ops) s = run_ops_dropped ops s

    after_drop : (ops : List (Op T)) (r : Option S) → then_run (run_ops ops) (dropped r) ≡ dropped r
    unfolding dropped then_run
    after_drop ops none = refl
    after_drop ops (some s) = run_ops_dropped ops s

    after_call :
        (go go' : S → Option (Closure S T × S)) (r : Option (T × S))
        → ((s : S) → go s ≡ go' s)
        → then_go go r ≡ then_go go' r
    unfolding then_go
    after_call go go' none h = refl
    after_call go go' (some (sample, s)) h = h s

    -- However a closure made by `z_closure_sample` is called and dropped: its body runs once for
    -- each call in front of the first drop, its `drop` runs once at the first drop, and from then on
    -- nothing runs and the variable is the empty closure.
    pub run_ops-until_drop :
        (ops : List (Op T)) (s : S)
        → run_ops ops (z_closure_sample (some f) (some d) p) s ≡ until_drop ops s
    unfolding z_closure_sample z_closure_sample_call z_closure_sample_drop drop_closure
    run_ops-until_drop [] s = refl
    run_ops-until_drop (call_with sample ∷ ops) s =
        after_call _ _ (f sample p s) (run_ops-until_drop ops)
    run_ops-until_drop (drop_it ∷ ops) s = after_drop ops (d p s)
