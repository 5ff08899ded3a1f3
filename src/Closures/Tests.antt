-- ===== src/Closures/Tests.antt =====
-- Concrete inputs for the models of src/closures/sample_closure.rs.
use zenoh_c.Common.{ℕ, ◌≡◌, Option, some, List, [], ◌∷◌}
use zenoh_c.Collections.Memory.{Ptr}
use zenoh_c.Closures.{z_closure_sample}
use zenoh_c.Closures.Lifetime.{Op, call_with, drop_it, run_ops, until_drop, run_ops-until_drop}

-- A body that notes its sample, and a drop that notes the context.
abbrev body : ℕ → Ptr → List ℕ → Option (ℕ × List ℕ)
body sample p s = some (sample, sample ∷ s)

abbrev clean_up : Ptr → List ℕ → Option (List ℕ)
clean_up p s = some (p ∷ s)

abbrev ops : List (Op ℕ)
ops = call_with 1 ∷ drop_it ∷ call_with 2 ∷ drop_it ∷ []

run_ops-until_drop_example :
    run_ops ops (z_closure_sample (some body) (some clean_up) 9) []
    ≡ until_drop body clean_up 9 ops []
run_ops-until_drop_example = run_ops-until_drop body clean_up 9 ops []
