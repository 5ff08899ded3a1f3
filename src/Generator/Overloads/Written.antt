-- ===== src/Generator/Overloads/Written.antt =====
-- When the functions of buildrs/cbindgen_generator.rs that write for C++ return.
use zenoh_c.Common.{
  ◌≤◌, ◌≡◌, refl, Bool, false, List, [], ◌∷◌, any, length, arith, Bool-cases, inl, inr, ltb,
}
use zenoh_c.Common.Text.{Text, codes, text_eq, contains}
use zenoh_c.Common.Panics.{ok, Returns, bind-Returns}
use zenoh_c.Generator.Signature.{FuncArg, FunctionSignature}
use zenoh_c.Generator.Find.Shapes.{HasArgs}
use zenoh_c.Generator.Macros.{arg_at, concat_each}
use zenoh_c.Generator.Macros.Written.{
  AllHave, arg_at-Returns, concat_each-Returns, filter-All, tries, waits,
}
use zenoh_c.Generator.Overloads.{
  overload, generate_generic_cpp, generate_generic_recv_cpp, processed_closure, process_closures,
  callback_using, generate_generic_closure_cpp, bare, loaned_of, loan_pairs,
  generate_generic_loan_to_owned_type_cpp,
}

module _ (name : Text) (b : Bool) where
  overload_with-Returns :
      (start end : Text) (f : FunctionSignature) (list : List FuncArg)
      → 1 ≤ length list
      → Returns (overload name b start end (record f { args = list }))
  unfolding overload
  overload_with-Returns start end f [] h = absurd (omega (arith, h))
  overload_with-Returns start end f (a ∷ list) h = tt

  overload-Returns :
      (start end : Text) (f : FunctionSignature)
      → HasArgs 1 f
      → Returns (overload name b start end f)
  overload-Returns start end f h = overload_with-Returns start end f f.args h

  pub generic_cpp-Returns :
      (fs : List FunctionSignature) → AllHave 1 fs → Returns (generate_generic_cpp fs name b)
  unfolding generate_generic_cpp
  generic_cpp-Returns fs h = elim (Bool-cases (any (λ f. ltb 1 (length f.args)) fs)) [
    | inl e ↦ rw e (concat_each-Returns (HasArgs 1) _ fs (overload-Returns _ _) h)
    | inr e ↦ rw e (concat_each-Returns (HasArgs 1) _ fs (overload-Returns _ _) h)
  ]

pub recv_cpp-Returns :
    (fs : List FunctionSignature) → AllHave 1 fs → Returns (generate_generic_recv_cpp fs)
unfolding generate_generic_recv_cpp
recv_cpp-Returns fs h =
    bind-Returns (generate_generic_cpp (tries fs) _ false) _
      (generic_cpp-Returns _ false (tries fs) (filter-All _ _ fs h))
      λ t.
        bind-Returns (generate_generic_cpp (waits fs) _ false) _
          (generic_cpp-Returns _ false (waits fs) (filter-All _ _ fs h)) λ w. tt

-- The closures with the callbacks' types in place still have an argument to choose by.
abbrev Processed : List FunctionSignature → Type 0
Processed fs = (gs : List FunctionSignature) × (process_closures fs ≡ ok gs) × AllHave 1 gs

-- A closure that has been processed.
abbrev ProcessedAs : FunctionSignature → Type 0
ProcessedAs f = (g : FunctionSignature) × (processed_closure f ≡ ok g) × HasArgs 1 g

processed_with :
    (f : FunctionSignature) (list : List FuncArg)
    → 3 ≤ length list
    → ProcessedAs (record f { args = list })
unfolding processed_closure
processed_with f (a ∷ b ∷ c ∷ list) h = (_, refl, omega arith)
processed_with f _ h = absurd (omega (arith, h))

all-Processed : (fs : List FunctionSignature) → AllHave 3 fs → Processed fs
unfolding process_closures
all-Processed [] h = ([], refl, tt)
all-Processed (f ∷ fs) h =
    let (g, e, k) = processed_with f f.args h.0 in
    let (gs, e', k') = all-Processed fs h.1 in (g ∷ gs, rw (e, e') refl, (k, k'))

pub closure_cpp-Returns :
    (fs : List FunctionSignature) → AllHave 3 fs → Returns (generate_generic_closure_cpp fs)
unfolding generate_generic_closure_cpp callback_using
closure_cpp-Returns fs h =
    bind-Returns (concat_each callback_using fs) _
      (concat_each-Returns (HasArgs 3) callback_using fs
        (λ f n.
          bind-Returns (arg_at 1 f.args) _ (arg_at-Returns 1 f.args (omega (arith, n))) λ a. tt)
        h)
      λ aliases.
        let (gs, e, k) = all-Processed fs h in
        rw e (
          bind-Returns (generate_generic_cpp gs _ false) _ (generic_cpp-Returns _ false gs k)
            λ out. tt)

loan_pairs-Returns :
    (processed : List Text) (fs : List FunctionSignature)
    → AllHave 1 fs
    → Returns (loan_pairs processed fs)
unfolding loan_pairs
loan_pairs-Returns processed [] h = tt
loan_pairs-Returns processed (f ∷ fs) h =
    elim (Bool-cases (any (text_eq (loaned_of f)) processed)) [
      | inl e ↦ rw e (loan_pairs-Returns processed fs h.1)
      | inr e ↦ rw e (
          bind-Returns (arg_at 0 f.args) _ (arg_at-Returns 0 f.args h.0) λ a.
            let ih = loan_pairs-Returns (loaned_of f ∷ processed) fs h.1 in
            elim (Bool-cases (contains (bare a.typename) (codes "view"))) [
              | inl v ↦ rw v ih
              | inr v ↦
                  rw v (bind-Returns (loan_pairs (loaned_of f ∷ processed) fs) _ ih λ pairs. tt)
            ])
    ]

pub loan_to_owned-Returns :
    (fs : List FunctionSignature)
    → AllHave 1 fs
    → Returns (generate_generic_loan_to_owned_type_cpp fs)
unfolding generate_generic_loan_to_owned_type_cpp
loan_to_owned-Returns fs h =
    bind-Returns (loan_pairs [] fs) _ (loan_pairs-Returns [] fs h) λ pairs. tt
