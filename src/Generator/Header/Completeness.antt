-- ===== src/Generator/Header/Completeness.antt =====
-- When `create_generics_header` of buildrs/cbindgen_generator.rs writes the header.
use zenoh_c.Common.{
  ◌≡◌, ◌↔◌, subst, Bool, true, false, List, [], ◌∷◌, ◌++◌, ◌▸◌, if◌then◌else◌, All, All-append,
  Bool-cases, inl, inr,
}
use zenoh_c.Common.Text.{Text}
use zenoh_c.Common.Panics.{Panics, ok, panic, ◌>>=◌, Returns, bind-Returns, Returns-bind}
use zenoh_c.Generator.Signature.{FunctionSignature}
use zenoh_c.Generator.Groups.{Regex}
use zenoh_c.Generator.Find.Shapes.{Takes}
use zenoh_c.Generator.Macros.Written.{
  NonEmpty, AllHave, generate_generic_c-Returns, Returns-NonEmpty, take_functions-Returns,
  move_functions_c-Returns, move_functions_cpp-Returns, closure_c-Returns, closure_c-NonEmpty,
  tries, waits, recv_c-Returns, recv_c-NonEmpty,
}
use zenoh_c.Generator.Macros.{
  generate_generic_loan_c, generate_generic_loan_mut_c, generate_generic_move_c,
  generate_generic_take_c, generate_generic_take_from_loaned_c, generate_generic_drop_c,
  generate_generic_clone_c, generate_generic_null_c, generate_generic_check_c,
  generate_generic_call_c,
}
use zenoh_c.Generator.Overloads.{
  generate_generic_loan_cpp, generate_generic_loan_mut_cpp, generate_generic_move_cpp,
  generate_generic_take_cpp, generate_generic_take_from_loaned_cpp, generate_generic_drop_cpp,
  generate_generic_clone_cpp, generate_generic_null_cpp, generate_generic_check_cpp,
  generate_generic_call_cpp,
}
use zenoh_c.Generator.Overloads.Written.{
  generic_cpp-Returns, recv_cpp-Returns, closure_cpp-Returns, loan_to_owned-Returns,
}
use zenoh_c.Generator.Header.{
  Functions, find_all, is_complete, write_all, spaced, c_part, cpp_part, write_generics,
  create_generics_header, opening, between, closing,
}
use zenoh_c.Generator.Header.Found.{Shaped, find_all-Shaped}
use zenoh_c.Generator.Header.Entities.{IsComplete, is_complete_iff, SameEntities-NonEmpty}

-- Each macro of C has a function to choose, in both kinds of receivers too.
abbrev pub IsCovered : Functions → Type 0
IsCovered fs =
    NonEmpty fs.loan_funcs
    × NonEmpty fs.loan_mut_funcs
    × NonEmpty fs.drop_funcs
    × NonEmpty fs.take_from_loaned_funcs
    × NonEmpty fs.call_funcs
    × NonEmpty fs.closure_constructors
    × NonEmpty (tries fs.recv_funcs)
    × NonEmpty (waits fs.recv_funcs)
    × NonEmpty fs.clone_funcs

write_all-Returns : (parts : List (Panics Text)) → All Returns parts → Returns (write_all parts)
unfolding write_all
write_all-Returns [] h = tt
write_all-Returns (r ∷ parts) h =
    bind-Returns r _ h.0
      λ s. bind-Returns (write_all parts) _ (write_all-Returns parts h.1) λ out. tt

Returns-write_all : (parts : List (Panics Text)) → Returns (write_all parts) → All Returns parts
unfolding write_all
Returns-write_all [] h = tt
Returns-write_all (panic ∷ parts) h = absurd h
Returns-write_all (ok s ∷ parts) h =
    (tt, Returns-write_all parts (Returns-bind (write_all parts) _ h))

spaced-Returns : (r : Panics Text) → Returns r → Returns (spaced r)
spaced-Returns r h = bind-Returns r _ h λ s. tt

Takes-AllHave : (fs : List FunctionSignature) → All Takes fs → AllHave 1 fs
Takes-AllHave [] h = tt
Takes-AllHave (f ∷ fs) h = (h.0.0, Takes-AllHave fs h.1)

module _ (fs : Functions) where
  c_part-Returns : Shaped fs → IsComplete fs → IsCovered fs → All Returns (c_part fs)
  unfolding c_part generate_generic_loan_c generate_generic_loan_mut_c generate_generic_move_c
      generate_generic_take_c generate_generic_take_from_loaned_c generate_generic_drop_c
      generate_generic_clone_c generate_generic_null_c generate_generic_check_c
      generate_generic_call_c
  c_part-Returns
        (move, take, loan, loan_mut, take_from, drop, null, check, call, closure, recv, clone)
        (nulls, checks, moves, takes)
        (loans, loan_muts, drops, takes_from, calls, closures, tried, waited, clones) =
      spaced-Returns _ (move_functions_c-Returns _ move)
      ▸ spaced-Returns _ (generate_generic_c-Returns _ _ _ loan loans)
      ▸ spaced-Returns _ (generate_generic_c-Returns _ _ _ loan_mut loan_muts)
      ▸ spaced-Returns _ (generate_generic_c-Returns _ _ _ drop drops)
      ▸ spaced-Returns _
          (generate_generic_c-Returns _ _ _ move (SameEntities-NonEmpty _ _ moves drops))
      ▸ spaced-Returns _
          (generate_generic_c-Returns _ _ _ null (SameEntities-NonEmpty _ _ nulls drops))
      ▸ spaced-Returns _ (take_functions-Returns _ take)
      ▸ spaced-Returns _ (
          generate_generic_c-Returns _ _ _ (Takes-AllHave _ take)
            (SameEntities-NonEmpty _ _ takes drops))
      ▸ spaced-Returns _ (generate_generic_c-Returns _ _ _ take_from takes_from)
      ▸ spaced-Returns _
          (generate_generic_c-Returns _ _ _ check (SameEntities-NonEmpty _ _ checks drops))
      ▸ spaced-Returns _ (generate_generic_c-Returns _ _ _ call calls)
      ▸ spaced-Returns _ (closure_c-Returns _ closure closures)
      ▸ spaced-Returns _ (recv_c-Returns _ recv tried waited)
      ▸ generate_generic_c-Returns _ _ _ clone clones
      ▸ tt

  cpp_part-Returns : Shaped fs → All Returns (cpp_part fs)
  unfolding cpp_part generate_generic_loan_cpp generate_generic_loan_mut_cpp
      generate_generic_move_cpp generate_generic_take_cpp generate_generic_take_from_loaned_cpp
      generate_generic_drop_cpp generate_generic_clone_cpp generate_generic_null_cpp
      generate_generic_check_cpp generate_generic_call_cpp
  cpp_part-Returns
        (move, take, loan, loan_mut, take_from, drop, null, check, call, closure, recv, clone) =
      spaced-Returns _ (move_functions_cpp-Returns _ move)
      ▸ spaced-Returns _ (generic_cpp-Returns _ true _ loan)
      ▸ spaced-Returns _ (generic_cpp-Returns _ true _ loan_mut)
      ▸ spaced-Returns _ (generic_cpp-Returns _ false _ drop)
      ▸ spaced-Returns _ (generic_cpp-Returns _ false _ move)
      ▸ spaced-Returns _ (generic_cpp-Returns _ false _ null)
      ▸ spaced-Returns _ (take_functions-Returns _ take)
      ▸ spaced-Returns _ (generic_cpp-Returns _ false _ (Takes-AllHave _ take))
      ▸ spaced-Returns _ (generic_cpp-Returns _ false _ take_from)
      ▸ spaced-Returns _ (generic_cpp-Returns _ true _ check)
      ▸ spaced-Returns _ (generic_cpp-Returns _ false _ call)
      ▸ spaced-Returns _ (closure_cpp-Returns _ closure)
      ▸ spaced-Returns _ (recv_cpp-Returns _ recv)
      ▸ spaced-Returns _ (generic_cpp-Returns _ false _ clone)
      ▸ loan_to_owned-Returns _ (All-append _ _ _ loan loan_mut)
      ▸ tt

  -- A macro without functions is a panic.
  Returns-IsCovered : All Returns (c_part fs) → IsCovered fs
  unfolding c_part generate_generic_loan_c generate_generic_loan_mut_c generate_generic_move_c
      generate_generic_take_c generate_generic_take_from_loaned_c generate_generic_drop_c
      generate_generic_clone_c generate_generic_null_c generate_generic_check_c
      generate_generic_call_c
  Returns-IsCovered
        (
          p0,
          (
            loan,
            (
              loan_mut,
              (
                drop,
                (p4, (p5, (p6, (p7, (take_from, (p9, (call, (closure, (recv, (clone, _)))))))))),
              ),
            ),
          ),
        ) =
      let (t, w) = recv_c-NonEmpty _ (Returns-bind _ _ recv) in
      (
        Returns-NonEmpty _ _ _ (Returns-bind _ _ loan),
        Returns-NonEmpty _ _ _ (Returns-bind _ _ loan_mut),
        Returns-NonEmpty _ _ _ (Returns-bind _ _ drop),
        Returns-NonEmpty _ _ _ (Returns-bind _ _ take_from),
        Returns-NonEmpty _ _ _ (Returns-bind _ _ call),
        closure_c-NonEmpty _ (Returns-bind _ _ closure),
        t,
        w,
        Returns-NonEmpty _ _ _ clone,
      )

written :
    (fs : Functions) → Shaped fs → Returns (write_generics fs) ↔ (IsComplete fs × IsCovered fs)
unfolding write_generics
written fs shaped = (
  λ h. elim (Bool-cases (is_complete fs)) [
    | inl e ↦ ((is_complete_iff fs).0 e, covered e h)
    | inr n ↦ absurd (refused n h)
  ],
  λ (all, covered). rw ((is_complete_iff fs).1 all) (
      bind-Returns (write_all (c_part fs)) _
        (write_all-Returns (c_part fs) (c_part-Returns fs shaped all covered))
        λ c.
          bind-Returns (write_all (cpp_part fs)) _
            (write_all-Returns (cpp_part fs) (cpp_part-Returns fs shaped)) λ cpp. tt),
)
  where
    chosen : Bool → Panics Text
    chosen b =
        if b
        then (write_all (c_part fs) >>= λ c.
            write_all (cpp_part fs) >>= λ cpp. ok (opening ++ c ++ between ++ cpp ++ closing))
        else panic

    refused : is_complete fs ≡ false → Returns (write_generics fs) → ⊥
    refused n h = subst (λ b. Returns (chosen b)) n h

    covered : is_complete fs ≡ true → Returns (write_generics fs) → IsCovered fs
    covered e h = Returns-IsCovered fs (
        Returns-write_all (c_part fs)
          (Returns-bind (write_all (c_part fs)) _ (subst (λ b. Returns (chosen b)) e h)))

-- Where the header's functions are found: `create_generics_header` returns exactly if the same
-- entities have functions to drop, set to null, check, move and take, and if there are functions
-- to loan, to loan mutably, to drop, to take from a loan, to call and to clone, constructors of
-- closures, and receivers that wait and that do not; else it panics.
pub create_generics_header-Returns :
    (regex : Regex) (bindings : Text) (fs : Functions)
    → find_all regex bindings ≡ ok fs
    → Returns (create_generics_header regex bindings) ↔ (IsComplete fs × IsCovered fs)
unfolding create_generics_header
create_generics_header-Returns regex bindings fs e =
    rw e (written fs (find_all-Shaped regex bindings fs e))
