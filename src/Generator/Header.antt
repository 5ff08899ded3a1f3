-- ===== src/Generator/Header.antt =====
-- `create_generics_header` of buildrs/cbindgen_generator.rs, from the preprocessed header to the
-- text of zenoh_macros.h. A panic leaves the file with what was written so far; that text is left out.
pub mod Entities
pub mod Found
pub mod Completeness
use zenoh_c.Common.{Bool, true, false, ◌&&◌, List, [], ◌∷◌, ◌++◌, map, any, if◌then◌else◌}
use zenoh_c.Common.Text.{Text, codes, text_eq}
use zenoh_c.Common.Panics.{Panics, ok, panic, ◌>>=◌}
use zenoh_c.Generator.Signature.{FunctionSignature}
use zenoh_c.Generator.Groups.{Regex}
use zenoh_c.Generator.Find.{
  make_move_take_signatures, find_loan_functions, find_loan_mut_functions,
  find_take_from_loaned_functions, find_drop_functions, find_null_functions, find_check_functions,
  find_call_functions, find_closure_constructors, find_recv_functions, find_clone_functions,
}
use zenoh_c.Generator.Macros.{
  generate_move_functions_c, generate_move_functions_cpp, generate_take_functions,
  generate_generic_loan_c, generate_generic_loan_mut_c, generate_generic_move_c,
  generate_generic_take_c, generate_generic_take_from_loaned_c, generate_generic_drop_c,
  generate_generic_clone_c, generate_generic_null_c, generate_generic_check_c,
  generate_generic_call_c, generate_generic_closure_c, generate_generic_recv_c,
}
use zenoh_c.Generator.Overloads.{
  generate_generic_loan_cpp, generate_generic_loan_mut_cpp, generate_generic_move_cpp,
  generate_generic_take_cpp, generate_generic_take_from_loaned_cpp, generate_generic_drop_cpp,
  generate_generic_clone_cpp, generate_generic_null_cpp, generate_generic_check_cpp,
  generate_generic_call_cpp, generate_generic_closure_cpp, generate_generic_recv_cpp,
  generate_generic_loan_to_owned_type_cpp,
}

-- The signatures that have been found.
pub record Functions : Type 0 where
  pub move_funcs : List FunctionSignature
  pub take_funcs : List FunctionSignature
  pub loan_funcs : List FunctionSignature
  pub loan_mut_funcs : List FunctionSignature
  pub take_from_loaned_funcs : List FunctionSignature
  pub drop_funcs : List FunctionSignature
  pub null_funcs : List FunctionSignature
  pub check_funcs : List FunctionSignature
  pub call_funcs : List FunctionSignature
  pub closure_constructors : List FunctionSignature
  pub recv_funcs : List FunctionSignature
  pub clone_funcs : List FunctionSignature

unfoldable pub find_all : Regex → Text → Panics Functions
find_all regex bindings = make_move_take_signatures regex bindings >>= λ move_take.
    find_loan_functions regex bindings >>= λ loans.
    find_loan_mut_functions regex bindings >>= λ loan_muts.
    find_take_from_loaned_functions regex bindings >>= λ takes_from.
    find_drop_functions regex bindings >>= λ drops. find_null_functions regex bindings >>= λ nulls.
    find_check_functions regex bindings >>= λ checks.
    find_call_functions regex bindings >>= λ calls.
    find_closure_constructors regex bindings >>= λ closures.
    find_recv_functions regex bindings >>= λ recvs.
    find_clone_functions regex bindings >>= λ clones. ok (record {
      move_funcs = move_take.0;
      take_funcs = move_take.1;
      loan_funcs = loans;
      loan_mut_funcs = loan_muts;
      take_from_loaned_funcs = takes_from;
      drop_funcs = drops;
      null_funcs = nulls;
      check_funcs = checks;
      call_funcs = calls;
      closure_constructors = closures;
      recv_funcs = recvs;
      clone_funcs = clones;
    })

-- The set of the entities of some signatures, as a list.
abbrev pub entities : List FunctionSignature → List Text
entities fs = map (λ f. f.entity_name) fs

abbrev pub member : Text → List Text → Bool
member s set = any (text_eq s) set

unfoldable pub is_subset : List Text → List Text → Bool
unfolding text_eq
is_subset [] set = true
is_subset (s ∷ rest) set = member s set && is_subset rest set

-- `==` of two hash sets.
unfoldable pub set_eq : List Text → List Text → Bool
unfolding is_subset
set_eq s t = is_subset s t && is_subset t s

-- Whether no message has been pushed.
unfoldable pub is_complete : Functions → Bool
unfolding set_eq
is_complete fs =
    set_eq (entities fs.drop_funcs) (entities fs.null_funcs)
    && set_eq (entities fs.drop_funcs) (entities fs.check_funcs)
    && set_eq (entities fs.drop_funcs) (entities fs.move_funcs)
    && set_eq (entities fs.drop_funcs) (entities fs.take_funcs)

-- One text behind another, where each is made.
unfoldable pub write_all : List (Panics Text) → Panics Text
write_all [] = ok []
write_all (r ∷ rest) = r >>= λ s. write_all rest >>= λ out. ok (s ++ out)

-- A text with two ends of line behind it.
abbrev pub spaced : Panics Text → Panics Text
spaced r = r >>= λ s. ok (s ++ codes "\n\n")

unfoldable pub c_part : Functions → List (Panics Text)
c_part fs =
    spaced (generate_move_functions_c fs.move_funcs)
    ∷ spaced (generate_generic_loan_c fs.loan_funcs)
    ∷ spaced (generate_generic_loan_mut_c fs.loan_mut_funcs)
    ∷ spaced (generate_generic_drop_c fs.drop_funcs)
    ∷ spaced (generate_generic_move_c fs.move_funcs)
    ∷ spaced (generate_generic_null_c fs.null_funcs)
    ∷ spaced (generate_take_functions fs.take_funcs)
    ∷ spaced (generate_generic_take_c fs.take_funcs)
    ∷ spaced (generate_generic_take_from_loaned_c fs.take_from_loaned_funcs)
    ∷ spaced (generate_generic_check_c fs.check_funcs)
    ∷ spaced (generate_generic_call_c fs.call_funcs)
    ∷ spaced (generate_generic_closure_c fs.closure_constructors)
    ∷ spaced (generate_generic_recv_c fs.recv_funcs)
    ∷ generate_generic_clone_c fs.clone_funcs
    ∷ []

unfoldable pub cpp_part : Functions → List (Panics Text)
cpp_part fs =
    spaced (generate_move_functions_cpp fs.move_funcs)
    ∷ spaced (generate_generic_loan_cpp fs.loan_funcs)
    ∷ spaced (generate_generic_loan_mut_cpp fs.loan_mut_funcs)
    ∷ spaced (generate_generic_drop_cpp fs.drop_funcs)
    ∷ spaced (generate_generic_move_cpp fs.move_funcs)
    ∷ spaced (generate_generic_null_cpp fs.null_funcs)
    ∷ spaced (generate_take_functions fs.take_funcs)
    ∷ spaced (generate_generic_take_cpp fs.take_funcs)
    ∷ spaced (generate_generic_take_from_loaned_cpp fs.take_from_loaned_funcs)
    ∷ spaced (generate_generic_check_cpp fs.check_funcs)
    ∷ spaced (generate_generic_call_cpp fs.call_funcs)
    ∷ spaced (generate_generic_closure_cpp fs.closure_constructors)
    ∷ spaced (generate_generic_recv_cpp fs.recv_funcs)
    ∷ spaced (generate_generic_clone_cpp fs.clone_funcs)
    ∷ generate_generic_loan_to_owned_type_cpp (fs.loan_funcs ++ fs.loan_mut_funcs)
    ∷ []

abbrev pub opening : Text
opening = codes "#pragma once\n// clang-format off\n\n" ++ codes "\n#ifndef __cplusplus\n\n"

abbrev pub between : Text
between = codes "\n#else  // #ifndef __cplusplus\n" ++ codes "\n\n"

abbrev pub closing : Text
closing = codes "\n#endif  // #ifndef __cplusplus\n\n"

-- What is written once the signatures are known.
unfoldable pub write_generics : Functions → Panics Text
unfolding is_complete write_all c_part cpp_part
write_generics fs =
    if is_complete fs
    then (write_all (c_part fs) >>= λ c.
        write_all (cpp_part fs) >>= λ cpp. ok (opening ++ c ++ between ++ cpp ++ closing))
    else panic

unfoldable pub create_generics_header : Regex → Text → Panics Text
unfolding find_all write_generics
create_generics_header regex bindings = find_all regex bindings >>= write_generics
