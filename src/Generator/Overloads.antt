-- ===== src/Generator/Overloads.antt =====
-- What buildrs/cbindgen_generator.rs writes for C++: `generate_generic_cpp` with its wrappers, and
-- the templates that lead from loaned types to owned types.
pub mod Written
pub mod Pairs
use zenoh_c.Common.{
  ℕ, suc, Bool, true, false, not, List, [], ◌∷◌, ◌++◌, ◌==◌, ◌%◌, if◌then◌else◌, any, filter,
  length, ltb,
}
use zenoh_c.Common.Text.{Text, codes, text_eq, replace, contains}
use zenoh_c.Common.Panics.{Panics, ok, panic, ◌>>=◌}
use zenoh_c.Generator.Signature.{
  Ctype, ctype, FuncArg, func_arg, FunctionSignature, without_cv, without_ptr, with_ref,
}
use zenoh_c.Generator.Macros.{arg_at, concat_each, callback_typename, is_try_recv}

-- The parameters from the `i`-th on, and the arguments of the call.
unfoldable pub cpp_params : ℕ → List FuncArg → Text
cpp_params i [] = []
cpp_params i (a ∷ args) =
    (if i % 2 == 0 then codes ",\n    " else codes ", ")
    ++ a.typename.typename
    ++ codes " "
    ++ a.name
    ++ cpp_params (suc i) args

unfoldable pub cpp_arguments : List FuncArg → Text
cpp_arguments [] = []
cpp_arguments (a ∷ args) = codes ", " ++ a.name ++ cpp_arguments args

abbrev cpp_type : Bool → FuncArg → Text
cpp_type true a = (with_ref a.typename).typename
cpp_type false a = a.typename.typename

unfoldable pub overload : Text → Bool → Text → Text → FunctionSignature → Panics Text
unfolding cpp_params cpp_arguments with_ref text_eq
overload name b body_start body_end f = elim f.args [
  | [] ↦ panic
  | a ∷ args ↦ ok (
      codes "\n"
      ++ codes "inline "
      ++ f.return_type.typename
      ++ codes " "
      ++ name
      ++ codes "("
      ++ cpp_type b a
      ++ codes " "
      ++ a.name
      ++ cpp_params 1 args
      ++ codes ") {"
      ++ body_start
      ++ (if text_eq f.return_type.typename (codes "void") then [] else codes "return ")
      ++ f.func_name
      ++ codes "("
      ++ (if b then codes "&" ++ a.name else a.name)
      ++ cpp_arguments args
      ++ codes ");"
      ++ body_end
      ++ codes "};")
]

unfoldable pub generate_generic_cpp : List FunctionSignature → Text → Bool → Panics Text
unfolding concat_each overload
generate_generic_cpp fs name b =
    if any (λ f. ltb 1 (length f.args)) fs
    then concat_each (overload name b (codes "\n    ") (codes "\n")) fs
    else concat_each (overload name b (codes " ") (codes " ")) fs

unfoldable pub generate_generic_loan_cpp : List FunctionSignature → Panics Text
unfolding generate_generic_cpp
generate_generic_loan_cpp fs = generate_generic_cpp fs (codes "z_loan") true

unfoldable pub generate_generic_loan_mut_cpp : List FunctionSignature → Panics Text
unfolding generate_generic_cpp
generate_generic_loan_mut_cpp fs = generate_generic_cpp fs (codes "z_loan_mut") true

unfoldable pub generate_generic_drop_cpp : List FunctionSignature → Panics Text
unfolding generate_generic_cpp
generate_generic_drop_cpp fs = generate_generic_cpp fs (codes "z_drop") false

unfoldable pub generate_generic_move_cpp : List FunctionSignature → Panics Text
unfolding generate_generic_cpp
generate_generic_move_cpp fs = generate_generic_cpp fs (codes "z_move") false

unfoldable pub generate_generic_take_cpp : List FunctionSignature → Panics Text
unfolding generate_generic_cpp
generate_generic_take_cpp fs = generate_generic_cpp fs (codes "z_take") false

unfoldable pub generate_generic_take_from_loaned_cpp : List FunctionSignature → Panics Text
unfolding generate_generic_cpp
generate_generic_take_from_loaned_cpp fs =
    generate_generic_cpp fs (codes "z_take_from_loaned") false

unfoldable pub generate_generic_null_cpp : List FunctionSignature → Panics Text
unfolding generate_generic_cpp
generate_generic_null_cpp fs = generate_generic_cpp fs (codes "z_internal_null") false

unfoldable pub generate_generic_check_cpp : List FunctionSignature → Panics Text
unfolding generate_generic_cpp
generate_generic_check_cpp fs = generate_generic_cpp fs (codes "z_internal_check") true

unfoldable pub generate_generic_call_cpp : List FunctionSignature → Panics Text
unfolding generate_generic_cpp
generate_generic_call_cpp fs = generate_generic_cpp fs (codes "z_call") false

unfoldable pub generate_generic_clone_cpp : List FunctionSignature → Panics Text
unfolding generate_generic_cpp
generate_generic_clone_cpp fs = generate_generic_cpp fs (codes "z_clone") false

unfoldable pub generate_generic_recv_cpp : List FunctionSignature → Panics Text
unfolding contains generate_generic_cpp
generate_generic_recv_cpp fs =
    generate_generic_cpp (filter is_try_recv fs) (codes "z_try_recv") false >>= λ try_recv.
    generate_generic_cpp (filter (λ f. not (is_try_recv f)) fs) (codes "z_recv") false >>= λ recv.
    ok (try_recv ++ codes "\n\n" ++ recv)

-- The signature of a closure with the callbacks' types in place of the function pointers.
unfoldable pub processed_closure : FunctionSignature → Panics FunctionSignature
processed_closure f = elim f.args [
  | first ∷ call ∷ drop ∷ args ↦ ok (record f {
    args =
        first
        ∷ func_arg (callback_typename f ++ codes "*") call.name
        ∷ func_arg (codes "z_closure_drop_callback_t*") drop.name
        ∷ args;
  })
  | other ↦ panic
]

unfoldable pub process_closures : List FunctionSignature → Panics (List FunctionSignature)
unfolding processed_closure
process_closures [] = ok []
process_closures (f ∷ fs) = processed_closure f >>= λ g. process_closures fs >>= λ gs. ok (g ∷ gs)

unfoldable pub callback_using : FunctionSignature → Panics Text
unfolding arg_at replace
callback_using f = arg_at 1 f.args >>= λ a. ok (
    codes "extern \"C\" using "
    ++ callback_typename f
    ++ codes " = "
    ++ replace a.typename.typename (codes " (*" ++ a.name ++ codes ")") []
    ++ codes ";\n")

unfoldable pub generate_generic_closure_cpp : List FunctionSignature → Panics Text
unfolding concat_each process_closures callback_using generate_generic_cpp
generate_generic_closure_cpp fs = concat_each callback_using fs >>= λ aliases.
    process_closures fs >>= λ processed.
    generate_generic_cpp processed (codes "z_closure") false >>= λ out. ok (
      codes "extern \"C\" using z_closure_drop_callback_t = void(void* context);\n"
      ++ aliases
      ++ out)

-- The owned type of a loan function's argument, and the loaned type that it returns.
abbrev pub bare : Ctype → Text
bare t = (without_ptr (without_cv t)).typename

abbrev pub loaned_of : FunctionSignature → Text
loaned_of f = bare f.return_type

unfoldable pub template_pair : Text → Text → Text
template_pair loaned owned =
    codes "\ntemplate<> struct z_loaned_to_owned_type_t<"
    ++ loaned
    ++ codes "> { typedef "
    ++ owned
    ++ codes " type; };\ntemplate<> struct z_owned_to_loaned_type_t<"
    ++ owned
    ++ codes "> { typedef "
    ++ loaned
    ++ codes " type; };"

-- The loop, which returns the pairs that it writes; `processed` is the hash set.
unfoldable pub loan_pairs : List Text → List FunctionSignature → Panics (List (Text × Text))
unfolding arg_at without_cv without_ptr text_eq contains
loan_pairs processed [] = ok []
loan_pairs processed (f ∷ fs) =
    let later = loan_pairs (loaned_of f ∷ processed) fs in
    let past = loan_pairs processed fs in
    if any (text_eq (loaned_of f)) processed
    then past
    else arg_at 0 f.args >>= λ a.
        if contains (bare a.typename) (codes "view")
        then later
        else (later >>= λ pairs. ok ((loaned_of f, bare a.typename) ∷ pairs))

unfoldable pub concat_pairs : List (Text × Text) → Text
unfolding template_pair
concat_pairs [] = []
concat_pairs ((loaned, owned) ∷ pairs) = template_pair loaned owned ++ concat_pairs pairs

unfoldable pub generate_generic_loan_to_owned_type_cpp : List FunctionSignature → Panics Text
unfolding loan_pairs concat_pairs
generate_generic_loan_to_owned_type_cpp fs = loan_pairs [] fs >>= λ pairs. ok (
    codes
      "template<class T> struct z_loaned_to_owned_type_t {};\ntemplate<class T> struct z_owned_to_loaned_type_t {};"
    ++ concat_pairs pairs)
