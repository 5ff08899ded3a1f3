-- ===== src/Generator/Macros.antt =====
-- What buildrs/cbindgen_generator.rs writes for C: `generate_generic_c` with its wrappers, the move
-- and take functions, and the macros of closures and receivers. An index out of range is a panic.
pub mod Written
use zenoh_c.Common.{
  ℕ, zero, suc, Bool, true, false, not, List, [], ◌∷◌, ◌++◌, map, ◌==◌, if◌then◌else◌, length, any,
  filter,
}
use zenoh_c.Common.Text.{Text, codes, replace, join, contains}
use zenoh_c.Common.Panics.{Panics, ok, panic, ◌>>=◌}
use zenoh_c.Generator.Signature.{Ctype, FuncArg, FunctionSignature, decay, split_type_name}

-- `args[0]` and `args[1]`
unfoldable pub arg_at : ℕ → List FuncArg → Panics FuncArg
arg_at n [] = panic
arg_at zero (a ∷ args) = ok a
arg_at (suc n) (a ∷ args) = arg_at n args

-- `out += ...` for each signature.
unfoldable pub concat_each :
    (FunctionSignature → Panics Text) → List FunctionSignature → Panics Text
concat_each body [] = ok []
concat_each body (f ∷ fs) = body f >>= λ s. concat_each body fs >>= λ out. ok (s ++ out)

-- Whether some signature has another number of arguments than the first.
unfoldable pub has_va_args : List FunctionSignature → Bool
has_va_args [] = false
has_va_args (f ∷ fs) = any (λ g. not (length g.args == length f.args)) (f ∷ fs)

-- A name in front of the other arguments.
abbrev names_with : Text → List FuncArg → Text
names_with first args = join (codes ", ") (first ∷ map (λ a. a.name) args)

-- The type that `_Generic` is to choose by.
unfoldable pub owned_type : Bool → FuncArg → Text
unfolding decay
owned_type true a = (decay a.typename).typename
owned_type false a = a.typename.typename

unfoldable pub generic_case : Bool → FunctionSignature → Panics Text
unfolding arg_at owned_type
generic_case b f = arg_at 0 f.args >>= λ a.
    ok (codes ", \\\n" ++ codes "        " ++ owned_type b a ++ codes " : " ++ f.func_name)

unfoldable pub generic_open : Bool → Text → Text → List FuncArg → Text
unfolding join
generic_open true name first args =
    codes "#define "
    ++ name
    ++ codes "("
    ++ names_with first args
    ++ codes ", ...) \\\n        _Generic(("
    ++ first
    ++ codes ")"
generic_open false name first args =
    codes "#define "
    ++ name
    ++ codes "("
    ++ names_with first args
    ++ codes ") \\\n    _Generic(("
    ++ first
    ++ codes ")"

unfoldable pub generic_close : Bool → Text → List FuncArg → Text
unfolding join
generic_close true first args =
    codes " \\\n" ++ codes "    )(" ++ names_with first args ++ codes ", __VA_ARGS__)"
generic_close false first args =
    codes " \\\n" ++ codes "    )(" ++ names_with first args ++ codes ")"

unfoldable pub generic_of : Text → Bool → List FunctionSignature → List FuncArg → Panics Text
unfolding concat_each generic_case generic_open generic_close has_va_args
generic_of name b fs [] = panic
generic_of name b fs (a ∷ args) =
    let va = has_va_args fs in
    let first = if b then codes "&" ++ a.name else a.name in
    concat_each (generic_case b) fs >>= λ cases.
    ok (generic_open va name a.name args ++ cases ++ generic_close va first args)

unfoldable pub generate_generic_c : List FunctionSignature → Text → Bool → Panics Text
unfolding generic_of
generate_generic_c [] name b = panic
generate_generic_c (f ∷ fs) name b = generic_of name b (f ∷ fs) f.args

unfoldable pub generate_generic_loan_c : List FunctionSignature → Panics Text
unfolding generate_generic_c
generate_generic_loan_c fs = generate_generic_c fs (codes "z_loan") true

unfoldable pub generate_generic_loan_mut_c : List FunctionSignature → Panics Text
unfolding generate_generic_c
generate_generic_loan_mut_c fs = generate_generic_c fs (codes "z_loan_mut") true

unfoldable pub generate_generic_move_c : List FunctionSignature → Panics Text
unfolding generate_generic_c
generate_generic_move_c fs = generate_generic_c fs (codes "z_move") true

unfoldable pub generate_generic_take_c : List FunctionSignature → Panics Text
unfolding generate_generic_c
generate_generic_take_c fs = generate_generic_c fs (codes "z_take") false

unfoldable pub generate_generic_take_from_loaned_c : List FunctionSignature → Panics Text
unfolding generate_generic_c
generate_generic_take_from_loaned_c fs = generate_generic_c fs (codes "z_take_from_loaned") false

unfoldable pub generate_generic_drop_c : List FunctionSignature → Panics Text
unfolding generate_generic_c
generate_generic_drop_c fs = generate_generic_c fs (codes "z_drop") false

unfoldable pub generate_generic_clone_c : List FunctionSignature → Panics Text
unfolding generate_generic_c
generate_generic_clone_c fs = generate_generic_c fs (codes "z_clone") false

unfoldable pub generate_generic_null_c : List FunctionSignature → Panics Text
unfolding generate_generic_c
generate_generic_null_c fs = generate_generic_c fs (codes "z_internal_null") false

unfoldable pub generate_generic_check_c : List FunctionSignature → Panics Text
unfolding generate_generic_c
generate_generic_check_c fs = generate_generic_c fs (codes "z_internal_check") true

unfoldable pub generate_generic_call_c : List FunctionSignature → Panics Text
unfolding generate_generic_c
generate_generic_call_c fs = generate_generic_c fs (codes "z_call") false

-- The body of the loop of `generate_take_functions`.
unfoldable pub take_function : FunctionSignature → Panics Text
unfolding arg_at
take_function sig = arg_at 0 sig.args >>= λ dst. arg_at 1 sig.args >>= λ src.
    split_type_name dst.typename.typename >>= λ t. ok (
      codes "static inline void "
      ++ sig.func_name
      ++ codes "("
      ++ dst.typename.typename
      ++ codes " "
      ++ dst.name
      ++ codes ", "
      ++ src.typename.typename
      ++ codes " "
      ++ src.name
      ++ codes ") { *"
      ++ dst.name
      ++ codes " = "
      ++ src.name
      ++ codes "->_this; "
      ++ t.prefix
      ++ codes "_internal_"
      ++ t.semantic
      ++ codes "_null(&"
      ++ src.name
      ++ codes "->_this); }\n")

unfoldable pub generate_take_functions : List FunctionSignature → Panics Text
unfolding concat_each take_function
generate_take_functions fs = concat_each take_function fs

abbrev pub move_function : Text → Text → FunctionSignature → Panics Text
move_function cast_open cast_close sig = arg_at 0 sig.args >>= λ a. ok (
    codes "static inline "
    ++ sig.return_type.typename
    ++ codes " "
    ++ sig.func_name
    ++ codes "("
    ++ a.typename.typename
    ++ codes " x) { return "
    ++ cast_open
    ++ sig.return_type.typename
    ++ cast_close
    ++ codes "(x); }\n")

unfoldable pub generate_move_functions_c : List FunctionSignature → Panics Text
unfolding concat_each arg_at
generate_move_functions_c fs = concat_each (move_function (codes "(") (codes ")")) fs

unfoldable pub generate_move_functions_cpp : List FunctionSignature → Panics Text
unfolding concat_each arg_at
generate_move_functions_cpp fs =
    concat_each (move_function (codes "reinterpret_cast<") (codes ">")) fs

abbrev pub callback_typename : FunctionSignature → Text
callback_typename f = f.func_name ++ codes "_callback_t"

-- The `typedef` of a callback.
unfoldable pub closure_typedef : FunctionSignature → Panics Text
unfolding arg_at replace
closure_typedef f = arg_at 1 f.args >>= λ a. ok (
    codes "typedef "
    ++ replace a.typename.typename (codes " (*call)")
        (codes "(*" ++ callback_typename f ++ codes ")")
    ++ codes ";\n")

unfoldable pub generate_generic_closure_c : List FunctionSignature → Panics Text
unfolding concat_each closure_typedef generate_generic_c
generate_generic_closure_c fs = concat_each closure_typedef fs >>= λ typedefs.
    generate_generic_c fs (codes "z_closure") false >>= λ out. ok (
      codes "typedef void(*z_closure_drop_callback_t)(void *context);\n"
      ++ typedefs
      ++ codes "\n"
      ++ out)

abbrev pub is_try_recv : FunctionSignature → Bool
is_try_recv f = contains f.func_name (codes "try_recv")

unfoldable pub generate_generic_recv_c : List FunctionSignature → Panics Text
unfolding contains generate_generic_c
generate_generic_recv_c fs =
    generate_generic_c (filter is_try_recv fs) (codes "z_try_recv") false >>= λ try_recv.
    generate_generic_c (filter (λ f. not (is_try_recv f)) fs) (codes "z_recv") false >>= λ recv.
    ok (try_recv ++ codes "\n\n" ++ recv)
