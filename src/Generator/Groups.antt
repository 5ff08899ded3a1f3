-- ===== src/Generator/Groups.antt =====
-- The bodies of the loops over the matches in buildrs/cbindgen_generator.rs: the signature that
-- each makes of the groups of a match. The regex crate is a parameter; a match is the texts of its
-- groups, and `extract` panics where there is another number of them.
use zenoh_c.Common.{ℕ, not, List, [], ◌∷◌, ◌++◌, if◌then◌else◌, is_empty, filter}
use zenoh_c.Common.Text.{Text, codes, text_eq, replace, split, join}
use zenoh_c.Common.Panics.{Panics, ok, panic, ◌>>=◌}
use zenoh_c.Generator.Signature.{
  func_arg, FunctionSignature, function_signature, split_type_name, type_in,
}

pub record Regex : Type 0 where
  -- `re.captures_iter(haystack)`: the groups of each match, behind the whole match.
  pub captures_iter : Text → Text → List (List Text)
  -- The same, with where each match begins and ends.
  pub captures_at : Text → Text → List ((ℕ × ℕ) × List Text)
  -- `re.replace_all(haystack, to)`
  pub replace_all : Text → Text → Text → Text

-- A loop that pushes one result for each match.
unfoldable pub collect_matches {ℓ} :
    {A : Type ℓ} → (List Text → Panics A) → List (List Text) → Panics (List A)
collect_matches body [] = ok []
collect_matches body (groups ∷ rest) =
    body groups >>= λ f. collect_matches body rest >>= λ res. ok (f ∷ res)

-- The name without category that the signature gets.
unfoldable pub semantic_of : Text → Panics Text
unfolding split_type_name
semantic_of s = split_type_name s >>= λ t. ok t.semantic

abbrev pub const_ptr : Text → Text
const_ptr t = codes "const " ++ t ++ codes "*"

abbrev pub ptr : Text → Text
ptr t = t ++ codes "*"

abbrev pub move_take_of : List Text → Panics (FunctionSignature × FunctionSignature)
move_take_of (func ∷ arg ∷ name ∷ []) = split_type_name arg >>= λ t.
    let z_owned_type = ptr (type_in (codes "owned") t) in
    let z_moved_type = ptr (type_in (codes "moved") t) in
    ok (
      function_signature t.semantic z_moved_type (func ++ codes "_move")
          (func_arg z_owned_type name ∷ []),
      function_signature t.semantic (codes "void") (func ++ codes "_take")
          (func_arg z_owned_type name ∷ func_arg z_moved_type (codes "x") ∷ []),
    )
move_take_of _ = panic

abbrev pub loan_of : List Text → Panics FunctionSignature
loan_of (returned ∷ func ∷ arg ∷ name ∷ []) = semantic_of arg >>= λ entity. ok (
    function_signature entity (const_ptr returned) (func ++ codes "_loan")
      (func_arg (const_ptr arg) name ∷ []))
loan_of _ = panic

abbrev pub loan_mut_of : List Text → Panics FunctionSignature
loan_mut_of (returned ∷ func ∷ arg ∷ name ∷ []) = semantic_of arg >>= λ entity. ok (
    function_signature entity (ptr returned) (func ++ codes "_loan_mut")
      (func_arg (ptr arg) name ∷ []))
loan_mut_of _ = panic

abbrev pub take_from_loaned_of : List Text → Panics FunctionSignature
take_from_loaned_of (func ∷ arg ∷ name ∷ []) = split_type_name arg >>= λ t. ok (
    function_signature t.semantic (codes "void") (func ++ codes "_take_from_loaned") (
      func_arg (ptr (type_in (codes "owned") t)) name
      ∷ func_arg (ptr (type_in (codes "loaned") t)) (codes "src")
      ∷ []))
take_from_loaned_of _ = panic

-- The return type of a drop function, without `ZENOHC_API`.
unfoldable pub drop_return_type : Text → Text
unfolding split join text_eq
drop_return_type s =
    join (codes " ") (filter (λ x. not (text_eq x (codes "ZENOHC_API"))) (split b' ' s))

abbrev pub drop_of : List Text → Panics FunctionSignature
drop_of (returned ∷ func ∷ arg ∷ name ∷ []) = semantic_of arg >>= λ entity.
    ok (function_signature entity (drop_return_type returned) func (func_arg (ptr arg) name ∷ []))
drop_of _ = panic

abbrev pub null_of : List Text → Panics FunctionSignature
null_of (func ∷ arg ∷ name ∷ []) = semantic_of arg >>= λ entity.
    ok (function_signature entity (codes "void") func (func_arg (ptr arg) name ∷ []))
null_of _ = panic

abbrev pub check_of : List Text → Panics FunctionSignature
check_of (func ∷ arg ∷ name ∷ []) = semantic_of arg >>= λ entity.
    ok (function_signature entity (codes "bool") func (func_arg (const_ptr arg) name ∷ []))
check_of _ = panic

abbrev pub call_of : List Text → Panics FunctionSignature
call_of (returned ∷ func ∷ closure ∷ closure_name ∷ arg_cv ∷ arg ∷ arg_deref ∷ arg_name ∷ []) =
    let cv = if is_empty arg_cv then [] else codes "const " in
    semantic_of arg >>= λ entity. ok (
      function_signature entity returned (func ++ codes "_call") (
        func_arg (const_ptr closure) closure_name
        ∷ func_arg (cv ++ arg ++ arg_deref) arg_name
        ∷ []))
call_of _ = panic

abbrev pub recv_of : List Text → Panics FunctionSignature
recv_of (returned ∷ handler ∷ value ∷ arg1 ∷ name1 ∷ arg2 ∷ name2 ∷ []) =
    semantic_of arg1 >>= λ entity. ok (
      function_signature entity returned
        (codes "z_" ++ handler ++ codes "_handler_" ++ value ++ codes "_recv")
        (func_arg (const_ptr arg1) name1 ∷ func_arg (ptr arg2) name2 ∷ []))
recv_of _ = panic

abbrev pub clone_of : List Text → Panics FunctionSignature
clone_of (returned ∷ func ∷ dst ∷ dst_name ∷ src ∷ src_name ∷ []) = semantic_of dst >>= λ entity.
    ok (
      function_signature entity returned (codes "z_" ++ func ++ codes "_clone")
        (func_arg (ptr dst) dst_name ∷ func_arg (const_ptr src) src_name ∷ []))
clone_of _ = panic

module _ (regex : Regex) where
  -- The signature of the callback as C++ wants it.
  unfoldable pub call_signature_of : Text → Text
  unfolding replace
  call_signature_of s =
      regex.replace_all (codes "\\s\\s+")
        (replace (replace s (codes "struct ") []) (codes "enum ") []) (codes " ")

  abbrev pub closure_of : List Text → Panics FunctionSignature
  closure_of (returned ∷ prefix ∷ suffix ∷ closure ∷ closure_name ∷ call ∷ drop ∷ []) =
      semantic_of closure >>= λ entity. ok (
        function_signature entity returned (prefix ++ codes "_closure_" ++ suffix) (
          func_arg (ptr closure) closure_name
          ∷ func_arg (codes "void (*call)" ++ call_signature_of call) (codes "call")
          ∷ func_arg (codes "void (*drop)" ++ drop) (codes "drop")
          ∷ func_arg (codes "void*") (codes "context")
          ∷ []))
  closure_of _ = panic
