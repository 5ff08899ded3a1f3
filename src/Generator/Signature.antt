-- ===== src/Generator/Signature.antt =====
-- `Ctype`, `FuncArg` and `FunctionSignature` of buildrs/splitguide.rs, and `split_type_name` of
-- buildrs/common_helpers.rs. A panic is an outcome, without its message; nothing here is an `Err`.
pub mod Names
use zenoh_c.Common.{
  ℕ, ◌+◌, ◌-◌, Bool, ◌||◌, not, Option, none, some, List, [], ◌∷◌, ◌++◌, if◌then◌else◌, length,
  filter, ◌==◌,
}
use zenoh_c.Common.Text.{Text, codes, text_eq, replace, split}
use zenoh_c.Common.Panics.{Panics, ok, panic, ◌>>=◌, slice}

pub record Ctype : Type 0 where
  pub typename : Text

abbrev pub ctype : Text → Ctype
ctype s = record { typename = s }

unfoldable pub without_cv : Ctype → Ctype
unfolding replace
without_cv t = record { typename = replace t.typename (codes "const ") [] }

-- `replace` with a set of characters and nothing in their place.
unfoldable pub without_ptr : Ctype → Ctype
without_ptr t = record { typename = filter (λ c. not (c == b'*' || c == b'&')) t.typename }

unfoldable pub with_ref : Ctype → Ctype
unfolding replace
with_ref t = record { typename = replace t.typename (codes "*") (codes "&") }

unfoldable pub decay : Ctype → Ctype
unfolding without_cv without_ptr
decay t = without_ptr (without_cv t)

pub record FuncArg : Type 0 where
  pub typename : Ctype
  pub name : Text

abbrev pub func_arg : Text → Text → FuncArg
func_arg t s = record { typename = ctype t; name = s }

pub record FunctionSignature : Type 0 where
  pub entity_name : Text
  pub return_type : Ctype
  pub func_name : Text
  pub args : List FuncArg

abbrev pub function_signature : Text → Text → Text → List FuncArg → FunctionSignature
function_signature entity returned func list = record {
  entity_name = entity;
  return_type = ctype returned;
  func_name = func;
  args = list;
}

-- What `split_type_name` returns.
pub record TypeName : Type 0 where
  pub prefix : Text
  pub category : Option Text
  pub semantic : Text
  pub postfix : Text

unfoldable pub category_of : Text → Option Text
unfolding text_eq
category_of cat =
    if text_eq cat (codes "owned") || text_eq cat (codes "loaned") || text_eq cat (codes "moved")
    then some cat
    else none

unfoldable pub category_len : Option Text → ℕ
category_len none = 0
category_len (some cat) = length cat + 1

-- `next_back` of an iterator with parts left.
unfoldable pub last_of : Text → List Text → Text
last_of part [] = part
last_of part (next ∷ parts) = last_of next parts

unfoldable pub name_of_parts : Text → List Text → Panics TypeName
unfolding category_of category_len last_of slice
name_of_parts s (first ∷ cat ∷ part ∷ parts) =
    let post = last_of part parts in
    let start = length first + 1 + category_len (category_of cat) in
    slice s start (length s - length post - 1) >>= λ middle.
    ok (record { prefix = first; category = category_of cat; semantic = middle; postfix = post })
name_of_parts s _ = panic

unfoldable pub split_type_name : Text → Panics TypeName
unfolding split name_of_parts
split_type_name s = name_of_parts s (split b'_' s)

unfoldable pub type_in : Text → TypeName → Text
type_in cat t = t.prefix ++ codes "_" ++ cat ++ codes "_" ++ t.semantic ++ codes "_" ++ t.postfix
