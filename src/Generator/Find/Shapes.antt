-- ===== src/Generator/Find/Shapes.antt =====
-- How many arguments the signatures have that buildrs/cbindgen_generator.rs finds, and the take
-- functions that it makes of them.
use zenoh_c.Common.{ℕ, ◌≤◌, ◌≡◌, refl, sym, subst, List, [], ◌∷◌, ◌++◌, length, All, arith}
use zenoh_c.Common.Text.{Text, codes}
use zenoh_c.Common.Panics.{Panics, ok, ◌>>=◌, bind-ok, ok_injective, Returns, bind-Returns}
use zenoh_c.Generator.Signature.{FunctionSignature, TypeName, split_type_name, type_in, category_of}
use zenoh_c.Generator.Signature.Names.{split_type_name-type_in}
use zenoh_c.Generator.Groups.{
  Regex, collect_matches, move_take_of, loan_of, loan_mut_of, take_from_loaned_of, drop_of, null_of,
  check_of, call_of, closure_of, recv_of, clone_of,
}
use zenoh_c.Generator.Macros.{arg_at, take_function}

abbrev pub HasArgs : ℕ → FunctionSignature → Type 0
HasArgs n f = n ≤ length f.args

-- What holds of the result of a body holds of all that the loop pushes.
pub collect_matches-All :
    {A : Type 0} (P : A → Type 0) (body : List Text → Panics A) (matches : List (List Text))
    {res : List A}
    → ((groups : List Text) (f : A) → body groups ≡ ok f → P f)
    → collect_matches body matches ≡ ok res
    → All P res
unfolding collect_matches
collect_matches-All P body [] h e = subst (All P) (ok_injective e) tt
collect_matches-All P body (groups ∷ rest) h e =
    let (f, made, e') = bind-ok (body groups) _ e in
    let (fs, found, e'') = bind-ok (collect_matches body rest) _ e' in
    subst (All P) (ok_injective e'') (h groups f made, collect_matches-All P body rest h found)

-- A body that makes a signature of a name.
made-HasArgs :
    {A : Type 0} (n : ℕ) (r : Panics A) (make : A → FunctionSignature) {f : FunctionSignature}
    → ((a : A) → HasArgs n (make a))
    → (r >>= λ a. ok (make a)) ≡ ok f
    → HasArgs n f
made-HasArgs n r make h e =
    let (a, _, k) = bind-ok r _ e in subst (HasArgs n) (ok_injective k) (h a)

-- What each body makes, with its least number of arguments.
abbrev pub Makes : ℕ → (List Text → Panics FunctionSignature) → Type 0
Makes n body = (groups : List Text) (f : FunctionSignature) → body groups ≡ ok f → HasArgs n f

pub loan_of-Makes : Makes 1 loan_of
loan_of-Makes (_ ∷ _ ∷ _ ∷ _ ∷ []) f e = made-HasArgs 1 _ _ (λ a. omega arith) e
loan_of-Makes _ f e = cc e

pub loan_mut_of-Makes : Makes 1 loan_mut_of
loan_mut_of-Makes (_ ∷ _ ∷ _ ∷ _ ∷ []) f e = made-HasArgs 1 _ _ (λ a. omega arith) e
loan_mut_of-Makes _ f e = cc e

pub take_from_loaned_of-Makes : Makes 1 take_from_loaned_of
take_from_loaned_of-Makes (_ ∷ _ ∷ _ ∷ []) f e = made-HasArgs 1 _ _ (λ a. omega arith) e
take_from_loaned_of-Makes _ f e = cc e

pub drop_of-Makes : Makes 1 drop_of
drop_of-Makes (_ ∷ _ ∷ _ ∷ _ ∷ []) f e = made-HasArgs 1 _ _ (λ a. omega arith) e
drop_of-Makes _ f e = cc e

pub null_of-Makes : Makes 1 null_of
null_of-Makes (_ ∷ _ ∷ _ ∷ []) f e = made-HasArgs 1 _ _ (λ a. omega arith) e
null_of-Makes _ f e = cc e

pub check_of-Makes : Makes 1 check_of
check_of-Makes (_ ∷ _ ∷ _ ∷ []) f e = made-HasArgs 1 _ _ (λ a. omega arith) e
check_of-Makes _ f e = cc e

pub call_of-Makes : Makes 1 call_of
call_of-Makes (_ ∷ _ ∷ _ ∷ _ ∷ _ ∷ _ ∷ _ ∷ _ ∷ []) f e = made-HasArgs 1 _ _ (λ a. omega arith) e
call_of-Makes _ f e = cc e

pub recv_of-Makes : Makes 1 recv_of
recv_of-Makes (_ ∷ _ ∷ _ ∷ _ ∷ _ ∷ _ ∷ _ ∷ []) f e = made-HasArgs 1 _ _ (λ a. omega arith) e
recv_of-Makes _ f e = cc e

pub clone_of-Makes : Makes 1 clone_of
clone_of-Makes (_ ∷ _ ∷ _ ∷ _ ∷ _ ∷ _ ∷ []) f e = made-HasArgs 1 _ _ (λ a. omega arith) e
clone_of-Makes _ f e = cc e

pub closure_of-Makes : (regex : Regex) → Makes 3 (closure_of regex)
closure_of-Makes regex (_ ∷ _ ∷ _ ∷ _ ∷ _ ∷ _ ∷ _ ∷ []) f e =
    made-HasArgs 3 _ _ (λ a. omega arith) e
closure_of-Makes regex _ f e = cc e

-- A take function whose body can be written.
abbrev pub Takes : FunctionSignature → Type 0
Takes f = HasArgs 1 f × Returns (take_function f)

abbrev pub MovesTakes : FunctionSignature × FunctionSignature → Type 0
MovesTakes p = HasArgs 1 p.0 × Takes p.1

owned_splits :
    (s : Text) (t : TypeName)
    → split_type_name s ≡ ok t
    → Returns (split_type_name (type_in (codes "owned") t ++ codes "*"))
unfolding category_of
owned_splits s t e =
    subst Returns (sym (split_type_name-type_in s (codes "owned") (codes "*") t e refl (refl, tt)))
      tt

pub move_take_of-MovesTakes :
    (groups : List Text) (p : FunctionSignature × FunctionSignature)
    → move_take_of groups ≡ ok p
    → MovesTakes p
unfolding take_function arg_at
move_take_of-MovesTakes (func ∷ arg ∷ name ∷ []) p e =
    let (t, known, k) = bind-ok (split_type_name arg) _ e in
    subst MovesTakes (ok_injective k) (
      omega arith,
      (omega arith, bind-Returns (split_type_name _) _ (owned_splits arg t known) (λ r. tt)),
    )
move_take_of-MovesTakes _ p e = cc e
