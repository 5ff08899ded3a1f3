-- ===== src/Generator/Macros/Written.antt =====
-- When the functions of buildrs/cbindgen_generator.rs that write for C return.
use zenoh_c.Common.{
  ℕ, zero, suc, ◌≤◌, ◌≡◌, refl, Bool, false, not, List, [], ◌∷◌, is_empty, filter, length, All,
  arith, Bool-cases, inl, inr,
}
use zenoh_c.Common.Text.{Text}
use zenoh_c.Common.Panics.{Panics, Returns, bind-Returns, Returns-bind, Returns-next}
use zenoh_c.Generator.Signature.{FuncArg, FunctionSignature}
use zenoh_c.Generator.Find.Shapes.{HasArgs, Takes}
use zenoh_c.Generator.Macros.{
  arg_at, concat_each, generic_case, generic_of, generate_generic_c, take_function,
  generate_take_functions, move_function, generate_move_functions_c, generate_move_functions_cpp,
  closure_typedef, generate_generic_closure_c, is_try_recv, generate_generic_recv_c,
}

abbrev pub NonEmpty {ℓ} : {A : Type ℓ} → List A → Type 0
NonEmpty xs = is_empty xs ≡ false

abbrev pub AllHave : ℕ → List FunctionSignature → Type 0
AllHave n fs = All (HasArgs n) fs

pub arg_at-Returns : (n : ℕ) (args : List FuncArg) → suc n ≤ length args → Returns (arg_at n args)
unfolding arg_at
arg_at-Returns n [] h = absurd (omega (arith, h))
arg_at-Returns zero (a ∷ args) h = tt
arg_at-Returns (suc n) (a ∷ args) h = arg_at-Returns n args (omega (arith, h))

pub concat_each-Returns :
    (P : FunctionSignature → Type 0) (body : FunctionSignature → Panics Text)
    (fs : List FunctionSignature)
    → ((f : FunctionSignature) → P f → Returns (body f))
    → All P fs
    → Returns (concat_each body fs)
unfolding concat_each
concat_each-Returns P body [] h k = tt
concat_each-Returns P body (f ∷ fs) h k =
    bind-Returns (body f) _ (h f k.0)
      λ s. bind-Returns (concat_each body fs) _ (concat_each-Returns P body fs h k.1) λ out. tt

pub filter-All :
    {A : Type 0} (P : A → Type 0) (p : A → Bool) (xs : List A) → All P xs → All P (filter p xs)
filter-All P p [] h = tt
filter-All P p (x ∷ xs) h = elim (Bool-cases (p x)) [
  | inl e ↦ rw e (h.0, filter-All P p xs h.1)
  | inr e ↦ rw e (filter-All P p xs h.1)
]

module _ (name : Text) (b : Bool) where
  pub generic_of-Returns :
      (fs : List FunctionSignature) (args : List FuncArg)
      → AllHave 1 fs
      → 1 ≤ length args
      → Returns (generic_of name b fs args)
  unfolding generic_of generic_case
  generic_of-Returns fs [] h k = absurd (omega (arith, k))
  generic_of-Returns fs (a ∷ args) h k =
      bind-Returns (concat_each (generic_case b) fs) _
        (concat_each-Returns (HasArgs 1) (generic_case b) fs
          (λ f n. bind-Returns (arg_at 0 f.args) _ (arg_at-Returns 0 f.args n) λ c. tt) h)
        λ cases. tt

  pub generate_generic_c-Returns :
      (fs : List FunctionSignature)
      → AllHave 1 fs
      → NonEmpty fs
      → Returns (generate_generic_c fs name b)
  unfolding generate_generic_c
  generate_generic_c-Returns [] h k = cc k
  generate_generic_c-Returns (f ∷ fs) h k = generic_of-Returns (f ∷ fs) f.args h h.0

  -- The macro is made of one function at least.
  pub Returns-NonEmpty :
      (fs : List FunctionSignature) → Returns (generate_generic_c fs name b) → NonEmpty fs
  unfolding generate_generic_c
  Returns-NonEmpty [] h = absurd h
  Returns-NonEmpty (f ∷ fs) h = refl

pub take_functions-Returns :
    (fs : List FunctionSignature) → All Takes fs → Returns (generate_take_functions fs)
unfolding generate_take_functions
take_functions-Returns fs h = concat_each-Returns Takes take_function fs (λ f t. t.1) h

move_function-Returns :
    (s t : Text) (fs : List FunctionSignature)
    → AllHave 1 fs
    → Returns (concat_each (move_function s t) fs)
move_function-Returns s t fs h =
    concat_each-Returns (HasArgs 1) (move_function s t) fs
      (λ f n. bind-Returns (arg_at 0 f.args) _ (arg_at-Returns 0 f.args n) λ a. tt) h

pub move_functions_c-Returns :
    (fs : List FunctionSignature) → AllHave 1 fs → Returns (generate_move_functions_c fs)
unfolding generate_move_functions_c
move_functions_c-Returns fs h = move_function-Returns _ _ fs h

pub move_functions_cpp-Returns :
    (fs : List FunctionSignature) → AllHave 1 fs → Returns (generate_move_functions_cpp fs)
unfolding generate_move_functions_cpp
move_functions_cpp-Returns fs h = move_function-Returns _ _ fs h

-- More arguments than are asked for.
pub fewer : (m n : ℕ) (fs : List FunctionSignature) → m ≤ n → AllHave n fs → AllHave m fs
fewer m n [] h k = tt
fewer m n (f ∷ fs) h k = (omega (arith, h, k.0), fewer m n fs h k.1)

pub closure_c-Returns :
    (fs : List FunctionSignature)
    → AllHave 3 fs
    → NonEmpty fs
    → Returns (generate_generic_closure_c fs)
unfolding generate_generic_closure_c closure_typedef
closure_c-Returns fs h k =
    bind-Returns (concat_each closure_typedef fs) _
      (concat_each-Returns (HasArgs 3) closure_typedef fs
        (λ f n.
          bind-Returns (arg_at 1 f.args) _ (arg_at-Returns 1 f.args (omega (arith, n))) λ a. tt)
        h)
      λ typedefs.
        bind-Returns (generate_generic_c fs _ false) _
          (generate_generic_c-Returns _ false fs (fewer 1 3 fs (omega arith) h) k) λ out. tt

pub closure_c-NonEmpty :
    (fs : List FunctionSignature) → Returns (generate_generic_closure_c fs) → NonEmpty fs
unfolding generate_generic_closure_c generate_generic_c
closure_c-NonEmpty [] h = absurd h
closure_c-NonEmpty (f ∷ fs) h = refl

-- The receivers, parted by whether they wait.
abbrev pub tries : List FunctionSignature → List FunctionSignature
tries fs = filter is_try_recv fs

abbrev pub waits : List FunctionSignature → List FunctionSignature
waits fs = filter (λ f. not (is_try_recv f)) fs

pub recv_c-Returns :
    (fs : List FunctionSignature)
    → AllHave 1 fs
    → NonEmpty (tries fs)
    → NonEmpty (waits fs)
    → Returns (generate_generic_recv_c fs)
unfolding generate_generic_recv_c
recv_c-Returns fs h k l =
    bind-Returns (generate_generic_c (tries fs) _ false) _
      (generate_generic_c-Returns _ false (tries fs) (filter-All _ _ fs h) k)
      λ t.
        bind-Returns (generate_generic_c (waits fs) _ false) _
          (generate_generic_c-Returns _ false (waits fs) (filter-All _ _ fs h) l) λ w. tt

pub recv_c-NonEmpty :
    (fs : List FunctionSignature)
    → Returns (generate_generic_recv_c fs)
    → NonEmpty (tries fs) × NonEmpty (waits fs)
unfolding generate_generic_recv_c
recv_c-NonEmpty fs h =
    let t = Returns-bind (generate_generic_c (tries fs) _ false) _ h in
    let (_, w) = Returns-next (generate_generic_c (tries fs) _ false) _ h in
    (
      Returns-NonEmpty _ false (tries fs) t,
      Returns-NonEmpty _ false (waits fs)
          (Returns-bind (generate_generic_c (waits fs) _ false) _ w),
    )
