-- ===== src/Generator/Header/Found.antt =====
-- What the functions have in common that `create_generics_header` of
-- buildrs/cbindgen_generator.rs finds.
use zenoh_c.Common.{refl, ap₂, ◌≡◌, subst, List, [], ◌∷◌, map, All}
use zenoh_c.Common.Text.{Text, codes}
use zenoh_c.Common.Panics.{ok, bind-ok, ok_injective}
use zenoh_c.Generator.Signature.{FunctionSignature, split_type_name}
use zenoh_c.Generator.Groups.{Regex, collect_matches, move_take_of}
use zenoh_c.Generator.Find.{
  make_move_take_signatures, find_loan_functions, find_loan_mut_functions,
  find_take_from_loaned_functions, find_drop_functions, find_null_functions, find_check_functions,
  find_call_functions, find_closure_constructors, find_recv_functions, find_clone_functions,
}
use zenoh_c.Generator.Find.Shapes
use zenoh_c.Generator.Find.Shapes.{
  HasArgs, Takes, MovesTakes, collect_matches-All, move_take_of-MovesTakes,
}
use zenoh_c.Generator.Macros.Written.{AllHave}
use zenoh_c.Generator.Header.{Functions, entities, find_all}

-- What the functions that are found have in common.
abbrev pub Shaped : Functions → Type 0
Shaped fs =
    AllHave 1 fs.move_funcs
    × All Takes fs.take_funcs
    × AllHave 1 fs.loan_funcs
    × AllHave 1 fs.loan_mut_funcs
    × AllHave 1 fs.take_from_loaned_funcs
    × AllHave 1 fs.drop_funcs
    × AllHave 1 fs.null_funcs
    × AllHave 1 fs.check_funcs
    × AllHave 1 fs.call_funcs
    × AllHave 3 fs.closure_constructors
    × AllHave 1 fs.recv_funcs
    × AllHave 1 fs.clone_funcs

pairs-Shaped :
    (pairs : List (FunctionSignature × FunctionSignature))
    → All MovesTakes pairs
    → AllHave 1 (map (λ p. p.0) pairs) × All Takes (map (λ p. p.1) pairs)
pairs-Shaped [] h = (tt, tt)
pairs-Shaped (p ∷ pairs) h = let (m, t) = pairs-Shaped pairs h.1 in ((h.0.0, m), (h.0.1, t))

module _ (regex : Regex) (bindings : Text) where
  move_take-Shaped :
      {res : List FunctionSignature × List FunctionSignature}
      → make_move_take_signatures regex bindings ≡ ok res
      → AllHave 1 res.0 × All Takes res.1
  unfolding make_move_take_signatures
  move_take-Shaped e =
      let matches =
        regex.captures_iter (codes "(\\w+)_drop\\(struct (\\w+) \\*(\\w+)\\);") bindings in
      let (pairs, found, k) =
        bind-ok (collect_matches move_take_of matches)
          (λ pairs. ok (map (λ p. p.0) pairs, map (λ p. p.1) pairs)) e in
      subst (λ (r : List FunctionSignature × List FunctionSignature). AllHave 1 r.0 × All Takes r.1)
        (ok_injective k)
        (pairs-Shaped pairs
          (collect_matches-All MovesTakes move_take_of matches move_take_of-MovesTakes found))

  pub find_all-Shaped : (fs : Functions) → find_all regex bindings ≡ ok fs → Shaped fs
  unfolding find_all find_loan_functions find_loan_mut_functions find_take_from_loaned_functions
      find_drop_functions find_null_functions find_check_functions find_call_functions
      find_closure_constructors find_recv_functions find_clone_functions
  find_all-Shaped fs e0 =
      let (a, f0, e1) = bind-ok (make_move_take_signatures regex bindings) _ e0 in
      let (b, f1, e2) = bind-ok (find_loan_functions regex bindings) _ e1 in
      let (c, f2, e3) = bind-ok (find_loan_mut_functions regex bindings) _ e2 in
      let (d, f3, e4) = bind-ok (find_take_from_loaned_functions regex bindings) _ e3 in
      let (e, f4, e5) = bind-ok (find_drop_functions regex bindings) _ e4 in
      let (f, f5, e6) = bind-ok (find_null_functions regex bindings) _ e5 in
      let (g, f6, e7) = bind-ok (find_check_functions regex bindings) _ e6 in
      let (h, f7, e8) = bind-ok (find_call_functions regex bindings) _ e7 in
      let (i, f8, e9) = bind-ok (find_closure_constructors regex bindings) _ e8 in
      let (j, f9, e10) = bind-ok (find_recv_functions regex bindings) _ e9 in
      let (k, f10, e11) = bind-ok (find_clone_functions regex bindings) _ e10 in
      let (m, t) = move_take-Shaped f0 in
      subst Shaped (ok_injective e11) (
        m,
        t,
        collect_matches-All (HasArgs 1) _ _ Shapes.loan_of-Makes f1,
        collect_matches-All (HasArgs 1) _ _ Shapes.loan_mut_of-Makes f2,
        collect_matches-All (HasArgs 1) _ _ Shapes.take_from_loaned_of-Makes f3,
        collect_matches-All (HasArgs 1) _ _ Shapes.drop_of-Makes f4,
        collect_matches-All (HasArgs 1) _ _ Shapes.null_of-Makes f5,
        collect_matches-All (HasArgs 1) _ _ Shapes.check_of-Makes f6,
        collect_matches-All (HasArgs 1) _ _ Shapes.call_of-Makes f7,
        collect_matches-All (HasArgs 3) _ _ (Shapes.closure_of-Makes regex) f8,
        collect_matches-All (HasArgs 1) _ _ Shapes.recv_of-Makes f9,
        collect_matches-All (HasArgs 1) _ _ Shapes.clone_of-Makes f10,
      )

-- A move function and a take function of one entity.
abbrev SameEntity : FunctionSignature × FunctionSignature → Type 0
SameEntity p = p.0.entity_name ≡ p.1.entity_name

move_take_of-SameEntity :
    (groups : List Text) (p : FunctionSignature × FunctionSignature)
    → move_take_of groups ≡ ok p
    → SameEntity p
move_take_of-SameEntity (func ∷ arg ∷ name ∷ []) p e =
    let (t, _, k) = bind-ok (split_type_name arg) _ e in subst SameEntity (ok_injective k) refl
move_take_of-SameEntity _ p e = cc e

pairs-same :
    (pairs : List (FunctionSignature × FunctionSignature))
    → All SameEntity pairs
    → entities (map (λ p. p.0) pairs) ≡ entities (map (λ p. p.1) pairs)
pairs-same [] h = refl
pairs-same (p ∷ pairs) h = ap₂ ◌∷◌ h.0 (pairs-same pairs h.1)

-- Where `make_move_take_signatures` returns, the move functions and the take functions that it
-- finds are of the same entities, in the same order.
pub make_move_take_signatures-entities :
    (regex : Regex) (bindings : Text) (res : List FunctionSignature × List FunctionSignature)
    → make_move_take_signatures regex bindings ≡ ok res
    → entities res.0 ≡ entities res.1
unfolding make_move_take_signatures
make_move_take_signatures-entities regex bindings res e =
    let matches =
      regex.captures_iter (codes "(\\w+)_drop\\(struct (\\w+) \\*(\\w+)\\);") bindings in
    let (pairs, found, k) =
      bind-ok (collect_matches move_take_of matches)
        (λ pairs. ok (map (λ p. p.0) pairs, map (λ p. p.1) pairs)) e in
    subst (λ (r : List FunctionSignature × List FunctionSignature). entities r.0 ≡ entities r.1)
      (ok_injective k)
      (pairs-same pairs
        (collect_matches-All SameEntity move_take_of matches move_take_of-SameEntity found))
