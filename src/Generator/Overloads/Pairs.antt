-- ===== src/Generator/Overloads/Pairs.antt =====
-- The pairs of loaned and owned types that buildrs/cbindgen_generator.rs writes for C++.
use zenoh_c.Common.{
  ◌≡◌, ◌↔◌, refl, sym, ap, ◌∙◌, subst, inl, inr, Bool, true, false, Option, none, some, List, [],
  ◌∷◌, if◌then◌else◌, any, In, Bool-cases, arith,
}
use zenoh_c.Common.Text.{Text, codes, text_eq, text_eq_iff, contains}
use zenoh_c.Common.Panics.{Panics, ok, ◌>>=◌, bind-ok, ok_injective}
use zenoh_c.Generator.Signature.{FuncArg, FunctionSignature}
use zenoh_c.Generator.Macros.{arg_at}
use zenoh_c.Generator.Overloads.{bare, loaned_of, loan_pairs}

-- The first function that returns a loaned type.
abbrev pub first_loan : Text → List FunctionSignature → Option FunctionSignature
first_loan l [] = none
first_loan l (f ∷ fs) = if text_eq l (loaned_of f) then some f else first_loan l fs

-- The function borrows from `o`, which is not a view.
abbrev pub LoansFrom : Text → FunctionSignature → Type 0
LoansFrom o f =
    (a : FuncArg) × (arg_at 0 f.args ≡ ok a)
    × (bare a.typename ≡ o)
    × (contains o (codes "view") ≡ false)

-- The first function of those that returns `l` borrows from `o`.
abbrev pub FirstFrom : List FunctionSignature → Text → Text → Type 0
FirstFrom fs l o = (f : FunctionSignature) × (first_loan l fs ≡ some f) × LoansFrom o f

abbrev New : List Text → Text → Type 0
New processed l = any (text_eq l) processed ≡ false

text_eq_refl : (s : Text) → text_eq s s ≡ true
text_eq_refl s = (text_eq_iff s s).1 refl

-- A type that another function returns.
skip_first :
    (fs : List FunctionSignature) (f : FunctionSignature) (l o : Text)
    → text_eq l (loaned_of f) ≡ false
    → FirstFrom (f ∷ fs) l o ↔ FirstFrom fs l o
skip_first fs f l o n = (λ h. subst (λ b. chosen b) n h, λ h. subst (λ b. chosen b) (sym n) h)
  where
    chosen : Bool → Type 0
    chosen b =
        (g : FunctionSignature) × ((if b then some f else first_loan l fs) ≡ some g) × LoansFrom o g

take_first :
    (fs : List FunctionSignature) (f : FunctionSignature) (l o : Text)
    → text_eq l (loaned_of f) ≡ true
    → FirstFrom (f ∷ fs) l o ↔ LoansFrom o f
take_first fs f l o y = (
  λ (g, e, h).
      let same : some f ≡ some g =
        subst (λ b. (if b then some f else first_loan l fs) ≡ some g) y e in
      let found : g ≡ f = cc same in subst (LoansFrom o) found h,
  λ h. (f, rw y refl, h),
)

New-push :
    (processed : List Text) (l k : Text)
    → text_eq l k ≡ false
    → New (k ∷ processed) l ↔ New processed l
New-push processed l k n = (λ h. ground (arith, h, n), λ h. ground (arith, h, n))

-- A function that returns a type which has been processed changes nothing.
module _ (processed : List Text) (f : FunctionSignature) (fs : List FunctionSignature) where
  abbrev Agree : List Text → List FunctionSignature → List (Text × Text) → Type 0
  Agree seen gs pairs = (l o : Text) → In (l, o) pairs ↔ (New seen l × FirstFrom gs l o)

  seen_before :
      (pairs : List (Text × Text))
      → any (text_eq (loaned_of f)) processed ≡ true
      → Agree processed fs pairs
      → Agree processed (f ∷ fs) pairs
  seen_before pairs y ih l o = elim (Bool-cases (text_eq l (loaned_of f))) [
    | inl e ↦
        let same = (text_eq_iff l (loaned_of f)).0 e in
        let seen : any (text_eq l) processed ≡ true =
          subst (λ t. any (text_eq t) processed ≡ true) (sym same) y in
        (λ h. let (n, _) = (ih l o).0 h in cc (seen, n), λ (n, _). cc (seen, n))
    | inr n ↦ (
      λ h. let (m, k) = (ih l o).0 h in (m, (skip_first fs f l o n).1 k),
      λ (m, k). (ih l o).1 (m, (skip_first fs f l o n).0 k),
    )
  ]

  -- A view hides its loaned type from the functions behind it.
  view_first :
      (pairs : List (Text × Text)) (a : FuncArg)
      → arg_at 0 f.args ≡ ok a
      → contains (bare a.typename) (codes "view") ≡ true
      → Agree (loaned_of f ∷ processed) fs pairs
      → Agree processed (f ∷ fs) pairs
  view_first pairs a p v ih l o = elim (Bool-cases (text_eq l (loaned_of f))) [
    | inl e ↦ (
      λ h. let (n, _) = (ih l o).0 h in absurd (ground (arith, n, e)),
      λ (_, k).
          let (b, q, w, u) = (take_first fs f l o e).0 k in
          let same = ok_injective (sym p ∙ q) in cc (v, u, sym w, same),
    )
    | inr n ↦ (
      λ h.
          let (m, k) = (ih l o).0 h in
          ((New-push processed l (loaned_of f) n).0 m, (skip_first fs f l o n).1 k),
      λ (m, k).
          (ih l o).1 ((New-push processed l (loaned_of f) n).1 m, (skip_first fs f l o n).0 k),
    )
  ]

  owned_first :
      (pairs : List (Text × Text)) (a : FuncArg)
      → any (text_eq (loaned_of f)) processed ≡ false
      → arg_at 0 f.args ≡ ok a
      → contains (bare a.typename) (codes "view") ≡ false
      → Agree (loaned_of f ∷ processed) fs pairs
      → Agree processed (f ∷ fs) ((loaned_of f, bare a.typename) ∷ pairs)
  owned_first pairs a fresh p v ih l o = elim (Bool-cases (text_eq l (loaned_of f))) [
    | inl e ↦
        let same = (text_eq_iff l (loaned_of f)).0 e in
        (
          λ h. elim h [
            | inl q ↦ (
              subst (λ t. New processed t) (sym same) fresh,
              (take_first fs f l o e).1
                  (a, p, cc q, subst (λ t. contains t (codes "view") ≡ false) (cc q) v),
            )
            | inr k ↦ let (n, _) = (ih l o).0 k in absurd (ground (arith, n, e))
          ],
          λ (_, k).
              let (b, q, w, u) = (take_first fs f l o e).0 k in
              inl (cc (same, ok_injective (sym p ∙ q), w)),
        )
    | inr n ↦ (
      λ h. elim h [
        | inl q ↦ cc (n, text_eq_refl l, q)
        | inr k ↦
            let (m, r) = (ih l o).0 k in
            ((New-push processed l (loaned_of f) n).0 m, (skip_first fs f l o n).1 r)
      ],
      λ (m, r).
          inr
            ((ih l o).1 ((New-push processed l (loaned_of f) n).1 m, (skip_first fs f l o n).0 r)),
    )
  ]

pub loan_pairs-Agree :
    (processed : List Text) (fs : List FunctionSignature) (pairs : List (Text × Text))
    → loan_pairs processed fs ≡ ok pairs
    → (l o : Text) → In (l, o) pairs ↔ (New processed l × FirstFrom fs l o)
unfolding loan_pairs
loan_pairs-Agree processed [] pairs e = λ l o.
    subst (λ ps. In (l, o) ps ↔ (New processed l × FirstFrom [] l o)) (ok_injective e)
      (λ h. absurd h, λ (_, (f, k, _)). cc k)
loan_pairs-Agree processed (f ∷ fs) pairs e =
    elim (Bool-cases (any (text_eq (loaned_of f)) processed)) [
      | inl y ↦
          seen_before processed f fs pairs y
            (loan_pairs-Agree processed fs pairs (sym (step_eq true y) ∙ e))
      | inr n ↦
          let (a, p, e') = bind-ok (arg_at 0 f.args) _ (sym (step_eq false n) ∙ e) in
          elim (Bool-cases (contains (bare a.typename) (codes "view"))) [
            | inl v ↦
                view_first processed f fs pairs a p v (
                  loan_pairs-Agree (loaned_of f ∷ processed) fs pairs (sym (view_eq a true v) ∙ e'))
            | inr v ↦
                let (rest, q, k) =
                  bind-ok (loan_pairs (loaned_of f ∷ processed) fs) _
                    (sym (view_eq a false v) ∙ e') in
                subst
                  (λ ps. (l o : Text) → In (l, o) ps ↔ (New processed l × FirstFrom (f ∷ fs) l o))
                  (ok_injective k)
                  (owned_first processed f fs rest a n p v
                    (loan_pairs-Agree (loaned_of f ∷ processed) fs rest q))
          ]
    ]
  where
    later : Panics (List (Text × Text))
    later = loan_pairs (loaned_of f ∷ processed) fs

    emitted : FuncArg → Bool → Panics (List (Text × Text))
    emitted a v = if v then later else (later >>= λ ps. ok ((loaned_of f, bare a.typename) ∷ ps))

    step : Bool → Panics (List (Text × Text))
    step b =
        if b
        then loan_pairs processed fs
        else (arg_at 0 f.args >>= λ a. emitted a (contains (bare a.typename) (codes "view")))

    step_eq :
        (b : Bool)
        → any (text_eq (loaned_of f)) processed ≡ b
        → loan_pairs processed (f ∷ fs) ≡ step b
    step_eq b h = ap step h

    view_eq :
        (a : FuncArg) (v : Bool)
        → contains (bare a.typename) (codes "view") ≡ v
        → emitted a (contains (bare a.typename) (codes "view")) ≡ emitted a v
    view_eq a v h = ap (emitted a) h

-- Where `generate_generic_loan_to_owned_type_cpp` returns, it pairs a loaned type with an owned type
-- exactly if the first function that returns the loaned type borrows from the owned one, and the
-- owned one is not a view; so each loaned type has one owned type at most, and one whose first
-- function borrows from a view has none, whatever functions follow.
pub loan_pairs-first :
    (fs : List FunctionSignature) (pairs : List (Text × Text))
    → loan_pairs [] fs ≡ ok pairs
    → (l o : Text) → In (l, o) pairs ↔ FirstFrom fs l o
loan_pairs-first fs pairs e l o =
    let (there, back) = loan_pairs-Agree [] fs pairs e l o in
    (λ h. (there h).1, λ k. back (refl, k))
