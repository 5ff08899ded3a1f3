-- ===== src/Generator/Header/Entities.antt =====
-- The comparison of the sets of entities in `create_generics_header` of
-- buildrs/cbindgen_generator.rs.
use zenoh_c.Common.{
  ◌≡◌, ◌↔◌, refl, sym, subst, inl, inr, Bool, true, false, ◌&&◌, List, [], ◌∷◌, In, Bool-cases,
  arith,
}
use zenoh_c.Common.Text.{Text, text_eq, text_eq_iff}
use zenoh_c.Generator.Signature.{FunctionSignature}
use zenoh_c.Generator.Macros.Written.{NonEmpty}
use zenoh_c.Generator.Header.{Functions, entities, member, is_subset, set_eq, is_complete}

member_iff : (s : Text) (set : List Text) → (member s set ≡ true) ↔ In s set
member_iff s [] = (λ h. cc h, λ h. absurd h)
member_iff s (t ∷ set) = (
  λ h. elim (Bool-cases (text_eq s t)) [
    | inl e ↦ inl ((text_eq_iff s t).0 e)
    | inr n ↦ inr ((member_iff s set).0 (ground (arith, h, n)))
  ],
  λ h. elim h [
    | inl e ↦ let k = (text_eq_iff s t).1 e in rw k refl
    | inr k ↦ let m = (member_iff s set).1 k in ground (arith, m)
  ],
)

and_split : (a b : Bool) → (a && b) ≡ true → (a ≡ true) × (b ≡ true)
and_split true b h = (refl, h)
and_split false b h = cc h

is_subset_iff : (xs ys : List Text) → (is_subset xs ys ≡ true) ↔ ((s : Text) → In s xs → In s ys)
unfolding is_subset
is_subset_iff [] ys = (λ h s i. absurd i, λ h. refl)
is_subset_iff (x ∷ xs) ys = (
  λ h s i.
      let (m, r) = and_split (member x ys) (is_subset xs ys) h in
      elim i [
        | inl e ↦ subst (λ t. In t ys) (sym e) ((member_iff x ys).0 m)
        | inr k ↦ (is_subset_iff xs ys).0 r s k
      ],
  λ h.
      let m = (member_iff x ys).1 (h x (inl refl)) in
      let r = (is_subset_iff xs ys).1 (λ s i. h s (inr i)) in rw (m, r) refl,
)

-- Two lists have the same members.
abbrev pub SameMembers : List Text → List Text → Type 0
SameMembers xs ys = (s : Text) → In s xs ↔ In s ys

pub set_eq_iff : (xs ys : List Text) → (set_eq xs ys ≡ true) ↔ SameMembers xs ys
unfolding set_eq
set_eq_iff xs ys = (
  λ h s.
      let (a, b) = and_split (is_subset xs ys) (is_subset ys xs) h in
      ((is_subset_iff xs ys).0 a s, (is_subset_iff ys xs).0 b s),
  λ h.
      let a = (is_subset_iff xs ys).1 (λ s. (h s).0) in
      let b = (is_subset_iff ys xs).1 (λ s. (h s).1) in rw (a, b) refl,
)

abbrev pub SameEntities : List FunctionSignature → List FunctionSignature → Type 0
SameEntities fs gs = SameMembers (entities fs) (entities gs)

-- An entity that can be dropped can be set to null, checked, moved and taken, and the other way
-- round.
abbrev pub IsComplete : Functions → Type 0
IsComplete fs =
    SameEntities fs.drop_funcs fs.null_funcs
    × SameEntities fs.drop_funcs fs.check_funcs
    × SameEntities fs.drop_funcs fs.move_funcs
    × SameEntities fs.drop_funcs fs.take_funcs

pub is_complete_iff : (fs : Functions) → (is_complete fs ≡ true) ↔ IsComplete fs
unfolding is_complete
is_complete_iff fs =
    let d = entities fs.drop_funcs in
    let n = entities fs.null_funcs in
    let c = entities fs.check_funcs in
    let m = entities fs.move_funcs in
    let t = entities fs.take_funcs in
    (
      λ h.
          let (nc_m, q4) = and_split _ (set_eq d t) h in
          let (nc, q3) = and_split _ (set_eq d m) nc_m in
          let (q1, q2) = and_split _ (set_eq d c) nc in
          (
            (set_eq_iff d n).0 q1,
            (set_eq_iff d c).0 q2,
            (set_eq_iff d m).0 q3,
            (set_eq_iff d t).0 q4,
          ),
      λ h.
          let q1 = (set_eq_iff d n).1 h.0 in
          let q2 = (set_eq_iff d c).1 h.1 in
          let q3 = (set_eq_iff d m).1 h.2 in
          let q4 = (set_eq_iff d t).1 h.3 in rw (q1, q2, q3, q4) refl,
    )

-- What has the entities of some signatures is not empty.
pub SameEntities-NonEmpty :
    (fs gs : List FunctionSignature) → SameEntities fs gs → NonEmpty fs → NonEmpty gs
SameEntities-NonEmpty [] gs h k = cc k
SameEntities-NonEmpty (f ∷ fs) [] h k = absurd ((h f.entity_name).0 (inl refl))
SameEntities-NonEmpty (f ∷ fs) (g ∷ gs) h k = refl
