-- ===== src/Splitguide/Guide/Routing.antt =====
-- Which files a record goes to, in buildrs/splitguide.rs.
use zenoh_c.Common.{
  ◌≡◌, ◌↔◌, ◌⊎◌, inl, inr, refl, ap, subst, ◌∙◌, Bool, true, false, List, [], ◌∷◌, ◌++◌,
  append_assoc, append-nil, if◌then◌else◌, is_empty, In,
}
use zenoh_c.Common.Text.{Text}
use zenoh_c.Splitguide.Record.{Record, same_type, contains_id}
use zenoh_c.Splitguide.Guide.{
  SplitRule, brand, exclusive, shared, SplitGuide, Routes, push_shared, push_exclusive, route_rule,
  route_rules, route_files, appropriate_files,
}

-- The record is claimed by a rule `name!`.
abbrev pub wants_exclusive : Record → SplitRule → Bool
wants_exclusive r (brand b) = false
wants_exclusive r (exclusive id) = contains_id r id
wants_exclusive r (shared id) = false

-- The record fits a rule `:kind` or `name`.
abbrev pub wants_shared : Record → SplitRule → Bool
wants_shared r (brand b) = same_type b r.rt
wants_shared r (exclusive id) = false
wants_shared r (shared id) = contains_id r id

-- Some entry for `file` has a rule that passes `p`.
abbrev pub Sends : (SplitRule → Bool) → Text → SplitGuide → Type 0
Sends p file g =
    (rules : List SplitRule) × In (file, rules) g
    × ((rule : SplitRule) × In rule rules × (p rule ≡ true))

abbrev once : Bool → Text → List Text
once true file = file ∷ []
once false file = []

module _ (p : SplitRule → Bool) where
  -- `file`, once for each rule that passes.
  repeat_for : Text → List SplitRule → List Text
  repeat_for file [] = []
  repeat_for file (rule ∷ rules) = once (p rule) file ++ repeat_for file rules

  pub files_by : SplitGuide → List Text
  unfolding repeat_for
  files_by [] = []
  files_by ((file, rules) ∷ g) = repeat_for file rules ++ files_by g

In-append : {A : Type 0} (a : A) (xs ys : List A) → In a (xs ++ ys) ↔ (In a xs ⊎ In a ys)
In-append a [] ys = (inr, λ h. elim h [ inl e ↦ absurd e | inr k ↦ k ])
In-append a (x ∷ xs) ys = (
  λ h. elim h [
    | inl e ↦ inl (inl e)
    | inr k ↦ elim ((In-append a xs ys).0 k) [ inl m ↦ inl (inr m) | inr n ↦ inr n ]
  ],
  λ h. elim h [
    | inl m ↦ elim m [ inl e ↦ inl e | inr k ↦ inr ((In-append a xs ys).1 (inl k)) ]
    | inr n ↦ inr ((In-append a xs ys).1 (inr n))
  ],
)

abbrev SomeRule : (SplitRule → Bool) → List SplitRule → Type 0
SomeRule p rules = (rule : SplitRule) × In rule rules × (p rule ≡ true)

In-once : (b : Bool) (f file : Text) → In f (once b file) ↔ ((b ≡ true) × (f ≡ file))
In-once true f file = (λ h. elim h [ inl e ↦ (refl, e) | inr k ↦ absurd k ], λ h. inl h.1)
In-once false f file = (λ h. absurd h, λ h. cc (h.0))

module _ (p : SplitRule → Bool) (f file : Text) where
  repeat_for-to :
      (rule : SplitRule) (rules : List SplitRule)
      → (In f (repeat_for p file rules) → SomeRule p rules × (f ≡ file))
      → In f (once (p rule) file ++ repeat_for p file rules)
      → SomeRule p (rule ∷ rules) × (f ≡ file)
  repeat_for-to rule rules ih h =
      elim ((In-append f (once (p rule) file) (repeat_for p file rules)).0 h) [
        | inl m ↦ let (k, e) = (In-once (p rule) f file).0 m in ((rule, inl refl, k), e)
        | inr n ↦ let ((rule', i, k), e) = ih n in ((rule', inr i, k), e)
      ]

  repeat_for-from :
      (rule : SplitRule) (rules : List SplitRule)
      → (SomeRule p rules × (f ≡ file) → In f (repeat_for p file rules))
      → SomeRule p (rule ∷ rules) × (f ≡ file)
      → In f (once (p rule) file ++ repeat_for p file rules)
  repeat_for-from rule rules ih ((rule', i, k), e) =
      (In-append f (once (p rule) file) (repeat_for p file rules)).1 (elim i [
        | inl same ↦ inl ((In-once (p rule) f file).1 (subst (λ x. p x ≡ true) same k, e))
        | inr later ↦ inr (ih ((rule', later, k), e))
      ])

  In-repeat_for :
      (rules : List SplitRule) → In f (repeat_for p file rules) ↔ (SomeRule p rules × (f ≡ file))
  unfolding repeat_for
  In-repeat_for [] = (λ h. absurd h, λ h. absurd h.0.1)
  In-repeat_for (rule ∷ rules) = (
    repeat_for-to rule rules (In-repeat_for rules).0,
    repeat_for-from rule rules (In-repeat_for rules).1,
  )

  files_by-to :
      (rules : List SplitRule) (g : SplitGuide)
      → (In f (files_by p g) → Sends p f g)
      → In f (repeat_for p file rules ++ files_by p g)
      → Sends p f ((file, rules) ∷ g)
  files_by-to rules g ih h = elim ((In-append f (repeat_for p file rules) (files_by p g)).0 h) [
    | inl m ↦
        let (some_rule, e) = (In-repeat_for rules).0 m in
        (rules, inl (λ i. (e i, rules)), some_rule)
    | inr n ↦ let (rules', i, some_rule) = ih n in (rules', inr i, some_rule)
  ]

  files_by-from :
      (rules : List SplitRule) (g : SplitGuide)
      → (Sends p f g → In f (files_by p g))
      → Sends p f ((file, rules) ∷ g)
      → In f (repeat_for p file rules ++ files_by p g)
  files_by-from rules g ih (rules', i, some_rule) =
      (In-append f (repeat_for p file rules) (files_by p g)).1 (elim i [
        | inl same ↦ inl (
            (In-repeat_for rules).1 (
              subst (SomeRule p) (ap (λ (q : Text × List SplitRule). q.1) same) some_rule,
              ap (λ (q : Text × List SplitRule). q.0) same,
            ))
        | inr later ↦ inr (ih (rules', later, some_rule))
      ])

-- The files that a comprehension over the guide gives are those that a rule sends to.
In-files_by : (p : SplitRule → Bool) (f : Text) (g : SplitGuide) → In f (files_by p g) ↔ Sends p f g
unfolding files_by
In-files_by p f [] = (λ h. absurd h, λ h. absurd h.1)
In-files_by p f ((file, rules) ∷ g) = (
  files_by-to p f file rules g (In-files_by p f g).0,
  files_by-from p f file rules g (In-files_by p f g).1,
)

abbrev routes : List Text → List Text → Routes
routes xs ys = record { shared_files = xs; exclusive_files = ys }

push_shared-once :
    (b : Bool) (file : Text) (xs ys : List Text)
    → push_shared b file (routes xs ys) ≡ routes (xs ++ once b file) (ys ++ [])
push_shared-once true file xs ys = simp append-nil
push_shared-once false file xs ys = simp append-nil

push_exclusive-once :
    (b : Bool) (file : Text) (xs ys : List Text)
    → push_exclusive b file (routes xs ys) ≡ routes (xs ++ []) (ys ++ once b file)
push_exclusive-once true file xs ys = simp append-nil
push_exclusive-once false file xs ys = simp append-nil

module _ (r : Record) where
  route_rule-once :
      (file : Text) (rule : SplitRule) (xs ys : List Text)
      → route_rule r file rule (routes xs ys)
        ≡ routes (xs ++ once (wants_shared r rule) file) (ys ++ once (wants_exclusive r rule) file)
  unfolding route_rule
  route_rule-once file (brand b) xs ys = push_shared-once (same_type b r.rt) file xs ys
  route_rule-once file (exclusive id) xs ys = push_exclusive-once (contains_id r id) file xs ys
  route_rule-once file (shared id) xs ys = push_shared-once (contains_id r id) file xs ys

  route_rules-repeat_for :
      (file : Text) (rules : List SplitRule) (xs ys : List Text)
      → route_rules r file rules (routes xs ys)
        ≡ routes
            (xs ++ repeat_for (wants_shared r) file rules)
            (ys ++ repeat_for (wants_exclusive r) file rules)
  unfolding route_rules repeat_for
  route_rules-repeat_for file [] xs ys = simp append-nil
  route_rules-repeat_for file (rule ∷ rules) xs ys =
      ap (route_rules r file rules) (route_rule-once file rule xs ys)
      ∙ route_rules-repeat_for file rules _ _
      ∙ simp append_assoc

  route_files-files_by :
      (g : SplitGuide) (xs ys : List Text)
      → route_files r g (routes xs ys)
        ≡ routes (xs ++ files_by (wants_shared r) g) (ys ++ files_by (wants_exclusive r) g)
  unfolding route_files files_by
  route_files-files_by [] xs ys = simp append-nil
  route_files-files_by ((file, rules) ∷ g) xs ys =
      ap (route_files r g) (route_rules-repeat_for file rules xs ys)
      ∙ route_files-files_by g _ _
      ∙ simp append_assoc

  -- The two vectors, as comprehensions over the guide.
  pub appropriate_files-files_by :
      (g : SplitGuide)
      → appropriate_files g r ≡ (
          if is_empty (files_by (wants_exclusive r) g)
          then files_by (wants_shared r) g
          else files_by (wants_exclusive r) g)
  unfolding appropriate_files
  appropriate_files-files_by g = rw (route_files-files_by g [] [])

-- A rule of the file claims the record, or none of any file does and one of the file fits it.
abbrev pub GoesTo : Record → SplitGuide → Text → Type 0
GoesTo r g f =
    Sends (wants_exclusive r) f g
    ⊎ (((e : Text) → ¬ Sends (wants_exclusive r) e g) × Sends (wants_shared r) f g)

choose-GoesTo :
    (r : Record) (g : SplitGuide) (f : Text) (xs : List Text)
    → ((e : Text) → In e xs ↔ Sends (wants_exclusive r) e g)
    → In f (if is_empty xs then files_by (wants_shared r) g else xs) ↔ GoesTo r g f
choose-GoesTo r g f [] h = (
  λ i. inr (λ e s. (h e).1 s, (In-files_by (wants_shared r) f g).0 i),
  λ k. elim k [ inl s ↦ absurd ((h f).1 s) | inr n ↦ (In-files_by (wants_shared r) f g).1 n.1 ],
)
choose-GoesTo r g f (x ∷ xs) h = (
  λ i. inl ((h f).0 i),
  λ k. elim k [ inl s ↦ (h f).1 s | inr n ↦ absurd (n.0 x ((h x).0 (inl refl))) ],
)

-- A file is among those that `appropriate_files` returns exactly when a rule `name!` of the file
-- claims the record, or when no file of the guide claims it and a rule `name` or `:kind` of the
-- file fits it.
pub appropriate_files-GoesTo :
    (r : Record) (g : SplitGuide) (f : Text) → In f (appropriate_files g r) ↔ GoesTo r g f
appropriate_files-GoesTo r g f = rw (appropriate_files-files_by r g) (
    choose-GoesTo r g f (files_by (wants_exclusive r) g) (λ e. In-files_by (wants_exclusive r) e g))
