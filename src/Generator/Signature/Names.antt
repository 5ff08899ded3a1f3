-- ===== src/Generator/Signature/Names.antt =====
-- The names that `split_type_name` of buildrs/common_helpers.rs takes apart, and those that
-- buildrs/cbindgen_generator.rs puts together from the parts.
use zenoh_c.Common.{
  ℕ, ◌+◌, ◌-◌, ◌≡◌, refl, ap, sym, ◌∙◌, subst, inl, inr, true, false, Option, some, List, [], ◌∷◌,
  ◌++◌, append_assoc, length, ◌==◌, All, arith, Bool-cases, length-append, All-append, take-append,
  drop-append, leb, ◌&&◌,
}
use zenoh_c.Common.Text.{Text, text_eq, text_eq_iff, codes, split, push_front}
use zenoh_c.Common.Panics.{Panics, ok, ◌>>=◌, slice, bind-ok, ok_injective}
use zenoh_c.Generator.Signature.{
  TypeName, category_of, category_len, last_of, name_of_parts, split_type_name, type_in,
}

-- No character of the text is `sep`.
abbrev pub Lacks : ℕ → Text → Type 0
Lacks sep s = All (λ c. (c == sep) ≡ false) s

push_front-Lacks :
    (sep c : ℕ) (parts : List Text)
    → (c == sep) ≡ false
    → All (Lacks sep) parts
    → All (Lacks sep) (push_front c parts)
unfolding push_front
push_front-Lacks sep c [] h k = ((h, tt), tt)
push_front-Lacks sep c (part ∷ parts) h k = ((h, k.0), k.1)

-- The parts do not have the character that they are split at.
split-Lacks : (sep : ℕ) (s : Text) → All (Lacks sep) (split sep s)
unfolding split
split-Lacks sep [] = (tt, tt)
split-Lacks sep (c ∷ s) = elim (Bool-cases (c == sep)) [
  | inl e ↦ rw e (tt, split-Lacks sep s)
  | inr n ↦ rw n (push_front-Lacks sep c (split sep s) n (split-Lacks sep s))
]

-- The part in front of the first separator.
split-first :
    (sep : ℕ) (part rest : Text)
    → Lacks sep part
    → split sep (part ++ sep ∷ rest) ≡ part ∷ split sep rest
unfolding split push_front
split-first sep [] rest h = let e : (sep == sep) ≡ true = ground arith in rw e refl
split-first sep (c ∷ part) rest h = rw (h.0, split-first sep part rest h.1) refl

split-whole : (sep : ℕ) (part : Text) → Lacks sep part → split sep part ≡ part ∷ []
unfolding split push_front
split-whole sep [] h = refl
split-whole sep (c ∷ part) h = rw (h.0, split-whole sep part h.1) refl

-- The last part is what follows the last separator, and there is one in front of it.
abbrev Ends : ℕ → Text → Text → Type 0
Ends sep s last =
    (first : Text) × (second : Text) × (parts : List Text) × (split sep s ≡ first ∷ second ∷ parts)
    × (last_of second parts ≡ last)

split-last : (sep : ℕ) (s last : Text) → Lacks sep last → Ends sep (s ++ sep ∷ last) last
unfolding last_of split push_front
split-last sep [] last h =
    let e : (sep == sep) ≡ true = ground arith in
    ([], last, [], rw (e, split-whole sep last h) refl, refl)
split-last sep (c ∷ s) last h =
    let (first, second, parts, e, k) = split-last sep s last h in
    elim (Bool-cases (c == sep)) [
      | inl y ↦ ([], first, second ∷ parts, rw (y, e) refl, k)
      | inr n ↦ (c ∷ first, second, parts, rw (n, e) refl, k)
    ]

-- A text cut out between two others.
slice-middle :
    (a b c : Text) (n : ℕ) → n ≡ length a + length b → slice (a ++ (b ++ c)) (length a) n ≡ ok b
unfolding slice
slice-middle a b c n e =
    let fits : (leb (length a) n && leb n (length (a ++ (b ++ c)))) ≡ true =
      ground (arith, e, length-append a (b ++ c), length-append b c) in
    let size : n - length a ≡ length b = omega (arith, e) in
    rw (fits, size, drop-append a (b ++ c), take-append b c) refl

-- What `split_type_name` makes of its parts.
abbrev named : Text → Text → Text → Text → Option Text → Panics TypeName
named s first cat post category =
    slice s (length first + 1 + category_len category) (length s - length post - 1) >>= λ middle.
    ok (record { prefix = first; category = category; semantic = middle; postfix = post })

last_of-cons : (s t : Text) (parts : List Text) → last_of s (t ∷ parts) ≡ last_of t parts
unfolding last_of
last_of-cons s t parts = refl

-- The cut of `split_type_name`, where it finds these parts.
cut_semantic :
    (p cat sem post : Text)
    → let s = p ++ b'_' ∷ (cat ++ b'_' ∷ (sem ++ b'_' ∷ post)) in
      slice s (length p + 1 + (length cat + 1)) (length s - length post - 1) ≡ ok sem
cut_semantic p cat sem post =
    let a = p ++ b'_' ∷ (cat ++ b'_' ∷ []) in
    let c = b'_' ∷ post in
    let s = p ++ b'_' ∷ (cat ++ b'_' ∷ (sem ++ c)) in
    let same : a ++ (sem ++ c) ≡ s = simp (append_assoc) in
    let len : length s ≡ length a + (length sem + length c) =
      ap length (sym same)
      ∙ length-append a (sem ++ c)
      ∙ ap (λ n. length a + n) (length-append sem c) in
    let size : length a ≡ length p + 1 + (length cat + 1) =
      omega (arith, length-append p (b'_' ∷ (cat ++ b'_' ∷ [])), length-append cat (b'_' ∷ [])) in
    let end : length s - length post - 1 ≡ length a + length sem = omega (arith, len) in
    ap (λ n. slice s n (length s - length post - 1)) (sym size)
    ∙ ap (λ t. slice t (length a) (length s - length post - 1)) (sym same)
    ∙ slice-middle a sem c _ end

-- `prefix_cat_semantic_postfix` is split into these, where the prefix, the category and the postfix
-- have no '_'.
pub split_type_name-joined :
    (p cat sem post : Text)
    → Lacks b'_' p
    → Lacks b'_' cat
    → Lacks b'_' post
    → category_of cat ≡ some cat
    → split_type_name (p ++ b'_' ∷ (cat ++ b'_' ∷ (sem ++ b'_' ∷ post)))
      ≡ ok (record { prefix = p; category = some cat; semantic = sem; postfix = post })
unfolding split_type_name name_of_parts category_len
split_type_name-joined p cat sem post hp hc hl known =
    let (first, second, parts, e, k) = split-last b'_' sem post hl in
    let s = p ++ b'_' ∷ (cat ++ b'_' ∷ (sem ++ b'_' ∷ post)) in
    let all : split b'_' s ≡ p ∷ cat ∷ first ∷ second ∷ parts =
      split-first b'_' p _ hp ∙ ap (◌∷◌ p) (split-first b'_' cat _ hc ∙ ap (◌∷◌ cat) e) in
    ap (name_of_parts s) all
    ∙ ap (λ q. named s p cat (last_of first (second ∷ parts)) q) known
    ∙ ap (λ q. named s p cat q (some cat)) (last_of-cons first second parts ∙ k)
    ∙ ap
        (λ r. r >>= λ middle.
          ok (record { prefix = p; category = some cat; semantic = middle; postfix = post }))
        (cut_semantic p cat sem post)

last_of-Lacks :
    (sep : ℕ) (part : Text) (parts : List Text)
    → Lacks sep part
    → All (Lacks sep) parts
    → Lacks sep (last_of part parts)
unfolding last_of
last_of-Lacks sep part [] h k = h
last_of-Lacks sep part (next ∷ parts) h k = last_of-Lacks sep next parts k.0 k.1

-- Neither the prefix nor the postfix that is found has an '_'.
abbrev Parted : TypeName → Type 0
Parted t = Lacks b'_' t.prefix × Lacks b'_' t.postfix

name_of_parts-Parted :
    (s : Text) (parts : List Text) (t : TypeName)
    → All (Lacks b'_') parts
    → name_of_parts s parts ≡ ok t
    → Parted t
unfolding name_of_parts
name_of_parts-Parted s (first ∷ cat ∷ part ∷ parts) t h e =
    let (middle, _, k) = bind-ok (slice s _ _) _ e in
    subst Parted (ok_injective k) (h.0, last_of-Lacks b'_' part parts h.1.1.0 h.1.1.1)
name_of_parts-Parted s _ t h e = cc e

category-Lacks : (cat : Text) → category_of cat ≡ some cat → Lacks b'_' cat
unfolding category_of
category-Lacks cat e = elim (Bool-cases (text_eq cat (codes "owned"))) [
  | inl y ↦
      subst (Lacks b'_') (sym ((text_eq_iff cat (codes "owned")).0 y))
        (refl, (refl, (refl, (refl, (refl, tt)))))
  | inr n ↦ elim (Bool-cases (text_eq cat (codes "loaned"))) [
    | inl y ↦
        subst (Lacks b'_') (sym ((text_eq_iff cat (codes "loaned")).0 y))
          (refl, (refl, (refl, (refl, (refl, (refl, tt))))))
    | inr m ↦ elim (Bool-cases (text_eq cat (codes "moved"))) [
      | inl y ↦
          subst (Lacks b'_') (sym ((text_eq_iff cat (codes "moved")).0 y))
            (refl, (refl, (refl, (refl, (refl, tt)))))
      | inr k ↦ absurd (ground (arith, e, n, m, k))
    ]
  ]
]

-- The names that are put together from the parts of a type name.
type_in-joined :
    (cat x : Text) (t : TypeName)
    → type_in cat t ++ x
      ≡ t.prefix ++ b'_' ∷ (cat ++ b'_' ∷ (t.semantic ++ b'_' ∷ (t.postfix ++ x)))
unfolding type_in
type_in-joined cat x t = simp (append_assoc)

-- From the parts of any type name that `split_type_name` takes apart, `owned`, `loaned` and `moved`
-- names are made, with or without a suffix such as '*', that it takes apart into the same prefix
-- and semantic part, the new category, and the postfix with the suffix.
pub split_type_name-type_in :
    (s cat x : Text) (t : TypeName)
    → split_type_name s ≡ ok t
    → category_of cat ≡ some cat
    → Lacks b'_' x
    → split_type_name (type_in cat t ++ x)
      ≡ ok (record t { category = some cat; postfix = t.postfix ++ x })
unfolding split_type_name
split_type_name-type_in s cat x t e known h =
    let (hp, hl) = name_of_parts-Parted s (split b'_' s) t (split-Lacks b'_' s) e in
    ap split_type_name (type_in-joined cat x t)
    ∙ split_type_name-joined t.prefix cat t.semantic (t.postfix ++ x) hp (category-Lacks cat known)
        (All-append _ t.postfix x hl h) known
