-- ===== src/Generator/Opaque/Documented.antt =====
-- When `generate_opaque_types` of buildrs/opaque_types_generator.rs returns.
use zenoh_c.Common.{
  ◌≡◌, refl, ap, ◌∙◌, map, append_assoc, append-nil, sym, subst, ◌↔◌, ℕ, inl, inr, Bool, true,
  false, ◌||◌, Option, none, some, List, [], ◌∷◌, ◌++◌, ◌==◌, length, if◌then◌else◌, is_some, All,
  Bool-cases, ==_iff, arith,
}
use zenoh_c.Common.Text.{Text, codes, text_eq, text_eq_iff, contains, concat}
use zenoh_c.Common.Panics.{
  Panics, ok, panic, ◌>>=◌, Returns, Returns-next, bind-Returns, bind-ok, ok_injective,
  Returns-bind,
}
use zenoh_c.Generator.Signature.{TypeName, split_type_name}
use zenoh_c.Generator.Opaque.{
  Layout, Docs, lookup, without, write_documented, write_type, write_types, error_lines,
  messages_of, get_opaque_type_docs, generate_opaque_types, struct_of, doc_text,
}

lookup-without :
    (k j : Text) (docs : Docs)
    → lookup k (without j docs) ≡ (if text_eq j k then none else lookup k docs)
unfolding lookup without
lookup-without k j [] = ground arith
lookup-without k j ((i, doc) ∷ docs) =
    ground (arith, text_eq_iff j i, text_eq_iff j k, text_eq_iff k i, lookup-without k j docs)

-- The name has the parts of a type name, and there is documentation for it.
abbrev pub HasDoc : Docs → Layout → Type 0
HasDoc docs l = Returns (split_type_name l.type_name) × (is_some (lookup l.type_name docs) ≡ true)

-- No type is named twice.
abbrev pub AreDistinct : List Layout → Type 0
AreDistinct [] = Unit {0}
AreDistinct (l ∷ ls) = All (λ k. text_eq l.type_name k.type_name ≡ false) ls × AreDistinct ls

HasDoc-without :
    (name : Text) (docs : Docs) (ls : List Layout)
    → All (HasDoc (without name docs)) ls
      ↔ (All (λ k. text_eq name k.type_name ≡ false) ls × All (HasDoc docs) ls)
HasDoc-without name docs [] = (λ h. (tt, tt), λ h. tt)
HasDoc-without name docs (k ∷ ls) =
    let (split, join) = HasDoc-without name docs ls in
    let e = lookup-without k.type_name name docs in
    (
      λ ((parts, doc), rest).
          let (d, r) = split rest in ((ground (arith, e), d), ((parts, ground (arith, e)), r)),
      λ ((ne, d), ((parts, doc), r)). ((parts, ground (arith, e)), join (d, r)),
    )

unfoldable pub text_for : Layout → Panics TypeName → Option (List Text) → Text
text_for l (ok t) (some doc) = doc_text doc ++ struct_of l t
text_for l parts doc = []

-- What is written for a type.
abbrev pub written : Docs → Layout → Text
written docs l = text_for l (split_type_name l.type_name) (lookup l.type_name docs)

text_for-eq :
    (l : Layout) (parts : Panics TypeName) (doc : Option (List Text)) (out : Text) (docs : Docs)
    → Returns parts
    → is_some doc ≡ true
    → (parts >>= λ t. write_documented l t doc (out, docs))
      ≡ ok (out ++ text_for l parts doc, without l.type_name docs)
unfolding text_for write_documented
text_for-eq l panic doc out docs r h = absurd r
text_for-eq l (ok t) none out docs r h = cc h
text_for-eq l (ok t) (some doc) out docs r h =
    ap (λ text. ok (text, without l.type_name docs))
      (append_assoc out (doc_text doc) (struct_of l t))

-- One round, where the type has its documentation.
write_type-HasDoc :
    (l : Layout) (out : Text) (docs : Docs)
    → HasDoc docs l
    → write_type l (out, docs) ≡ ok (out ++ written docs l, without l.type_name docs)
unfolding write_type
write_type-HasDoc l out docs (parts, doc) =
    text_for-eq l (split_type_name l.type_name) (lookup l.type_name docs) out docs parts doc

write_documented-Returns :
    (l : Layout) (t : TypeName) (doc : Option (List Text)) (s : Text × Docs)
    → Returns (write_documented l t doc s)
    → is_some doc ≡ true
unfolding write_documented
write_documented-Returns l t none s r = absurd r
write_documented-Returns l t (some doc) s r = refl

HasDoc-write_type :
    (l : Layout) (out : Text) (docs : Docs) → Returns (write_type l (out, docs)) → HasDoc docs l
unfolding write_type
HasDoc-write_type l out docs r =
    let next = λ (t : TypeName). write_documented l t (lookup l.type_name docs) (out, docs) in
    let (t, r') = Returns-next (split_type_name l.type_name) next r in
    (
      Returns-bind (split_type_name l.type_name) next r,
      write_documented-Returns l t (lookup l.type_name docs) (out, docs) r',
    )

write_types-Returns :
    (ls : List Layout) (out : Text) (docs : Docs)
    → Returns (write_types ls (out, docs)) ↔ (All (HasDoc docs) ls × AreDistinct ls)
unfolding write_types
write_types-Returns [] out docs = (λ r. (tt, tt), λ h. tt)
write_types-Returns (l ∷ ls) out docs =
    let (split, join) = HasDoc-without l.type_name docs ls in
    (
      λ r.
          let doc =
            HasDoc-write_type l out docs
              (Returns-bind (write_type l (out, docs)) (write_types ls) r) in
          let e = write_type-HasDoc l out docs doc in
          let (all, distinct) =
            (write_types-Returns ls (out ++ written docs l) (without l.type_name docs)).0
              (subst (λ w. Returns (w >>= write_types ls)) e r) in
          let (ne, all') = split all in ((doc, all'), (ne, distinct)),
      λ ((doc, all), (ne, distinct)).
          let e = write_type-HasDoc l out docs doc in
          subst (λ w. Returns (w >>= write_types ls)) (sym e)
            ((write_types-Returns ls (out ++ written docs l) (without l.type_name docs)).1
              (join (ne, all), distinct)),
    )

written-without :
    (name : Text) (docs : Docs) (ls : List Layout)
    → All (λ k. text_eq name k.type_name ≡ false) ls
    → map (written (without name docs)) ls ≡ map (written docs) ls
written-without name docs [] h = refl
written-without name docs (l ∷ ls) (ne, h) =
    ap (λ d. text_for l (split_type_name l.type_name) d ∷ map (written (without name docs)) ls)
      (ground (arith, lookup-without l.type_name name docs))
    ∙ ap (λ ts. written docs l ∷ ts) (written-without name docs ls h)

write_types-written :
    (ls : List Layout) (out text : Text) (docs docs' : Docs)
    → write_types ls (out, docs) ≡ ok (text, docs')
    → text ≡ out ++ concat (map (written docs) ls)
unfolding write_types concat
write_types-written [] out text docs docs' e = (cc e) ∙ sym (append-nil out)
write_types-written (l ∷ ls) out text docs docs' e =
    let r : Returns (write_types (l ∷ ls) (out, docs)) = subst Returns (sym e) tt in
    let ((doc, _), (ne, _)) = (write_types-Returns (l ∷ ls) out docs).0 r in
    let next : write_types ls (out ++ written docs l, without l.type_name docs) ≡ ok (text, docs') =
      sym (ap (λ w. w >>= write_types ls) (write_type-HasDoc l out docs doc)) ∙ e in
    write_types-written ls _ text _ docs' next
    ∙ append_assoc out (written docs l) _
    ∙ ap (λ ts. out ++ (written docs l ++ concat ts)) (written-without l.type_name docs ls ne)

if-equal : (n m : ℕ) (text : Text) → Returns (if n == m then ok text else panic) → n ≡ m
if-equal n m text r = elim (Bool-cases (n == m)) [
  | inl h ↦ (==_iff n m).0 h
  | inr h ↦ absurd (subst (λ x. Returns (if x then ok text else panic)) h r)
]

equal-if : (n m : ℕ) (text : Text) → n ≡ m → Returns (if n == m then ok text else panic)
equal-if n m text e = rw ((==_iff n m).1 e) tt

-- Two calls between two checks.
checked-Returns :
    (a b : Bool) (read : Panics Docs) (write : Docs → Panics (Text × Docs)) (n m : ℕ)
    → Returns (
        if a || b
        then panic
        else read >>= λ docs. write docs >>= λ s. if n == m then ok s.0 else panic)
      ↔ ((a ≡ false)
          × (b ≡ false)
          × ((docs : Docs) × (read ≡ ok docs) × Returns (write docs))
          × (n ≡ m))
checked-Returns true b read write n m = (λ r. absurd r, λ (a, _, _, _). cc a)
checked-Returns false true read write n m = (λ r. absurd r, λ (_, b, _, _). cc b)
checked-Returns false false panic write n m = (λ r. absurd r, λ (_, _, (docs, e, _), _). cc e)
checked-Returns false false (ok docs) write n m = (
  λ r.
      let (s, h) = Returns-next (write docs) _ r in
      (refl, refl, (docs, refl, Returns-bind (write docs) _ r), if-equal n m s.0 h),
  λ (_, _, (docs', e, w), k).
      bind-Returns (write docs) _ (subst (λ d. Returns (write d)) (sym (ok_injective e)) w)
        (λ s. equal-if n m s.0 k),
)

-- `generate_opaque_types` returns exactly where the messages of the compiler, with `\r` replaced by
-- `\n`, have neither `error: failed to` nor `Caused by:`; the documentation of the probe crate can be
-- read; the name of each type that the messages describe can be split into its parts and has
-- documentation; no type is described twice; and they describe as many types as they have lines that
-- start with `error[E`.
pub generate_opaque_types-Returns :
    (layouts : Text → List Layout) (opaque : Text → Option Text) (probe file : Text)
    → Returns (generate_opaque_types layouts opaque probe file) ↔ (
        (contains (messages_of file) (codes "error: failed to") ≡ false)
        × (contains (messages_of file) (codes "Caused by:") ≡ false)
        × ((docs : Docs) × (get_opaque_type_docs opaque probe ≡ ok docs)
            × All (HasDoc docs) (layouts (messages_of file))
            × AreDistinct (layouts (messages_of file)))
        × (length (layouts (messages_of file)) ≡ length (error_lines (messages_of file))))
unfolding generate_opaque_types
generate_opaque_types-Returns layouts opaque probe file =
    let data_in = messages_of file in
    let (split, join) =
      checked-Returns (contains data_in (codes "error: failed to"))
        (contains data_in (codes "Caused by:")) (get_opaque_type_docs opaque probe)
        (λ docs. write_types (layouts data_in) ([], docs)) (length (layouts data_in))
        (length (error_lines data_in)) in
    (
      λ r.
          let (a, b, (docs, e, w), n) = split r in
          let (has, distinct) = (write_types-Returns (layouts data_in) [] docs).0 w in
          (a, b, (docs, e, has, distinct), n),
      λ (a, b, (docs, e, has, distinct), n).
          join
            (a, b, (docs, e, (write_types-Returns (layouts data_in) [] docs).1 (has, distinct)), n),
    )

checked-ok :
    (a b : Bool) (read : Panics Docs) (write : Docs → Panics (Text × Docs)) (n m : ℕ) (text : Text)
    → (if a || b
        then panic
        else read >>= λ docs. write docs >>= λ s. if n == m then ok s.0 else panic)
      ≡ ok text
    → (docs : Docs) × (docs' : Docs) × (read ≡ ok docs) × (write docs ≡ ok (text, docs'))
checked-ok true b read write n m text e = absurd (cc e)
checked-ok false true read write n m text e = absurd (cc e)
checked-ok false false read write n m text e =
    let (docs, e₁, r₁) = bind-ok read _ e in
    let ((out, docs'), e₂, r₂) = bind-ok (write docs) _ r₁ in
    (docs, docs', e₁, e₂ ∙ ap (λ t. ok (t, docs')) (ground arith))

-- Where `generate_opaque_types` returns, it has read the documentation of the probe crate, and it has
-- written the documentation and the structs of each type that the messages describe, in the order of
-- the messages.
pub generate_opaque_types-written :
    (layouts : Text → List Layout) (opaque : Text → Option Text) (probe file text : Text)
    → generate_opaque_types layouts opaque probe file ≡ ok text
    → (docs : Docs) × (get_opaque_type_docs opaque probe ≡ ok docs)
      × (text ≡ concat (map (written docs) (layouts (messages_of file))))
unfolding generate_opaque_types
generate_opaque_types-written layouts opaque probe file text e =
    let data_in = messages_of file in
    let (docs, docs', d, w) =
      checked-ok (contains data_in (codes "error: failed to"))
        (contains data_in (codes "Caused by:")) (get_opaque_type_docs opaque probe)
        (λ docs. write_types (layouts data_in) ([], docs)) (length (layouts data_in))
        (length (error_lines data_in)) text e in
    (docs, d, write_types-written (layouts data_in) [] text docs docs' w)
