-- ===== src/Splitguide/Split/Writes.antt =====
-- What the loops of `split_bindings` of buildrs/splitguide.rs write to each file.
use mathlib.Core.Path.{fun_ext}
use zenoh_c.Common.{
  ◌≡◌, inl, inr, refl, ap, sym, ◌∙◌, subst, List, [], ◌∷◌, ◌++◌, append_assoc, append-nil,
  if◌then◌else◌, All, In, Bool-cases, Outcome, ok, ◌>>=◌, ◌>>◌,
}
use zenoh_c.Common.Text.{Text, text_eq, text_eq_iff, Unicode}
use zenoh_c.Splitguide.Failure.{Failure}
use zenoh_c.Splitguide.Guide.{SplitRule, SplitGuide, appropriate_files, requested_ids}
use zenoh_c.Splitguide.Guide.Routing.{GoesTo, appropriate_files-GoesTo}
use zenoh_c.Splitguide.Record.{Record, show_record}
use zenoh_c.Splitguide.Split.{
  Files, header, create_files, append_to, write_files, mark_used, write_records, check_ids,
  check_used, split_with,
}
use zenoh_c.Splitguide.Tokenizer.{group_tokens}

abbrev pub paths_of : SplitGuide → List Text
paths_of [] = []
paths_of ((path, _) ∷ g) = path ∷ paths_of g

-- The keys of a map.
abbrev pub Distinct : List Text → Type 0
Distinct [] = Unit
Distinct (p ∷ ps) = (¬ In p ps) × Distinct ps

-- The files as a function of the path.
abbrev pub render : (Text → Text) → List Text → Files
render f [] = []
render f (p ∷ ps) = (p, f p) ∷ render f ps

-- What a text written to `paths` adds to the file `q`.
abbrev pub copies : List Text → Text → Text → Text
copies [] text q = []
copies (p ∷ ps) text q = (if text_eq q p then text else []) ++ copies ps text q

-- What the records add to the file `q`.
abbrev pub delivered : SplitGuide → List Record → Text → Text
delivered g [] q = []
delivered g (r ∷ rs) q = copies (appropriate_files g r) (show_record r) q ++ delivered g rs q

abbrev pub marked : SplitGuide → List Record → List Record
marked g [] = []
marked g (r ∷ rs) = mark_used (appropriate_files g r) r ∷ marked g rs

render-cong :
    (f f' : Text → Text) (ps : List Text) → ((q : Text) → f q ≡ f' q) → render f ps ≡ render f' ps
render-cong f f' ps h = ap (λ k. render k ps) (fun_ext h)

create_files-render : (g : SplitGuide) → create_files g ≡ render (λ _. header) (paths_of g)
unfolding create_files
create_files-render [] = refl
create_files-render ((path, _) ∷ g) = ap (◌∷◌ (path, header)) (create_files-render g)

module _ (path text : Text) (f : Text → Text) where
  add_at : Text → Text
  add_at q = f q ++ (if text_eq q path then text else [])

  render-add_at_absent : (ps : List Text) → ¬ In path ps → render add_at ps ≡ render f ps
  unfolding add_at
  render-add_at_absent [] n = refl
  render-add_at_absent (p ∷ ps) n = elim (Bool-cases (text_eq p path)) [
    | inl y ↦ absurd (n (inl (sym ((text_eq_iff p path).0 y))))
    | inr y ↦ rw (y, append-nil, render-add_at_absent ps (λ i. n (inr i)))
  ]

  append_to-render :
      (ps : List Text)
      → Distinct ps
      → In path ps
      → append_to path text (render f ps) ≡ ok (render add_at ps)
  unfolding append_to add_at
  append_to-render [] d i = absurd i
  append_to-render (p ∷ ps) d i = elim (Bool-cases (text_eq p path)) [
    | inl y ↦
        let here = (text_eq_iff p path).0 y in
        rw (y, render-add_at_absent ps (subst (λ q. ¬ In q ps) here d.0))
    | inr y ↦ elim i [
      | inl e ↦ cc (y, (text_eq_iff p path).1 (sym e))
      | inr k ↦ rw (y, append_to-render ps d.1 k, append-nil)
    ]
  ]

add_at_assoc :
    (path text : Text) (f : Text → Text) (q rest : Text)
    → add_at path text f q ++ rest ≡ f q ++ ((if text_eq q path then text else []) ++ rest)
unfolding add_at
add_at_assoc path text f q rest = append_assoc (f q) (if text_eq q path then text else []) rest

write_files-render :
    (paths : List Text) (text : Text) (f : Text → Text) (ps : List Text)
    → Distinct ps
    → All (λ p. In p ps) paths
    → write_files paths text (render f ps) ≡ ok (render (λ q. f q ++ copies paths text q) ps)
unfolding write_files
write_files-render [] text f ps d h =
    ap ok (render-cong f (λ q. f q ++ []) ps (λ q. sym (append-nil (f q))))
write_files-render (p ∷ paths) text f ps d h = rw (append_to-render p text f ps d h.0) (
    write_files-render paths text (add_at p text f) ps d h.1
    ∙ ap ok (render-cong _ _ ps (λ q. add_at_assoc p text f q (copies paths text q))))

-- A record goes only to files of the guide.
In-paths_of :
    (g : SplitGuide) (f : Text) (rules : List SplitRule) → In (f, rules) g → In f (paths_of g)
In-paths_of [] f rules i = i
In-paths_of ((path, _) ∷ g) f rules i = elim i [
  | inl e ↦ inl (ap (λ (q : Text × List SplitRule). q.0) e)
  | inr k ↦ inr (In-paths_of g f rules k)
]

GoesTo-In : (r : Record) (g : SplitGuide) (f : Text) → GoesTo r g f → In f (paths_of g)
GoesTo-In r g f h = elim h [ inl s ↦ In-paths_of g f s.0 s.1 | inr n ↦ In-paths_of g f n.1.0 n.1.1 ]

All-pick : {A : Type 0} (P : A → Type 0) (xs : List A) → ((x : A) → In x xs → P x) → All P xs
All-pick P [] h = tt
All-pick P (x ∷ xs) h = (h x (inl refl), All-pick P xs (λ y i. h y (inr i)))

appropriate_files-All :
    (g : SplitGuide) (r : Record) → All (λ p. In p (paths_of g)) (appropriate_files g r)
appropriate_files-All g r =
    All-pick (λ p. In p (paths_of g)) (appropriate_files g r)
      (λ p i. GoesTo-In r g p ((appropriate_files-GoesTo r g p).0 i))

write_records-render :
    (g : SplitGuide) (rs : List Record) (f : Text → Text)
    → Distinct (paths_of g)
    → write_records g rs (render f (paths_of g))
      ≡ ok (render (λ q. f q ++ delivered g rs q) (paths_of g), marked g rs)
unfolding write_records
write_records-render g [] f d =
    ap (λ (fs : Files). ok (fs, []))
      (render-cong f (λ q. f q ++ []) (paths_of g) (λ q. sym (append-nil (f q))))
write_records-render g (r ∷ rs) f d =
    rw
      (
        write_files-render (appropriate_files g r) (show_record r) f (paths_of g) d
            (appropriate_files-All g r),
        write_records-render g rs (λ q. f q ++ copies (appropriate_files g r) (show_record r) q) d,
      )
      (ap (λ (fs : Files). ok (fs, marked g (r ∷ rs)))
        (render-cong _ _ (paths_of g) (λ q. append_assoc (f q) _ _)))

-- The two loops of writes, on files that are just created.
write_created :
    (g : SplitGuide) (rs : List Record)
    → Distinct (paths_of g)
    → write_records g rs (create_files g)
      ≡ ok (render (λ q. header ++ delivered g rs q) (paths_of g), marked g rs)
write_created g rs d = rw (create_files-render g) (write_records-render g rs (λ _. header) d)

-- Where the paths of the guide are distinct, as the keys of a map are, no lookup of a file fails:
-- `split_bindings` behind the reading of its inputs is the grouping of the text, the check that
-- every requested identifier is found, the check that every record is used, and then each file
-- holds the header followed by what the records send to it, in order.
pub split_with-eq :
    (u : Unicode) (g : SplitGuide) (s : Text)
    → Distinct (paths_of g)
    → split_with u g s ≡ (
        group_tokens u s >>= λ rs.
        check_ids (requested_ids g) rs
        >> (check_used (marked g rs) >> ok (render (λ q. header ++ delivered g rs q) (paths_of g))))
unfolding split_with
split_with-eq u g s d =
    ap (λ (k : List Record → Outcome Failure Files). group_tokens u s >>= k)
      (fun_ext λ rs.
        ap (λ (m : Outcome Failure Files). check_ids (requested_ids g) rs >> m)
          (ap (λ (m : Outcome Failure (Files × List Record)). m >>= λ x. check_used x.1 >> ok x.0)
            (write_created g rs d)))
