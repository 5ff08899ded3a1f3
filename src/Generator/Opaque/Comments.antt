-- ===== src/Generator/Opaque/Comments.antt =====
-- What `get_opaque_type_docs` of buildrs/opaque_types_generator.rs reads.
use zenoh_c.Common.{
  ◌≡◌, refl, ap, ◌∙◌, sym, append_assoc, Bool, true, false, ◌||◌, not, Option, some, List, [], ◌∷◌,
  ◌++◌, All, is_empty, arith,
}
use zenoh_c.Common.Text.{Text, codes, starts_with, lines, join}
use zenoh_c.Common.Panics.{ok, ◌>>=◌, bind_assoc, bind-cong}
use zenoh_c.Generator.Opaque.{
  Docs, Reading, ends_item, insert, insert_captured, read_item, read_line, read_lines,
  get_opaque_type_docs,
}

abbrev is_comment : Text → Bool
is_comment line = starts_with line (codes "///")

abbrev opens : Text → Bool
opens line = starts_with line (codes "get_opaque_type_data!(")

-- What the lines of a file are: a comment, a line of other code, and a call of the macro, which is
-- some lines and a last one, with the name in it.
pub data Part : Type 0 where
  comment : Text → Part
  code : Text → Part
  item : List Text → Text → Text → Part

unfoldable pub lines_of : List Part → List Text
lines_of [] = []
lines_of (comment line ∷ ps) = line ∷ lines_of ps
lines_of (code line ∷ ps) = line ∷ lines_of ps
lines_of (item init last name ∷ ps) = (init ++ last ∷ []) ++ lines_of ps

-- An item is open already, or opens with the first line.
abbrev begins : List Text → Text → List Text → Bool
begins [] last held = opens last || not (is_empty held)
begins (line ∷ init) last held = opens line || not (is_empty held)

abbrev pub IsPart : (Text → Option Text) → Part → Type 0
IsPart opaque (comment line) = is_comment line ≡ true
IsPart opaque (code line) = (is_comment line ≡ false) × (opens line ≡ false)
IsPart opaque (item init last name) =
    (begins init last [] ≡ true)
    × All (λ line. (is_comment line ≡ false) × (ends_item line ≡ false)) init
    × (is_comment last ≡ false)
    × (ends_item last ≡ true)
    × (opaque (join [] (init ++ last ∷ [])) ≡ some name)

-- Each item has the comments since the item before it.
unfoldable pub docs_of : List Part → List Text → Docs → Docs
unfolding insert
docs_of [] comments docs = docs
docs_of (comment line ∷ ps) comments docs = docs_of ps (comments ++ line ∷ []) docs
docs_of (code line ∷ ps) comments docs = docs_of ps comments docs
docs_of (item init last name ∷ ps) comments docs = docs_of ps [] (insert name comments docs)

abbrev reading : List Text → List Text → Docs → Reading
reading comments held docs = record { comments = comments; opaque_lines = held; res = docs }

is_empty-append : (xs : List Text) (line : Text) → is_empty (xs ++ line ∷ []) ≡ false
is_empty-append [] line = refl
is_empty-append (x ∷ xs) line = refl

begins-held :
    (init : List Text) (last : Text) (held : List Text) (line : Text)
    → begins init last (held ++ line ∷ []) ≡ true
begins-held [] last held line = ground (arith, is_empty-append held line)
begins-held (next ∷ init) last held line = ground (arith, is_empty-append held line)

-- A line of an item that does not end it.
read_line-within :
    (opaque : Text → Option Text) (line : Text) (comments held : List Text) (docs : Docs)
    → is_comment line ≡ false
    → (opens line || not (is_empty held)) ≡ true
    → ends_item line ≡ false
    → read_line opaque line (reading comments held docs)
      ≡ ok (reading comments (held ++ line ∷ []) docs)
unfolding read_line read_item
read_line-within opaque line comments held docs c b e = rw (c, b, e, is_empty-append held line) refl

read_line-last :
    (opaque : Text → Option Text) (line name : Text) (comments held : List Text) (docs : Docs)
    → is_comment line ≡ false
    → (opens line || not (is_empty held)) ≡ true
    → ends_item line ≡ true
    → opaque (join [] (held ++ line ∷ [])) ≡ some name
    → read_line opaque line (reading comments held docs)
      ≡ ok (reading [] [] (insert name comments docs))
unfolding read_line read_item insert_captured
read_line-last opaque line name comments held docs c b e o =
    rw (c, b, e, is_empty-append held line, o) refl

read_lines-append :
    (opaque : Text → Option Text) (before after : List Text) (r : Reading)
    → read_lines opaque (before ++ after) r
      ≡ (read_lines opaque before r >>= read_lines opaque after)
unfolding read_lines
read_lines-append opaque [] after r = refl
read_lines-append opaque (line ∷ before) after r =
    bind-cong (read_line opaque line r) _ _ (read_lines-append opaque before after)
    ∙ sym
        (bind_assoc (read_line opaque line r) (read_lines opaque before) (read_lines opaque after))

-- The lines of an item.
read_lines-item :
    (opaque : Text → Option Text) (init : List Text) (last name : Text) (comments held : List Text)
    (docs : Docs)
    → begins init last held ≡ true
    → All (λ line. (is_comment line ≡ false) × (ends_item line ≡ false)) init
    → is_comment last ≡ false
    → ends_item last ≡ true
    → opaque (join [] (held ++ (init ++ last ∷ []))) ≡ some name
    → read_lines opaque (init ++ last ∷ []) (reading comments held docs)
      ≡ ok (reading [] [] (insert name comments docs))
unfolding read_lines
read_lines-item opaque [] last name comments held docs b h c e o =
    rw (read_line-last opaque last name comments held docs c b e o) refl
read_lines-item opaque (line ∷ init) last name comments held docs b ((cl, el), h) c e o =
    rw (read_line-within opaque line comments held docs cl b el) (
      read_lines-item opaque init last name comments (held ++ line ∷ []) docs
        (begins-held init last held line) h c e
        (ap (λ text. opaque (join [] text)) (append_assoc held (line ∷ []) (init ++ last ∷ []))
          ∙ o))

read_lines-docs_of :
    (opaque : Text → Option Text) (ps : List Part) (comments : List Text) (docs : Docs)
    → All (IsPart opaque) ps
    → (read_lines opaque (lines_of ps) (reading comments [] docs) >>= λ r. ok r.res)
      ≡ ok (docs_of ps comments docs)
unfolding read_lines lines_of docs_of read_line read_item
read_lines-docs_of opaque [] comments docs h = refl
read_lines-docs_of opaque (comment line ∷ ps) comments docs (c, h) =
    rw (c) (read_lines-docs_of opaque ps (comments ++ line ∷ []) docs h)
read_lines-docs_of opaque (code line ∷ ps) comments docs ((c, b), h) =
    rw (c, b) (read_lines-docs_of opaque ps comments docs h)
read_lines-docs_of opaque (item init last name ∷ ps) comments docs ((b, i, c, e, o), h) =
    rw
      (
        read_lines-append opaque (init ++ last ∷ []) (lines_of ps) (reading comments [] docs),
        read_lines-item opaque init last name comments [] docs b i c e o,
      )
      (read_lines-docs_of opaque ps [] (insert name comments docs) h)

-- Where the lines of a file are comments, lines of other code, and calls of the macro that begin
-- with its name, end with the first line that ends in `);` and have no comment in between,
-- `get_opaque_type_docs` returns, for the type that the regular expression finds in each call, the
-- comments since the call before it; a later call for the same type takes the place of the earlier.
pub get_opaque_type_docs-docs_of :
    (opaque : Text → Option Text) (text : Text) (ps : List Part)
    → lines text ≡ lines_of ps
    → All (IsPart opaque) ps
    → get_opaque_type_docs opaque text ≡ ok (docs_of ps [] [])
unfolding get_opaque_type_docs
get_opaque_type_docs-docs_of opaque text ps e h = rw (e) (read_lines-docs_of opaque ps [] [] h)
