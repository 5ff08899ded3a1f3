-- ===== src/Generator/Opaque/Tests.antt =====
-- Concrete inputs for the model of buildrs/opaque_types_generator.rs.
use zenoh_c.Common.{◌≡◌, refl, some, none, Option, map, List, [], ◌∷◌, ◌++◌, if◌then◌else◌}
use zenoh_c.Common.Text.{
  Text, codes, text_eq, starts_with, split, find, contains, replace, lines, ends_with, join, concat,
  trim_line, push_front,
}
use zenoh_c.Common.Panics.{Panics, ok, panic, slice, Returns}
use zenoh_c.Generator.Signature.{category_of, category_len, last_of, name_of_parts, split_type_name}
use zenoh_c.Generator.Opaque.{Layout, Docs, lookup, messages_of, error_lines, generate_opaque_types}
use zenoh_c.Generator.Opaque.Documented.{generate_opaque_types-Returns}
use zenoh_c.Generator.Opaque.{
  get_opaque_type_docs, ends_item, insert, insert_captured, read_item, read_line, read_lines,
  write_types, write_type, write_documented, without,
}
use zenoh_c.Generator.Opaque.Comments.{
  Part, comment, code, item, lines_of, docs_of, get_opaque_type_docs-docs_of,
}
use zenoh_c.Generator.Opaque.Documented.{written, generate_opaque_types-written}

-- What the compiler says of two types, what a regular expression captures in it, and their documentation.
abbrev messages : Text
messages =
    codes
      "   Compiling\rerror[E0080]: type: z_owned_slice_t, align: 8\nerror[E0080]: type: z_id_t, align: 1\n"

abbrev layout_in : Text → Text → List Layout
layout_in s name =
    if contains s name
    then record { type_name = name; align = codes "8"; size = codes "16" } ∷ []
    else []

abbrev layouts_in : Text → List Layout
layouts_in s = layout_in s (codes "z_owned_slice_t") ++ layout_in s (codes "z_id_t")

abbrev documentation : Docs
documentation =
    (codes "z_id_t", codes "/// An id." ∷ [])
    ∷ (codes "z_owned_slice_t", codes "/// A slice." ∷ [])
    ∷ []

-- The second parameter of the macro.
abbrev opaque_name : Text → Option Text
opaque_name s =
    if contains s (codes ", z_id_t")
    then some (codes "z_id_t")
    else if contains s (codes ", z_owned_slice_t")
    then some (codes "z_owned_slice_t")
    else none

abbrev probe : Text
probe =
    codes
      "use core::*;\n/// A slice.\nget_opaque_type_data!(\n    Option<Slice>, z_owned_slice_t\n);\n\n/// An id.\nget_opaque_type_data!(Id, z_id_t);\n"

abbrev probe_parts : List Part
probe_parts =
    code (codes "use core::*;")
    ∷ comment (codes "/// A slice.")
    ∷ item (codes "get_opaque_type_data!(" ∷ codes "    Option<Slice>, z_owned_slice_t" ∷ [])
        (codes ");") (codes "z_owned_slice_t")
    ∷ code []
    ∷ comment (codes "/// An id.")
    ∷ item [] (codes "get_opaque_type_data!(Id, z_id_t);") (codes "z_id_t")
    ∷ []

get_opaque_type_docs-docs_of_example :
    get_opaque_type_docs opaque_name probe ≡ ok (docs_of probe_parts [] [])
unfolding lines_of docs_of lines trim_line ends_with contains find starts_with ends_item join
    text_eq
get_opaque_type_docs-docs_of_example =
    get_opaque_type_docs-docs_of opaque_name probe probe_parts refl (
      (refl, refl),
      (
        refl,
        (
          (refl, (((refl, refl), ((refl, refl), tt))), refl, refl, refl),
          ((refl, refl), (refl, ((refl, tt, refl, refl, refl), tt))),
        ),
      ),
    )

documented : get_opaque_type_docs opaque_name probe ≡ ok documentation
unfolding get_opaque_type_docs read_lines read_line read_item insert_captured insert without lines
    trim_line ends_with contains find starts_with ends_item join text_eq
documented = refl

generate_opaque_types-Returns_example :
    Returns (generate_opaque_types layouts_in opaque_name probe messages)
unfolding messages_of error_lines split_type_name name_of_parts category_of category_len last_of
    slice split push_front text_eq contains find starts_with replace lookup lines trim_line
    ends_with
generate_opaque_types-Returns_example =
    (generate_opaque_types-Returns layouts_in opaque_name probe messages).1 (
      refl,
      refl,
      (documentation, documented, ((tt, refl), ((tt, refl), tt)), ((refl, tt), (tt, tt))),
      refl,
    )

abbrev text_of : Panics Text → Text
text_of panic = []
text_of (ok text) = text

abbrev opaque_types : Text
opaque_types = text_of (generate_opaque_types layouts_in opaque_name probe messages)

opaque_types_returned :
    generate_opaque_types layouts_in opaque_name probe messages ≡ ok opaque_types
unfolding generate_opaque_types write_types write_type write_documented messages_of error_lines
    split_type_name name_of_parts category_of category_len last_of slice split push_front text_eq
    contains find starts_with replace lookup without lines trim_line ends_with get_opaque_type_docs
    read_lines read_line read_item insert_captured insert ends_item join
opaque_types_returned = refl

generate_opaque_types-written_example :
    (docs : Docs) × (get_opaque_type_docs opaque_name probe ≡ ok docs)
    × (opaque_types ≡ concat (map (written docs) (layouts_in (messages_of messages))))
generate_opaque_types-written_example =
    generate_opaque_types-written layouts_in opaque_name probe messages opaque_types
      opaque_types_returned
