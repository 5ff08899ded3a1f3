-- ===== src/Generator/Opaque.antt =====
-- buildrs/opaque_types_generator.rs: the Rust structs that are written for the sizes in the messages
-- of the compiler, and the documentation comments of the probe crate. The regex crate is a
-- parameter: `layouts` has the captures of `type: (\w+), align: (\d+), size: (\d+)`, and `opaque`
-- the second capture of the other expression. The command that runs cargo is not modelled.
pub mod Comments
pub mod Documented
mod Tests
use zenoh_c.Common.{
  ℕ, ◌+◌, Bool, true, false, ◌||◌, ◌&&◌, not, Option, none, some, List, [], ◌∷◌, ◌++◌,
  if◌then◌else◌, length, filter, map, reverse, is_empty, ◌==◌,
}
use zenoh_c.Common.Text.{Text, codes, text_eq, starts_with, contains, replace, concat, lines, join}
use zenoh_c.Common.Panics.{Panics, ok, panic, ◌>>=◌}
use zenoh_c.Generator.Signature.{TypeName, split_type_name}

pub record Layout : Type 0 where
  pub type_name : Text
  pub align : Text
  pub size : Text

-- `HashMap<String, Vec<String>>`
abbrev pub Docs : Type 0
Docs = List (Text × List Text)

unfoldable pub lookup : Text → Docs → Option (List Text)
unfolding text_eq
lookup k [] = none
lookup k ((j, doc) ∷ docs) = if text_eq k j then some doc else lookup k docs

unfoldable pub without : Text → Docs → Docs
unfolding text_eq
without k [] = []
without k ((j, doc) ∷ docs) = if text_eq k j then without k docs else (j, doc) ∷ without k docs

unfoldable pub inner_field_name : Text → Text
unfolding text_eq
inner_field_name type_name =
    if text_eq type_name (codes "z_id_t") then codes "pub id" else codes "_0"

-- `category == Some("owned")`
unfoldable pub is_owned : TypeName → Bool
unfolding text_eq
is_owned t = elim t.category [ none ↦ false | some cat ↦ text_eq cat (codes "owned") ]

-- `format!("{}_{}_{}_{}", prefix, "moved", semantic, postfix)`
unfoldable pub moved_type_name : TypeName → Text
moved_type_name t = t.prefix ++ codes "_moved_" ++ t.semantic ++ codes "_" ++ t.postfix

unfoldable pub moved_struct : Text → TypeName → Text
unfolding moved_type_name
moved_struct name t =
    codes "#[repr(C)]\n#[rustfmt::skip]\npub struct "
    ++ moved_type_name t
    ++ codes " {\n    _this: "
    ++ name
    ++ codes ",\n}\n\n#[rustfmt::skip]\nimpl crate::transmute::TakeCType for "
    ++ moved_type_name t
    ++ codes " {\n    type CType = "
    ++ name
    ++ codes
        ";\n    fn take_c_type(&mut self) -> Self::CType {\n        use crate::transmute::Gravestone;\n        std::mem::replace(&mut self._this, "
    ++ name
    ++ codes "::gravestone())\n    }\n}\n\n#[rustfmt::skip]\nimpl Drop for "
    ++ name
    ++ codes
        " {\n    fn drop(&mut self) {\n        use crate::transmute::{RustTypeRef, Gravestone, IntoRustType};\n        let _ = std::mem::replace(self.as_rust_type_mut(), "
    ++ name
    ++ codes "::gravestone().into_rust_type());\n    }\n}\n"

unfoldable pub struct_of : Layout → TypeName → Text
unfolding is_owned inner_field_name moved_struct
struct_of l t =
    (if is_owned t then [] else codes "#[derive(Copy, Clone)]\n")
    ++ codes "#[repr(C, align("
    ++ l.align
    ++ codes "))]\n#[rustfmt::skip]\npub struct "
    ++ l.type_name
    ++ codes " {\n    "
    ++ inner_field_name l.type_name
    ++ codes ": [u8; "
    ++ l.size
    ++ codes "],\n}\n"
    ++ (if is_owned t then moved_struct l.type_name t else [])

-- The lines of the documentation, as they are written.
unfoldable pub doc_text : List Text → Text
unfolding concat
doc_text doc = concat (map (λ d. d ++ codes "\r\n") doc)

-- One round of the loop, and the loop: what is written, and the documentation that is left.
unfoldable pub write_documented :
    Layout → TypeName → Option (List Text) → Text × Docs → Panics (Text × Docs)
unfolding doc_text struct_of without
write_documented l t none s = panic
write_documented l t (some doc) (out, docs) =
    ok (out ++ doc_text doc ++ struct_of l t, without l.type_name docs)

unfoldable pub write_type : Layout → Text × Docs → Panics (Text × Docs)
unfolding split_type_name write_documented lookup
write_type l s =
    split_type_name l.type_name >>= λ t. write_documented l t (lookup l.type_name s.1) s

unfoldable pub write_types : List Layout → Text × Docs → Panics (Text × Docs)
unfolding write_type
write_types [] s = ok s
write_types (l ∷ ls) s = write_type l s >>= write_types ls

unfoldable pub error_lines : Text → List Text
unfolding lines starts_with
error_lines messages = filter (λ line. starts_with line (codes "error[E")) (lines messages)

unfoldable pub messages_of : Text → Text
unfolding replace
messages_of file = replace file (codes "\r") (codes "\n")

-- The state of the loop over the lines of the probe crate.
pub record Reading : Type 0 where
  pub comments : List Text
  pub opaque_lines : List Text
  pub res : Docs

-- `line.ends_with(");")`
unfoldable pub ends_item : Text → Bool
unfolding starts_with
ends_item line = starts_with (reverse line) (codes ";)")

unfoldable pub insert : Text → List Text → Docs → Docs
unfolding without
insert k doc docs = (k, doc) ∷ without k docs

unfoldable pub insert_captured : Option Text → Reading → Panics Reading
unfolding insert
insert_captured none r = panic
insert_captured (some name) r =
    ok (record { comments = []; opaque_lines = []; res = insert name r.comments r.res })

-- A line that is no comment.
unfoldable pub read_item : (Text → Option Text) → Text → Reading → Panics Reading
unfolding starts_with ends_item insert_captured join
read_item opaque line r =
    let in_item =
      starts_with line (codes "get_opaque_type_data!(") || not (is_empty r.opaque_lines) in
    let pushed = if in_item then r.opaque_lines ++ line ∷ [] else r.opaque_lines in
    if not (is_empty pushed) && ends_item line
    then insert_captured (opaque (join [] pushed)) r
    else ok (record r { opaque_lines = pushed })

unfoldable pub read_line : (Text → Option Text) → Text → Reading → Panics Reading
unfolding starts_with read_item
read_line opaque line r =
    if starts_with line (codes "///")
    then ok (record r { comments = r.comments ++ line ∷ [] })
    else read_item opaque line r

unfoldable pub read_lines : (Text → Option Text) → List Text → Reading → Panics Reading
unfolding read_line
read_lines opaque [] r = ok r
read_lines opaque (line ∷ rest) r = read_line opaque line r >>= read_lines opaque rest

unfoldable pub get_opaque_type_docs : (Text → Option Text) → Text → Panics Docs
unfolding lines read_lines
get_opaque_type_docs opaque text =
    read_lines opaque (lines text) (record { comments = []; opaque_lines = []; res = [] }) >>= λ r.
    ok r.res

-- `generate_opaque_types`, from the messages of the compiler and the text of the probe crate to what
-- opaque_types.rs holds.
unfoldable pub generate_opaque_types :
    (Text → List Layout) → (Text → Option Text) → Text → Text → Panics Text
unfolding contains messages_of get_opaque_type_docs error_lines write_types
generate_opaque_types layouts opaque probe file =
    let data_in = messages_of file in
    if contains data_in (codes "error: failed to") || contains data_in (codes "Caused by:")
    then panic
    else get_opaque_type_docs opaque probe >>= λ docs.
        write_types (layouts data_in) ([], docs) >>= λ s.
        if length (layouts data_in) == length (error_lines data_in) then ok s.0 else panic
