-- ===== src/Generator/Configure.antt =====
-- `configure` and what `text_replace` does to the text of each file, of
-- buildrs/cbindgen_generator.rs. The regex crate is a parameter, and so is the target's
-- architecture, in capitals.
pub mod Versions
use zenoh_c.Common.{ℕ, List, [], ◌∷◌, ◌++◌, if◌then◌else◌, length}
use zenoh_c.Common.Text.{Text, codes, Unicode, trim, split, replace, to_ascii_uppercase}
use zenoh_c.Common.Panics.{Panics, ok, panic, ◌>>=◌, slice}
use zenoh_c.Splitguide.Guide.{test_feature}
use zenoh_c.Generator.Features.{rust_to_c_features}
use zenoh_c.Generator.Groups.{Regex}

-- The lines for the enabled features.
unfoldable pub feature_defines : Text → List (Text × Text) → Text
feature_defines features [] = []
feature_defines features ((rust_feature, c_feature) ∷ table) =
    (if test_feature features rust_feature then codes "#define " ++ c_feature ++ codes "\n" else [])
    ++ feature_defines features table

-- The fourth part, with a space in front.
abbrev tweak_of : List Text → Text
tweak_of [] = []
tweak_of (val ∷ _) = codes " " ++ val

unfoldable pub version_defines : Text → Text → List Text → Panics Text
version_defines arch version (major ∷ minor ∷ patch ∷ rest) = ok (
    codes "#pragma once\n#define ZENOH_C \""
    ++ version
    ++ codes "\"\n#define ZENOH_C_MAJOR "
    ++ major
    ++ codes "\n#define ZENOH_C_MINOR "
    ++ minor
    ++ codes "\n#define ZENOH_C_PATCH "
    ++ patch
    ++ codes "\n#define ZENOH_C_TWEAK"
    ++ tweak_of rest
    ++ codes "\n\n#define TARGET_ARCH_"
    ++ arch
    ++ codes "\n\n")
version_defines arch version _ = panic

-- From the text of version.txt to the text of zenoh_configure.h.
unfoldable pub configure : Unicode → Text → Text → Text → Panics Text
unfolding trim split version_defines feature_defines
configure u features arch text =
    let version = trim u text in
    version_defines arch version (split b'.' version) >>= λ out.
    ok (out ++ feature_defines features rust_to_c_features)

module _ (regex : Regex) where
  unfoldable pub add_deprecated_z_locality_enum_values : Text → Text
  add_deprecated_z_locality_enum_values bindings =
      let renamed =
        regex.replace_all (codes "(\\s*)Z_LOCALITY_(\\w+)(\\s*)=(\\s*)(\\d)(,*)") bindings (
          codes "${1}Z_LOCALITY_$2$3=$4$5,"
          ++ codes "${1}/**"
          ++ codes "${1}* @warning This API is deprecated. Please use `Z_LOCALITY_$2`."
          ++ codes "${1}*/"
          ++ codes "${1}ZC_LOCALITY_$2$3=$4$5$6") in
      regex.replace_all (codes "(\\s*)}(\\s*)z_locality_t;") renamed (
        codes "${1}}${2}z_locality_t;"
        ++ codes "${1}/**"
        ++ codes "${1}* @warning This API is deprecated. Please use `z_locality_t`."
        ++ codes "${1}*/"
        ++ codes "${1}typedef z_locality_t zc_locality_t;")

  -- What stands in place of one match. A group that is not there is a panic.
  unfoldable pub default_variant : List Text → Panics Text
  unfolding to_ascii_uppercase
  default_variant (g1 ∷ g2 ∷ g3 ∷ g4 ∷ g5 ∷ g6 ∷ g7 ∷ g8 ∷ g9 ∷ []) = ok (
      codes "typedef enum "
      ++ g1
      ++ codes "_t {"
      ++ g2
      ++ g3
      ++ codes "*/"
      ++ g4
      ++ g5
      ++ g6
      ++ codes "="
      ++ g7
      ++ g8
      ++ codes ", "
      ++ g4
      ++ to_ascii_uppercase g1
      ++ codes "_DEFAULT"
      ++ g6
      ++ codes "="
      ++ g7
      ++ g5
      ++ g9)
  default_variant _ = panic

  -- The loop over the matches, and the text behind the last of them.
  unfoldable pub enum_defaults : Text → ℕ → List ((ℕ × ℕ) × List Text) → Panics Text
  unfolding default_variant
  enum_defaults bindings last_match [] = slice bindings last_match (length bindings)
  enum_defaults bindings last_match (((start, stop), groups) ∷ rest) =
      slice bindings last_match start >>= λ before. default_variant groups >>= λ variant.
      enum_defaults bindings stop rest >>= λ behind. ok (before ++ variant ++ behind)

  unfoldable pub add_enum_defaults : Text → Panics Text
  unfolding enum_defaults
  add_enum_defaults bindings = enum_defaults bindings 0 (
      regex.captures_at
        (codes
          "typedef enum ([\\w_]+)_t \\{([^\\[^\\}]*?)\\[Default\\](\\s*)\\*\\/(\\s*)([\\w_]*)(\\s*)=(\\s*)(\\d)(,*)")
        bindings)

  -- Between the reading and the writing of a file.
  unfoldable pub text_replace : Text → Panics Text
  unfolding replace add_deprecated_z_locality_enum_values add_enum_defaults
  text_replace buf =
      let shorter = replace buf (codes "_T_") (codes "_") in
      let tagged = replace shorter (codes "_t_Tag") (codes "_tag_t") in
      let exported = replace tagged (codes "extern const") (codes "ZENOHC_API extern const") in
      add_enum_defaults (add_deprecated_z_locality_enum_values exported)

-- `fix_cbindgen`, between the reading and the writing.
unfoldable pub fix_cbindgen : Text → Text
unfolding replace
fix_cbindgen bindings = replace bindings (codes "\n#endif\n  ;") (codes ";\n#endif")
