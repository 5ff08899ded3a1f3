-- ===== src/Generator/Pipeline/Built.antt =====
-- What a run of `generate_c_headers` of buildrs/cbindgen_generator.rs that returns has written.
use zenoh_c.Common.{◌≡◌, refl, sym, subst, List, [], ◌∷◌, map, ap, ◌≤◌, Outcome}
use zenoh_c.Common.Text.{Text, Unicode, trim}
use zenoh_c.Common.Panics.{ok, bind-ok, ok_injective, Returns}
use zenoh_c.Splitguide.Failure.{Failure}
use zenoh_c.Splitguide.Guide.{from_yaml}
use zenoh_c.Splitguide.Split.{Files, split_bindings}
use zenoh_c.Splitguide.Split.Writes.{Distinct}
use zenoh_c.Splitguide.Split.Delivery.{IsDelivered, split_bindings-IsDelivered}
use zenoh_c.Generator.Features.{Evalexpr, process_feature_defines}
use zenoh_c.Generator.Groups.{Regex}
use zenoh_c.Generator.Configure.{fix_cbindgen, configure, text_replace}
use zenoh_c.Generator.Configure.Versions.{count, configure_iff}
use zenoh_c.Generator.Header.{Functions, find_all, create_generics_header}
use zenoh_c.Generator.Header.Entities.{IsComplete}
use zenoh_c.Generator.Header.Completeness.{IsCovered, create_generics_header-Returns}
use zenoh_c.Generator.Pipeline.{
  Build, Headers, unwrap, preprocess_header, text_replace_each, generate_c_headers,
}

-- Each file under the same path, with its text replaced.
abbrev pub AreReplaced : Regex → Files → Files → Type 0
AreReplaced regex [] [] = Unit
AreReplaced regex ((path, text) ∷ before) ((path', text') ∷ after) =
    (path' ≡ path) × (text_replace regex text ≡ ok text') × AreReplaced regex before after
AreReplaced regex _ _ = ⊥

text_replace_each-AreReplaced :
    (regex : Regex) (before after : Files)
    → text_replace_each regex before ≡ ok after
    → AreReplaced regex before after
unfolding text_replace_each
text_replace_each-AreReplaced regex [] [] e = tt
text_replace_each-AreReplaced regex [] (f ∷ after) e = absurd (cc e)
text_replace_each-AreReplaced regex ((path, text) ∷ before) after e =
    let (changed, e₁, e₂) = bind-ok (text_replace regex text) _ e in
    let (rest, e₃, e₄) = bind-ok (text_replace_each regex before) _ e₂ in
    subst (AreReplaced regex ((path, text) ∷ before)) (ok_injective e₄)
      (refl, e₁, text_replace_each-AreReplaced regex before rest e₃)

unwrap-ok : (r : Outcome Failure Files) {files : Files} → unwrap r ≡ ok files → r ≡ Outcome.ok files
unfolding unwrap
unwrap-ok (Outcome.ok files) e = ap Outcome.ok (ok_injective e)
unwrap-ok _ e = absurd (cc e)

-- What has been made of the header that cbindgen has written.
pub record IsBuilt (u : Unicode) (evalexpr : Evalexpr) (regex : Regex) (build : Build)
    (generated : Text) (headers : Headers) : Type 0 where
  pub preprocessed : Text
  pub functions : Functions
  pub split_files : Files
  pub is_preprocessed : process_feature_defines build.features evalexpr generated ≡ ok preprocessed
  pub are_found : find_all regex preprocessed ≡ ok functions
  pub are_written : create_generics_header regex preprocessed ≡ ok headers.macros
  pub is_configured : configure u build.features build.arch build.version ≡ ok headers.configuration
  pub is_complete : IsComplete functions
  pub is_covered : IsCovered functions
  pub has_dots : 2 ≤ count b'.' (trim u build.version)
  pub is_delivered : IsDelivered u (from_yaml build.features build.yaml) generated split_files
  pub are_replaced : AreReplaced regex split_files headers.files

-- Where the paths of the guide file are distinct, as the keys of a map are, and `generate_c_headers`
-- returns: the functions for the macros have been found in the header with its features evaluated,
-- the entities with functions to drop, set to null, check, move and take are the same, and no macro
-- is without functions; the version has two dots or more; and each file of the guide holds, with its
-- text replaced, the licence header and what the records of the generated header send to it in
-- order, where every identifier that the guide asks for is found and every record that is neither
-- empty nor private goes to a file.
pub generate_c_headers-IsBuilt :
    (u : Unicode) (evalexpr : Evalexpr) (regex : Regex) (build : Build) (buggy : Text)
    (headers : Headers)
    → Distinct (map (λ (entry : Text × List Text). entry.0) build.yaml)
    → generate_c_headers u evalexpr regex build buggy ≡ ok headers
    → IsBuilt u evalexpr regex build (fix_cbindgen buggy) headers
unfolding generate_c_headers preprocess_header create_generics_header
generate_c_headers-IsBuilt u evalexpr regex build buggy headers d e =
    let (pre, e₁, r₁) =
      bind-ok (preprocess_header build.features evalexpr (fix_cbindgen buggy)) _ e in
    let (macros, e₂, r₂) = bind-ok (create_generics_header regex pre) _ r₁ in
    let (conf, e₃, r₃) = bind-ok (configure u build.features build.arch build.version) _ r₂ in
    let (split_files, e₄, r₄) =
      bind-ok (unwrap (split_bindings u build.features build.yaml (fix_cbindgen buggy))) _ r₃ in
    let (files, e₅, r₅) = bind-ok (text_replace_each regex split_files) _ r₄ in
    let same = ok_injective r₅ in
    let (fs, f₁, _) = bind-ok (find_all regex pre) _ e₂ in
    let (complete, covered) =
      (create_generics_header-Returns regex pre fs f₁).0 (subst Returns (sym e₂) tt) in
    record {
      preprocessed = pre;
      functions = fs;
      split_files = split_files;
      is_preprocessed = e₁;
      are_found = f₁;
      is_complete = complete;
      is_covered = covered;
      has_dots =
          (configure_iff u build.features build.arch build.version).0 (subst Returns (sym e₃) tt);
      is_delivered =
          split_bindings-IsDelivered u build.features build.yaml (fix_cbindgen buggy) split_files d
            (unwrap-ok (split_bindings u build.features build.yaml (fix_cbindgen buggy)) e₄);
      are_replaced =
          subst (λ h. AreReplaced regex split_files h.files) same
            (text_replace_each-AreReplaced regex split_files files e₅);
      are_written = subst (λ h. create_generics_header regex pre ≡ ok h.macros) same e₂;
      is_configured =
          subst (λ h. configure u build.features build.arch build.version ≡ ok h.configuration) same
            e₃;
    }
