-- ===== src/Generator/Pipeline.antt =====
-- `generate_c_headers` of buildrs/cbindgen_generator.rs, from the header that cbindgen has written to
-- the files in include/. The copying of the directory at the end is not modelled.
pub mod Built
mod Tests
use zenoh_c.Common.{List, [], ◌∷◌, Outcome}
use zenoh_c.Common.Text.{Text, Unicode}
use zenoh_c.Common.Panics.{Panics, ok, panic, ◌>>=◌}
use zenoh_c.Splitguide.Failure.{Failure}
use zenoh_c.Splitguide.Split.{Files, split_bindings}
use zenoh_c.Generator.Features.{Evalexpr, process_feature_defines}
use zenoh_c.Generator.Groups.{Regex}
use zenoh_c.Generator.Header.{create_generics_header}
use zenoh_c.Generator.Configure.{fix_cbindgen, configure, text_replace}

-- What the build passes and what lies beside the sources: the features, the architecture in
-- capitals, version.txt and the parsed splitguide.yaml.
pub record Build : Type 0 where
  pub features : Text
  pub arch : Text
  pub version : Text
  pub yaml : List (Text × List Text)

-- zenoh_macros.h, zenoh_configure.h, and the files that the guide names.
pub record Headers : Type 0 where
  pub macros : Text
  pub configuration : Text
  pub files : Files

-- `unwrap`; the fuel of the grouping is always enough.
unfoldable pub unwrap : Outcome Failure Files → Panics Files
unwrap (Outcome.ok files) = ok files
unwrap _ = panic

-- `preprocess_header`, between the reading and the writing.
unfoldable pub preprocess_header : Text → Evalexpr → Text → Panics Text
unfolding process_feature_defines
preprocess_header features evalexpr text = process_feature_defines features evalexpr text

-- `text_replace` of each file.
unfoldable pub text_replace_each : Regex → Files → Panics Files
unfolding text_replace
text_replace_each regex [] = ok []
text_replace_each regex ((path, text) ∷ files) = text_replace regex text >>= λ changed.
    text_replace_each regex files >>= λ rest. ok ((path, changed) ∷ rest)

unfoldable pub generate_c_headers : Unicode → Evalexpr → Regex → Build → Text → Panics Headers
unfolding fix_cbindgen preprocess_header create_generics_header configure split_bindings unwrap
    text_replace_each
generate_c_headers u evalexpr regex build buggy =
    let generated = fix_cbindgen buggy in
    preprocess_header build.features evalexpr generated >>= λ preprocessed.
    create_generics_header regex preprocessed >>= λ macros.
    configure u build.features build.arch build.version >>= λ configuration.
    unwrap (split_bindings u build.features build.yaml generated) >>= λ split_files.
    text_replace_each regex split_files >>= λ files.
    ok (record { macros = macros; configuration = configuration; files = files })
