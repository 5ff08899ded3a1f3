-- ===== src/Generator/Pipeline/Tests.antt =====
-- Concrete inputs for the composition in buildrs/cbindgen_generator.rs.
use mathlib.Core.Bool.{false≢true}
use zenoh_c.Common.{true, inl, inr, ◌≡◌, refl, [], ◌∷◌}
use zenoh_c.Common.Text.{
  Text, Unicode, replace, codes, text_eq, text_eq_iff, is_whitespace, is_alphanumeric, split,
  push_front, contains, find, starts_with,
}
use zenoh_c.Common.Panics.{Panics, ok, panic, slice, Returns}
use zenoh_c.Splitguide.Split.Writes.{Distinct}
use zenoh_c.Splitguide.Split.{Files, header, split_bindings}
use zenoh_c.Splitguide.Tokenizer.{next_token, collect}
use zenoh_c.Splitguide.Token.{next}
use zenoh_c.Splitguide.Record.{add_token}
use zenoh_c.Generator.Signature.{category_of, category_len, last_of, name_of_parts, split_type_name}
use zenoh_c.Generator.Groups.{Regex, collect_matches, semantic_of}
use zenoh_c.Generator.Find.{
  make_move_take_signatures, find_loan_functions, find_loan_mut_functions,
  find_take_from_loaned_functions, find_drop_functions, find_null_functions, find_check_functions,
  find_call_functions, find_closure_constructors, find_recv_functions, find_clone_functions,
}
use zenoh_c.Generator.Features.{Evalexpr, process_feature_defines}
use zenoh_c.Generator.Header.{find_all, create_generics_header, is_complete}
use zenoh_c.Generator.Header.Entities.{is_complete_iff}
use zenoh_c.Generator.Header.Completeness.{IsCovered, create_generics_header-Returns}
use zenoh_c.Generator.Configure.{fix_cbindgen, configure, text_replace}
use zenoh_c.Generator.Pipeline.{
  Build, Headers, unwrap, preprocess_header, text_replace_each, generate_c_headers,
}
use zenoh_c.Generator.Pipeline.Built.{IsBuilt, generate_c_headers-IsBuilt}
use zenoh_c.Generator.Tests.{ascii, says_true, by_table, features, found}

-- A header without features, its guide, and the version.
abbrev generated : Text
generated = codes "typedef struct {int a;} a_t;\nvoid f(int x);\n"

abbrev build : Build
build = record {
  features = features;
  arch = codes "X86_64";
  version = codes "1.4.0";
  yaml = (codes "a.h", codes "a_t!" ∷ []) ∷ (codes "f.h", codes ":functions" ∷ []) ∷ [];
}

abbrev text_of : Panics Text → Text
text_of panic = []
text_of (ok text) = text

abbrev files_of : Panics Files → Files
files_of panic = []
files_of (ok files) = files

abbrev split_files : Files
split_files = files_of (unwrap (split_bindings ascii features build.yaml generated))

abbrev headers : Headers
headers = record {
  macros = text_of (create_generics_header by_table generated);
  configuration = text_of (configure ascii features build.arch build.version);
  files = files_of (text_replace_each by_table split_files);
}

text_of-Returns : (r : Panics Text) → Returns r → r ≡ ok (text_of r)
text_of-Returns panic h = absurd h
text_of-Returns (ok text) h = refl

all_found : find_all by_table generated ≡ ok found
unfolding find_all find_loan_functions find_loan_mut_functions find_take_from_loaned_functions
    find_drop_functions find_null_functions find_check_functions find_call_functions
    find_closure_constructors find_recv_functions find_clone_functions make_move_take_signatures
    collect_matches semantic_of split_type_name name_of_parts category_of category_len last_of slice
    split push_front text_eq contains find starts_with
all_found = refl

covered : IsCovered found
unfolding find_all find_loan_functions find_loan_mut_functions find_take_from_loaned_functions
    find_drop_functions find_null_functions find_check_functions find_call_functions
    find_closure_constructors find_recv_functions find_clone_functions make_move_take_signatures
    collect_matches semantic_of split_type_name name_of_parts category_of category_len last_of slice
    split push_front text_eq contains find starts_with
covered = (refl, refl, refl, refl, refl, refl, refl, refl, refl)

complete : is_complete found ≡ true
unfolding find_all find_loan_functions find_loan_mut_functions find_take_from_loaned_functions
    find_drop_functions find_null_functions find_check_functions find_call_functions
    find_closure_constructors find_recv_functions find_clone_functions make_move_take_signatures
    collect_matches semantic_of split_type_name name_of_parts category_of category_len last_of slice
    split push_front text_eq contains find starts_with is_complete
complete = refl

written : create_generics_header by_table generated ≡ ok headers.macros
written = text_of-Returns (create_generics_header by_table generated) (
    (create_generics_header-Returns by_table generated found all_found).1
      ((is_complete_iff found).0 complete, covered))

preprocessed : process_feature_defines features says_true generated ≡ ok generated
unfolding process_feature_defines
preprocessed = refl

configured : configure ascii features build.arch build.version ≡ ok headers.configuration
unfolding configure
configured = refl

are_split : unwrap (split_bindings ascii features build.yaml generated) ≡ ok split_files
unfolding unwrap split_bindings next_token add_token collect next is_whitespace is_alphanumeric
are_split = refl

are_replaced : text_replace_each by_table split_files ≡ ok headers.files
unfolding text_replace_each text_replace unwrap split_bindings next_token next is_whitespace
    is_alphanumeric add_token collect slice header
are_replaced = refl

paths-Distinct : Distinct (codes "a.h" ∷ codes "f.h" ∷ [])
unfolding text_eq
paths-Distinct = (
  λ i. elim i [ inl e ↦ false≢true ((text_eq_iff (codes "a.h") (codes "f.h")).1 e) | inr k ↦ k ],
  (λ i. i, tt),
)

generate_c_headers-steps :
    (u : Unicode) (evalexpr : Evalexpr) (regex : Regex) (build : Build)
    (buggy pre macros conf : Text) (split_files files : Files)
    → process_feature_defines build.features evalexpr (fix_cbindgen buggy) ≡ ok pre
    → create_generics_header regex pre ≡ ok macros
    → configure u build.features build.arch build.version ≡ ok conf
    → unwrap (split_bindings u build.features build.yaml (fix_cbindgen buggy)) ≡ ok split_files
    → text_replace_each regex split_files ≡ ok files
    → generate_c_headers u evalexpr regex build buggy
      ≡ ok (record { macros = macros; configuration = conf; files = files })
unfolding generate_c_headers preprocess_header
generate_c_headers-steps u evalexpr regex build buggy pre macros conf split_files files e₁ e₂ e₃ e₄
      e₅ =
    rw (e₁, e₂, e₃, e₄, e₅) refl

headers_returned : generate_c_headers ascii says_true by_table build generated ≡ ok headers
unfolding fix_cbindgen replace starts_with
headers_returned =
    generate_c_headers-steps ascii says_true by_table build generated generated _ _ _ _ preprocessed
      written configured are_split are_replaced

generate_c_headers-IsBuilt_example :
    IsBuilt ascii says_true by_table build (fix_cbindgen generated) headers
generate_c_headers-IsBuilt_example =
    generate_c_headers-IsBuilt ascii says_true by_table build generated headers paths-Distinct
      headers_returned
