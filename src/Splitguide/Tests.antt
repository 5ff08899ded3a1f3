-- ===== src/Splitguide/Tests.antt =====
-- A small header cut in two files, and the theorems of buildrs/splitguide.rs at it.
use zenoh_c.Common.{
  ◌≡◌, refl, false, List, [], ◌∷◌, ◌++◌, ok, err, panic, inl, inr, In, ◌↔◌, ◌>>=◌, ◌>>◌, length,
}
use mathlib.Core.Bool.{false≢true}
use zenoh_c.Common.Text.{Text, text_eq, text_eq_iff, codes, Unicode, is_whitespace, is_alphanumeric}
use zenoh_c.Splitguide.Failure.{unmatched_endif, typedef_record, function_record}
use zenoh_c.Splitguide.Guide.{
  SplitGuide, brand, exclusive, shared, from_yaml, appropriate_files, requested_ids,
}
use zenoh_c.Splitguide.Guide.Routing.{GoesTo, appropriate_files-GoesTo}
use zenoh_c.Splitguide.Record.{Record, new, add_token}
use zenoh_c.Splitguide.Record.Tallies.{new-IsSummary}
use zenoh_c.Splitguide.Record.Summary.{Adds, add_token-Adds}
use zenoh_c.Splitguide.Split.{Files, header, check_ids, check_used, split_with, split_bindings}
use zenoh_c.Splitguide.Split.Writes.{Distinct, render, delivered, marked, paths_of, split_with-eq}
use zenoh_c.Splitguide.Split.Delivery.{IsDelivered, split_bindings-IsDelivered}
use mathlib.Core.Option.{some}
use zenoh_c.Splitguide.Token.{Token, token, typedef_token, const_token, next}
use zenoh_c.Splitguide.Token.Quoted.{next_quoted}
use zenoh_c.Splitguide.Tokenizer.{tokens, next_token, collect, group_tokens}
use zenoh_c.Splitguide.Tokenizer.Grouping.{Groups, group_tokens-Groups}
use zenoh_c.Splitguide.Tokenizer.Tiling.{Tiles, tokenize-Tiles}

abbrev ascii : Unicode
ascii = record { white_space = λ c. false; alphanumeric = λ c. false }

abbrev bindings : Text
bindings = codes "// x\ntypedef struct {int a;} a_t;\nvoid f(int x);\n"

abbrev features : Text
features = codes " zenoh/unstable zenoh/shared-memory"

abbrev yaml : List (Text × List Text)
yaml =
    (codes "a.h", codes "a_t!#unstable" ∷ codes "b_t#other" ∷ [])
    ∷ (codes "f.h", codes ":functions" ∷ codes "a_t" ∷ [])
    ∷ []

abbrev struct_token : Token
struct_token = token typedef_token (codes "a_t") (codes "typedef struct {int a;} a_t;")

next_quoted_example : next ascii (codes "#include \"zenoh.h\"\n") ≡ panic
next_quoted_example = next_quoted ascii (codes "zenoh.h\"\n")

-- A function with a constant argument is taken for a constant without a name.
next_const_argument :
    next ascii (codes "void f(const int x);\n")
    ≡ ok (some (token const_token [] (codes "void f(const int x);")))
unfolding next is_whitespace is_alphanumeric
next_const_argument = refl

tokenize-Tiles_example : Tiles bindings (tokens ascii (length bindings) bindings)
tokenize-Tiles_example = tokenize-Tiles ascii bindings

group_tokens-Groups_example : Groups bindings (group_tokens ascii bindings)
group_tokens-Groups_example = group_tokens-Groups ascii bindings

group_tokens_unmatched : group_tokens ascii (codes "#if A\n#endif\n#endif\n") ≡ err unmatched_endif
unfolding group_tokens next_token add_token collect next is_whitespace is_alphanumeric
group_tokens_unmatched = refl

add_token-Adds_example : Adds new struct_token (add_token new struct_token)
add_token-Adds_example = add_token-Adds new struct_token new-IsSummary

abbrev files : Files
files =
    (codes "a.h", header ++ codes "// x\ntypedef struct {int a;} a_t;\n")
    ∷ (codes "f.h", header ++ codes "void f(int x);\n")
    ∷ []

split_bindings_run : split_bindings ascii features yaml bindings ≡ ok files
unfolding split_bindings next_token add_token collect next is_whitespace is_alphanumeric
split_bindings_run = refl

paths-Distinct : Distinct (codes "a.h" ∷ codes "f.h" ∷ [])
unfolding text_eq
paths-Distinct = (
  λ i. elim i [ inl e ↦ false≢true ((text_eq_iff (codes "a.h") (codes "f.h")).1 e) | inr k ↦ k ],
  (λ i. i, tt),
)

split_bindings-IsDelivered_example : IsDelivered ascii (from_yaml features yaml) bindings files
split_bindings-IsDelivered_example =
    split_bindings-IsDelivered ascii features yaml bindings files paths-Distinct split_bindings_run

abbrev guide : SplitGuide
guide =
    (codes "a.h", exclusive (codes "a_t") ∷ [])
    ∷ (codes "f.h", brand function_record ∷ shared (codes "a_t") ∷ [])
    ∷ []

split_with-eq_example : split_with ascii guide bindings ≡ (
    group_tokens ascii bindings >>= λ rs.
    check_ids (requested_ids guide) rs
    >> (check_used (marked guide rs)
        >> ok (render (λ q. header ++ delivered guide rs q) (paths_of guide))))
split_with-eq_example = split_with-eq ascii guide bindings paths-Distinct

abbrev typedef_of_a : Record
typedef_of_a = record new {
  rt = typedef_record;
  ids = codes "a_t" ∷ [];
  tokens = struct_token ∷ [];
}

appropriate_files-GoesTo_example :
    In (codes "a.h") (appropriate_files guide typedef_of_a)
    ↔ GoesTo typedef_of_a guide (codes "a.h")
appropriate_files-GoesTo_example = appropriate_files-GoesTo typedef_of_a guide (codes "a.h")
