-- ===== src/Generator/Tests.antt =====
-- Concrete inputs for the models of buildrs/cbindgen_generator.rs.
use zenoh_c.Common.{false, Bool, not, ◌≡◌, ◌↔◌, refl, some, List, [], ◌∷◌, ◌++◌, In, if◌then◌else◌}
use zenoh_c.Common.Text.{
  Unicode, Text, codes, text_eq, starts_with, split, find, contains, replace, lines, ends_with, pop,
  trim_line, push_front,
}
use zenoh_c.Common.Panics.{Panics, ok, panic, slice, Returns}
use zenoh_c.Generator.Signature.{
  without_cv, without_ptr, func_arg, FunctionSignature, function_signature, TypeName, category_of,
  category_len, last_of, name_of_parts, split_type_name, type_in,
}
use zenoh_c.Generator.Signature.Names.{split_type_name-type_in}
use zenoh_c.Generator.Features.{Evalexpr, evaluate_c_defines_line, process_feature_defines}
use zenoh_c.Generator.Features.Blocks.{
  Blocks, done, line, group, prune, process_feature_defines-prune,
}
use zenoh_c.Generator.Features.Levels.{process_feature_defines-returns}
use zenoh_c.Generator.Groups.{Regex, collect_matches, semantic_of}
use zenoh_c.Generator.Find.{
  make_move_take_signatures, find_loan_functions, find_loan_mut_functions,
  find_take_from_loaned_functions, find_drop_functions, find_null_functions, find_check_functions,
  find_call_functions, find_closure_constructors, find_recv_functions, find_clone_functions,
}
use zenoh_c.Generator.Macros.{arg_at}
use zenoh_c.Generator.Overloads.{loan_pairs}
use zenoh_c.Generator.Overloads.Pairs.{FirstFrom, loan_pairs-first}
use zenoh_c.Generator.Header.{Functions, find_all, create_generics_header}
use zenoh_c.Generator.Header.Entities.{IsComplete}
use zenoh_c.Generator.Header.Completeness.{IsCovered, create_generics_header-Returns}

-- A value is whether the text has `true` in it.
abbrev pub says_true : Evalexpr
says_true = record {
  Value = Bool;
  eval = λ s. some (contains s (codes "true"));
  is_false = λ b. not b;
}

abbrev pub features : Text
features = codes " zenoh/unstable"

abbrev sample_header : Text
sample_header =
    codes
      "a\n#if defined(Z_FEATURE_SHARED_MEMORY)\nb\n#ifdef X\nc\n#endif\n#endif\n#ifndef Y\nd\n#endif\n"

abbrev sample_blocks : Blocks
sample_blocks = line (codes "a") (
    group (codes "#if defined(Z_FEATURE_SHARED_MEMORY)")
      (line (codes "b") (group (codes "#ifdef X") (line (codes "c") done) (codes "#endif") done))
      (codes "#endif") (group (codes "#ifndef Y") (line (codes "d") done) (codes "#endif") done))

process_feature_defines-prune_example :
    process_feature_defines features says_true sample_header
    ≡ prune features says_true sample_blocks
unfolding lines split trim_line ends_with pop starts_with push_front
process_feature_defines-prune_example =
    process_feature_defines-prune features says_true sample_header sample_blocks refl (
      refl,
      refl,
      refl,
      (
        refl,
        (refl, refl, refl, (refl, (refl, refl, refl, tt), refl, tt)),
        refl,
        (refl, (refl, refl, refl, tt), refl, tt),
      ),
    )

abbrev short_header : Text
short_header = codes "#if x\n#endif\n#endif\n"

can_evaluate : (s : Text) → ¬ (evaluate_c_defines_line features says_true s ≡ panic)
unfolding evaluate_c_defines_line
can_evaluate s e = cc e

process_feature_defines-returns_example :
    (out : Text) × (process_feature_defines features says_true short_header ≡ ok out)
unfolding lines split trim_line ends_with pop push_front
process_feature_defines-returns_example =
    process_feature_defines-returns features says_true short_header
      ((λ h. can_evaluate _), ((λ h. can_evaluate _), ((λ h. can_evaluate _), tt)))

abbrev string_name : TypeName
string_name = record {
  prefix = codes "z";
  category = some (codes "loaned");
  semantic = codes "string_array";
  postfix = codes "t";
}

split_type_name-type_in_example :
    split_type_name (type_in (codes "owned") string_name ++ codes "*")
    ≡ ok (record string_name { category = some (codes "owned"); postfix = codes "t" ++ codes "*" })
unfolding split_type_name name_of_parts category_of category_len last_of slice split push_front
    text_eq
split_type_name-type_in_example =
    split_type_name-type_in (codes "z_loaned_string_array_t") (codes "owned") (codes "*")
      string_name refl refl (refl, tt)

abbrev pub words : Text → List Text
words s = split b' ' s

-- The first entry whose key is in the pattern.
abbrev pub choose : Text → List (Text × List (List Text)) → List (List Text)
choose pattern [] = []
choose pattern ((key, matches) ∷ table) =
    if contains pattern key then matches else choose pattern table

-- A match for every pattern, and two for the receivers.
abbrev pub match_table : List (Text × List (List Text))
match_table =
    (codes "_loan_mut", words (codes "z_loaned_string_t z_string z_owned_string_t this_") ∷ [])
    ∷ (codes "_loan\\", words (codes "z_loaned_string_t z_string z_owned_string_t this_") ∷ [])
    ∷ (codes "_from_loaned", words (codes "z_string z_owned_string_t this_") ∷ [])
    ∷ (codes ".+?", words (codes "void z_string_drop z_moved_string_t this_") ∷ [])
    ∷ (codes ")_drop", words (codes "z_string z_moved_string_t this_") ∷ [])
    ∷ (codes "_null", words (codes "z_internal_string_null z_owned_string_t this_") ∷ [])
    ∷ (codes "_check", words (codes "z_internal_string_check z_owned_string_t this_") ∷ [])
    ∷ (codes "_closure_", words (codes "void z string z_owned_string_t this_ (x) (y)") ∷ [])
    ∷ (
      codes "_call",
      words (codes "void z_string z_owned_string_t this_ const z_loaned_string_t * arg") ∷ [],
    )
    ∷ (
      codes "_recv",
      words (codes "int fifo string z_loaned_string_t this_ z_owned_string_t dst")
          ∷ words (codes "int fifo string_try z_loaned_string_t this_ z_owned_string_t dst")
          ∷ [],
    )
    ∷ (codes "_clone", words (codes "void string z_owned_string_t dst z_loaned_string_t src") ∷ [])
    ∷ []

abbrev pub by_table : Regex
by_table = record {
  captures_iter = λ pattern s. choose pattern match_table;
  captures_at = λ pattern s. [];
  replace_all = λ pattern s to. s;
}

abbrev pub value_of : Functions → Panics Functions → Functions
value_of other panic = other
value_of other (ok fs) = fs

abbrev pub nothing_found : Functions
nothing_found = record {
  move_funcs = [];
  take_funcs = [];
  loan_funcs = [];
  loan_mut_funcs = [];
  take_from_loaned_funcs = [];
  drop_funcs = [];
  null_funcs = [];
  check_funcs = [];
  call_funcs = [];
  closure_constructors = [];
  recv_funcs = [];
  clone_funcs = [];
}

abbrev pub found : Functions
found = value_of nothing_found (find_all by_table [])

create_generics_header-Returns_example :
    Returns (create_generics_header by_table []) ↔ (IsComplete found × IsCovered found)
unfolding find_all find_loan_functions find_loan_mut_functions find_take_from_loaned_functions
    find_drop_functions find_null_functions find_check_functions find_call_functions
    find_closure_constructors find_recv_functions find_clone_functions make_move_take_signatures
    collect_matches semantic_of split_type_name name_of_parts category_of category_len last_of slice
    split push_front text_eq contains find starts_with
create_generics_header-Returns_example = create_generics_header-Returns by_table [] found refl

abbrev loan : Text → Text → FunctionSignature
loan returned borrowed =
    function_signature (codes "x") returned (codes "x_loan")
      (func_arg borrowed (codes "this_") ∷ [])

-- A view in front of an owned type, and an owned type.
abbrev loans : List FunctionSignature
loans =
    loan (codes "const z_loaned_string_t*") (codes "const z_view_string_t*")
    ∷ loan (codes "const z_loaned_string_t*") (codes "const z_owned_string_t*")
    ∷ loan (codes "const z_loaned_slice_t*") (codes "const z_owned_slice_t*")
    ∷ []

abbrev slice_pair : List (Text × Text)
slice_pair = (codes "z_loaned_slice_t", codes "z_owned_slice_t") ∷ []

loan_pairs-first_example :
    In (codes "z_loaned_string_t", codes "z_owned_string_t") slice_pair
    ↔ FirstFrom loans (codes "z_loaned_string_t") (codes "z_owned_string_t")
unfolding loan_pairs arg_at text_eq contains find starts_with without_cv without_ptr replace
loan_pairs-first_example = loan_pairs-first loans slice_pair refl _ _

-- Characters above ASCII are neither white space nor letters.
abbrev pub ascii : Unicode
ascii = record { white_space = λ c. false; alphanumeric = λ c. false }

abbrev move_take : List FunctionSignature × List FunctionSignature
move_take = (found.move_funcs, found.take_funcs)
