-- ===== src/Generator/Find.antt =====
-- The functions of buildrs/cbindgen_generator.rs that find functions in the header: `find_*` and
-- `make_move_take_signatures`, behind the reading of the file, with the patterns of the source.
pub mod Shapes
use zenoh_c.Common.{List, [], ◌∷◌, map}
use zenoh_c.Common.Text.{Text, codes}
use zenoh_c.Common.Panics.{Panics, ok, ◌>>=◌}
use zenoh_c.Generator.Signature.{FunctionSignature, split_type_name, type_in}
use zenoh_c.Generator.Groups.{
  Regex, collect_matches, semantic_of, drop_return_type, call_signature_of, move_take_of, loan_of,
  loan_mut_of, take_from_loaned_of, drop_of, null_of, check_of, call_of, closure_of, recv_of,
  clone_of,
}

module _ (regex : Regex) where
  unfoldable pub make_move_take_signatures :
      Text → Panics (List FunctionSignature × List FunctionSignature)
  unfolding collect_matches
  make_move_take_signatures bindings =
      collect_matches move_take_of
        (regex.captures_iter (codes "(\\w+)_drop\\(struct (\\w+) \\*(\\w+)\\);") bindings)
      >>= λ pairs. ok (map (λ p. p.0) pairs, map (λ p. p.1) pairs)

  unfoldable pub find_loan_functions : Text → Panics (List FunctionSignature)
  unfolding collect_matches
  find_loan_functions bindings = collect_matches loan_of (
      regex.captures_iter
        (codes "const struct (\\w+) \\*(\\w+)_loan\\(const struct (\\w+) \\*(\\w+)\\);") bindings)

  unfoldable pub find_loan_mut_functions : Text → Panics (List FunctionSignature)
  unfolding collect_matches
  find_loan_mut_functions bindings = collect_matches loan_mut_of (
      regex.captures_iter (codes "struct (\\w+) \\*(\\w+)_loan_mut\\(struct (\\w+) \\*(\\w+)\\);")
        bindings)

  unfoldable pub find_take_from_loaned_functions : Text → Panics (List FunctionSignature)
  unfolding collect_matches
  find_take_from_loaned_functions bindings = collect_matches take_from_loaned_of (
      regex.captures_iter (codes "void (\\w+)_take_from_loaned\\(struct (\\w+) \\*(\\w+)") bindings)

  unfoldable pub find_drop_functions : Text → Panics (List FunctionSignature)
  unfolding collect_matches
  find_drop_functions bindings =
      collect_matches drop_of
        (regex.captures_iter (codes "(.+?) +(\\w+_drop)\\(struct (\\w+) \\*(\\w+)\\);") bindings)

  unfoldable pub find_null_functions : Text → Panics (List FunctionSignature)
  unfolding collect_matches
  find_null_functions bindings = collect_matches null_of (
      regex.captures_iter (codes " (z.?_internal_\\w+_null)\\(struct (\\w+) \\*(\\w+)\\);")
        bindings)

  unfoldable pub find_check_functions : Text → Panics (List FunctionSignature)
  unfolding collect_matches
  find_check_functions bindings = collect_matches check_of (
      regex.captures_iter
        (codes "bool (z.?_internal_\\w+_check)\\(const struct (\\w+) \\*(\\w+)\\);") bindings)

  unfoldable pub find_call_functions : Text → Panics (List FunctionSignature)
  unfolding collect_matches
  find_call_functions bindings = collect_matches call_of (
      regex.captures_iter
        (codes
          "(\\w+) (\\w+)_call\\(const struct (\\w+) \\*(\\w+),\\s+(\\w*)\\s*struct (\\w+) (\\*?)(\\w+)\\);")
        bindings)

  unfoldable pub find_closure_constructors : Text → Panics (List FunctionSignature)
  unfolding collect_matches
  find_closure_constructors bindings = collect_matches (closure_of regex) (
      regex.captures_iter
        (codes
          "(\\w+) (\\w+)_closure_(\\w+)\\(struct\\s+(\\w+)\\s+\\*(\\w+),\\s+void\\s+\\(\\*call\\)(\\([\\s\\w,\\*]*\\)),\\s+void\\s+\\(\\*drop\\)(\\(.*\\)),\\s+void\\s+\\*context\\);")
        bindings)

  unfoldable pub find_recv_functions : Text → Panics (List FunctionSignature)
  unfolding collect_matches
  find_recv_functions bindings = collect_matches recv_of (
      regex.captures_iter
        (codes
          "(\\w+)\\s+z_(\\w+)_handler_(\\w+)_recv\\(const\\s+struct\\s+(\\w+)\\s+\\*(\\w+),\\s+struct\\s+(\\w+)\\s+\\*(\\w+)\\);")
        bindings)

  unfoldable pub find_clone_functions : Text → Panics (List FunctionSignature)
  unfolding collect_matches
  find_clone_functions bindings = collect_matches clone_of (
      regex.captures_iter
        (codes
          "(\\w+)\\s+z_(\\w+)_clone\\(struct\\s+(\\w+)\\s+\\*(\\w+),\\s+const\\s+struct\\s+(\\w+)\\s+\\*(\\w+)\\);")
        bindings)
