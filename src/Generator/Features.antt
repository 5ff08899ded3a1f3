-- ===== src/Generator/Features.antt =====
-- `RUST_TO_C_FEATURES`, `process_feature_defines` and `evaluate_c_defines_line` of
-- buildrs/cbindgen_generator.rs. The features are taken in the order of the source; the evalexpr
-- crate is a parameter.
pub mod Blocks
pub mod Levels
use zenoh_c.Common.{
  ℕ, zero, suc, Bool, true, false, ◌&&◌, ◌||◌, not, Option, none, some, List, [], ◌∷◌, ◌++◌,
  if◌then◌else◌, ◌==◌,
}
use zenoh_c.Common.Text.{Text, codes, replace, starts_with, lines}
use zenoh_c.Common.Panics.{Panics, ok, panic, ◌>>=◌}
use zenoh_c.Splitguide.Guide.{test_feature}

-- `evalexpr::eval`, and `==` with the value of `false`.
pub record Evalexpr : Type 1 where
  pub Value : Type 0
  pub eval : Text → Option Value
  pub is_false : Value → Bool

abbrev pub rust_to_c_features : List (Text × Text)
rust_to_c_features =
    (codes "unstable", codes "Z_FEATURE_UNSTABLE_API")
    ∷ (codes "shared-memory", codes "Z_FEATURE_SHARED_MEMORY")
    ∷ (codes "auth_pubkey", codes "Z_FEATURE_AUTH_PUBKEY")
    ∷ (codes "auth_usrpwd", codes "Z_FEATURE_AUTH_USRPWD")
    ∷ (codes "transport_multilink", codes "Z_FEATURE_TRANSPORT_MULTILINK")
    ∷ (codes "transport_compression", codes "Z_FEATURE_TRANSPORT_COMPRESSION")
    ∷ (codes "transport_quic", codes "Z_FEATURE_TRANSPORT_QUIC")
    ∷ (codes "transport_tcp", codes "Z_FEATURE_TRANSPORT_TCP")
    ∷ (codes "transport_tls", codes "Z_FEATURE_TRANSPORT_TLS")
    ∷ (codes "transport_udp", codes "Z_FEATURE_TRANSPORT_UDP")
    ∷ (codes "transport_unixsock-stream", codes "Z_FEATURE_TRANSPORT_UNIXSOCK_STREAM")
    ∷ (codes "transport_ws", codes "Z_FEATURE_TRANSPORT_WS")
    ∷ (codes "transport_vsock", codes "Z_FEATURE_VSOCK")
    ∷ (codes "transport_quic_datagram", codes "Z_FEATURE_TRANSPORT_QUIC_DATAGRAM")
    ∷ []

-- The state of the loop.
pub record Pruner : Type 0 where
  pub skip : Bool
  pub nest_level : ℕ
  pub out : Text

abbrev pub pruner : Bool → ℕ → Text → Pruner
pruner b n s = record { skip = b; nest_level = n; out = s }

-- `nest_level -= 1`, which overflows at 0, and what follows up to `continue`.
unfoldable pub leave_skipped : Pruner → Panics Pruner
leave_skipped st = elim st.nest_level [ zero ↦ panic | suc n ↦ ok (pruner (not (n == 0)) n st.out) ]

-- The test of `skip` behind the three branches.
unfoldable pub emit : Text → Pruner → Pruner
emit line st = if st.skip then st else pruner st.skip st.nest_level (st.out ++ line ++ codes "\n")

module _ (features : Text) where
  substitute : List (Text × Text) → Text → Text
  unfolding test_feature replace
  substitute [] s = s
  substitute ((rust_feature, c_feature) ∷ table) s = substitute table (
      replace s (codes "defined(" ++ c_feature ++ codes ")")
        (if test_feature features rust_feature then codes "true" else codes "false"))

  module _ (evalexpr : Evalexpr) where
    evaluated : Option evalexpr.Value → Panics Bool
    evaluated none = panic
    evaluated (some v) = ok (evalexpr.is_false v)

    unfoldable pub evaluate_c_defines_line : Text → Panics Bool
    unfolding substitute evaluated replace
    evaluate_c_defines_line line =
        evaluated (evalexpr.eval (replace (substitute rust_to_c_features line) (codes "#if") []))

    -- `skip || evaluate_c_defines_line(&line)`, which evaluates only where nothing is skipped.
    unfoldable pub skip_if : Bool → Text → Panics Bool
    unfolding evaluate_c_defines_line
    skip_if true line = ok true
    skip_if false line = evaluate_c_defines_line line

    unfoldable pub enter_if : Text → Pruner → Panics Pruner
    unfolding skip_if
    enter_if line st = skip_if st.skip line >>= λ b.
        ok (pruner b (if b then suc st.nest_level else st.nest_level) st.out)

    -- One turn of the loop.
    unfoldable pub process_line : Text → Pruner → Panics Pruner
    unfolding leave_skipped emit enter_if starts_with
    process_line line st =
        if starts_with line (codes "#ifdef") && st.skip
        then ok (emit line (pruner st.skip (suc st.nest_level) st.out))
        else if starts_with line (codes "#endif") && st.skip
        then leave_skipped st
        else if starts_with line (codes "#if ")
        then (enter_if line st >>= λ st'. ok (emit line st'))
        else ok (emit line st)

    unfoldable pub process_lines : List Text → Pruner → Panics Pruner
    unfolding process_line
    process_lines [] st = ok st
    process_lines (line ∷ rest) st = process_line line st >>= process_lines rest

    -- Behind the opening of the file.
    unfoldable pub process_feature_defines : Text → Panics Text
    unfolding lines process_lines
    process_feature_defines text =
        process_lines (lines text) (pruner false 0 []) >>= λ st. ok st.out
