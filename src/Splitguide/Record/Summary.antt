-- ===== src/Splitguide/Record/Summary.antt =====
-- `Record::add_token` of buildrs/splitguide.rs, and what a record says of its tokens.
use mathlib.Core.List.{append-nil}
use zenoh_c.Common.{
  ℕ, ◌+◌, ◌-◌, ◌≡◌, refl, inl, inr, Bool-cases, none, some, [], ◌∷◌, ◌++◌, ◌==◌, ◌≤◌, ltb, Outcome,
  ok, err, panic, out_of_fuel, arith,
}
use zenoh_c.Splitguide.Failure.{
  Failure, unmatched_endif, RecordType, private_token, typedef_record, function_record,
  const_record, prepr_define, prepr_include,
}
use zenoh_c.Splitguide.Token.{
  TokenType, Token, comment_token, typedef_token, function_token, const_token, define_token,
  include_token, if_token, else_token, endif_token, whitespace_token,
}
use zenoh_c.Splitguide.Record.{
  Record, i32_max, add, push_token, push_record_type_token, push_prepr_if, push_prepr_endif,
  add_token,
}
use zenoh_c.Splitguide.Record.Tallies.{
  record_type, types_of, ids_of, is_if, is_endif, ifs, endifs, IsSummary, ifs-append, endifs-append,
  types_of-concat, ids_of-concat, types_of-All, update-summary, push_id,
}

-- What `add_token` does to a record: the token is appended, and the record still says what its
-- tokens call for; or the token is an `#endif` with no `#if`, or an `#if` in as many as an `i32` counts.
abbrev pub Adds : Record → Token → Outcome Failure Record → Type 0
Adds r t (ok r') = IsSummary r' × (r'.tokens ≡ r.tokens ++ t ∷ [])
Adds r t (err e) = (e ≡ unmatched_endif) × (t.tt ≡ endif_token) × (r.nesting ≡ 0)
Adds r t panic = (t.tt ≡ if_token) × (i32_max ≤ r.nesting)
Adds r t out_of_fuel = ⊥

module _ (r : Record) (t : Token) (h : IsSummary r) where
  balance-concat :
      (n : ℕ)
      → is_if t.tt + r.nesting ≡ is_endif t.tt + n
      → ifs (r.tokens ++ t ∷ []) ≡ endifs (r.tokens ++ t ∷ []) + n
  balance-concat n e =
      omega (arith, ifs-append r.tokens (t ∷ []), endifs-append r.tokens (t ∷ []), h.balance)

  typed-Adds :
      (rt : RecordType)
      → record_type t.tt ≡ some rt
      → is_if t.tt ≡ is_endif t.tt
      → Adds r t (ok (push_record_type_token r t rt))
  unfolding push_record_type_token
  typed-Adds rt e k = (
    record {
      type_is =
          rw (h.type_is, types_of-concat r.tokens t, e)
            (update-summary (types_of r.tokens) rt (types_of-All r.tokens));
      ids_are = rw (ids_of-concat r.tokens t, e, h.ids_are) (push_id t.id (ids_of r.tokens));
      balance = balance-concat r.nesting (omega arith);
      fresh = h.fresh;
    },
    refl,
  )

  untyped-Adds :
      (n : ℕ)
      → record_type t.tt ≡ none
      → is_if t.tt + r.nesting ≡ is_endif t.tt + n
      → Adds r t (ok (push_token (record r { nesting = n }) t))
  unfolding push_token
  untyped-Adds n e k = (
    record {
      type_is = rw (types_of-concat r.tokens t, e, append-nil) h.type_is;
      ids_are = rw (ids_of-concat r.tokens t, e, append-nil) h.ids_are;
      balance = balance-concat n k;
      fresh = h.fresh;
    },
    refl,
  )

  endif-Adds : t.tt ≡ endif_token → Adds r t (push_prepr_endif r t)
  unfolding push_prepr_endif
  endif-Adds e = elim (Bool-cases (r.nesting == 0)) [
    | inl z ↦ rw z (refl, e, ground arith)
    | inr z ↦ rw z (untyped-Adds (r.nesting - 1) (rw e) (rw e (ground arith)))
  ]

  if-Adds : t.tt ≡ if_token → Adds r t (push_prepr_if r t)
  unfolding push_prepr_if
  if-Adds e = elim (Bool-cases (ltb r.nesting i32_max)) [
    | inl z ↦ rw z (untyped-Adds (r.nesting + 1) (rw e) (rw e (omega arith)))
    | inr z ↦ rw z (e, ground arith)
  ]

  add-Adds : (k : TokenType) → t.tt ≡ k → Adds r t (add k r t)
  add-Adds comment_token e = untyped-Adds r.nesting (rw e) (rw e)
  add-Adds typedef_token e = typed-Adds typedef_record (rw e) (rw e)
  add-Adds function_token e = typed-Adds function_record (rw e) (rw e)
  add-Adds const_token e = typed-Adds const_record (rw e) (rw e)
  add-Adds TokenType.private_token e = typed-Adds private_token (rw e) (rw e)
  add-Adds define_token e = typed-Adds prepr_define (rw e) (rw e)
  add-Adds include_token e = typed-Adds prepr_include (rw e) (rw e)
  add-Adds if_token e = if-Adds e
  add-Adds else_token e = untyped-Adds r.nesting (rw e) (rw e)
  add-Adds endif_token e = endif-Adds e
  add-Adds whitespace_token e = untyped-Adds r.nesting (rw e) (rw e)

  -- On a record that says what its tokens call for, `add_token` appends the token and the record
  -- still does; or it returns the `Err` for an unmatched `#endif`, the token is an `#endif` and the
  -- record's nesting is 0; or it panics, the token is an `#if` and the nesting is not below the
  -- largest `i32`.
  pub add_token-Adds : Adds r t (add_token r t)
  unfolding add_token
  add_token-Adds = add-Adds t.tt refl
