-- ===== src/Splitguide/Tokenizer/Grouping.antt =====
-- The records that `group_tokens` of buildrs/splitguide.rs makes of a text.
use zenoh_c.Common.{
  ℕ, zero, suc, ◌≤◌, ◌<◌, ◌≡◌, refl, ap, sym, ◌∙◌, true, false, List, [], ◌∷◌, ◌++◌, append_assoc,
  append-nil, length, All, All-concat, inl, inr, Bool-cases, Outcome, ok, err, panic, out_of_fuel,
  ◌>>=◌, arith,
}
use zenoh_c.Common.Text.{Text, Unicode}
use zenoh_c.Splitguide.Failure.{Failure, unmatched_endif}
use zenoh_c.Splitguide.Token.{Token, endif_token}
use zenoh_c.Splitguide.Record.{Record, new, is_ready, add_token}
use zenoh_c.Splitguide.Record.Tallies.{
  IsSummary, new-IsSummary, ifs, endifs, ifs-append, endifs-append,
}
use zenoh_c.Splitguide.Record.Summary.{Adds, add_token-Adds}
use zenoh_c.Splitguide.Tokenizer.{next_token, collect, group_loop, group_tokens}
use zenoh_c.Splitguide.Tokenizer.Tiling.{spans, Steps, next_token-Steps}

abbrev pub all_tokens : List Record → List Token
all_tokens [] = []
all_tokens (r ∷ rs) = r.tokens ++ all_tokens rs

all_tokens-concat :
    (rs : List Record) (r : Record) → all_tokens (rs ++ r ∷ []) ≡ all_tokens rs ++ r.tokens
all_tokens-concat [] r = append-nil r.tokens
all_tokens-concat (x ∷ rs) r =
    ap (◌++◌ x.tokens) (all_tokens-concat rs r)
    ∙ sym (append_assoc x.tokens (all_tokens rs) r.tokens)

spans-append : (xs ys : List Token) → spans (xs ++ ys) ≡ spans xs ++ spans ys
spans-append [] ys = refl
spans-append (x ∷ xs) ys =
    ap (◌++◌ x.span) (spans-append xs ys) ∙ sym (append_assoc x.span (spans xs) (spans ys))

-- A record that the loop has finished.
pub record IsFinished (r : Record) : Type 0 where
  pub summary : IsSummary r
  pub ready : is_ready r ≡ true

-- What `group_tokens` makes of `whole`: finished records, and a last one that is not finished.
pub record IsGrouped (whole : Text) (rs : List Record) : Type 0 where
  pub finished : List Record
  pub last : Record
  pub splits : rs ≡ finished ++ last ∷ []
  pub all_finished : All IsFinished finished
  pub last_summary : IsSummary last
  pub last_open : is_ready last ≡ false
  pub tiles : spans (all_tokens rs) ≡ whole

-- An `#endif` that no `#if` opened: in front of it there are as many of the one as of the other.
pub record IsUnmatched (whole : Text) : Type 0 where
  pub before : List Token
  pub endif : Token
  pub after : Text
  pub splits : spans before ++ (endif.span ++ after) ≡ whole
  pub is_endif : endif.tt ≡ endif_token
  pub balanced : ifs before ≡ endifs before

abbrev pub Groups : Text → Outcome Failure (List Record) → Type 0
Groups whole (ok rs) = IsGrouped whole rs
Groups whole (err e) = (e ≡ unmatched_endif) × IsUnmatched whole
Groups whole panic = Unit
Groups whole out_of_fuel = ⊥

record LoopInv (whole s : Text) (st : List Record × Record) : Type 0 where
  done : All IsFinished st.0
  current : IsSummary st.1
  open_ : is_ready st.1 ≡ false
  read : spans (all_tokens st.0 ++ st.1.tokens) ++ s ≡ whole

-- A finished record has met every `#if` of its own.
ready-balanced : (r : Record) → IsSummary r → is_ready r ≡ true → ifs r.tokens ≡ endifs r.tokens
unfolding is_ready
ready-balanced r h k = ground (arith, h.balance)

finished-balanced :
    (rs : List Record) → All IsFinished rs → ifs (all_tokens rs) ≡ endifs (all_tokens rs)
finished-balanced [] h = refl
finished-balanced (r ∷ rs) h = omega (
  arith,
  ifs-append r.tokens (all_tokens rs),
  endifs-append r.tokens (all_tokens rs),
  ready-balanced r h.0.summary h.0.ready,
  finished-balanced rs h.1,
)

collect-LoopInv :
    (whole s : Text) (rs : List Record) (r : Record)
    → All IsFinished rs
    → IsSummary r
    → spans (all_tokens rs ++ r.tokens) ++ s ≡ whole
    → LoopInv whole s (collect rs r)
unfolding collect
collect-LoopInv whole s rs r h k e = elim (Bool-cases (is_ready r)) [
  | inl y ↦ rw y (record {
    done = All-concat IsFinished rs r h (record { summary = k; ready = y });
    current = new-IsSummary;
    open_ = refl;
    read = rw (append-nil, all_tokens-concat rs r) e;
  })
  | inr y ↦ rw y (record { done = h; current = k; open_ = y; read = e })
]

read_on :
    (whole s : Text) (before old : List Token) (t : Token) (rest : Text)
    → spans (before ++ old) ++ s ≡ whole
    → t.span ++ rest ≡ s
    → spans (before ++ (old ++ t ∷ [])) ++ rest ≡ whole
read_on whole s before old t rest e k =
    rw
      (
        ← append_assoc before old (t ∷ []),
        spans-append (before ++ old) (t ∷ []),
        append-nil t.span,
        append_assoc (spans (before ++ old)) t.span rest,
        k,
      )
      e

module _ (u : Unicode) (whole : Text) where
  -- One round of the loop on an outcome of the tokenizer and one of `add_token`.
  added-Groups :
      (s rest : Text) (st : List Record × Record) (t : Token) (fuel : ℕ)
      (m : Outcome Failure Record)
      → LoopInv whole s st
      → t.span ++ rest ≡ s
      → Adds st.1 t m
      → ((st' : List Record × Record)
          → LoopInv whole rest st'
          → Groups whole (group_loop u fuel rest st'))
      → Groups whole (m >>= λ r'. group_loop u fuel rest (collect st.0 r'))
  added-Groups s rest st t fuel (ok r') h e a ih = ih (collect st.0 r') (
      collect-LoopInv whole rest st.0 r' h.done a.0
        (rw a.1 (read_on whole s (all_tokens st.0) st.1.tokens t rest h.read e)))
  added-Groups s rest st t fuel (err f) h e a ih = (
    a.0,
    record {
      before = all_tokens st.0 ++ st.1.tokens;
      endif = t;
      after = rest;
      splits = rw e h.read;
      is_endif = a.1;
      balanced = omega (
        arith,
        ifs-append (all_tokens st.0) st.1.tokens,
        endifs-append (all_tokens st.0) st.1.tokens,
        finished-balanced st.0 h.done,
        h.current.balance,
        a.2,
      );
    },
  )
  added-Groups s rest st t fuel panic h e a ih = tt
  added-Groups s rest st t fuel out_of_fuel h e a ih = a

  stepped-Groups :
      (s : Text) (st : List Record × Record) (fuel : ℕ) (m : Outcome Failure (Token × Text))
      → LoopInv whole s st
      → Steps s m
      → ((rest : Text) (st' : List Record × Record)
          → length rest < length s
          → LoopInv whole rest st'
          → Groups whole (group_loop u fuel rest st'))
      → Groups whole
          (m >>= λ x. add_token st.1 x.0 >>= λ r'. group_loop u fuel x.1 (collect st.0 r'))
  stepped-Groups s st fuel (ok (t, rest)) h k ih =
      added-Groups s rest st t fuel (add_token st.1 t) h k.0 (add_token-Adds st.1 t h.current)
        (λ st'. ih rest st' k.1)
  stepped-Groups s st fuel (err e) h k ih = absurd k
  stepped-Groups s st fuel panic h k ih = tt
  stepped-Groups s st fuel out_of_fuel h k ih = k

  finish-Groups :
      (st : List Record × Record) → LoopInv whole [] st → IsGrouped whole (st.0 ++ st.1 ∷ [])
  finish-Groups st h = record {
    finished = st.0;
    last = st.1;
    splits = refl;
    all_finished = h.done;
    last_summary = h.current;
    last_open = h.open_;
    tiles = rw (all_tokens-concat st.0 st.1) (sym (append-nil _) ∙ h.read);
  }

  group_loop-Groups :
      (fuel : ℕ) (s : Text) (st : List Record × Record)
      → length s ≤ fuel
      → LoopInv whole s st
      → Groups whole (group_loop u fuel s st)
  unfolding group_loop
  group_loop-Groups zero [] st f h = finish-Groups st h
  group_loop-Groups (suc fuel) [] st f h = finish-Groups st h
  group_loop-Groups zero (c ∷ s) st f h = absurd (omega arith)
  group_loop-Groups (suc fuel) (c ∷ s) st f h =
      stepped-Groups (c ∷ s) st fuel (next_token u (c ∷ s)) h (next_token-Steps u (c ∷ s))
        λ rest st' shorter. group_loop-Groups fuel rest st' (omega arith)

-- `group_tokens` comes to an end on every text. Where it returns records, all but the last are ready and the last is
-- not, each has the type, the identifiers and the nesting that its tokens call for and is not yet
-- used, and their tokens, one behind another, are the whole text. Where it returns an `Err`, it is
-- the one for an unmatched `#endif`, and the text has such an `#endif`. It may panic.
pub group_tokens-Groups : (u : Unicode) (s : Text) → Groups s (group_tokens u s)
unfolding group_tokens is_ready
group_tokens-Groups u s =
    group_loop-Groups u s (length s) s ([], new) (omega arith)
      (record { done = tt; current = new-IsSummary; open_ = refl; read = refl })
