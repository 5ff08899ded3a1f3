-- ===== src/Generator/Features/Levels.antt =====
-- The level that `process_feature_defines` of buildrs/cbindgen_generator.rs counts.
use zenoh_c.Common.{
  ℕ, zero, suc, Bool, true, false, ◌&&◌, not, ◌≡◌, refl, ◌∙◌, sym, inl, inr, List, [], ◌∷◌, ◌==◌,
  Bool-cases, arith, All,
}
use zenoh_c.Common.Panics.{Panics, ok, panic, ◌>>=◌, Panics-cases}
use zenoh_c.Common.Text.{Text, codes, starts_with, lines}
use zenoh_c.Generator.Features.{
  Evalexpr, Pruner, pruner, emit, leave_skipped, enter_if, skip_if, evaluate_c_defines_line,
  process_line, process_lines, process_feature_defines,
}

-- Lines are skipped exactly where the level is not 0.
abbrev IsCounted : Pruner → Type 0
IsCounted st = st.skip ≡ not (st.nest_level == 0)

abbrev Keeps : Panics Pruner → Type 0
Keeps panic = ⊥
Keeps (ok st) = IsCounted st

not_zero : (n : ℕ) → not (suc n == 0) ≡ true
not_zero n = ground arith

emit-IsCounted :
    (l : Text) (b : Bool) (n : ℕ) (s : Text)
    → IsCounted (pruner b n s)
    → IsCounted (emit l (pruner b n s))
unfolding emit
emit-IsCounted l true n s h = h
emit-IsCounted l false n s h = h

-- Behind an `#endif` that is skipped: the level is not 0, so it does not overflow.
leave-Keeps :
    (b : Bool) (n : ℕ) (s : Text)
    → IsCounted (pruner b n s)
    → b ≡ true
    → Keeps (leave_skipped (pruner b n s))
unfolding leave_skipped
leave-Keeps b zero s h k = cc (h, k)
leave-Keeps b (suc n) s h k = refl

-- Two steps, the second on what the first keeps.
next-Keeps :
    (r : Panics Pruner) (next : Pruner → Panics Pruner)
    → Keeps r
    → ((st : Pruner) → IsCounted st → Keeps (next st))
    → Keeps (r >>= next)
next-Keeps panic next h k = h
next-Keeps (ok st) next h k = k st h

out_of : (r : Panics Pruner) → Keeps r → (out : Text) × ((r >>= λ st. ok st.out) ≡ ok out)
out_of panic h = absurd h
out_of (ok st) h = (st.out, refl)

and_right : (a b : Bool) → (a && b) ≡ true → b ≡ true
and_right true b h = h
and_right false b h = cc h

module _ (features : Text) (evalexpr : Evalexpr) where
  -- The condition of the line can be evaluated, where it has one.
  abbrev pub Evaluates : Text → Type 0
  Evaluates l =
      starts_with l (codes "#if ") ≡ true → ¬ (evaluate_c_defines_line features evalexpr l ≡ panic)

  enter-Keeps :
      (l : Text) (b : Bool) (n : ℕ) (s : Text)
      → IsCounted (pruner b n s)
      → ¬ (evaluate_c_defines_line features evalexpr l ≡ panic)
      → Keeps (enter_if features evalexpr l (pruner b n s) >>= λ st'. ok (emit l st'))
  unfolding enter_if skip_if
  enter-Keeps l true n s h v = emit-IsCounted l true (suc n) s (sym (not_zero n))
  enter-Keeps l false n s h v = elim (Panics-cases (evaluate_c_defines_line features evalexpr l)) [
    | inl p ↦ absurd (v p)
    | inr (true, p) ↦ rw p (emit-IsCounted l true (suc n) s (sym (not_zero n)))
    | inr (false, p) ↦ rw p (emit-IsCounted l false n s h)
  ]

  process_line-Keeps :
      (l : Text) (st : Pruner)
      → IsCounted st
      → Evaluates l
      → Keeps (process_line features evalexpr l st)
  unfolding process_line
  process_line-Keeps l st h v = elim (Bool-cases (starts_with l (codes "#ifdef") && st.skip)) [
    | inl a ↦ rw a (
        emit-IsCounted l st.skip (suc st.nest_level) st.out
          (and_right _ st.skip a ∙ sym (not_zero st.nest_level)))
    | inr a ↦ elim (Bool-cases (starts_with l (codes "#endif") && st.skip)) [
      | inl b ↦ rw (a, b) (leave-Keeps st.skip st.nest_level st.out h (and_right _ st.skip b))
      | inr b ↦ elim (Bool-cases (starts_with l (codes "#if "))) [
        | inl c ↦ rw (a, b, c) (enter-Keeps l st.skip st.nest_level st.out h (v c))
        | inr c ↦ rw (a, b, c) (emit-IsCounted l st.skip st.nest_level st.out h)
      ]
    ]
  ]

  process_lines-Keeps :
      (ls : List Text) (st : Pruner)
      → IsCounted st
      → All Evaluates ls
      → Keeps (process_lines features evalexpr ls st)
  unfolding process_lines
  process_lines-Keeps [] st h v = h
  process_lines-Keeps (l ∷ ls) st h v =
      next-Keeps (process_line features evalexpr l st) (process_lines features evalexpr ls)
        (process_line-Keeps l st h v.0) λ st' h'. process_lines-Keeps ls st' h' v.1

  -- `process_feature_defines` returns for every text whose conditions can be evaluated: the level is
  -- counted down only where it is not 0, also where blocks are not closed or are closed too often.
  pub process_feature_defines-returns :
      (text : Text)
      → All Evaluates (lines text)
      → (out : Text) × (process_feature_defines features evalexpr text ≡ ok out)
  unfolding process_feature_defines
  process_feature_defines-returns text v =
      out_of (process_lines features evalexpr (lines text) (pruner false 0 []))
        (process_lines-Keeps (lines text) (pruner false 0 []) refl v)
