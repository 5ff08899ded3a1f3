-- ===== src/Generator/Features/Blocks.antt =====
-- What the loop of `process_feature_defines` of buildrs/cbindgen_generator.rs keeps of the blocks
-- between `#if` lines and `#endif` lines.
use zenoh_c.Common.{
  ℕ, suc, Bool, true, false, ◌&&◌, ◌||◌, not, ◌≡◌, refl, ◌∙◌, ap, sym, inl, inr, List, [], ◌∷◌,
  ◌++◌, append_assoc, append-nil, subst, ◌==◌, Bool-cases, arith,
}
use zenoh_c.Common.Text.{Text, codes, starts_with, starts_with-agree, lines}
use zenoh_c.Common.Panics.{
  Panics, ok, panic, ◌>>=◌, bind_assoc, bind-cong, Panics-cases, bind-ok_id,
}
use zenoh_c.Generator.Features.{
  Evalexpr, Pruner, pruner, emit, leave_skipped, enter_if, skip_if, evaluate_c_defines_line,
  process_line, process_lines, process_feature_defines,
}

-- The lines of a file, those from an opening line to its `#endif` taken together.
pub data Blocks : Type 0 where
  done : Blocks
  line : Text → Blocks → Blocks
  group : Text → Blocks → Text → Blocks → Blocks

abbrev pub flatten : Blocks → List Text
flatten done = []
flatten (line l rest) = l ∷ flatten rest
flatten (group l body e rest) = l ∷ (flatten body ++ e ∷ flatten rest)

abbrev is_if : Text → Bool
is_if l = starts_with l (codes "#if ")

abbrev is_ifdef : Text → Bool
is_ifdef l = starts_with l (codes "#ifdef")

abbrev is_endif : Text → Bool
is_endif l = starts_with l (codes "#endif")

-- A line that may open a block: inside an `#if ` block only `#if ` and `#ifdef`, elsewhere any line
-- that is not an `#endif`.
abbrev opens : Bool → Text → Bool
opens inside l = is_if l || (is_ifdef l || not inside && not (is_endif l))

-- Blocks that are closed, with plain lines between them.
abbrev pub IsNested : Bool → Blocks → Type 0
IsNested inside done = Unit
IsNested inside (line l rest) =
    (is_if l ≡ false) × (is_ifdef l ≡ false) × (is_endif l ≡ false) × IsNested inside rest
IsNested inside (group l body e rest) =
    (opens inside l ≡ true)
    × IsNested (inside || is_if l) body
    × (is_endif e ≡ true)
    × IsNested inside rest

abbrev ended : Text → Text
ended l = l ++ codes "\n"

&&-false : (b : Bool) → (b && false) ≡ false
&&-false true = refl
&&-false false = refl

-- Behind an `#endif` in a block that is still open, lines are still skipped.
still_open : (n : ℕ) → not (suc n == 0) ≡ true
still_open n = ground arith

or_true : (b : Bool) → (b || true) ≡ true
or_true true = refl
or_true false = refl

not_if : (e : Text) → is_endif e ≡ true → is_if e ≡ false
not_if e k = elim (Bool-cases (is_if e)) [
  | inl i ↦ cc (starts_with-agree e (codes "#if ") (codes "#endif") i k)
  | inr i ↦ i
]

joined : (a b c d e : Text) → a ++ b ++ c ++ d ++ e ≡ a ++ (b ++ (c ++ (d ++ e)))
joined a b c d e = simp (append_assoc)

module _ (features : Text) (evalexpr : Evalexpr) where
  -- An `#if ` block stands, with its first and last lines, where the condition is not false; every
  -- other block stands.
  abbrev condition : Bool → Text → Panics Bool
  condition true l = evaluate_c_defines_line features evalexpr l >>= λ off. ok (not off)
  condition false l = ok true

  abbrev stands : Text → Panics Bool
  stands l = condition (is_if l) l

  abbrev kept : Text → Panics Text → Text → Panics Text → Bool → Panics Text
  kept l body e rest true = body >>= λ s. rest >>= λ t. ok (ended l ++ (s ++ (ended e ++ t)))
  kept l body e rest false = rest

  abbrev pub prune : Blocks → Panics Text
  prune done = ok []
  prune (line l rest) = prune rest >>= λ t. ok (ended l ++ t)
  prune (group l body e rest) =
      let inner = prune body in let behind = prune rest in stands l >>= kept l inner e behind

  abbrev run : List Text → Pruner → Panics Pruner
  run = process_lines features evalexpr

  -- A line that opens a block is counted where lines are skipped.
  open_skipped :
      (l : Text) (ls : List Text) (n : ℕ) (out : Text)
      → opens true l ≡ true
      → run (l ∷ ls) (pruner true n out) ≡ run ls (pruner true (suc n) out)
  unfolding process_lines process_line enter_if skip_if emit
  open_skipped l ls n out h = elim (Bool-cases (is_ifdef l)) [
    | inl y ↦ rw y refl
    | inr y ↦
        let i : is_if l ≡ true = ground arith in
        elim (Bool-cases (is_endif l)) [
          | inl k ↦ cc (starts_with-agree l (codes "#if ") (codes "#endif") i k)
          | inr k ↦ rw (y, k, i) refl
        ]
  ]

  close_skipped :
      (e : Text) (ls : List Text) (n : ℕ) (out : Text)
      → is_endif e ≡ true
      → run (e ∷ ls) (pruner true (suc n) out) ≡ run ls (pruner (not (n == 0)) n out)
  unfolding process_lines process_line leave_skipped
  close_skipped e ls n out h = elim (Bool-cases (is_ifdef e)) [
    | inl y ↦ cc (starts_with-agree e (codes "#ifdef") (codes "#endif") y h)
    | inr y ↦ rw (y, h) refl
  ]

  -- Closed blocks leave the state of skipping as it is.
  skip_blocks :
      (bs : Blocks) (ls : List Text) (n : ℕ) (out : Text)
      → IsNested true bs
      → run (flatten bs ++ ls) (pruner true (suc n) out) ≡ run ls (pruner true (suc n) out)
  unfolding process_lines process_line emit
  skip_blocks done ls n out h = refl
  skip_blocks (line l rest) ls n out h = rw (h.0, h.1, h.2) (skip_blocks rest ls n out h.3)
  skip_blocks (group l body e rest) ls n out h =
      open_skipped l ((flatten body ++ e ∷ flatten rest) ++ ls) (suc n) out h.0
      ∙ ap (λ k. run k (pruner true (suc (suc n)) out))
          (append_assoc (flatten body) (e ∷ flatten rest) ls)
      ∙ skip_blocks body (e ∷ flatten rest ++ ls) (suc n) out h.1
      ∙ close_skipped e (flatten rest ++ ls) (suc n) out h.2
      ∙ ap (λ b. run (flatten rest ++ ls) (pruner b (suc n) out)) (still_open n)
      ∙ skip_blocks rest ls n out h.3

  -- What the loop does behind text that has been kept.
  abbrev resume : List Text → Text → Text → Panics Pruner
  resume ls out t = run ls (pruner false 0 (out ++ t))

  keep_line :
      (l : Text) (ls : List Text) (out : Text)
      → is_if l ≡ false
      → run (l ∷ ls) (pruner false 0 out) ≡ run ls (pruner false 0 (out ++ ended l))
  unfolding process_lines process_line emit
  keep_line l ls out h =
      rw (&&-false (is_ifdef l), &&-false (is_endif l), h, append_assoc out l (codes "\n")) refl

  -- What is left of `#if ` blocks whose condition is false.
  drop_group :
      (l : Text) (body : Blocks) (e : Text) (ls : List Text) (out : Text)
      → is_if l ≡ true
      → evaluate_c_defines_line features evalexpr l ≡ ok true
      → IsNested true body
      → is_endif e ≡ true
      → run (l ∷ (flatten body ++ e ∷ ls)) (pruner false 0 out) ≡ run ls (pruner false 0 out)
  unfolding process_lines process_line enter_if skip_if emit
  drop_group l body e ls out i off h k =
      (rw (&&-false (is_ifdef l), &&-false (is_endif l), i, off) refl)
      ∙ skip_blocks body (e ∷ ls) 0 out h
      ∙ close_skipped e ls 0 out k

  -- A condition that is not false, and one that cannot be evaluated.
  open_kept :
      (l : Text) (ls : List Text) (out : Text)
      → is_if l ≡ true
      → evaluate_c_defines_line features evalexpr l ≡ ok false
      → run (l ∷ ls) (pruner false 0 out) ≡ run ls (pruner false 0 (out ++ ended l))
  unfolding process_lines process_line enter_if skip_if emit
  open_kept l ls out i on =
      rw (&&-false (is_ifdef l), &&-false (is_endif l), i, on, append_assoc out l (codes "\n")) refl

  open_panics :
      (l : Text) (ls : List Text) (out : Text)
      → is_if l ≡ true
      → evaluate_c_defines_line features evalexpr l ≡ panic
      → run (l ∷ ls) (pruner false 0 out) ≡ panic
  unfolding process_lines process_line enter_if skip_if
  open_panics l ls out i e = rw (&&-false (is_ifdef l), &&-false (is_endif l), i, e) refl

  -- A block that stands: its body and then its last line are kept, behind its first line.
  stands-kept :
      (l : Text) (body : Blocks) (e : Text) (rest : Blocks) (ls : List Text) (out : Text)
      → is_endif e ≡ true
      → ((ls' : List Text) (out' : Text)
          → run (flatten body ++ ls') (pruner false 0 out') ≡ (prune body >>= resume ls' out'))
      → ((out' : Text)
          → run (flatten rest ++ ls) (pruner false 0 out') ≡ (prune rest >>= resume ls out'))
      → run (flatten body ++ e ∷ (flatten rest ++ ls)) (pruner false 0 (out ++ ended l))
        ≡ (kept l (prune body) e (prune rest) true >>= resume ls out)
  stands-kept l body e rest ls out k inner behind =
      inner (e ∷ (flatten rest ++ ls)) (out ++ ended l)
      ∙ bind-cong (prune body) _ _ (λ s.
        keep_line e (flatten rest ++ ls) (out ++ ended l ++ s) (not_if e k)
        ∙ behind (out ++ ended l ++ s ++ ended e)
        ∙ bind-cong (prune rest) _ _
            (λ t. ap (λ text. run ls (pruner false 0 text)) (joined out (ended l) s (ended e) t))
        ∙ sym
            (bind_assoc (prune rest) (λ t. ok (ended l ++ (s ++ (ended e ++ t)))) (resume ls out)))
      ∙ sym (
          bind_assoc (prune body) (λ s. prune rest >>= λ t. ok (ended l ++ (s ++ (ended e ++ t))))
            (resume ls out))

  stands_if :
      (l : Text) (r : Panics Bool)
      → is_if l ≡ true
      → evaluate_c_defines_line features evalexpr l ≡ r
      → stands l ≡ (r >>= λ off. ok (not off))
  stands_if l r i p = ap (λ b. condition b l) i ∙ ap (λ k. k >>= λ off. ok (not off)) p

  choose :
      (l : Text) (body : Blocks) (e : Text) (rest : Blocks) (ls : List Text) (out : Text)
      {r : Panics Bool}
      → stands l ≡ r
      → (r >>= kept l (prune body) e (prune rest) >>= resume ls out)
        ≡ (prune (group l body e rest) >>= resume ls out)
  choose l body e rest ls out p =
      ap (λ k. k >>= kept l (prune body) e (prune rest) >>= resume ls out) (sym p)

  -- Closed blocks in front of other lines.
  pub blocks-prune :
      (inside : Bool) (bs : Blocks) (ls : List Text) (out : Text)
      → IsNested inside bs
      → run (flatten bs ++ ls) (pruner false 0 out) ≡ (prune bs >>= resume ls out)
  blocks-prune inside done ls out h = ap (λ t. run ls (pruner false 0 t)) (sym (append-nil out))
  blocks-prune inside (line l rest) ls out h =
      keep_line l (flatten rest ++ ls) out h.0
      ∙ blocks-prune inside rest ls (out ++ ended l) h.3
      ∙ bind-cong (prune rest) _ _
          (λ t. ap (λ text. run ls (pruner false 0 text)) (append_assoc out (ended l) t))
      ∙ sym (bind_assoc (prune rest) (λ t. ok (ended l ++ t)) (resume ls out))
  blocks-prune inside (group l body e rest) ls out h =
      let all =
        stands-kept l body e rest ls out h.2
          (λ ls' out'. blocks-prune (inside || is_if l) body ls' out' h.1)
          (λ out'. blocks-prune inside rest ls out' h.3) in
      ap (λ k. run (l ∷ k) (pruner false 0 out)) (append_assoc (flatten body) (e ∷ flatten rest) ls)
      ∙ elim (Bool-cases (is_if l)) [
        | inl i ↦ elim (Panics-cases (evaluate_c_defines_line features evalexpr l)) [
          | inl p ↦ open_panics l _ out i p ∙ choose l body e rest ls out (stands_if l _ i p)
          | inr (true, p) ↦
              drop_group l body e (flatten rest ++ ls) out i p
                (subst (λ b. IsNested b body) (ap (λ b. inside || b) i ∙ or_true inside) h.1) h.2
              ∙ blocks-prune inside rest ls out h.3
              ∙ choose l body e rest ls out (stands_if l _ i p)
          | inr (false, p) ↦
              open_kept l _ out i p ∙ all ∙ choose l body e rest ls out (stands_if l _ i p)
        ]
        | inr i ↦
            keep_line l _ out i ∙ all ∙ choose l body e rest ls out (ap (λ b. condition b l) i)
      ]

  -- A header whose `#if ` and `#ifdef` lines are closed by `#endif` lines, with no other block inside
  -- an `#if ` block, loses the `#if ` blocks whose condition is false, first and last lines included,
  -- and keeps all other lines as they are; a condition counts only outside the blocks that are lost,
  -- and where it cannot be evaluated there is a panic.
  pub process_feature_defines-prune :
      (text : Text) (bs : Blocks)
      → lines text ≡ flatten bs
      → IsNested false bs
      → process_feature_defines features evalexpr text ≡ prune bs
  unfolding process_feature_defines process_lines
  process_feature_defines-prune text bs e h =
      ap (λ ls. run ls (pruner false 0 []) >>= λ st. ok st.out) (e ∙ sym (append-nil (flatten bs)))
      ∙ ap (λ r. r >>= λ st. ok st.out) (blocks-prune false bs [] [] h)
      ∙ bind_assoc (prune bs) (resume [] []) (λ st. ok st.out)
      ∙ bind-ok_id (prune bs)
