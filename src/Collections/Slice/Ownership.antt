-- ===== src/Collections/Slice/Ownership.antt =====
-- Programs that call the slice functions of src/collections.rs in any order, and the blocks that
-- their variables own.
use mathlib.Core.Option
use zenoh_c.Common.{
  ℕ, zero, suc, ◌+◌, ◌≤◌, ◌<◌, ◌≡◌, refl, ap, sym, subst, false, Option, some, none, List, [], ◌∷◌,
  ◌++◌, get_elem?, set, inl, inr, Bool-cases, Option-cases, All, append_assoc, append-nil,
  All-concat, arith,
}
use zenoh_c.ResultCodes.{ZResult, z_einval}
use zenoh_c.Collections.Memory.{Bytes, Block, Memory}
use zenoh_c.Collections.Slice.Copies.{
  owned_block, IsCopy, CopiesTo, IsCloned, z_slice_copy_from_buf-CopiesTo,
  z_slice_copy_from_buf_invalid, slice-read, z_slice_clone-IsCloned,
}
use zenoh_c.Collections.Slice.{
  CSlice, foreign, is_invalid, gravestone, new_unchecked, drop_slice, z_slice_drop,
  z_slice_from_buf,
}
use zenoh_c.Collections.Slice.Drops.{count, owned, count-append, run_deleter-frees}
use zenoh_c.Collections.Slice.Program.{
  State, state, Op, copy_from_buf, from_buf, clone, drop, step, run,
}

-- Every block that is allocated belongs to one variable, and the other way round; no variable has
-- NULL data with a length; NULL is not a free address.
pub record IsBalanced (st : State) : Type 0 where
  pub balance : (b : Block) → count b st.memory.boxes ≡ count b (owned st.slots)
  pub not_null : All (λ s. is_invalid s.data_ptr s.len ≡ false) st.slots
  pub positive : 0 < st.memory.next

abbrev pub Survives : Option State → Type 0
Survives none = ⊥
Survives (some st) = IsBalanced st

owned-append : (xs ys : List CSlice) → owned (xs ++ ys) ≡ owned xs ++ owned ys
unfolding owned
owned-append [] ys = refl
owned-append (x ∷ xs) ys = rw (owned-append xs ys) (sym (append_assoc _ (owned xs) (owned ys)))

count-set :
    (b : Block) (ss : List CSlice) (i : ℕ) (s t : CSlice)
    → get_elem? ss i ≡ some s
    → owned_block t.deleter t.data_ptr t.context ≡ []
    → count b (owned ss)
      ≡ count b (owned_block s.deleter s.data_ptr s.context) + count b (owned (set ss i t))
unfolding owned count
count-set b [] i s t e k = cc
count-set b (x ∷ ss) zero s t e k =
    let same : x ≡ s = ground arith in
    omega (
      arith,
      count-append b (owned_block x.deleter x.data_ptr x.context) (owned ss),
      count-append b (owned_block t.deleter t.data_ptr t.context) (owned ss),
      ap (λ (r : CSlice). count b (owned_block r.deleter r.data_ptr r.context)) same,
      ap (count b) k,
    )
count-set b (x ∷ ss) (suc i) s t e k = omega (
  arith,
  count-append b (owned_block x.deleter x.data_ptr x.context) (owned ss),
  count-append b (owned_block x.deleter x.data_ptr x.context) (owned (set ss i t)),
  count-set b ss i s t e k,
)

-- A new variable with the block that it owns.
push-IsBalanced :
    (ss : List CSlice) (m : Memory) (s : CSlice) (m' : Memory)
    → IsBalanced (state ss m)
    → m'.boxes ≡ owned_block s.deleter s.data_ptr s.context ++ m.boxes
    → m.next ≤ m'.next
    → is_invalid s.data_ptr s.len ≡ false
    → IsBalanced (state (ss ++ s ∷ []) m')
unfolding owned
push-IsBalanced ss m s m' h e k v = record {
  balance = λ b.
      let mine = owned_block s.deleter s.data_ptr s.context in
      rw (owned-append ss (s ∷ []), append-nil)
        (omega (
          arith,
          ap (count b) e,
          count-append b mine m.boxes,
          count-append b (owned ss) mine,
          h.balance b,
        ));
  not_null = All-concat _ ss s h.not_null v;
  positive = omega (arith, h.positive);
}

push_copy-IsBalanced :
    (ss : List CSlice) (m : Memory) (bytes : Bytes) (s : CSlice) (m' : Memory)
    → IsBalanced (state ss m)
    → IsCopy m bytes s m'
    → IsBalanced (state (ss ++ s ∷ []) m')
push_copy-IsBalanced ss m bytes s m' h c =
    push-IsBalanced ss m s m' h c.boxes_are c.grows c.not_null

gravestone-IsBalanced :
    (ss : List CSlice) (m : Memory)
    → IsBalanced (state ss m)
    → IsBalanced (state (ss ++ gravestone ∷ []) m)
unfolding gravestone
gravestone-IsBalanced ss m h = push-IsBalanced ss m gravestone m h refl (omega arith) refl

-- One lemma for what a copying constructor returns, and one for a clone.
copied-Survives :
    (ss : List CSlice) (m : Memory) (bytes : Bytes) (o : Option ((CSlice × ZResult) × Memory))
    → IsBalanced (state ss m)
    → CopiesTo m bytes o
    → Survives (elim o [ none ↦ none | some ((s, code), m') ↦ some (state (ss ++ s ∷ []) m') ])
copied-Survives ss m bytes none h c = c
copied-Survives ss m bytes (some ((s, code), m')) h c = push_copy-IsBalanced ss m bytes s m' h c.1

refused-Survives :
    (ss : List CSlice) (m : Memory) (o : Option ((CSlice × ZResult) × Memory))
    → IsBalanced (state ss m)
    → o ≡ some ((gravestone, z_einval), m)
    → Survives (elim o [ none ↦ none | some ((s, code), m') ↦ some (state (ss ++ s ∷ []) m') ])
refused-Survives ss m o h e = rw e (gravestone-IsBalanced ss m h)

cloned-Survives :
    (ss : List CSlice) (m : Memory) (bytes : Bytes) (o : Option (CSlice × Memory))
    → IsBalanced (state ss m)
    → IsCloned m bytes o
    → Survives (elim o [ none ↦ none | some (t, m') ↦ some (state (ss ++ t ∷ []) m') ])
cloned-Survives ss m bytes none h c = c
cloned-Survives ss m bytes (some (t, m')) h c = push_copy-IsBalanced ss m bytes t m' h c

All-get_elem? {κ} :
    {A : Type 0} (P : A → Type κ) (xs : List A) (i : ℕ) (x : A)
    → All P xs
    → get_elem? xs i ≡ some x
    → P x
All-get_elem? P [] i x h e = absurd (cc)
All-get_elem? P (y ∷ xs) zero x h e = let same : y ≡ x = cc in subst P same h.0
All-get_elem? P (y ∷ xs) (suc i) x h e = All-get_elem? P xs i x h.1 e

All-set {κ} :
    {A : Type 0} (P : A → Type κ) (xs : List A) (i : ℕ) (x : A)
    → All P xs
    → P x
    → All P (set xs i x)
All-set P [] i x h k = tt
All-set P (y ∷ xs) zero x h k = (k, h.1)
All-set P (y ∷ xs) (suc i) x h k = (h.0, All-set P xs i x h.1 k)

count-get_elem? :
    (b : Block) (ss : List CSlice) (i : ℕ) (s : CSlice)
    → get_elem? ss i ≡ some s
    → count b (owned_block s.deleter s.data_ptr s.context) ≤ count b (owned ss)
unfolding gravestone
count-get_elem? b ss i s e = omega (arith, count-set b ss i s gravestone e refl)

drop-Survives :
    (ss : List CSlice) (m : Memory) (i : ℕ) (s : CSlice)
    → IsBalanced (state ss m)
    → get_elem? ss i ≡ some s
    → Survives
        (elim (z_slice_drop s m) [ none ↦ none | some (t, m') ↦ some (state (set ss i t) m') ])
unfolding z_slice_drop
drop-Survives ss m i s h e =
    let (m', r, k, same) =
      run_deleter-frees s.deleter s.data_ptr s.context m
        (λ b. omega (arith, h.balance b, count-get_elem? b ss i s e)) in
    rw (r, z_slice_drop, drop_slice)
      (record {
        balance = λ b. omega (arith, h.balance b, k b, count-set b ss i s gravestone e refl);
        not_null = All-set _ ss i gravestone h.not_null refl;
        positive = omega (arith, h.positive);
      })

foreign_owns_none :
    (f : Option ℕ) (p c : ℕ) (xs : List Block) → xs ≡ owned_block (Option.map foreign f) p c ++ xs
foreign_owns_none none p c xs = refl
foreign_owns_none (some g) p c xs = refl

-- A slice with a deleter of C, or with none, owns no block.
from_buf-IsBalanced :
    (ss : List CSlice) (m : Memory) (p n : ℕ) (f : Option ℕ) (c : ℕ)
    → IsBalanced (state ss m)
    → IsBalanced (state (ss ++ (z_slice_from_buf p n (Option.map foreign f) c).0 ∷ []) m)
unfolding z_slice_from_buf gravestone
from_buf-IsBalanced ss m p n f c h = elim (Bool-cases (is_invalid p n)) [
  | inl e ↦ rw e (gravestone-IsBalanced ss m h)
  | inr e ↦ rw e (
      push-IsBalanced ss m (new_unchecked p n (Option.map foreign f) c) m h
        (foreign_owns_none f p c m.boxes) (omega arith) e)
]

step-Survives : (op : Op) (st : State) → IsBalanced st → Survives (step op st)
unfolding step
step-Survives (copy_from_buf p n) st h = elim (Bool-cases (is_invalid p n)) [
  | inl e ↦ refused-Survives st.slots st.memory _ h (z_slice_copy_from_buf_invalid p n st.memory e)
  | inr e ↦
      copied-Survives st.slots st.memory _ _ h
        (z_slice_copy_from_buf-CopiesTo p n st.memory h.positive e)
]
step-Survives (from_buf p n f c) st h = from_buf-IsBalanced st.slots st.memory p n f c h
step-Survives (clone i) st h = elim (Option-cases (get_elem? st.slots i)) [
  | inl e ↦ rw (e, step) h
  | inr (s, e) ↦
      let v = All-get_elem? _ st.slots i s h.not_null e in
      rw (e, step)
        (cloned-Survives st.slots st.memory _ _ h
          (z_slice_clone-IsCloned s st.memory _ h.positive v (slice-read s st.memory v)))
]
step-Survives (drop i) st h = elim (Option-cases (get_elem? st.slots i)) [
  | inl e ↦ rw (e, step) h
  | inr (s, e) ↦ rw (e, step) (drop-Survives st.slots st.memory i s h e)
]

bind-Survives :
    (o : Option State) (k : State → Option State)
    → Survives o
    → ((st : State) → IsBalanced st → Survives (k st))
    → Survives (elim o [ none ↦ none | some st ↦ k st ])
bind-Survives none k h f = h
bind-Survives (some st) k h f = f st h

-- From a state in which the blocks allocated are those that the variables own and no variable has
-- NULL data with a length, every sequence of calls of `z_slice_copy_from_buf`, `z_slice_from_buf`
-- with C deleters, `z_slice_clone` and `z_slice_drop` runs to its end without a fault, so no block
-- is freed twice and nothing is read from NULL, and ends in such a state, so no block is lost.
pub run-Survives : (ops : List Op) (st : State) → IsBalanced st → Survives (run ops st)
unfolding run
run-Survives [] st h = h
run-Survives (op ∷ ops) st h =
    bind-Survives (step op st) (run ops) (step-Survives op st h) (run-Survives ops)
