-- ===== src/Collections/Arrays/Pushes.antt =====
-- What a push does to an array of strings.
use mathlib.Core.Path.{fun_ext}
use zenoh_c.Common.{
  ℕ, zero, suc, ◌<◌, ◌≡◌, refl, ap, false, none, some, Option, [], ◌∷◌, ◌++◌, length, length-append,
  get_elem?, arith,
}
use zenoh_c.Collections.Memory.{Bytes, Memory, M, pure, ◌>>◌}
use zenoh_c.Collections.Slice.{
  CSlice, is_invalid, slice, clone_to_borrowed, drop_slice, z_slice_clone,
}
use zenoh_c.Collections.Slice.Copies.{IsCopy, IsCloned, z_slice_clone-IsCloned}
use zenoh_c.Collections.Arrays.{
  ZVector, drop_all, z_string_array_drop, z_string_array_len, z_string_array_get,
  z_string_array_push_by_copy, z_string_array_push_by_alias,
}

-- The array `a'` is `a` with `s` behind it, and `n` its length.
pub record IsPushed (a : ZVector) (s : CSlice) (a' : ZVector) (n : ℕ) : Type 0 where
  pub len_is : (n ≡ z_string_array_len a') × (n ≡ suc (z_string_array_len a))
  pub last : z_string_array_get a' (z_string_array_len a) ≡ some s
  pub before : (i : ℕ) → i < z_string_array_len a → z_string_array_get a' i ≡ z_string_array_get a i

get_elem?-concat : (a : ZVector) (s : CSlice) → get_elem? (a ++ s ∷ []) (length a) ≡ some s
get_elem?-concat [] s = refl
get_elem?-concat (x ∷ a) s = get_elem?-concat a s

get_elem?-append : (a b : ZVector) (i : ℕ) → i < length a → get_elem? (a ++ b) i ≡ get_elem? a i
get_elem?-append [] b i h = absurd (omega arith)
get_elem?-append (x ∷ a) b zero h = refl
get_elem?-append (x ∷ a) b (suc i) h = get_elem?-append a b i (omega arith)

concat-IsPushed : (a : ZVector) (s : CSlice) → IsPushed a s (a ++ s ∷ []) (length (a ++ s ∷ []))
unfolding z_string_array_len z_string_array_get
concat-IsPushed a s = record {
  len_is = (refl, omega (arith, length-append a (s ∷ [])));
  last = ground (arith, length-append a (s ∷ []), get_elem?-concat a s);
  before = λ i h. ground (arith, length-append a (s ∷ []), get_elem?-append a (s ∷ []) i);
}

abbrev pub PushesCopy : ZVector → Bytes → Memory → Option ((ZVector × ℕ) × Memory) → Type 0
PushesCopy a bytes m none = ⊥
PushesCopy a bytes m (some ((a', n), m')) = (s : CSlice) × IsPushed a s a' n × IsCopy m bytes s m'

pushed-PushesCopy :
    (a : ZVector) (bytes : Bytes) (m : Memory) (o : Option (CSlice × Memory))
    → IsCloned m bytes o
    → PushesCopy a bytes m
        (elim o [ none ↦ none | some (s, m') ↦ some ((a ++ s ∷ [], length (a ++ s ∷ [])), m') ])
pushed-PushesCopy a bytes m none h = h
pushed-PushesCopy a bytes m (some (s, m')) h = (s, concat-IsPushed a s, h)

-- For a value with no NULL data unless it is empty, where NULL is not a free address,
-- `z_string_array_push_by_copy` does not fault; the new length is one more, the last element is a
-- copy of the value, which no later write to an address in use before changes, and the elements in front of it are
-- the same.
pub z_string_array_push_by_copy-PushesCopy :
    (a : ZVector) (value : CSlice) (m : Memory) (bytes : Bytes)
    → 0 < m.next
    → is_invalid value.data_ptr value.len ≡ false
    → slice value m ≡ some (bytes, m)
    → PushesCopy a bytes m (z_string_array_push_by_copy a value m)
unfolding z_string_array_push_by_copy z_slice_clone
z_string_array_push_by_copy-PushesCopy a value m bytes h k e =
    pushed-PushesCopy a bytes m _ (z_slice_clone-IsCloned value m bytes h k e)

drop_all-concat_borrowed :
    (a : ZVector) (value : CSlice) (m : Memory)
    → drop_all (a ++ clone_to_borrowed value ∷ []) m ≡ drop_all a m
unfolding drop_all clone_to_borrowed
drop_all-concat_borrowed [] value m = refl
drop_all-concat_borrowed (s ∷ a) value m =
    ap (λ (k : M (Unit {0})). (drop_slice s >> k) m) (fun_ext (drop_all-concat_borrowed a value))

-- `z_string_array_push_by_alias` appends a slice of the value's own data with no deleter: the new
-- length is one more, the elements in front are the same, and the drop of the array does to the
-- memory what the drop of the array before the push does.
pub z_string_array_push_by_alias-IsPushed :
    (a : ZVector) (value : CSlice)
    → IsPushed a
        (clone_to_borrowed value)
        (z_string_array_push_by_alias a value).0
        (z_string_array_push_by_alias a value).1
      × (z_string_array_drop (z_string_array_push_by_alias a value).0 ≡ z_string_array_drop a)
unfolding z_string_array_push_by_alias z_string_array_drop
z_string_array_push_by_alias-IsPushed a value = (
  concat-IsPushed a (clone_to_borrowed value),
  ap (λ (k : M (Unit {0})). k >> pure []) (fun_ext (drop_all-concat_borrowed a value)),
)
