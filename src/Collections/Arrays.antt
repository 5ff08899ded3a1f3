-- ===== src/Collections/Arrays.antt =====
-- `ZVector` of src/collections.rs, a vector of strings, and the functions `z_string_array_*`.
pub mod Pushes
use zenoh_c.Common.{
  ℕ, Bool, not, Option, List, [], ◌∷◌, ◌++◌, is_empty as is_nil, length, get_elem?, leb, none,
  if◌then◌else◌,
}
use zenoh_c.Collections.Memory.{M, ◌>>=◌, ◌>>◌, pure}
use zenoh_c.Collections.Slice.{CSlice, clone_to_borrowed, clone_to_owned, drop_slice}

abbrev pub ZVector : Type 0
ZVector = List CSlice

unfoldable pub z_string_array_new : ZVector
z_string_array_new = []

unfoldable pub z_internal_string_array_check : ZVector → Bool
z_internal_string_array_check a = not (is_nil a)

-- The drop of a `Vec`: its elements, in order.
unfoldable pub drop_all : ZVector → M (Unit {0})
unfolding drop_slice
drop_all [] = pure tt
drop_all (s ∷ a) = drop_slice s >> drop_all a

-- The variable behind `this_` after the call.
unfoldable pub z_string_array_drop : ZVector → M ZVector
unfolding drop_all
z_string_array_drop a = drop_all a >> pure []

unfoldable pub z_string_array_len : ZVector → ℕ
z_string_array_len a = length a

unfoldable pub z_string_array_is_empty : ZVector → Bool
z_string_array_is_empty a = is_nil a

unfoldable pub z_string_array_get : ZVector → ℕ → Option CSlice
z_string_array_get a index = if leb (length a) index then none else get_elem? a index

-- The array after the call, and its new length.
unfoldable pub z_string_array_push_by_copy : ZVector → CSlice → M (ZVector × ℕ)
unfolding clone_to_owned
z_string_array_push_by_copy a value = do
  s ← clone_to_owned value
  pure (a ++ s ∷ [], length (a ++ s ∷ []))

unfoldable pub z_string_array_push_by_alias : ZVector → CSlice → ZVector × ℕ
unfolding clone_to_borrowed
z_string_array_push_by_alias a value = let a' = a ++ clone_to_borrowed value ∷ [] in (a', length a')

-- `Vec::clone`, which clones each element.
unfoldable pub z_string_array_clone : ZVector → M ZVector
unfolding clone_to_owned
z_string_array_clone [] = pure []
z_string_array_clone (s ∷ a) = do t ← clone_to_owned s; a' ← z_string_array_clone a; pure (t ∷ a')
