-- ===== src/Keyexpr.antt =====
-- src/keyexpr.rs: the key expressions that C code holds. What a key expression is belongs to the
-- zenoh crate, which is the parameter `z` here. An out parameter is a result; a pointer and a length
-- are read in the memory of `Collections.Memory`.
pub mod Interface
pub mod Outcomes
pub mod Canonical
pub mod Idempotent
mod Tests
use zenoh_c.Common.{
  ℕ, ◌+◌, Bool, true, false, not, Option, none, some, List, [], ◌∷◌, ◌==◌, if◌then◌else◌, length,
  take,
}
use zenoh_c.Common.Utf8.{is_utf8}
use zenoh_c.ResultCodes.{ZResult, z_ok, z_einval, z_eparse, z_egeneric, Result, ok, err, same_code}
use zenoh_c.Collections.Memory.{
  Ptr, null, Bytes, Memory, M, pure, ◌>>=◌, ◌>>◌, write, from_raw_parts,
}
use zenoh_c.Collections.Strings.{Strlen, strlen_or_zero}
use zenoh_c.Keyexpr.Interface.{Zenoh, Level, disjoint, intersecting, including, equal}

-- `z_keyexpr_intersection_level_t`
pub data IntersectionLevel : Type 0 where
  disjoint_level intersects_level includes_level equals_level : IntersectionLevel

unfoldable pub from_set_level : Level → IntersectionLevel
from_set_level disjoint = disjoint_level
from_set_level intersecting = intersects_level
from_set_level including = includes_level
from_set_level equal = equals_level

-- What is written over the bytes at an address.
abbrev pub put : Ptr → Bytes → M (Unit {0})
put p bytes m = some (tt, record m { byte = write m.byte p bytes })

module _ (z : Zenoh) where
  open z use {
    KeyExpr, dummy, is_dummy, as_bytes, try_from, autocanonize, canonize, from_unchecked, concat,
    join, equals, intersects, includes, relation_to,
  }

  -- `KeyExpr::gravestone`
  unfoldable pub gravestone : KeyExpr
  gravestone = dummy

  unfoldable pub is_gravestone : KeyExpr → Bool
  is_gravestone k = is_dummy k

  abbrev pub lift : Option KeyExpr → Result KeyExpr
  lift none = err z_einval
  lift (some k) = ok k

  -- `keyexpr_create_inner`, on the bytes at `start`; an `Err` is reported as `Z_EINVAL` by its caller.
  unfoldable pub keyexpr_create_inner : Ptr → Bytes → Bool → Bool → M (Result KeyExpr)
  keyexpr_create_inner start name true true = pure (lift (autocanonize name))
  keyexpr_create_inner start name false true = pure (lift (try_from name))
  keyexpr_create_inner start name true false = do
    let (buffer, n) = canonize name
    put start buffer
    pure (lift (try_from (take n buffer)))
  keyexpr_create_inner start name false false = pure (lift (try_from name))

  -- `keyexpr_create`, its slice given by a pointer and a length: the booleans are
  -- `should_auto_canonize` and `should_copy`.
  unfoldable pub keyexpr_create : Ptr → ℕ → Bool → Bool → M (Result KeyExpr)
  unfolding from_raw_parts keyexpr_create_inner is_utf8
  keyexpr_create start len auto copy = do
    name ← from_raw_parts start len
    if is_utf8 name then keyexpr_create_inner start name auto copy else pure (err z_eparse)

  -- The match at the end of a constructor, with the length that the out parameter `len` then holds.
  abbrev pub write_keyexpr : ℕ → Result KeyExpr → KeyExpr × ZResult × ℕ
  write_keyexpr len (ok k) = (k, z_ok, length (as_bytes k))
  write_keyexpr len (err e) = (dummy, e, len)

  abbrev pub drop_len : KeyExpr × ZResult × ℕ → KeyExpr × ZResult
  drop_len r = (r.0, r.1)

  unfoldable pub z_keyexpr_from_substr_autocanonize : Ptr → ℕ → M (KeyExpr × ZResult × ℕ)
  unfolding keyexpr_create gravestone
  z_keyexpr_from_substr_autocanonize start len =
      if start == null
      then pure (gravestone, z_einval, len)
      else do r ← keyexpr_create start len true true; pure (write_keyexpr len r)

  unfoldable pub z_view_keyexpr_from_substr_autocanonize : Ptr → ℕ → M (KeyExpr × ZResult × ℕ)
  unfolding keyexpr_create gravestone
  z_view_keyexpr_from_substr_autocanonize start len =
      if start == null
      then pure (gravestone, z_einval, len)
      else do r ← keyexpr_create start len true false; pure (write_keyexpr len r)

  unfoldable pub z_keyexpr_from_substr : Ptr → ℕ → M (KeyExpr × ZResult)
  unfolding keyexpr_create gravestone
  z_keyexpr_from_substr expr len =
      if expr == null
      then pure (gravestone, z_einval)
      else do r ← keyexpr_create expr len false true; pure (drop_len (write_keyexpr len r))

  unfoldable pub z_view_keyexpr_from_substr : Ptr → ℕ → M (KeyExpr × ZResult)
  unfolding keyexpr_create gravestone
  z_view_keyexpr_from_substr expr len =
      if expr == null
      then pure (gravestone, z_einval)
      else do r ← keyexpr_create expr len false false; pure (drop_len (write_keyexpr len r))

  unfoldable pub z_view_keyexpr_from_substr_unchecked : Ptr → ℕ → M KeyExpr
  unfolding from_raw_parts gravestone
  z_view_keyexpr_from_substr_unchecked start len =
      if start == null
      then pure gravestone
      else do name ← from_raw_parts start len; pure (from_unchecked name)

  abbrev pub code_of : Result KeyExpr → ZResult
  code_of (ok k) = z_ok
  code_of (err e) = e

  unfoldable pub z_keyexpr_is_canon : Ptr → ℕ → M ZResult
  unfolding keyexpr_create
  z_keyexpr_is_canon start len = do r ← keyexpr_create start len false false; pure (code_of r)

  -- The code, and what `len` holds then.
  abbrev pub canonized : ℕ → Result KeyExpr → ZResult × ℕ
  canonized len (ok k) = (z_ok, length (as_bytes k))
  canonized len (err e) = (e, len)

  unfoldable pub z_keyexpr_canonize : Ptr → ℕ → M (ZResult × ℕ)
  unfolding keyexpr_create
  z_keyexpr_canonize start len =
      if start == null
      then pure (z_einval, len)
      else do r ← keyexpr_create start len true false; pure (canonized len r)

  unfoldable pub z_internal_keyexpr_check : KeyExpr → Bool
  unfolding is_gravestone
  z_internal_keyexpr_check k = not (is_gravestone k)

  unfoldable pub z_view_keyexpr_is_empty : KeyExpr → Bool
  unfolding is_gravestone
  z_view_keyexpr_is_empty k = is_gravestone k

  -- What the variable holds after the drop.
  unfoldable pub z_keyexpr_drop : KeyExpr → KeyExpr
  unfolding gravestone
  z_keyexpr_drop k = gravestone

  unfoldable pub z_keyexpr_equals : KeyExpr → KeyExpr → Bool
  z_keyexpr_equals l r = equals l r

  unfoldable pub z_keyexpr_intersects : KeyExpr → KeyExpr → Bool
  z_keyexpr_intersects l r = intersects l r

  unfoldable pub z_keyexpr_includes : KeyExpr → KeyExpr → Bool
  z_keyexpr_includes l r = includes l r

  unfoldable pub z_keyexpr_relation_to : KeyExpr → KeyExpr → IntersectionLevel
  unfolding from_set_level
  z_keyexpr_relation_to l r = from_set_level (relation_to l r)

  abbrev generic : Option KeyExpr → KeyExpr × ZResult
  generic none = (dummy, z_egeneric)
  generic (some k) = (k, z_ok)

  unfoldable pub z_keyexpr_concat : KeyExpr → Ptr → ℕ → M (KeyExpr × ZResult)
  unfolding from_raw_parts is_utf8 gravestone
  z_keyexpr_concat left right_start right_len = do
    right ← from_raw_parts right_start right_len
    if is_utf8 right then pure (generic (concat left right)) else pure (gravestone, z_einval)

  unfoldable pub z_keyexpr_join : KeyExpr → KeyExpr → KeyExpr × ZResult
  z_keyexpr_join left right = generic (join left (as_bytes right))

  module _ (strlen : Strlen) where
    unfoldable pub z_keyexpr_from_str : Ptr → M (KeyExpr × ZResult)
    unfolding z_keyexpr_from_substr strlen_or_zero
    z_keyexpr_from_str expr m = z_keyexpr_from_substr expr (strlen_or_zero strlen m.byte expr) m

    unfoldable pub z_keyexpr_from_str_autocanonize : Ptr → M (KeyExpr × ZResult)
    unfolding z_keyexpr_from_substr_autocanonize strlen_or_zero
    z_keyexpr_from_str_autocanonize expr m =
        (z_keyexpr_from_substr_autocanonize expr (strlen_or_zero strlen m.byte expr) >>= λ r.
        pure (drop_len r))
          m

    unfoldable pub z_view_keyexpr_from_str : Ptr → M (KeyExpr × ZResult)
    unfolding z_view_keyexpr_from_substr strlen_or_zero gravestone
    z_view_keyexpr_from_str expr m =
        if expr == null
        then some ((gravestone, z_einval), m)
        else z_view_keyexpr_from_substr expr (strlen_or_zero strlen m.byte expr) m

    abbrev pub is_ok : ZResult → Bool
    is_ok c = same_code c z_ok

    -- `*expr.add(len) = 0` where the code is `Z_OK`
    abbrev terminate : Ptr → KeyExpr × ZResult × ℕ → M (KeyExpr × ZResult)
    terminate expr r =
        if is_ok r.1 then put (expr + r.2) (0 ∷ []) >> pure (drop_len r) else pure (drop_len r)

    unfoldable pub z_view_keyexpr_from_str_autocanonize : Ptr → M (KeyExpr × ZResult)
    unfolding z_view_keyexpr_from_substr_autocanonize strlen_or_zero
    z_view_keyexpr_from_str_autocanonize expr m =
        (z_view_keyexpr_from_substr_autocanonize expr (strlen_or_zero strlen m.byte expr)
            >>= terminate expr)
          m

    unfoldable pub z_view_keyexpr_from_str_unchecked : Ptr → M KeyExpr
    unfolding z_view_keyexpr_from_substr_unchecked strlen_or_zero
    z_view_keyexpr_from_str_unchecked s m =
        z_view_keyexpr_from_substr_unchecked s (strlen_or_zero strlen m.byte s) m

    abbrev pub terminate_code : Ptr → ZResult × ℕ → M ZResult
    terminate_code start (code, n) =
        if is_ok code then put (start + n) (0 ∷ []) >> pure z_ok else pure code

    unfoldable pub z_keyexpr_canonize_null_terminated : Ptr → M ZResult
    unfolding z_keyexpr_canonize strlen_or_zero
    z_keyexpr_canonize_null_terminated start m =
        (z_keyexpr_canonize start (strlen_or_zero strlen m.byte start) >>= terminate_code start) m
