-- ===== src/Keyexpr/Interface.antt =====
-- What src/keyexpr.rs uses of the zenoh crate: the type of key expressions and its operations, and
-- separately what their documentation says of them.
use zenoh_c.Common.{ℕ, ◌≤◌, ◌≡◌, Bool, true, false, Option, some, length, take}
use zenoh_c.Common.Utf8.{is_utf8}
use zenoh_c.Collections.Memory.{Bytes}

-- `SetIntersectionLevel`
pub data Level : Type 0 where
  disjoint intersecting including equal : Level

pub record Zenoh : Type 1 where
  pub KeyExpr : Type 0
  pub dummy : KeyExpr
  pub is_dummy : KeyExpr → Bool
  pub as_bytes : KeyExpr → Bytes
  -- `KeyExpr::try_from` and `keyexpr::new`
  pub try_from : Bytes → Option KeyExpr
  pub autocanonize : Bytes → Option KeyExpr
  -- `Canonize::canonize`: what the buffer holds then, and how much of it is the result
  pub canonize : Bytes → Bytes × ℕ
  pub from_unchecked : Bytes → KeyExpr
  pub concat : KeyExpr → Bytes → Option KeyExpr
  pub join : KeyExpr → Bytes → Option KeyExpr
  pub equals : KeyExpr → KeyExpr → Bool
  pub intersects : KeyExpr → KeyExpr → Bool
  pub includes : KeyExpr → KeyExpr → Bool
  pub relation_to : KeyExpr → KeyExpr → Level

-- A key expression is not the dummy and reads as what it was made of; canonization keeps the size of
-- the buffer, does not lengthen the text, and makes text of text.
pub record IsLawful (z : Zenoh) : Type 0 where
  pub dummy_is : z.is_dummy z.dummy ≡ true
  pub try_from_not_dummy :
      (s : Bytes) (k : z.KeyExpr) → z.try_from s ≡ some k → z.is_dummy k ≡ false
  pub try_from_bytes : (s : Bytes) (k : z.KeyExpr) → z.try_from s ≡ some k → z.as_bytes k ≡ s
  pub autocanonize_not_dummy :
      (s : Bytes) (k : z.KeyExpr) → z.autocanonize s ≡ some k → z.is_dummy k ≡ false
  pub canonize_size : (s : Bytes) → length (z.canonize s).0 ≡ length s
  pub canonize_utf8 :
      (s : Bytes) → is_utf8 s ≡ true → is_utf8 (take (z.canonize s).1 (z.canonize s).0) ≡ true
  pub canonize_shortens : (s : Bytes) → (z.canonize s).1 ≤ length s
