-- ===== src/Splitguide/Record/Tallies.antt =====
-- What the tokens of a record call for: its type, its identifiers and its nesting.
use mathlib.Core.List.{append-nil}
use zenoh_c.Common.{
  ℕ, ◌+◌, ◌≡◌, refl, sym, ap, false, not, Option, none, some, List, [], ◌∷◌, ◌++◌, if◌then◌else◌,
  All, is_empty, arith,
}
use zenoh_c.Common.Text.{Text}
use zenoh_c.Splitguide.Failure.{
  RecordType, empty, multiple, private_token, typedef_record, function_record, const_record,
  prepr_define, prepr_include,
}
use zenoh_c.Splitguide.Token.{
  TokenType, Token, typedef_token, function_token, const_token, define_token, include_token,
  if_token, endif_token,
}
use zenoh_c.Splitguide.Record.{Record, new, update, same_type}

-- The type of record that a token alone makes.
abbrev pub record_type : TokenType → Option RecordType
record_type typedef_token = some typedef_record
record_type function_token = some function_record
record_type const_token = some const_record
record_type TokenType.private_token = some private_token
record_type define_token = some prepr_define
record_type include_token = some prepr_include
record_type _ = none

abbrev cons_some {ℓ} : {A : Type ℓ} → Option A → List A → List A
cons_some none xs = xs
cons_some (some x) xs = x ∷ xs

abbrev pub types_of : List Token → List RecordType
types_of [] = []
types_of (t ∷ ts) = cons_some (record_type t.tt) (types_of ts)

-- No typed token, one, or several.
abbrev pub summary : List RecordType → RecordType
summary [] = empty
summary (x ∷ []) = x
summary (_ ∷ _ ∷ _) = multiple

-- The identifiers of the typed tokens that have one.
abbrev id_of : Option RecordType → Text → List Text → List Text
id_of none id ids = ids
id_of (some _) id ids = if is_empty id then ids else id ∷ ids

abbrev pub ids_of : List Token → List Text
ids_of [] = []
ids_of (t ∷ ts) = id_of (record_type t.tt) t.id (ids_of ts)

abbrev pub is_if : TokenType → ℕ
is_if if_token = 1
is_if _ = 0

abbrev pub is_endif : TokenType → ℕ
is_endif endif_token = 1
is_endif _ = 0

abbrev pub ifs : List Token → ℕ
ifs [] = 0
ifs (t ∷ ts) = is_if t.tt + ifs ts

abbrev pub endifs : List Token → ℕ
endifs [] = 0
endifs (t ∷ ts) = is_endif t.tt + endifs ts

pub record IsSummary (r : Record) : Type 0 where
  pub type_is : r.rt ≡ summary (types_of r.tokens)
  pub ids_are : r.ids ≡ ids_of r.tokens
  pub balance : ifs r.tokens ≡ endifs r.tokens + r.nesting
  pub fresh : r.used ≡ false

pub new-IsSummary : IsSummary new
new-IsSummary = record { type_is = refl; ids_are = refl; balance = refl; fresh = refl }

pub ifs-append : (xs ys : List Token) → ifs (xs ++ ys) ≡ ifs xs + ifs ys
ifs-append [] ys = omega arith
ifs-append (x ∷ xs) ys = omega (arith, ifs-append xs ys)

pub endifs-append : (xs ys : List Token) → endifs (xs ++ ys) ≡ endifs xs + endifs ys
endifs-append [] ys = omega arith
endifs-append (x ∷ xs) ys = omega (arith, endifs-append xs ys)

cons_some-append {ℓ} :
    {A : Type ℓ} (o : Option A) (xs ys zs : List A)
    → xs ≡ ys ++ zs
    → cons_some o xs ≡ cons_some o ys ++ zs
cons_some-append none xs ys zs e = e
cons_some-append (some x) xs ys zs e = ap (◌∷◌ x) e

pub types_of-concat :
    (ts : List Token) (t : Token)
    → types_of (ts ++ t ∷ []) ≡ types_of ts ++ cons_some (record_type t.tt) []
types_of-concat [] t = refl
types_of-concat (x ∷ ts) t =
    cons_some-append (record_type x.tt) _ (types_of ts) _ (types_of-concat ts t)

id_of-append :
    (o : Option RecordType) (id : Text) (xs ys zs : List Text)
    → xs ≡ ys ++ zs
    → id_of o id xs ≡ id_of o id ys ++ zs
id_of-append none id xs ys zs e = e
id_of-append (some x) [] xs ys zs e = e
id_of-append (some x) (c ∷ id) xs ys zs e = ap (◌∷◌ (c ∷ id)) e

pub ids_of-concat :
    (ts : List Token) (t : Token)
    → ids_of (ts ++ t ∷ []) ≡ ids_of ts ++ id_of (record_type t.tt) t.id []
ids_of-concat [] t = refl
ids_of-concat (x ∷ ts) t = id_of-append (record_type x.tt) x.id _ (ids_of ts) _ (ids_of-concat ts t)

abbrev NotEmpty : RecordType → Type 0
NotEmpty rt = same_type rt empty ≡ false

cons_some-All :
    (o : Option RecordType) (xs : List RecordType)
    → ((rt : RecordType) → o ≡ some rt → NotEmpty rt)
    → All NotEmpty xs
    → All NotEmpty (cons_some o xs)
cons_some-All none xs h k = k
cons_some-All (some x) xs h k = (h x refl, k)

-- A token never makes an empty record.
record_type-NotEmpty : (k : TokenType) (rt : RecordType) → record_type k ≡ some rt → NotEmpty rt
unfolding same_type
record_type-NotEmpty typedef_token rt e = ground arith
record_type-NotEmpty _ rt e = ground arith

pub types_of-All : (ts : List Token) → All NotEmpty (types_of ts)
types_of-All [] = tt
types_of-All (t ∷ ts) =
    cons_some-All (record_type t.tt) (types_of ts) (record_type-NotEmpty t.tt) (types_of-All ts)

pub update-summary :
    (xs : List RecordType) (rt : RecordType)
    → All NotEmpty xs
    → update (summary xs) rt ≡ summary (xs ++ rt ∷ [])
unfolding update same_type
update-summary [] rt h = refl
update-summary (empty ∷ []) rt h = cc
update-summary (_ ∷ []) rt h = refl
update-summary (x ∷ y ∷ xs) rt h = refl

pub push_id :
    (id : Text) (ids : List Text)
    → (if not (is_empty id) then ids ++ id ∷ [] else ids)
      ≡ ids ++ (if is_empty id then [] else id ∷ [])
push_id [] ids = sym (append-nil ids)
push_id (c ∷ id) ids = refl
