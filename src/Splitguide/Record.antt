-- ===== src/Splitguide/Record.antt =====
-- `Record`, `RecordType` and their printing in buildrs/splitguide.rs.
pub mod Tallies
pub mod Summary
use zenoh_c.Common.{
  ℕ, suc, ◌+◌, ◌-◌, ◌<◌, Bool, true, false, not, ◌&&◌, ◌||◌, Option, none, some, List, [], ◌∷◌,
  ◌++◌, map, ltb, ◌==◌, if◌then◌else◌, is_empty, filter, any, Outcome, ok, err, panic,
}
use zenoh_c.Common.Text.{Text, codes, text_eq}
use zenoh_c.Splitguide.Failure.{
  Failure, unmatched_endif, unused, RecordType, empty, multiple, private_token, typedef_record,
  function_record, const_record, prepr_define, prepr_include,
}
use zenoh_c.Splitguide.Token.{
  TokenType, Token, comment_token, typedef_token, function_token, const_token, define_token,
  include_token, if_token, else_token, endif_token, whitespace_token,
}

-- `derive(PartialEq)` of `RecordType`
abbrev tag : RecordType → ℕ
tag empty = 0
tag multiple = 1
tag private_token = 2
tag typedef_record = 3
tag function_record = 4
tag const_record = 5
tag prepr_define = 6
tag prepr_include = 7

unfoldable pub same_type : RecordType → RecordType → Bool
same_type a b = tag a == tag b

-- `RecordType::update`
unfoldable pub update : RecordType → RecordType → RecordType
update empty rt = rt
update multiple rt = multiple
update _ rt = multiple

-- `nesting` is an `i32` that is never below 0 where the loop goes on; `push_prepr_if` has its upper
-- bound.
pub record Record : Type 0 where
  pub used : Bool
  pub rt : RecordType
  pub nesting : ℕ
  pub ids : List Text
  pub tokens : List Token

-- `Record::new`
abbrev pub new : Record
new = record { used = false; rt = empty; nesting = 0; ids = []; tokens = [] }

unfoldable pub is_used : Record → Outcome Failure (Unit {0})
unfolding same_type
is_used r =
    if r.used || same_type r.rt empty || same_type r.rt private_token
    then ok tt
    else err (unused r.rt (map (λ (t : Token). t.id) r.tokens))

unfoldable pub is_ready : Record → Bool
unfolding same_type
is_ready r = r.nesting == 0 && not (same_type r.rt empty)

unfoldable pub contains_id : Record → Text → Bool
contains_id r id = any (λ v. text_eq v id) r.ids

unfoldable pub push_token : Record → Token → Record
push_token r t = record r { tokens = r.tokens ++ t ∷ [] }

unfoldable pub push_record_type_token : Record → Token → RecordType → Record
unfolding update push_token
push_record_type_token r t rt =
    push_token
      (record r {
        rt = update r.rt rt;
        ids = if not (is_empty t.id) then r.ids ++ t.id ∷ [] else r.ids;
      })
      t

-- The largest `i32`, 2 ^ 31 - 1
abbrev pub i32_max : ℕ
i32_max = 2147483647

-- With overflow checks, as in a debug build: `+= 1` panics where the sum is no `i32`.
unfoldable pub push_prepr_if : Record → Token → Outcome Failure Record
unfolding push_token
push_prepr_if r t =
    if ltb r.nesting i32_max
    then ok (push_token (record r { nesting = r.nesting + 1 }) t)
    else panic

unfoldable pub push_prepr_endif : Record → Token → Outcome Failure Record
unfolding push_token
push_prepr_endif r t =
    if r.nesting == 0
    then err unmatched_endif
    else ok (push_token (record r { nesting = r.nesting - 1 }) t)

abbrev add : TokenType → Record → Token → Outcome Failure Record
add comment_token r t = ok (push_token r t)
add typedef_token r t = ok (push_record_type_token r t typedef_record)
add function_token r t = ok (push_record_type_token r t function_record)
add const_token r t = ok (push_record_type_token r t const_record)
add TokenType.private_token r t = ok (push_record_type_token r t private_token)
add define_token r t = ok (push_record_type_token r t prepr_define)
add include_token r t = ok (push_record_type_token r t prepr_include)
add if_token r t = push_prepr_if r t
add else_token r t = ok (push_token r t)
add endif_token r t = push_prepr_endif r t
add whitespace_token r t = ok (push_token r t)

unfoldable pub add_token : Record → Token → Outcome Failure Record
unfolding push_record_type_token push_prepr_if push_prepr_endif push_token
add_token r t = add t.tt r t

-- `Display` of a token: its text and an end of line.
unfoldable pub show_token : Token → Text
show_token t = t.span ++ codes "\n"

abbrev pub show_all : List Token → Text
show_all [] = []
show_all (t ∷ ts) = show_token t ++ show_all ts

abbrev pub is_comment : Token → Bool
is_comment t = is_comment_type t.tt
  where
    is_comment_type : TokenType → Bool
    is_comment_type comment_token = true
    is_comment_type _ = false

abbrev pub is_whitespace_token : Token → Bool
is_whitespace_token t = is_whitespace_type t.tt
  where
    is_whitespace_type : TokenType → Bool
    is_whitespace_type whitespace_token = true
    is_whitespace_type _ = false

-- `Display` of a record: all comments first, then the rest without whitespace.
unfoldable pub show_record : Record → Text
unfolding show_token
show_record r =
    show_all (filter is_comment r.tokens)
    ++ show_all (filter (λ t. not (is_comment t) && not (is_whitespace_token t)) r.tokens)
