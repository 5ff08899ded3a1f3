-- ===== src/Splitguide/Token.antt =====
-- `Token` of buildrs/splitguide.rs: one function for each kind of token, tried in order.
-- A `Cow<str>` or `&str` is a text. The cuts fall on the boundaries of characters but at one place,
-- the end of an unterminated typedef, where `typedef_tail` decides.
pub mod Quoted
pub mod Fronts
pub mod Spans
use zenoh_c.Common.{
  ℕ, suc, ◌+◌, ◌-◌, ◌<◌, Bool, true, false, not, ◌&&◌, ◌||◌, Option, none, some, List, [], ◌∷◌,
  reverse, ltb, ◌==◌, if◌then◌else◌, length, is_some, take, drop, take_while, Outcome, ok, panic,
  ◌>>=◌,
}
use zenoh_c.Common.Int.{ℤ, pos, succ, pred, is_zero}
use zenoh_c.Common.Text.{
  Text, codes, starts_with, find, contains, slice, Unicode, is_whitespace, is_alphanumeric,
  first_word,
}
use zenoh_c.Splitguide.Failure.{Failure}
use mathlib.Core.Option

pub data TokenType : Type 0 where
  comment_token typedef_token function_token const_token private_token : TokenType
  define_token include_token if_token else_token endif_token whitespace_token : TokenType

pub record Token : Type 0 where
  pub tt : TokenType
  pub id : Text
  pub span : Text

abbrev pub token : TokenType → Text → Text → Token
token tt id span = record { tt = tt; id = id; span = span }

-- What a recogniser returns: `Option<Token>`, or a panic.
abbrev pub Recognised : Type 0
Recognised = Outcome Failure (Option Token)

-- `a.or_else(|| b)`
abbrev pub or_else : Recognised → Recognised → Recognised
or_else (ok none) b = b
or_else a b = a

-- `a.and_then(|span| …)`
abbrev pub and_then : Option Text → (Text → Recognised) → Recognised
and_then none k = ok none
and_then (some span) k = k span

-- `s.until(pattern)`
unfoldable pub until : Text → Text → Option Text
until s pattern = Option.map (λ l. take l s) (find s pattern)

-- `s.until_incl(pattern)`
unfoldable pub until_incl : Text → Text → Option Text
until_incl s pattern = Option.map (λ l. take (l + length pattern) s) (find s pattern)

-- `s.until("\n").unwrap_or(s)`
unfoldable pub line_of : Text → Text
unfolding until
line_of s = Option.get_or (until s (codes "\n")) s

-- `accolades` after a character of a typedef
abbrev step_accolades : ℕ → ℤ → ℤ
step_accolades c n = if c == b'{' then succ n else if c == b'}' then pred n else n

-- `len` of a typedef: up to the first `;` outside braces, or all of the text.
unfoldable pub typedef_len : Text → ℤ → ℕ
typedef_len [] n = 0
typedef_len (c ∷ s) n =
    let rest = typedef_len s (step_accolades c n) in if c == b';' && is_zero n then 1 else suc rest

abbrev pub last_is_wide : Text → Bool
last_is_wide [] = false
last_is_wide (c ∷ []) = ltb 0x7f c
last_is_wide (_ ∷ d ∷ s) = last_is_wide (d ∷ s)

module _ (u : Unicode) where
  -- `c.is_alphanumeric() || c == '_'`
  unfoldable pub is_ident : ℕ → Bool
  is_ident c = is_alphanumeric u c || c == b'_'

  -- The identifier in front of the last character of `span`. That character has one byte where it
  -- is a `;`; a wider one makes `span.len() - 1` no boundary, and the cut panics.
  unfoldable pub typedef_tail : Text → Outcome Failure Text
  unfolding is_ident slice
  typedef_tail span =
      let id_len = 1 + length (take_while is_ident (drop 1 (reverse span))) in
      if last_is_wide span then panic else slice span (length span - id_len) (length span - 1)

  unfoldable pub typedef : Text → Recognised
  unfolding starts_with typedef_len typedef_tail
  typedef s =
      if starts_with s (codes "typedef")
      then (do
        let span = take (typedef_len s (pos 0)) s
        id ← typedef_tail span
        ok (
            some (
              token (if starts_with id (codes "_") then private_token else typedef_token) id span)))
      else ok none

  -- The identifier in front of the last `(` of `span`.
  unfoldable pub function_id : Text → Outcome Failure Text
  unfolding is_ident slice
  function_id span =
      let tail = take_while (λ c. not (c == b'(')) (reverse span) in
      let id_end = 1 + length tail in
      let id_len = length (take_while is_ident (drop id_end (reverse span))) in
      slice span (length span - id_end - id_len) (length span - id_end)

  unfoldable pub function : Text → Recognised
  unfolding until_incl contains function_id
  function s = and_then (until_incl s (codes ";")) λ span.
      if contains span (codes "(")
      then (do id ← function_id span; ok (some (token function_token id span)))
      else ok none

  unfoldable pub const_id : Text → Outcome Failure Text
  unfolding is_ident slice
  const_id span =
      let id_len = length (take_while is_ident (drop 1 (reverse span))) in
      slice span (length span - 1 - id_len) (length span - 1)

  unfoldable pub const : Text → Recognised
  unfolding until_incl contains const_id
  const s = and_then (until_incl s (codes ";")) λ span.
      if contains span (codes "const")
      then (do id ← const_id span; ok (some (token const_token id span)))
      else ok none

  unfoldable pub whitespace : Text → Recognised
  unfolding is_whitespace
  whitespace s =
      let len = length (take_while (is_whitespace u) s) in
      if ltb 0 len then ok (some (token whitespace_token [] (take len s))) else ok none

unfoldable pub comment : Text → Recognised
unfolding starts_with until_incl line_of
comment s =
    if starts_with s (codes "/*")
    then ok (some (token comment_token [] (Option.get_or (until_incl s (codes "*/")) s)))
    else if starts_with s (codes "//")
    then ok (some (token comment_token [] (line_of s)))
    else ok none

unfoldable pub prepr_if : Text → Recognised
unfolding starts_with line_of
prepr_if s =
    if starts_with s (codes "#if ")
      || starts_with s (codes "#ifdef ")
      || starts_with s (codes "#ifndef ")
    then ok (some (token if_token (line_of s) (line_of s)))
    else ok none

abbrev pub define_start : Text
define_start = codes "#define "

-- `.split_whitespace().next().unwrap()`
abbrev unwrap : Option Text → Outcome Failure Text
unwrap none = panic
unwrap (some t) = ok t

unfoldable pub prepr_define : Unicode → Text → Recognised
unfolding starts_with line_of first_word slice
prepr_define u s =
    if starts_with s define_start
    then (do
      let defined = drop (length define_start) s
      let span = line_of s
      tail ← slice span (length define_start) (length span)
      id ← unwrap (first_word u tail)
      ok (
          some (
            token (if starts_with defined (codes "_") then private_token else define_token) id
              span)))
    else ok none

unfoldable pub prepr_endif : Text → Recognised
unfolding starts_with line_of
prepr_endif s =
    if starts_with s (codes "#endif") then ok (some (token endif_token [] (line_of s))) else ok none

unfoldable pub prepr_else : Text → Recognised
unfolding starts_with line_of
prepr_else s =
    if starts_with s (codes "#else") then ok (some (token else_token [] (line_of s))) else ok none

-- `expect("detected unterminated #include")`
abbrev expect : Option Text → Outcome Failure Text
expect none = panic
expect (some t) = ok t

unfoldable pub include : Text → Text → Text → Recognised
unfolding starts_with until_incl slice
include s start end =
    if starts_with s start
    then (do
      span ← expect (until_incl s end)
      id ← slice span (length start) (length span - length end)
      ok (some (token include_token id span)))
    else ok none

unfoldable pub prepr_include : Text → Recognised
unfolding include
prepr_include s =
    or_else (include s (codes "#include \"") (codes "\""))
      (include s (codes "#include <") (codes ">"))

-- `Token::next`
unfoldable pub next : Unicode → Text → Recognised
unfolding whitespace comment prepr_endif prepr_include prepr_define prepr_if prepr_else typedef
    const function
next u s = or_else (whitespace u s) (
    or_else (comment s) (
      or_else (prepr_endif s) (
        or_else (prepr_include s) (
          or_else (prepr_define u s) (
            or_else (prepr_if s) (
              or_else (prepr_else s)
                (or_else (typedef u s) (or_else (const u s) (function u s)))))))))
