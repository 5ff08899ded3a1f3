-- ===== src/Splitguide/Token/Spans.antt =====
-- Each recognizer of buildrs/splitguide.rs, and the text of the token that it recognizes.
use mathlib.Core.Option
use zenoh_c.Common.{
  ℕ, ◌-◌, ◌<◌, refl, ◌||◌, [], ◌∷◌, arith, inl, inr, Bool-cases, Option-cases, length, take, drop,
  take_while, ltb, ltb→lt, if◌then◌else◌,
}
use zenoh_c.Common.Int.{pos}
use zenoh_c.Common.Text.{
  Text, codes, starts_with, contains, slice, Unicode, is_whitespace, first_word,
}
use zenoh_c.Splitguide.Token.{
  Recognised, or_else, private_token, typedef_token, function_token, const_token, define_start,
  define_token, include_token, unwrap, until_incl, line_of, typedef_len, typedef_tail, typedef,
  function, function_id, const_id, const, whitespace, comment, prepr_if, prepr_define, prepr_endif,
  prepr_else, include, prepr_include, next,
}
use zenoh_c.Splitguide.Token.Fronts.{
  IsFront, Reads, Ensures, slice-Cuts, unwrap-Cuts, typedef_tail-Cuts, function_id-Cuts,
  const_id-Cuts, Ensures-or_else, Ensures-and_then, Ensures-bind, Ensures-expect, Ensures-if,
  take-IsFront, self-IsFront, starts_with_pos, line_of-IsFront, until_incl-IsFront, Ensures-token,
  or-elim, directive-IsFront, semicolon-IsFront, typedef_len_pos,
}

module _ (u : Unicode) where
  whitespace-Reads : (s : Text) → Ensures (Reads s) (whitespace u s)
  unfolding whitespace
  whitespace-Reads [] = tt
  whitespace-Reads (c ∷ s) =
      let len = length (take_while (is_whitespace u) (c ∷ s)) in
      Ensures-if (Reads (c ∷ s)) (ltb 0 len) _
        (λ h. take-IsFront len (c ∷ s) (ltb→lt 0 len h) (omega arith))

  typedef-Reads : (s : Text) → Ensures (Reads s) (typedef u s)
  unfolding typedef
  typedef-Reads [] = tt
  typedef-Reads (c ∷ s) =
      let span = take (typedef_len (c ∷ s) (pos 0)) (c ∷ s) in
      Ensures-if (Reads (c ∷ s)) (starts_with (c ∷ s) (codes "typedef")) _ (λ h.
        Ensures-token (c ∷ s) span
          (λ id. if starts_with id (codes "_") then private_token else typedef_token)
          (typedef_tail u span) (typedef_tail-Cuts u span)
          (take-IsFront _ (c ∷ s) (typedef_len_pos c s (pos 0)) (omega arith)))

  function-Reads : (s : Text) → Ensures (Reads s) (function u s)
  unfolding function
  function-Reads s = Ensures-and_then (Reads s) (until_incl s (codes ";")) _ λ span e.
      Ensures-if (Reads s) (contains span (codes "(")) _ (λ h.
        Ensures-token s span (λ id. function_token) (function_id u span) (function_id-Cuts u span)
          (semicolon-IsFront s span e))

  const-Reads : (s : Text) → Ensures (Reads s) (const u s)
  unfolding const
  const-Reads s = Ensures-and_then (Reads s) (until_incl s (codes ";")) _ λ span e.
      Ensures-if (Reads s) (contains span (codes "const")) _ (λ h.
        Ensures-token s span (λ id. const_token) (const_id u span) (const_id-Cuts u span)
          (semicolon-IsFront s span e))

  prepr_define-Reads : (s : Text) → Ensures (Reads s) (prepr_define u s)
  unfolding prepr_define
  prepr_define-Reads s = Ensures-if (Reads s) (starts_with s define_start) _ (λ h.
      Ensures-bind (Reads s) (slice (line_of s) (length define_start) (length (line_of s))) _
        (slice-Cuts (line_of s) _ _)
        λ tail.
          Ensures-token s (line_of s)
            (λ id.
              if starts_with (drop (length define_start) s) (codes "_")
              then private_token
              else define_token)
            (unwrap (first_word u tail)) (unwrap-Cuts (first_word u tail))
            (directive-IsFront s (codes "define ") h))

prepr_endif-Reads : (s : Text) → Ensures (Reads s) (prepr_endif s)
unfolding prepr_endif
prepr_endif-Reads s =
    Ensures-if (Reads s) (starts_with s (codes "#endif")) _ (directive-IsFront s (codes "endif"))

prepr_else-Reads : (s : Text) → Ensures (Reads s) (prepr_else s)
unfolding prepr_else
prepr_else-Reads s =
    Ensures-if (Reads s) (starts_with s (codes "#else")) _ (directive-IsFront s (codes "else"))

prepr_if-Reads : (s : Text) → Ensures (Reads s) (prepr_if s)
unfolding prepr_if
prepr_if-Reads s =
    Ensures-if (Reads s)
      (starts_with s (codes "#if ")
        || starts_with s (codes "#ifdef ")
        || starts_with s (codes "#ifndef "))
      _
      (or-elim _ _ _ (directive-IsFront s (codes "if ")) (directive-IsFront s (codes "ifdef "))
        (directive-IsFront s (codes "ifndef ")))

block_comment-IsFront :
    (s : Text) → 0 < length s → IsFront s (Option.get_or (until_incl s (codes "*/")) s)
block_comment-IsFront s h = elim (Option-cases (until_incl s (codes "*/"))) [
  | inl e ↦ rw e (self-IsFront s h)
  | inr (span, e) ↦ rw e (until_incl-IsFront s (codes "*/") span (omega arith) h e)
]

comment-Reads : (s : Text) → Ensures (Reads s) (comment s)
unfolding comment
comment-Reads s = elim (Bool-cases (starts_with s (codes "/*"))) [
  | inl h ↦ rw h (block_comment-IsFront s (starts_with_pos s b'/' (codes "*") h))
  | inr h ↦ rw h (
      Ensures-if (Reads s) (starts_with s (codes "//")) _ (line_of-IsFront s b'/' (codes "/") refl))
]

include-Reads :
    (s : Text) (p : ℕ) (ps : Text) (q : ℕ) (qs : Text)
    → Ensures (Reads s) (include s (p ∷ ps) (q ∷ qs))
unfolding include
include-Reads s p ps q qs = Ensures-if (Reads s) (starts_with s (p ∷ ps)) _ λ h.
    Ensures-expect (Reads s) (until_incl s (q ∷ qs)) _ λ span e.
      Ensures-token s span (λ id. include_token)
        (slice span (length (p ∷ ps)) (length span - length (q ∷ qs))) (slice-Cuts span _ _)
        (until_incl-IsFront s (q ∷ qs) span (omega arith) (starts_with_pos s p ps h) e)

prepr_include-Reads : (s : Text) → Ensures (Reads s) (prepr_include s)
unfolding prepr_include
prepr_include-Reads s =
    Ensures-or_else (Reads s) (include s (codes "#include \"") (codes "\"")) _
      (include-Reads s b'#' (codes "include \"") b'"' [])
      (include-Reads s b'#' (codes "include <") b'>' [])

-- `Token::next` recognises a token whose text is a non-empty prefix of the input, or recognises
-- none, or panics.
pub next-Reads : (u : Unicode) (s : Text) → Ensures (Reads s) (next u s)
unfolding next
next-Reads u s = orr (whitespace u s) _ (whitespace-Reads u s) (
    orr (comment s) _ (comment-Reads s) (
      orr (prepr_endif s) _ (prepr_endif-Reads s) (
        orr (prepr_include s) _ (prepr_include-Reads s) (
          orr (prepr_define u s) _ (prepr_define-Reads u s) (
            orr (prepr_if s) _ (prepr_if-Reads s) (
              orr (prepr_else s) _ (prepr_else-Reads s) (
                orr (typedef u s) _ (typedef-Reads u s)
                  (orr (const u s) _ (const-Reads u s) (function-Reads u s)))))))))
  where
    orr :
        (a b : Recognised)
        → Ensures (Reads s) a
        → Ensures (Reads s) b
        → Ensures (Reads s) (or_else a b)
    orr = Ensures-or_else (Reads s)
