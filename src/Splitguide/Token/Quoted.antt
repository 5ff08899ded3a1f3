-- ===== src/Splitguide/Token/Quoted.antt =====
-- `Token::next` of buildrs/splitguide.rs on an `#include` with quotes.
use zenoh_c.Common.{◌≡◌, refl, ◌++◌, panic}
use zenoh_c.Common.Text.{Text, codes, starts_with, find, slice, Unicode}
use zenoh_c.Splitguide.Token.{
  until_incl, whitespace, comment, prepr_endif, include, prepr_include, next,
}

abbrev pub quoted : Text
quoted = codes "#include \""

prepr_include-quoted : (rest : Text) → prepr_include (quoted ++ rest) ≡ panic
unfolding prepr_include include starts_with until_incl find slice
prepr_include-quoted rest = refl

-- `Token::next` panics on every text that begins with `#include "`, whatever follows: the span that
-- `until_incl` returns ends behind the opening quote, and the slice for the identifier begins
-- behind it and ends in front of it.
pub next_quoted : (u : Unicode) (rest : Text) → next u (quoted ++ rest) ≡ panic
unfolding next prepr_include whitespace comment prepr_endif
next_quoted u rest = refl
