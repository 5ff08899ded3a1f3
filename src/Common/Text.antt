-- ===== src/Common/Text.antt =====
-- `str` of the Rust library as a list of code points, and the methods that the sources call.
-- Offsets count characters here and bytes in Rust. Where the sources cut a `str` at an offset that
-- might fall inside a character, the model says so at the cut.
use Prim.Native.Char.{code}
use Prim.Native.String.{String}
use Prim.Native.Nat.{ℕ, zero, suc, ◌-◌}
use mathlib.Core.Path.{◌≡◌, refl}
use mathlib.Core.Logic.{◌↔◌}
use mathlib.Core.Bool.{Bool, true, false, not, ◌&&◌, ◌||◌}
use mathlib.Core.List.{List, [], ◌∷◌, ◌++◌, reverse}
use mathlib.Core.Option
use mathlib.Core.Option.{Option, none, some}
use native.Mathlib.Omega.{arith}
use zenoh_c.Common.Tests.{ltb, leb, ◌==◌, if◌then◌else◌}
use zenoh_c.Common.Lists.{length, is_some, take, drop, take_while, drop_while, is_empty}
use zenoh_c.Common.Outcomes.{Outcome, ok, panic}

abbrev pub Text : Type 0
Text = List ℕ

-- The code points of a literal.
abbrev pub codes : String → Text
codes String.[] = []
codes (String.◌∷◌ c s) = code c ∷ codes s

-- `==` of two texts.
unfoldable pub text_eq : Text → Text → Bool
text_eq [] [] = true
text_eq (x ∷ xs) (y ∷ ys) = x == y && text_eq xs ys
text_eq _ _ = false

pub text_eq_iff : (s t : Text) → (text_eq s t ≡ true) ↔ (s ≡ t)
unfolding text_eq
text_eq_iff (x ∷ s) (y ∷ t) = ground (arith, text_eq_iff s t)
text_eq_iff _ _ = ground arith

-- `s.starts_with(pattern)`
unfoldable pub starts_with : Text → Text → Bool
starts_with s [] = true
starts_with [] (p ∷ ps) = false
starts_with (c ∷ s) (p ∷ ps) = c == p && starts_with s ps

-- `s.ends_with(c)`
unfoldable pub ends_with : Text → ℕ → Bool
ends_with [] c = false
ends_with (d ∷ []) c = d == c
ends_with (d ∷ e ∷ s) c = ends_with (e ∷ s) c

-- `String::pop`, its result dropped
unfoldable pub pop : Text → Text
pop [] = []
pop (c ∷ []) = []
pop (c ∷ d ∷ s) = c ∷ pop (d ∷ s)

-- `s.find(pattern)`: where the first occurrence begins.
unfoldable pub find : Text → Text → Option ℕ
unfolding starts_with
find [] p = if starts_with [] p then some 0 else none
find (c ∷ s) p =
    let later = Option.map suc (find s p) in if starts_with (c ∷ s) p then some 0 else later

-- `s.contains(pattern)`
unfoldable pub contains : Text → Text → Bool
unfolding find
contains s p = is_some (find s p)

-- `&s[a..b]`
unfoldable pub slice {κ} : {E : Type κ} → Text → ℕ → ℕ → Outcome E Text
slice s a b = if leb a b && leb b (length s) then ok (take (b - a) (drop a s)) else panic

unfoldable pub push_front : ℕ → List Text → List Text
push_front c [] = (c ∷ []) ∷ []
push_front c (part ∷ parts) = (c ∷ part) ∷ parts

-- `s.split(separator)`, a text with no separator being one part.
unfoldable pub split : ℕ → Text → List Text
unfolding push_front
split sep [] = [] ∷ []
split sep (c ∷ s) = let parts = split sep s in if c == sep then [] ∷ parts else push_front c parts

-- What `char::is_whitespace` and `char::is_alphanumeric` say above ASCII: the tables of Unicode.
pub record Unicode : Type 0 where
  pub white_space : ℕ → Bool
  pub alphanumeric : ℕ → Bool

abbrev pub within : ℕ → ℕ → ℕ → Bool
within lo hi c = leb lo c && leb c hi

module _ (u : Unicode) where
  unfoldable pub is_whitespace : ℕ → Bool
  is_whitespace c = c == 0x20 || within 0x09 0x0d c || (ltb 0x7f c && u.white_space c)

  unfoldable pub is_alphanumeric : ℕ → Bool
  is_alphanumeric c =
      within b'a' b'z' c
      || within b'A' b'Z' c
      || within b'0' b'9' c
      || (ltb 0x7f c && u.alphanumeric c)

  -- `s.trim()`
  unfoldable pub trim : Text → Text
  unfolding is_whitespace
  trim s = reverse (drop_while is_whitespace (reverse (drop_while is_whitespace s)))

  -- `s.split_whitespace().next()`
  unfoldable pub first_word : Text → Option Text
  unfolding is_whitespace
  first_word s =
      let word = take_while (λ c. not (is_whitespace c)) (drop_while is_whitespace s) in
      if is_empty word then none else some word

-- `s.replace(pattern, to)` for a pattern that is not empty; the characters of an occurrence that
-- are still to be left out are counted down.
replace_from : Text → Text → ℕ → Text → Text
replace_from pattern to n [] = []
replace_from pattern to (suc n) (c ∷ s) = replace_from pattern to n s
replace_from pattern to zero (c ∷ s) =
    let behind = replace_from pattern to (length pattern - 1) s in
    let later = replace_from pattern to zero s in
    if starts_with (c ∷ s) pattern then to ++ behind else c ∷ later

unfoldable pub replace : Text → Text → Text → Text
unfolding replace_from starts_with
replace s pattern to = replace_from pattern to 0 s

-- `parts.join(separator)`
unfoldable pub join : Text → List Text → Text
join sep [] = []
join sep (s ∷ []) = s
join sep (s ∷ t ∷ parts) = s ++ sep ++ join sep (t ∷ parts)

-- `parts.concat()`
unfoldable pub concat : List Text → Text
concat [] = []
concat (s ∷ parts) = s ++ concat parts

-- `BufRead::lines`: a line ends with "\n" or "\r\n"; there is no empty line behind the last end.
unfoldable pub trim_line : Text → Text
unfolding ends_with pop
trim_line s = if ends_with s 0x0d then pop s else s

ended_lines : List Text → List Text
unfolding trim_line
ended_lines [] = []
ended_lines (s ∷ []) = if is_empty s then [] else s ∷ []
ended_lines (s ∷ t ∷ parts) = trim_line s ∷ ended_lines (t ∷ parts)

unfoldable pub lines : Text → List Text
unfolding split ended_lines
lines s = ended_lines (split 0x0a s)

-- Whether two texts are the same as far as both go.
abbrev agree : Text → Text → Bool
agree [] t = true
agree (x ∷ s) [] = true
agree (x ∷ s) (y ∷ t) = x == y && agree s t

pub starts_with-agree :
    (s p q : Text) → starts_with s p ≡ true → starts_with s q ≡ true → agree p q ≡ true
unfolding starts_with
starts_with-agree s [] q h k = refl
starts_with-agree s (x ∷ p) [] h k = refl
starts_with-agree [] (x ∷ p) (y ∷ q) h k = cc h
starts_with-agree (c ∷ s) (x ∷ p) (y ∷ q) h k = ground (arith, starts_with-agree s p q)

-- `s.to_ascii_uppercase()`
unfoldable pub to_ascii_uppercase : Text → Text
to_ascii_uppercase [] = []
to_ascii_uppercase (c ∷ s) = (if within b'a' b'z' c then c - 32 else c) ∷ to_ascii_uppercase s
