-- ===== src/Common/Utf8.antt =====
-- `std::str::from_utf8` as a test: a machine that reads a byte at a time and says which bytes may
-- follow, after the table of well-formed byte sequences of the Unicode standard.
use Prim.Native.Nat.{ℕ}
use mathlib.Core.Bool.{Bool, true, false, ◌&&◌}
use mathlib.Core.List.{List, [], ◌∷◌}
use mathlib.Core.Option.{Option, none, some}
use zenoh_c.Common.Tests.{ltb, leb, ◌==◌, if◌then◌else◌}

-- What is expected: the start of a character, so many tail bytes, or the second byte behind E0, ED, F0 or F4.
pub data Expecting : Type 0 where
  start tail_1 tail_2 tail_3 after_e0 after_ed after_f0 after_f4 : Expecting

abbrev within : ℕ → ℕ → ℕ → Bool
within lo hi b = leb lo b && leb b hi

first_byte : ℕ → Option Expecting
first_byte b =
    if ltb b 0x80
    then some start
    else if within 0xc2 0xdf b
    then some tail_1
    else if b == 0xe0
    then some after_e0
    else if b == 0xed
    then some after_ed
    else if within 0xe1 0xef b
    then some tail_2
    else if b == 0xf0
    then some after_f0
    else if within 0xf1 0xf3 b
    then some tail_3
    else if b == 0xf4
    then some after_f4
    else none

abbrev expect_in : ℕ → ℕ → ℕ → Expecting → Option Expecting
expect_in lo hi b next = if within lo hi b then some next else none

step : Expecting → ℕ → Option Expecting
unfolding first_byte
step start b = first_byte b
step tail_1 b = expect_in 0x80 0xbf b start
step tail_2 b = expect_in 0x80 0xbf b tail_1
step tail_3 b = expect_in 0x80 0xbf b tail_2
step after_e0 b = expect_in 0xa0 0xbf b tail_1
step after_ed b = expect_in 0x80 0x9f b tail_1
step after_f0 b = expect_in 0x90 0xbf b tail_2
step after_f4 b = expect_in 0x80 0x8f b tail_2

is_start : Expecting → Bool
is_start start = true
is_start _ = false

read_on : Option Expecting → List ℕ → Bool
unfolding step is_start
read_on none bs = false
read_on (some e) [] = is_start e
read_on (some e) (b ∷ bs) = read_on (step e b) bs

-- `from_utf8(bytes).is_ok()`
unfoldable pub is_utf8 : List ℕ → Bool
unfolding read_on
is_utf8 bs = read_on (some start) bs
