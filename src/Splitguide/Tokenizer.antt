-- ===== src/Splitguide/Tokenizer.antt =====
-- `Tokenizer` and `group_tokens` of buildrs/splitguide.rs. The loop over the tokens runs on fuel.
pub mod Grouping
pub mod Tiling
use zenoh_c.Common.{
  ℕ, zero, suc, Option, none, some, List, [], ◌∷◌, ◌++◌, if◌then◌else◌, length, drop, Outcome, ok,
  panic, out_of_fuel, ◌>>=◌,
}
use zenoh_c.Common.Text.{Text, Unicode}
use zenoh_c.Splitguide.Failure.{Failure}
use zenoh_c.Splitguide.Token.{Token, next}
use zenoh_c.Splitguide.Record.{Record, new, is_ready, add_token}

-- What `Tokenizer::next` leaves of `inner` behind a token; no token is its panic.
abbrev pub advance : Text → Option Token → Outcome Failure (Token × Text)
advance s none = panic
advance s (some t) = ok (t, drop (length t.span) s)

-- `Tokenizer::next` on a text that is not empty; on an empty one it ends the iteration.
unfoldable pub next_token : Unicode → Text → Outcome Failure (Token × Text)
next_token u s = next u s >>= advance s

-- The record that goes on, and the records that are finished, after a token has been added.
unfoldable pub collect : List Record → Record → List Record × Record
unfolding is_ready
collect records r = if is_ready r then (records ++ r ∷ [], new) else (records, r)

module _ (u : Unicode) where
  -- All tokens of a text.
  unfoldable pub tokens : ℕ → Text → Outcome Failure (List Token)
  tokens fuel [] = ok []
  tokens zero (c ∷ s) = out_of_fuel
  tokens (suc fuel) (c ∷ s) = do
    (t, rest) ← next_token u (c ∷ s)
    ts ← tokens fuel rest
    ok (t ∷ ts)

  -- The loop of `group_tokens`, which takes a token at a time.
  unfoldable pub group_loop : ℕ → Text → List Record × Record → Outcome Failure (List Record)
  group_loop fuel [] (records, r) = ok (records ++ r ∷ [])
  group_loop zero (c ∷ s) (records, r) = out_of_fuel
  group_loop (suc fuel) (c ∷ s) (records, r) = do
    (t, rest) ← next_token u (c ∷ s)
    r' ← add_token r t
    group_loop fuel rest (collect records r')

  unfoldable pub group_tokens : Text → Outcome Failure (List Record)
  unfolding group_loop
  group_tokens s = group_loop (length s) s ([], new)
