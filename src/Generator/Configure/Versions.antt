-- ===== src/Generator/Configure/Versions.antt =====
-- Which versions `configure` of buildrs/cbindgen_generator.rs takes.
use zenoh_c.Common.{
  ℕ, suc, ◌≤◌, ◌≡◌, ◌↔◌, refl, ap, List, [], ◌∷◌, ◌++◌, ◌==◌, if◌then◌else◌, length, arith,
  Bool-cases, inl, inr,
}
use zenoh_c.Common.Text.{Text, Unicode, trim, split, push_front}
use zenoh_c.Common.Panics.{ok, ◌>>=◌, Returns}
use zenoh_c.Generator.Configure.{configure, version_defines}

-- How often a character stands in a text.
abbrev pub count : ℕ → Text → ℕ
count c [] = 0
count c (d ∷ s) = if d == c then suc (count c s) else count c s

length-push_front :
    (c : ℕ) (parts : List Text) (n : ℕ) → length parts ≡ suc n → length (push_front c parts) ≡ suc n
unfolding push_front
length-push_front c [] n h = absurd (omega (arith, h))
length-push_front c (part ∷ parts) n h = h

-- There is one part more than there are separators.
length-split : (sep : ℕ) (s : Text) → length (split sep s) ≡ suc (count sep s)
unfolding split
length-split sep [] = refl
length-split sep (c ∷ s) = elim (Bool-cases (c == sep)) [
  | inl e ↦ rw e (ap suc (length-split sep s))
  | inr n ↦ rw n (length-push_front c (split sep s) (count sep s) (length-split sep s))
]

version_defines_iff :
    (arch version tail : Text) (parts : List Text) (n : ℕ)
    → length parts ≡ suc n
    → Returns (version_defines arch version parts >>= λ out. ok (out ++ tail)) ↔ (2 ≤ n)
unfolding version_defines
version_defines_iff arch version tail (a ∷ b ∷ c ∷ rest) n h = (λ r. omega (arith, h), λ k. tt)
version_defines_iff arch version tail [] n h = (λ r. absurd r, λ k. absurd (omega (arith, h, k)))
version_defines_iff arch version tail (a ∷ []) n h =
    (λ r. absurd r, λ k. absurd (omega (arith, h, k)))
version_defines_iff arch version tail (a ∷ b ∷ []) n h =
    (λ r. absurd r, λ k. absurd (omega (arith, h, k)))

-- `configure` returns exactly if the version, without the white space around it, has two dots or
-- more; else it panics. Nothing else is asked of its parts.
pub configure_iff :
    (u : Unicode) (features arch text : Text)
    → Returns (configure u features arch text) ↔ (2 ≤ count b'.' (trim u text))
unfolding configure
configure_iff u features arch text =
    version_defines_iff arch (trim u text) _ (split b'.' (trim u text)) (count b'.' (trim u text))
      (length-split b'.' (trim u text))
