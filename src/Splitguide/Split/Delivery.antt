-- ===== src/Splitguide/Split/Delivery.antt =====
-- What a run of `split_bindings` of buildrs/splitguide.rs has done with the header.
use zenoh_c.Common.{
  ◌≡◌, ◌⊎◌, inl, inr, refl, ap, sym, ◌∙◌, subst, true, false, List, [], ◌∷◌, ◌++◌, map, is_empty,
  any, All, All-concat, Bool-cases, ok, bind-ok, arith,
}
use zenoh_c.Common.Text.{Text, Unicode}
use zenoh_c.Splitguide.Failure.{empty, private_token}
use zenoh_c.Splitguide.Guide.{SplitGuide, from_yaml, appropriate_files, requested_ids}
use zenoh_c.Splitguide.Record.{Record, contains_id, is_used}
use zenoh_c.Splitguide.Split.{
  Files, header, mark_used, check_ids, check_used, split_with, split_bindings,
}
use zenoh_c.Splitguide.Tokenizer.{group_tokens}
use zenoh_c.Splitguide.Tokenizer.Grouping.{IsGrouped, group_tokens-Groups}
use zenoh_c.Splitguide.Split.Writes.{paths_of, Distinct, render, delivered, marked, split_with-eq}

-- Every requested identifier is one of a record.
abbrev pub IsFound : List Record → Text → Type 0
IsFound rs id = any (λ r. contains_id r id) rs ≡ true

check_ids-All :
    (ids : List Text) (rs : List Record) → check_ids ids rs ≡ ok tt → All (IsFound rs) ids
unfolding check_ids
check_ids-All [] rs e = tt
check_ids-All (id ∷ ids) rs e = elim (Bool-cases (any (λ r. contains_id r id) rs)) [
  | inl y ↦ (y, check_ids-All ids rs (rw y at e))
  | inr y ↦ cc (rw y at e)
]

-- A record with something to say goes to at least one file.
abbrev pub IsPlaced : SplitGuide → Record → Type 0
IsPlaced g r = (r.rt ≡ empty) ⊎ (r.rt ≡ private_token) ⊎ (is_empty (appropriate_files g r) ≡ false)

mark_used-IsPlaced :
    (r : Record) (paths : List Text)
    → r.used ≡ false
    → is_used (mark_used paths r) ≡ ok tt
    → (r.rt ≡ empty) ⊎ (r.rt ≡ private_token) ⊎ (is_empty paths ≡ false)
unfolding is_used
mark_used-IsPlaced r [] h e = ground arith
mark_used-IsPlaced r (p ∷ paths) h e = inr (inr refl)

check_used-All :
    (g : SplitGuide) (rs : List Record)
    → All (λ r. r.used ≡ false) rs
    → check_used (marked g rs) ≡ ok tt
    → All (IsPlaced g) rs
unfolding check_used
check_used-All g [] h e = tt
check_used-All g (r ∷ rs) h e =
    let (x, e₁, e₂) = bind-ok (is_used (mark_used (appropriate_files g r) r)) _ e in
    (mark_used-IsPlaced r (appropriate_files g r) h.0 e₁, check_used-All g rs h.1 e₂)

All-map {κ μ} :
    {A : Type 0} {P : A → Type κ} {Q : A → Type μ} (xs : List A)
    → ((x : A) → P x → Q x)
    → All P xs
    → All Q xs
All-map [] f h = tt
All-map (x ∷ xs) f h = (f x h.0, All-map xs f h.1)

IsGrouped-fresh : {s : Text} {rs : List Record} → IsGrouped s rs → All (λ r. r.used ≡ false) rs
IsGrouped-fresh h = rw h.splits (
    All-concat _ h.finished h.last (All-map h.finished (λ r k. k.summary.fresh) h.all_finished)
      h.last_summary.fresh)

-- What a run of `split_bindings` that ends well has done.
pub record IsDelivered (u : Unicode) (g : SplitGuide) (s : Text) (files : Files) : Type 0 where
  pub records : List Record
  pub grouped : group_tokens u s ≡ ok records
  pub contents : files ≡ render (λ q. header ++ delivered g records q) (paths_of g)
  pub found : All (IsFound records) (requested_ids g)
  pub placed : All (IsPlaced g) records

split_with-IsDelivered :
    (u : Unicode) (g : SplitGuide) (s : Text) (files : Files)
    → Distinct (paths_of g)
    → split_with u g s ≡ ok files
    → IsDelivered u g s files
split_with-IsDelivered u g s files d e =
    let (rs, e₁, e₂) = bind-ok (group_tokens u s) _ (sym (split_with-eq u g s d) ∙ e) in
    let (x, e₃, e₄) = bind-ok (check_ids (requested_ids g) rs) _ e₂ in
    let (y, e₅, e₆) = bind-ok (check_used (marked g rs)) _ e₄ in
    record {
      records = rs;
      grouped = e₁;
      contents = cc;
      found = check_ids-All (requested_ids g) rs e₃;
      placed = check_used-All g rs (IsGrouped-fresh (rw e₁ at (group_tokens-Groups u s))) e₅;
    }

keys-from_yaml :
    (features : Text) (yaml : List (Text × List Text))
    → paths_of (from_yaml features yaml) ≡ map (λ (entry : Text × List Text). entry.0) yaml
unfolding from_yaml
keys-from_yaml features [] = refl
keys-from_yaml features ((name, rules) ∷ yaml) = ap (◌∷◌ name) (keys-from_yaml features yaml)

-- Where the paths of the guide file are distinct, as the keys of a map are, and `split_bindings`
-- ends well, the header has been cut into records, each file holds the licence header and then
-- what each record sends to it in order, every identifier that the guide asks for is one of a
-- record, and every record that is neither empty nor private goes to a file.
pub split_bindings-IsDelivered :
    (u : Unicode) (features : Text) (yaml : List (Text × List Text)) (s : Text) (files : Files)
    → Distinct (map (λ (entry : Text × List Text). entry.0) yaml)
    → split_bindings u features yaml s ≡ ok files
    → IsDelivered u (from_yaml features yaml) s files
unfolding split_bindings
split_bindings-IsDelivered u features yaml s files d e =
    split_with-IsDelivered u (from_yaml features yaml) s files
      (subst Distinct (sym (keys-from_yaml features yaml)) d) e
