-- ===== src/Splitguide/Guide.antt =====
-- `SplitGuide` of buildrs/splitguide.rs, and `test_feature` of buildrs/common_helpers.rs.
-- A path is a text. The map that `serde_yaml` reads is a list of its entries, in the order in which
-- the `HashMap` yields them; `zenoh::FEATURES` is a text that the zenoh crate gives.
pub mod Routing
use zenoh_c.Common.{
  ℕ, Bool, true, false, ◌&&◌, Option, none, some, List, [], ◌∷◌, ◌++◌, if◌then◌else◌, is_empty,
}
use zenoh_c.Common.Text.{Text, codes, text_eq, ends_with, pop, split, contains}
use zenoh_c.Splitguide.Failure.{
  RecordType, multiple, typedef_record, function_record, const_record, prepr_define, prepr_include,
}
use zenoh_c.Splitguide.Record.{Record, same_type, contains_id}

pub data SplitRule : Type 0 where
  brand : RecordType → SplitRule
  exclusive : Text → SplitRule
  shared : Text → SplitRule

abbrev pub SplitGuide : Type 0
SplitGuide = List (Text × List SplitRule)

-- `test_feature`
unfoldable pub test_feature : Text → Text → Bool
unfolding contains
test_feature features feature = contains features (codes " zenoh/" ++ feature)

-- The match on the text of a rule.
unfoldable pub classify : Text → SplitRule
unfolding text_eq ends_with pop
classify s =
    if text_eq s (codes ":functions")
    then brand function_record
    else if text_eq s (codes ":typedefs")
    then brand typedef_record
    else if text_eq s (codes ":includes")
    then brand prepr_include
    else if text_eq s (codes ":defines")
    then brand prepr_define
    else if text_eq s (codes ":const")
    then brand const_record
    else if text_eq s (codes ":multiples")
    then brand multiple
    else if ends_with s b'!'
    then exclusive (pop s)
    else shared s

unfoldable pub all_enabled : Text → List Text → Bool
unfolding test_feature
all_enabled features [] = true
all_enabled features (f ∷ fs) = test_feature features f && all_enabled features fs

-- The `filter_map` and the `map` of `from_yaml` on one rule, cut at each `#`.
abbrev rule_of_parts : Text → List Text → Option SplitRule
rule_of_parts features [] = none
rule_of_parts features (val ∷ needed) =
    if all_enabled features needed then some (classify val) else none

unfoldable pub parse_rule : Text → Text → Option SplitRule
unfolding split all_enabled classify
parse_rule features s = rule_of_parts features (split b'#' s)

abbrev push_rule : Option SplitRule → List SplitRule → List SplitRule
push_rule none rules = rules
push_rule (some rule) rules = rule ∷ rules

unfoldable pub parse_rules : Text → List Text → List SplitRule
unfolding parse_rule
parse_rules features [] = []
parse_rules features (s ∷ ss) = push_rule (parse_rule features s) (parse_rules features ss)

-- `SplitGuide::from_yaml` behind the reading of the file.
unfoldable pub from_yaml : Text → List (Text × List Text) → SplitGuide
unfolding parse_rules
from_yaml features [] = []
from_yaml features ((name, rules) ∷ m) = (name, parse_rules features rules) ∷ from_yaml features m

-- The vectors `shared` and `exclusives` of `appropriate_files`.
pub record Routes : Type 0 where
  pub shared_files : List Text
  pub exclusive_files : List Text

abbrev push_shared : Bool → Text → Routes → Routes
push_shared b file v = if b then record v { shared_files = v.shared_files ++ file ∷ [] } else v

abbrev push_exclusive : Bool → Text → Routes → Routes
push_exclusive b file v =
    if b then record v { exclusive_files = v.exclusive_files ++ file ∷ [] } else v

module _ (r : Record) where
  -- The match of `appropriate_files` on one rule.
  unfoldable pub route_rule : Text → SplitRule → Routes → Routes
  unfolding same_type contains_id
  route_rule file (brand b) v = push_shared (same_type b r.rt) file v
  route_rule file (exclusive id) v = push_exclusive (contains_id r id) file v
  route_rule file (shared id) v = push_shared (contains_id r id) file v

  unfoldable pub route_rules : Text → List SplitRule → Routes → Routes
  unfolding route_rule
  route_rules file [] v = v
  route_rules file (rule ∷ rules) v = route_rules file rules (route_rule file rule v)

  unfoldable pub route_files : SplitGuide → Routes → Routes
  unfolding route_rules
  route_files [] v = v
  route_files ((file, rules) ∷ g) v = route_files g (route_rules file rules v)

-- `SplitGuide::appropriate_files`
unfoldable pub appropriate_files : SplitGuide → Record → List Text
unfolding route_files
appropriate_files g r =
    let v = route_files r g (record { shared_files = []; exclusive_files = [] }) in
    if is_empty v.exclusive_files then v.shared_files else v.exclusive_files

abbrev push_requested : SplitRule → List Text → List Text
push_requested (brand _) ids = ids
push_requested (exclusive s) ids = s ∷ ids
push_requested (shared s) ids = s ∷ ids

unfoldable pub requested_of : List SplitRule → List Text
requested_of [] = []
requested_of (rule ∷ rules) = push_requested rule (requested_of rules)

-- `SplitGuide::requested_ids`
unfoldable pub requested_ids : SplitGuide → List Text
unfolding requested_of
requested_ids [] = []
requested_ids ((_, rules) ∷ g) = requested_of rules ++ requested_ids g
