-- ===== src/Commons/Names.antt =====
-- The names of the enumerations of src/commons.rs, as the source writes them.
use zenoh_c.Common.{◌-◌, [], ◌∷◌, if◌then◌else◌}
use zenoh_c.Common.Text.{Text, codes, within}
use zenoh_c.Commons.{
  SampleKind, ZSampleKind, Locality, ZLocality, Reliability, ZReliability, ReplyKeyExpr,
  ZReplyKeyexpr, QueryTarget, ZQueryTarget, ConsolidationMode, ZConsolidationMode, Priority,
  ZPriority, CongestionControl, ZCongestionControl,
}

-- In capitals, with an underscore in front of each letter that was one.
next_capitals : Text → Text
next_capitals [] = []
next_capitals (c ∷ s) =
    let rest = next_capitals s in if within b'A' b'Z' c then b'_' ∷ c ∷ rest else (c - 32) ∷ rest

-- The name of a constant, from a name such as `RealTime`: `REAL_TIME`.
unfoldable pub constant_name : Text → Text
unfolding next_capitals
constant_name [] = []
constant_name (c ∷ s) = c ∷ next_capitals s

unfoldable pub sample_kind_name : SampleKind → Text
sample_kind_name SampleKind.put = codes "Put"
sample_kind_name SampleKind.delete = codes "Delete"

unfoldable pub z_sample_kind_name : ZSampleKind → Text
z_sample_kind_name ZSampleKind.put = codes "PUT"
z_sample_kind_name ZSampleKind.delete = codes "DELETE"

unfoldable pub locality_name : Locality → Text
locality_name Locality.any = codes "Any"
locality_name Locality.session_local = codes "SessionLocal"
locality_name Locality.remote = codes "Remote"

unfoldable pub z_locality_name : ZLocality → Text
z_locality_name ZLocality.any = codes "ANY"
z_locality_name ZLocality.session_local = codes "SESSION_LOCAL"
z_locality_name ZLocality.remote = codes "REMOTE"

unfoldable pub reliability_name : Reliability → Text
reliability_name Reliability.best_effort = codes "BestEffort"
reliability_name Reliability.reliable = codes "Reliable"

unfoldable pub z_reliability_name : ZReliability → Text
z_reliability_name ZReliability.best_effort = codes "BEST_EFFORT"
z_reliability_name ZReliability.reliable = codes "RELIABLE"

unfoldable pub reply_keyexpr_name : ReplyKeyExpr → Text
reply_keyexpr_name ReplyKeyExpr.any = codes "Any"
reply_keyexpr_name ReplyKeyExpr.matching_query = codes "MatchingQuery"

unfoldable pub z_reply_keyexpr_name : ZReplyKeyexpr → Text
z_reply_keyexpr_name ZReplyKeyexpr.any = codes "ANY"
z_reply_keyexpr_name ZReplyKeyexpr.matching_query = codes "MATCHING_QUERY"

unfoldable pub query_target_name : QueryTarget → Text
query_target_name QueryTarget.best_matching = codes "BestMatching"
query_target_name QueryTarget.all = codes "All"
query_target_name QueryTarget.all_complete = codes "AllComplete"

unfoldable pub z_query_target_name : ZQueryTarget → Text
z_query_target_name ZQueryTarget.best_matching = codes "BEST_MATCHING"
z_query_target_name ZQueryTarget.all = codes "ALL"
z_query_target_name ZQueryTarget.all_complete = codes "ALL_COMPLETE"

unfoldable pub consolidation_mode_name : ConsolidationMode → Text
consolidation_mode_name ConsolidationMode.auto = codes "Auto"
consolidation_mode_name ConsolidationMode.none = codes "None"
consolidation_mode_name ConsolidationMode.monotonic = codes "Monotonic"
consolidation_mode_name ConsolidationMode.latest = codes "Latest"

unfoldable pub z_consolidation_mode_name : ZConsolidationMode → Text
z_consolidation_mode_name ZConsolidationMode.auto = codes "AUTO"
z_consolidation_mode_name ZConsolidationMode.none = codes "NONE"
z_consolidation_mode_name ZConsolidationMode.monotonic = codes "MONOTONIC"
z_consolidation_mode_name ZConsolidationMode.latest = codes "LATEST"

unfoldable pub priority_name : Priority → Text
priority_name Priority.real_time = codes "RealTime"
priority_name Priority.interactive_high = codes "InteractiveHigh"
priority_name Priority.interactive_low = codes "InteractiveLow"
priority_name Priority.data_high = codes "DataHigh"
priority_name Priority.plain = codes "Data"
priority_name Priority.data_low = codes "DataLow"
priority_name Priority.background = codes "Background"

unfoldable pub z_priority_name : ZPriority → Text
z_priority_name ZPriority.real_time = codes "REAL_TIME"
z_priority_name ZPriority.interactive_high = codes "INTERACTIVE_HIGH"
z_priority_name ZPriority.interactive_low = codes "INTERACTIVE_LOW"
z_priority_name ZPriority.data_high = codes "DATA_HIGH"
z_priority_name ZPriority.plain = codes "DATA"
z_priority_name ZPriority.data_low = codes "DATA_LOW"
z_priority_name ZPriority.background = codes "BACKGROUND"

unfoldable pub congestion_control_name : CongestionControl → Text
congestion_control_name CongestionControl.block = codes "Block"
congestion_control_name CongestionControl.drop = codes "Drop"
congestion_control_name CongestionControl.block_first = codes "BlockFirst"

unfoldable pub z_congestion_control_name : ZCongestionControl → Text
z_congestion_control_name ZCongestionControl.block = codes "BLOCK"
z_congestion_control_name ZCongestionControl.drop = codes "DROP"
z_congestion_control_name ZCongestionControl.block_first = codes "BLOCK_FIRST"
