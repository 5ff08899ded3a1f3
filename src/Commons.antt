-- ===== src/Commons.antt =====
-- The enumerations of src/commons.rs and their conversions: `Z` marks the type that C code sees,
-- the other is the one of the zenoh crate, with the cases that the conversions name. `plain` is the
-- case `Data` of a priority. The features of unstable functions are on.
pub mod Names
pub mod Conversions

pub data SampleKind : Type 0 where
  put delete : SampleKind

pub data ZSampleKind : Type 0 where
  put delete : ZSampleKind

pub data Locality : Type 0 where
  any session_local remote : Locality

pub data ZLocality : Type 0 where
  any session_local remote : ZLocality

pub data Reliability : Type 0 where
  best_effort reliable : Reliability

pub data ZReliability : Type 0 where
  best_effort reliable : ZReliability

pub data ReplyKeyExpr : Type 0 where
  any matching_query : ReplyKeyExpr

pub data ZReplyKeyexpr : Type 0 where
  any matching_query : ZReplyKeyexpr

pub data QueryTarget : Type 0 where
  best_matching all all_complete : QueryTarget

pub data ZQueryTarget : Type 0 where
  best_matching all all_complete : ZQueryTarget

pub data ConsolidationMode : Type 0 where
  auto none monotonic latest : ConsolidationMode

pub data ZConsolidationMode : Type 0 where
  auto none monotonic latest : ZConsolidationMode

pub data Priority : Type 0 where
  real_time interactive_high interactive_low data_high plain data_low background : Priority

pub data ZPriority : Type 0 where
  real_time interactive_high interactive_low data_high plain data_low background : ZPriority

pub data CongestionControl : Type 0 where
  block drop block_first : CongestionControl

pub data ZCongestionControl : Type 0 where
  block drop block_first : ZCongestionControl

-- `From<SampleKind>`
unfoldable pub z_sample_kind : SampleKind → ZSampleKind
z_sample_kind SampleKind.put = ZSampleKind.put
z_sample_kind SampleKind.delete = ZSampleKind.delete

-- `From<z_sample_kind_t>`
unfoldable pub sample_kind : ZSampleKind → SampleKind
sample_kind ZSampleKind.put = SampleKind.put
sample_kind ZSampleKind.delete = SampleKind.delete

-- `From<Locality>`
unfoldable pub z_locality : Locality → ZLocality
z_locality Locality.any = ZLocality.any
z_locality Locality.session_local = ZLocality.session_local
z_locality Locality.remote = ZLocality.remote

-- `From<z_locality_t>`
unfoldable pub locality : ZLocality → Locality
locality ZLocality.any = Locality.any
locality ZLocality.session_local = Locality.session_local
locality ZLocality.remote = Locality.remote

-- `From<Reliability>`
unfoldable pub z_reliability : Reliability → ZReliability
z_reliability Reliability.best_effort = ZReliability.best_effort
z_reliability Reliability.reliable = ZReliability.reliable

-- `From<z_reliability_t>`
unfoldable pub reliability : ZReliability → Reliability
reliability ZReliability.best_effort = Reliability.best_effort
reliability ZReliability.reliable = Reliability.reliable

-- `From<ReplyKeyExpr>`
unfoldable pub z_reply_keyexpr : ReplyKeyExpr → ZReplyKeyexpr
z_reply_keyexpr ReplyKeyExpr.any = ZReplyKeyexpr.any
z_reply_keyexpr ReplyKeyExpr.matching_query = ZReplyKeyexpr.matching_query

-- `From<z_reply_keyexpr_t>`
unfoldable pub reply_keyexpr : ZReplyKeyexpr → ReplyKeyExpr
reply_keyexpr ZReplyKeyexpr.any = ReplyKeyExpr.any
reply_keyexpr ZReplyKeyexpr.matching_query = ReplyKeyExpr.matching_query

-- `From<QueryTarget>`
unfoldable pub z_query_target : QueryTarget → ZQueryTarget
z_query_target QueryTarget.best_matching = ZQueryTarget.best_matching
z_query_target QueryTarget.all = ZQueryTarget.all
z_query_target QueryTarget.all_complete = ZQueryTarget.all_complete

-- `From<z_query_target_t>`
unfoldable pub query_target : ZQueryTarget → QueryTarget
query_target ZQueryTarget.best_matching = QueryTarget.best_matching
query_target ZQueryTarget.all = QueryTarget.all
query_target ZQueryTarget.all_complete = QueryTarget.all_complete

-- `From<ConsolidationMode>`
unfoldable pub z_consolidation_mode : ConsolidationMode → ZConsolidationMode
z_consolidation_mode ConsolidationMode.auto = ZConsolidationMode.auto
z_consolidation_mode ConsolidationMode.none = ZConsolidationMode.none
z_consolidation_mode ConsolidationMode.monotonic = ZConsolidationMode.monotonic
z_consolidation_mode ConsolidationMode.latest = ZConsolidationMode.latest

-- `From<z_consolidation_mode_t>`
unfoldable pub consolidation_mode : ZConsolidationMode → ConsolidationMode
consolidation_mode ZConsolidationMode.auto = ConsolidationMode.auto
consolidation_mode ZConsolidationMode.none = ConsolidationMode.none
consolidation_mode ZConsolidationMode.monotonic = ConsolidationMode.monotonic
consolidation_mode ZConsolidationMode.latest = ConsolidationMode.latest

-- `From<Priority>`
unfoldable pub z_priority : Priority → ZPriority
z_priority Priority.real_time = ZPriority.real_time
z_priority Priority.interactive_high = ZPriority.interactive_high
z_priority Priority.interactive_low = ZPriority.interactive_low
z_priority Priority.data_high = ZPriority.data_high
z_priority Priority.plain = ZPriority.plain
z_priority Priority.data_low = ZPriority.data_low
z_priority Priority.background = ZPriority.background

-- `From<z_priority_t>`
unfoldable pub priority : ZPriority → Priority
priority ZPriority.real_time = Priority.real_time
priority ZPriority.interactive_high = Priority.interactive_high
priority ZPriority.interactive_low = Priority.interactive_low
priority ZPriority.data_high = Priority.data_high
priority ZPriority.plain = Priority.plain
priority ZPriority.data_low = Priority.data_low
priority ZPriority.background = Priority.background

-- `From<CongestionControl>`
unfoldable pub z_congestion_control : CongestionControl → ZCongestionControl
z_congestion_control CongestionControl.block = ZCongestionControl.block
z_congestion_control CongestionControl.drop = ZCongestionControl.drop
z_congestion_control CongestionControl.block_first = ZCongestionControl.block_first

-- `From<z_congestion_control_t>`
unfoldable pub congestion_control : ZCongestionControl → CongestionControl
congestion_control ZCongestionControl.block = CongestionControl.block
congestion_control ZCongestionControl.drop = CongestionControl.drop
congestion_control ZCongestionControl.block_first = CongestionControl.block_first
