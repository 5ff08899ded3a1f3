-- ===== src/Commons/Conversions.antt =====
-- The conversions of src/commons.rs in both directions.
use zenoh_c.Common.{◌≡◌, refl}
use zenoh_c.Commons.{
  SampleKind, ZSampleKind, z_sample_kind, sample_kind, Locality, ZLocality, z_locality, locality,
  Reliability, ZReliability, z_reliability, reliability, ReplyKeyExpr, ZReplyKeyexpr,
  z_reply_keyexpr, reply_keyexpr, QueryTarget, ZQueryTarget, z_query_target, query_target,
  ConsolidationMode, ZConsolidationMode, z_consolidation_mode, consolidation_mode, Priority,
  ZPriority, z_priority, priority, CongestionControl, ZCongestionControl, z_congestion_control,
  congestion_control,
}
use zenoh_c.Common.Text.{Text}
use zenoh_c.Commons.Names.{
  constant_name, sample_kind_name, z_sample_kind_name, locality_name, z_locality_name,
  reliability_name, z_reliability_name, reply_keyexpr_name, z_reply_keyexpr_name, query_target_name,
  z_query_target_name, consolidation_mode_name, z_consolidation_mode_name, priority_name,
  z_priority_name, congestion_control_name, z_congestion_control_name,
}
use std.Path.{transport, transport⁻¹}
use std.Equiv.{Iso, iso_to_equiv}
use std.Univalence.{iso_to_path, ua-β, ua-β⁻¹}

sample_kind-z_sample_kind : (k : SampleKind) → sample_kind (z_sample_kind k) ≡ k
unfolding sample_kind z_sample_kind
sample_kind-z_sample_kind SampleKind.put = refl
sample_kind-z_sample_kind SampleKind.delete = refl

z_sample_kind-sample_kind : (k : ZSampleKind) → z_sample_kind (sample_kind k) ≡ k
unfolding sample_kind z_sample_kind
z_sample_kind-sample_kind ZSampleKind.put = refl
z_sample_kind-sample_kind ZSampleKind.delete = refl

locality-z_locality : (k : Locality) → locality (z_locality k) ≡ k
unfolding locality z_locality
locality-z_locality Locality.any = refl
locality-z_locality Locality.session_local = refl
locality-z_locality Locality.remote = refl

z_locality-locality : (k : ZLocality) → z_locality (locality k) ≡ k
unfolding locality z_locality
z_locality-locality ZLocality.any = refl
z_locality-locality ZLocality.session_local = refl
z_locality-locality ZLocality.remote = refl

reliability-z_reliability : (k : Reliability) → reliability (z_reliability k) ≡ k
unfolding reliability z_reliability
reliability-z_reliability Reliability.best_effort = refl
reliability-z_reliability Reliability.reliable = refl

z_reliability-reliability : (k : ZReliability) → z_reliability (reliability k) ≡ k
unfolding reliability z_reliability
z_reliability-reliability ZReliability.best_effort = refl
z_reliability-reliability ZReliability.reliable = refl

reply_keyexpr-z_reply_keyexpr : (k : ReplyKeyExpr) → reply_keyexpr (z_reply_keyexpr k) ≡ k
unfolding reply_keyexpr z_reply_keyexpr
reply_keyexpr-z_reply_keyexpr ReplyKeyExpr.any = refl
reply_keyexpr-z_reply_keyexpr ReplyKeyExpr.matching_query = refl

z_reply_keyexpr-reply_keyexpr : (k : ZReplyKeyexpr) → z_reply_keyexpr (reply_keyexpr k) ≡ k
unfolding reply_keyexpr z_reply_keyexpr
z_reply_keyexpr-reply_keyexpr ZReplyKeyexpr.any = refl
z_reply_keyexpr-reply_keyexpr ZReplyKeyexpr.matching_query = refl

query_target-z_query_target : (k : QueryTarget) → query_target (z_query_target k) ≡ k
unfolding query_target z_query_target
query_target-z_query_target QueryTarget.best_matching = refl
query_target-z_query_target QueryTarget.all = refl
query_target-z_query_target QueryTarget.all_complete = refl

z_query_target-query_target : (k : ZQueryTarget) → z_query_target (query_target k) ≡ k
unfolding query_target z_query_target
z_query_target-query_target ZQueryTarget.best_matching = refl
z_query_target-query_target ZQueryTarget.all = refl
z_query_target-query_target ZQueryTarget.all_complete = refl

consolidation_mode-z_consolidation_mode :
    (k : ConsolidationMode) → consolidation_mode (z_consolidation_mode k) ≡ k
unfolding consolidation_mode z_consolidation_mode
consolidation_mode-z_consolidation_mode ConsolidationMode.auto = refl
consolidation_mode-z_consolidation_mode ConsolidationMode.none = refl
consolidation_mode-z_consolidation_mode ConsolidationMode.monotonic = refl
consolidation_mode-z_consolidation_mode ConsolidationMode.latest = refl

z_consolidation_mode-consolidation_mode :
    (k : ZConsolidationMode) → z_consolidation_mode (consolidation_mode k) ≡ k
unfolding consolidation_mode z_consolidation_mode
z_consolidation_mode-consolidation_mode ZConsolidationMode.auto = refl
z_consolidation_mode-consolidation_mode ZConsolidationMode.none = refl
z_consolidation_mode-consolidation_mode ZConsolidationMode.monotonic = refl
z_consolidation_mode-consolidation_mode ZConsolidationMode.latest = refl

priority-z_priority : (k : Priority) → priority (z_priority k) ≡ k
unfolding priority z_priority
priority-z_priority Priority.real_time = refl
priority-z_priority Priority.interactive_high = refl
priority-z_priority Priority.interactive_low = refl
priority-z_priority Priority.data_high = refl
priority-z_priority Priority.plain = refl
priority-z_priority Priority.data_low = refl
priority-z_priority Priority.background = refl

z_priority-priority : (k : ZPriority) → z_priority (priority k) ≡ k
unfolding priority z_priority
z_priority-priority ZPriority.real_time = refl
z_priority-priority ZPriority.interactive_high = refl
z_priority-priority ZPriority.interactive_low = refl
z_priority-priority ZPriority.data_high = refl
z_priority-priority ZPriority.plain = refl
z_priority-priority ZPriority.data_low = refl
z_priority-priority ZPriority.background = refl

congestion_control-z_congestion_control :
    (k : CongestionControl) → congestion_control (z_congestion_control k) ≡ k
unfolding congestion_control z_congestion_control
congestion_control-z_congestion_control CongestionControl.block = refl
congestion_control-z_congestion_control CongestionControl.drop = refl
congestion_control-z_congestion_control CongestionControl.block_first = refl

z_congestion_control-congestion_control :
    (k : ZCongestionControl) → z_congestion_control (congestion_control k) ≡ k
unfolding congestion_control z_congestion_control
z_congestion_control-congestion_control ZCongestionControl.block = refl
z_congestion_control-congestion_control ZCongestionControl.drop = refl
z_congestion_control-congestion_control ZCongestionControl.block_first = refl

-- One way to take the two types for the same type carries a value forth as the one function does, and
-- back as the other does.
abbrev pub IsTransport : {A B : Type 0} → (A → B) → (B → A) → Type 1
IsTransport {A} {B} f g =
    (p : A ≡ B) × ((a : A) → transport p a ≡ f a) × ((b : B) → transport⁻¹ p b ≡ g b)

inverses-IsTransport :
    {A B : Type 0} (f : A → B) (g : B → A)
    → ((a : A) → g (f a) ≡ a)
    → ((b : B) → f (g b) ≡ b)
    → IsTransport f g
inverses-IsTransport {A} {B} f g l r =
    let same : Iso A B = record { fun = f; inv = g; rinv = r; linv = l } in
    (iso_to_path same, ua-β (iso_to_equiv same), ua-β⁻¹ (iso_to_equiv same))

-- The two functions are one way to take the types for the same, and the name of the C value is the
-- constant's name for the name of the zenoh value.
abbrev pub IsConversion : {A B : Type 0} → (A → B) → (B → A) → (A → Text) → (B → Text) → Type 1
IsConversion {A} f g name z_name =
    IsTransport f g × ((a : A) → z_name (f a) ≡ constant_name (name a))

z_sample_kind-name :
    (k : SampleKind) → z_sample_kind_name (z_sample_kind k) ≡ constant_name (sample_kind_name k)
unfolding z_sample_kind sample_kind_name z_sample_kind_name constant_name
z_sample_kind-name SampleKind.put = refl
z_sample_kind-name SampleKind.delete = refl

z_locality-name : (k : Locality) → z_locality_name (z_locality k) ≡ constant_name (locality_name k)
unfolding z_locality locality_name z_locality_name constant_name
z_locality-name Locality.any = refl
z_locality-name Locality.session_local = refl
z_locality-name Locality.remote = refl

z_reliability-name :
    (k : Reliability) → z_reliability_name (z_reliability k) ≡ constant_name (reliability_name k)
unfolding z_reliability reliability_name z_reliability_name constant_name
z_reliability-name Reliability.best_effort = refl
z_reliability-name Reliability.reliable = refl

z_reply_keyexpr-name :
    (k : ReplyKeyExpr)
    → z_reply_keyexpr_name (z_reply_keyexpr k) ≡ constant_name (reply_keyexpr_name k)
unfolding z_reply_keyexpr reply_keyexpr_name z_reply_keyexpr_name constant_name
z_reply_keyexpr-name ReplyKeyExpr.any = refl
z_reply_keyexpr-name ReplyKeyExpr.matching_query = refl

z_query_target-name :
    (k : QueryTarget) → z_query_target_name (z_query_target k) ≡ constant_name (query_target_name k)
unfolding z_query_target query_target_name z_query_target_name constant_name
z_query_target-name QueryTarget.best_matching = refl
z_query_target-name QueryTarget.all = refl
z_query_target-name QueryTarget.all_complete = refl

z_consolidation_mode-name :
    (k : ConsolidationMode)
    → z_consolidation_mode_name (z_consolidation_mode k) ≡ constant_name (consolidation_mode_name k)
unfolding z_consolidation_mode consolidation_mode_name z_consolidation_mode_name constant_name
z_consolidation_mode-name ConsolidationMode.auto = refl
z_consolidation_mode-name ConsolidationMode.none = refl
z_consolidation_mode-name ConsolidationMode.monotonic = refl
z_consolidation_mode-name ConsolidationMode.latest = refl

z_priority-name : (k : Priority) → z_priority_name (z_priority k) ≡ constant_name (priority_name k)
unfolding z_priority priority_name z_priority_name constant_name
z_priority-name Priority.real_time = refl
z_priority-name Priority.interactive_high = refl
z_priority-name Priority.interactive_low = refl
z_priority-name Priority.data_high = refl
z_priority-name Priority.plain = refl
z_priority-name Priority.data_low = refl
z_priority-name Priority.background = refl

z_congestion_control-name :
    (k : CongestionControl)
    → z_congestion_control_name (z_congestion_control k) ≡ constant_name (congestion_control_name k)
unfolding z_congestion_control congestion_control_name z_congestion_control_name constant_name
z_congestion_control-name CongestionControl.block = refl
z_congestion_control-name CongestionControl.drop = refl
z_congestion_control-name CongestionControl.block_first = refl

-- For kinds of samples, localities, reliabilities, the key expressions of replies, query targets,
-- consolidation modes, priorities and congestion controls: the type of C code is the zenoh type that
-- it stands for, in such a way that the two conversions carry a value forth and back along it; and the
-- name of the C value is the name of the zenoh value in capitals, with underscores between its words.
pub conversions-IsTransport : record {
  kinds : IsConversion z_sample_kind sample_kind sample_kind_name z_sample_kind_name;
  localities : IsConversion z_locality locality locality_name z_locality_name;
  reliabilities : IsConversion z_reliability reliability reliability_name z_reliability_name;
  reply_keyexprs :
      IsConversion z_reply_keyexpr reply_keyexpr reply_keyexpr_name z_reply_keyexpr_name;
  targets : IsConversion z_query_target query_target query_target_name z_query_target_name;
  modes :
      IsConversion z_consolidation_mode consolidation_mode consolidation_mode_name
        z_consolidation_mode_name;
  priorities : IsConversion z_priority priority priority_name z_priority_name;
  congestion_controls :
      IsConversion z_congestion_control congestion_control congestion_control_name
        z_congestion_control_name;
}
conversions-IsTransport = record {
  kinds = (
    inverses-IsTransport z_sample_kind sample_kind sample_kind-z_sample_kind
        z_sample_kind-sample_kind,
    z_sample_kind-name,
  );
  localities = (
    inverses-IsTransport z_locality locality locality-z_locality z_locality-locality,
    z_locality-name,
  );
  reliabilities = (
    inverses-IsTransport z_reliability reliability reliability-z_reliability
        z_reliability-reliability,
    z_reliability-name,
  );
  reply_keyexprs = (
    inverses-IsTransport z_reply_keyexpr reply_keyexpr reply_keyexpr-z_reply_keyexpr
        z_reply_keyexpr-reply_keyexpr,
    z_reply_keyexpr-name,
  );
  targets = (
    inverses-IsTransport z_query_target query_target query_target-z_query_target
        z_query_target-query_target,
    z_query_target-name,
  );
  modes = (
    inverses-IsTransport z_consolidation_mode consolidation_mode
        consolidation_mode-z_consolidation_mode z_consolidation_mode-consolidation_mode,
    z_consolidation_mode-name,
  );
  priorities = (
    inverses-IsTransport z_priority priority priority-z_priority z_priority-priority,
    z_priority-name,
  );
  congestion_controls = (
    inverses-IsTransport z_congestion_control congestion_control
        congestion_control-z_congestion_control z_congestion_control-congestion_control,
    z_congestion_control-name,
  );
}
