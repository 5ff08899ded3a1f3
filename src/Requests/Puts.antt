-- ===== src/Requests/Puts.antt =====
-- src/put.rs, and the requests of a publisher in src/publisher.rs. A function returns its code and
-- what the options, which C code sees, hold afterwards.
use zenoh_c.Common.{Bool, false, Option, none, some, [], ◌∷◌, ◌++◌}
use zenoh_c.ResultCodes.{ZResult}
use zenoh_c.Collections.Memory.{Ptr}
use zenoh_c.Payload.Interface.{Zenoh}
use zenoh_c.Encoding.Interface.{ZenohEncoding}
use zenoh_c.Commons.{
  ZLocality, ZPriority, ZCongestionControl, ZReliability, locality, priority, congestion_control,
  reliability, z_locality, z_priority, z_congestion_control, z_reliability,
}
use zenoh_c.Requests.Interface.{Setting, Network}
use zenoh_c.Requests.{
  M, pure, ◌>>=◌, Settings, take_payload, encoding_setting, attachment_setting, timestamp_setting,
  source_setting, send, code_of, plain_code_of,
}

module _ {z : Zenoh} {e : ZenohEncoding} (n : Network z e) where
  -- `z_put_options_t`
  pub record PutOptions : Type 0 where
    pub encoding : Option Ptr
    pub congestion_control : ZCongestionControl
    pub priority : ZPriority
    pub is_express : Bool
    pub timestamp : Option n.Timestamp
    pub reliability : ZReliability
    pub allowed_destination : ZLocality
    pub source_info : Option n.SourceInfo
    pub attachment : Option Ptr

  unfoldable pub z_put_options_default : PutOptions
  unfolding z_congestion_control z_priority z_reliability z_locality
  z_put_options_default = record {
    encoding = none;
    congestion_control = z_congestion_control n.default_push;
    priority = z_priority n.default_priority;
    is_express = false;
    timestamp = none;
    reliability = z_reliability n.default_reliability;
    allowed_destination = z_locality n.default_locality;
    source_info = none;
    attachment = none;
  }

  -- The setters that follow the fields that are always set.
  unfoldable pub quality : PutOptions → Settings n
  unfolding priority congestion_control locality reliability source_setting
  quality o =
      Setting.priority (priority o.priority)
      ∷ Setting.congestion_control (congestion_control o.congestion_control)
      ∷ Setting.express o.is_express
      ∷ Setting.allowed_destination (locality o.allowed_destination)
      ∷ Setting.reliability (reliability o.reliability)
      ∷ source_setting n o.source_info

  -- The settings, and the options afterwards.
  unfoldable pub put_settings : Option PutOptions → M n (Settings n × Option PutOptions)
  unfolding encoding_setting attachment_setting timestamp_setting quality
  put_settings none = pure ([], none)
  put_settings (some o) = do
    encodings ← encoding_setting n o.encoding
    attachments ← attachment_setting n o.attachment
    pure (
      encodings ++ attachments ++ timestamp_setting n o.timestamp ++ quality o,
      some (record o { encoding = none; attachment = none }),
    )

  unfoldable pub z_put :
      n.Session → n.KeyExpr → Ptr → Option PutOptions → M n (ZResult × Option PutOptions)
  unfolding take_payload put_settings send code_of
  z_put session key_expr payload options = do
    bytes ← take_payload n payload
    (settings, options') ← put_settings options
    ended ← send n (n.put session key_expr bytes settings)
    pure (code_of ended, options')

  -- `z_delete_options_t`
  pub record DeleteOptions : Type 0 where
    pub congestion_control : ZCongestionControl
    pub priority : ZPriority
    pub is_express : Bool
    pub timestamp : Option n.Timestamp
    pub reliability : ZReliability
    pub allowed_destination : ZLocality

  unfoldable pub z_delete_options_default : DeleteOptions
  unfolding z_congestion_control z_priority z_reliability z_locality
  z_delete_options_default = record {
    congestion_control = z_congestion_control n.default_push;
    priority = z_priority n.default_priority;
    is_express = false;
    timestamp = none;
    reliability = z_reliability n.default_reliability;
    allowed_destination = z_locality n.default_locality;
  }

  delete_settings : Option DeleteOptions → Settings n
  unfolding timestamp_setting priority congestion_control locality reliability
  delete_settings none = []
  delete_settings (some o) =
      timestamp_setting n o.timestamp
      ++ Setting.congestion_control (congestion_control o.congestion_control)
        ∷ Setting.priority (priority o.priority)
        ∷ Setting.express o.is_express
        ∷ Setting.allowed_destination (locality o.allowed_destination)
        ∷ Setting.reliability (reliability o.reliability)
        ∷ []

  unfoldable pub z_delete : n.Session → n.KeyExpr → Option DeleteOptions → M n ZResult
  unfolding delete_settings send plain_code_of
  z_delete session key_expr options = do
    ended ← send n (n.delete session key_expr (delete_settings options))
    pure (plain_code_of ended)

  -- `z_publisher_put_options_t`
  pub record PublisherPutOptions : Type 0 where
    pub encoding : Option Ptr
    pub timestamp : Option n.Timestamp
    pub source_info : Option n.SourceInfo
    pub attachment : Option Ptr

  unfoldable pub z_publisher_put_options_default : PublisherPutOptions
  z_publisher_put_options_default = record {
    encoding = none;
    timestamp = none;
    source_info = none;
    attachment = none;
  }

  -- `_apply_publisher_put_options`
  unfoldable pub apply_publisher_put_options :
      Option PublisherPutOptions → M n (Settings n × Option PublisherPutOptions)
  unfolding encoding_setting attachment_setting timestamp_setting source_setting
  apply_publisher_put_options none = pure ([], none)
  apply_publisher_put_options (some o) = do
    encodings ← encoding_setting n o.encoding
    attachments ← attachment_setting n o.attachment
    pure (
      encodings ++ source_setting n o.source_info ++ attachments ++ timestamp_setting n o.timestamp,
      some (record o { encoding = none; attachment = none }),
    )

  unfoldable pub z_publisher_put :
      n.Publisher → Ptr → Option PublisherPutOptions → M n (ZResult × Option PublisherPutOptions)
  unfolding take_payload apply_publisher_put_options send code_of
  z_publisher_put publisher payload options = do
    bytes ← take_payload n payload
    (settings, options') ← apply_publisher_put_options options
    ended ← send n (n.publisher_put publisher bytes settings)
    pure (code_of ended, options')

  -- `z_publisher_delete_options_t` with its timestamp
  unfoldable pub z_publisher_delete : n.Publisher → Option (Option n.Timestamp) → M n ZResult
  unfolding timestamp_setting send plain_code_of
  z_publisher_delete publisher none = do
    ended ← send n (n.publisher_delete publisher [])
    pure (plain_code_of ended)
  z_publisher_delete publisher (some timestamp) = do
    ended ← send n (n.publisher_delete publisher (timestamp_setting n timestamp))
    pure (plain_code_of ended)
