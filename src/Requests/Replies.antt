-- ===== src/Requests/Replies.antt =====
-- The replies to a query in src/queryable.rs. A function returns its code and what the options,
-- which C code sees, hold afterwards.
use zenoh_c.Common.{Bool, false, Option, none, some, [], ◌∷◌, ◌++◌}
use zenoh_c.ResultCodes.{ZResult}
use zenoh_c.Collections.Memory.{Ptr}
use zenoh_c.Payload.Interface.{Zenoh}
use zenoh_c.Encoding.Interface.{ZenohEncoding}
use zenoh_c.Commons.{ZPriority, ZCongestionControl, z_priority}
use zenoh_c.Requests.Interface.{Setting, Network}
use zenoh_c.Requests.{
  M, pure, ◌>>=◌, Settings, take_payload, take_encoding, encoding_setting, attachment_setting,
  timestamp_setting, source_setting, send, plain_code_of,
}

module _ {z : Zenoh} {e : ZenohEncoding} (n : Network z e) where
  -- `z_query_reply_options_t`
  pub record ReplyOptions : Type 0 where
    pub encoding : Option Ptr
    pub congestion_control : ZCongestionControl
    pub priority : ZPriority
    pub is_express : Bool
    pub timestamp : Option n.Timestamp
    pub source_info : Option n.SourceInfo
    pub attachment : Option Ptr

  unfoldable pub z_query_reply_options_default : ReplyOptions
  unfolding z_priority
  z_query_reply_options_default = record {
    encoding = none;
    congestion_control = ZCongestionControl.block;
    priority = z_priority n.default_priority;
    is_express = false;
    timestamp = none;
    source_info = none;
    attachment = none;
  }

  unfoldable pub reply_settings : Option ReplyOptions → M n (Settings n × Option ReplyOptions)
  unfolding encoding_setting source_setting attachment_setting timestamp_setting
  reply_settings none = pure ([], none)
  reply_settings (some o) = do
    encodings ← encoding_setting n o.encoding
    attachments ← attachment_setting n o.attachment
    pure (
      encodings
          ++ source_setting n o.source_info
          ++ attachments
          ++ timestamp_setting n o.timestamp
          ++ Setting.express o.is_express ∷ [],
      some (record o { encoding = none; attachment = none }),
    )

  unfoldable pub z_query_reply :
      n.Query → n.KeyExpr → Ptr → Option ReplyOptions → M n (ZResult × Option ReplyOptions)
  unfolding take_payload reply_settings send plain_code_of
  z_query_reply query key_expr payload options = do
    bytes ← take_payload n payload
    (settings, options') ← reply_settings options
    ended ← send n (n.reply query key_expr bytes settings)
    pure (plain_code_of ended, options')

  -- `options.and_then(|o| o.encoding.take()).map(|e| e.take_rust_type()).unwrap_or(default)`
  unfoldable pub reply_err_encoding : Option (Option Ptr) → M n e.Encoding
  unfolding take_encoding
  reply_err_encoding none = pure e.default
  reply_err_encoding (some none) = pure e.default
  reply_err_encoding (some (some p)) = take_encoding n p

  -- The options are their field `encoding`.
  unfoldable pub z_query_reply_err :
      n.Query → Ptr → Option (Option Ptr) → M n (ZResult × Option (Option Ptr))
  unfolding take_payload reply_err_encoding send plain_code_of
  z_query_reply_err query payload options = do
    bytes ← take_payload n payload
    enc ← reply_err_encoding options
    ended ← send n (n.reply_err query bytes (Setting.encoding enc ∷ []))
    pure (plain_code_of ended, elim options [ none ↦ none | some o ↦ some none ])

  -- `z_query_reply_del_options_t`
  pub record ReplyDelOptions : Type 0 where
    pub congestion_control : ZCongestionControl
    pub priority : ZPriority
    pub is_express : Bool
    pub timestamp : Option n.Timestamp
    pub source_info : Option n.SourceInfo
    pub attachment : Option Ptr

  unfoldable pub z_query_reply_del_options_default : ReplyDelOptions
  unfolding z_priority
  z_query_reply_del_options_default = record {
    congestion_control = ZCongestionControl.block;
    priority = z_priority n.default_priority;
    is_express = false;
    timestamp = none;
    source_info = none;
    attachment = none;
  }

  unfoldable pub reply_del_settings :
      Option ReplyDelOptions → M n (Settings n × Option ReplyDelOptions)
  unfolding source_setting attachment_setting timestamp_setting
  reply_del_settings none = pure ([], none)
  reply_del_settings (some o) = do
    attachments ← attachment_setting n o.attachment
    pure (
      source_setting n o.source_info
          ++ attachments
          ++ timestamp_setting n o.timestamp
          ++ Setting.express o.is_express ∷ [],
      some (record o { attachment = none }),
    )

  unfoldable pub z_query_reply_del :
      n.Query → n.KeyExpr → Option ReplyDelOptions → M n (ZResult × Option ReplyDelOptions)
  unfolding reply_del_settings send plain_code_of
  z_query_reply_del query key_expr options = do
    (settings, options') ← reply_del_settings options
    ended ← send n (n.reply_del query key_expr settings)
    pure (plain_code_of ended, options')
