-- ===== src/Requests/Gets.antt =====
-- The queries of src/get.rs and src/querier.rs. A function returns its code and what the options,
-- which C code sees, hold afterwards. A closure that is not handed to the query is dropped.
use zenoh_c.Common.{ℕ, Bool, false, Option, none, some, [], ◌∷◌, ◌++◌, ◌==◌, if◌then◌else◌}
use zenoh_c.Common.Utf8.{is_utf8}
use zenoh_c.ResultCodes.{ZResult, z_einval, Result, ok, err}
use zenoh_c.Collections.Memory.{Ptr, null, Bytes, Memory, read}
use zenoh_c.Collections.Slice.{CSlice, new_borrowed}
use zenoh_c.Collections.Strings.{Strlen, strlen_or_zero}
use zenoh_c.Closures.{Closure}
use zenoh_c.Payload.Interface.{Zenoh}
use zenoh_c.Encoding.Interface.{ZenohEncoding}
use zenoh_c.Commons.{
  ZLocality, ZPriority, ZCongestionControl, ZReplyKeyexpr, ZQueryTarget, ZConsolidationMode,
  locality, priority, congestion_control, reply_keyexpr, query_target, consolidation_mode,
  z_locality, z_priority, z_congestion_control, z_reply_keyexpr, z_query_target,
  z_consolidation_mode,
}
use zenoh_c.Requests.Interface.{Setting, Network}
use zenoh_c.Requests.{
  M, pure, ◌>>=◌, ◌>>◌, Settings, take_payload, take_encoding, take_token, take_callback,
  payload_setting, encoding_setting, attachment_setting, token_setting, source_setting, send,
  drop_callback, drop_payload, code_of,
}

-- `TryFrom<&CStringView> for &str`; `none` is an error.
unfoldable pub string_str : Memory → CSlice → Option Bytes
unfolding is_utf8
string_str m cs =
    if cs.data_ptr == null
    then some []
    else if is_utf8 (read m.byte cs.data_ptr cs.len)
    then some (read m.byte cs.data_ptr cs.len)
    else none

-- The parameters, or the code of the error.
unfoldable pub parse_parameters : Memory → Ptr → ℕ → Result Bytes
unfolding new_borrowed string_str
parse_parameters m p len = elim (new_borrowed p len) [
  | err r ↦ err r
  | ok cs ↦ elim (string_str m cs) [ none ↦ err z_einval | some params ↦ ok params ]
]

module _ {z : Zenoh} {e : ZenohEncoding} (n : Network z e) where
  -- `if let Some(p) = field.take() { p.take_rust_type(); }`
  unfoldable pub clear_payload : Option Ptr → M n (Unit {0})
  unfolding take_payload drop_payload
  clear_payload none = pure tt
  clear_payload (some p) = take_payload n p >>= drop_payload n

  unfoldable pub clear_encoding : Option Ptr → M n (Unit {0})
  unfolding take_encoding
  clear_encoding none = pure tt
  clear_encoding (some p) = do dropped ← take_encoding n p; pure tt

  unfoldable pub clear_token : Option Ptr → M n (Unit {0})
  unfolding take_token
  clear_token none = pure tt
  clear_token (some p) = do dropped ← take_token n p; pure tt

  -- What both kinds of options have: `z_querier_get_options_t`.
  pub record QuerierGetOptions : Type 0 where
    pub payload : Option Ptr
    pub encoding : Option Ptr
    pub source_info : Option n.SourceInfo
    pub attachment : Option Ptr
    pub cancellation_token : Option Ptr

  unfoldable pub z_querier_get_options_default : QuerierGetOptions
  z_querier_get_options_default = record {
    payload = none;
    encoding = none;
    source_info = none;
    attachment = none;
    cancellation_token = none;
  }

  -- `z_querier_get_options_t::clear`
  unfoldable pub querier_clear : Option QuerierGetOptions → M n (Option QuerierGetOptions)
  unfolding clear_payload clear_encoding clear_token z_querier_get_options_default
  querier_clear none = pure none
  querier_clear (some o) = do
    clear_payload o.payload
    clear_encoding o.encoding
    clear_payload o.attachment
    clear_token o.cancellation_token
    pure (some (record z_querier_get_options_default { source_info = o.source_info }))

  unfoldable pub querier_settings :
      Option QuerierGetOptions → M n (Settings n × Option QuerierGetOptions)
  unfolding payload_setting encoding_setting source_setting attachment_setting token_setting
      z_querier_get_options_default
  querier_settings none = pure ([], none)
  querier_settings (some o) = do
    payloads ← payload_setting n o.payload
    encodings ← encoding_setting n o.encoding
    attachments ← attachment_setting n o.attachment
    tokens ← token_setting n o.cancellation_token
    pure (
      payloads ++ encodings ++ source_setting n o.source_info ++ attachments ++ tokens,
      some (record z_querier_get_options_default { source_info = o.source_info }),
    )

  unfoldable pub parameters_setting : Bytes → Settings n
  parameters_setting [] = []
  parameters_setting (b ∷ bs) = Setting.parameters (b ∷ bs) ∷ []

  unfoldable pub querier_get_parsed :
      n.Querier
      → Closure n.World n.Reply
      → Option QuerierGetOptions
      → Result Bytes
      → M n (ZResult × Option QuerierGetOptions)
  unfolding querier_clear drop_callback querier_settings parameters_setting send code_of
  querier_get_parsed querier callback options (err r) = do
    options' ← querier_clear options
    drop_callback n callback
    pure (r, options')
  querier_get_parsed querier callback options (ok params) = do
    (settings, options') ← querier_settings options
    ended ← send n (n.querier_get querier (settings ++ parameters_setting params) callback)
    pure (code_of ended, options')

  unfoldable pub z_querier_get_with_parameters_substr :
      n.Querier
      → Ptr
      → ℕ
      → Ptr
      → Option QuerierGetOptions
      → M n (ZResult × Option QuerierGetOptions)
  unfolding take_callback parse_parameters querier_get_parsed
  z_querier_get_with_parameters_substr querier params len callback options s =
      (do
        taken ← take_callback n callback
        querier_get_parsed querier taken options (parse_parameters s.memory params len))
        s

  unfoldable pub z_querier_get :
      Strlen
      → n.Querier
      → Ptr
      → Ptr
      → Option QuerierGetOptions
      → M n (ZResult × Option QuerierGetOptions)
  unfolding strlen_or_zero z_querier_get_with_parameters_substr
  z_querier_get strlen querier params callback options s =
      z_querier_get_with_parameters_substr querier params
        (strlen_or_zero strlen s.memory.byte params) callback options s

  -- `z_get_options_t`
  pub record GetOptions : Type 0 where
    pub target : ZQueryTarget
    pub consolidation : ZConsolidationMode
    pub payload : Option Ptr
    pub encoding : Option Ptr
    pub congestion_control : ZCongestionControl
    pub is_express : Bool
    pub allowed_destination : ZLocality
    pub accept_replies : ZReplyKeyexpr
    pub priority : ZPriority
    pub source_info : Option n.SourceInfo
    pub attachment : Option Ptr
    pub timeout_ms : ℕ
    pub cancellation_token : Option Ptr

  unfoldable pub z_get_options_default : GetOptions
  unfolding z_query_target z_consolidation_mode z_congestion_control z_locality z_reply_keyexpr
      z_priority
  z_get_options_default = record {
    target = z_query_target n.default_target;
    consolidation = z_consolidation_mode n.default_consolidation;
    payload = none;
    encoding = none;
    congestion_control = z_congestion_control n.default_request;
    is_express = false;
    allowed_destination = z_locality n.default_locality;
    accept_replies = z_reply_keyexpr n.default_reply_keyexpr;
    priority = z_priority n.default_priority;
    source_info = none;
    attachment = none;
    timeout_ms = 0;
    cancellation_token = none;
  }

  -- The options when their owned fields have been taken.
  abbrev pub emptied : GetOptions → GetOptions
  emptied o = record o {
    payload = none;
    encoding = none;
    attachment = none;
    cancellation_token = none;
  }

  -- `z_get_options_t::clear`
  unfoldable pub get_clear : Option GetOptions → M n (Option GetOptions)
  unfolding clear_payload clear_encoding clear_token
  get_clear none = pure none
  get_clear (some o) = do
    clear_payload o.payload
    clear_encoding o.encoding
    clear_payload o.attachment
    clear_token o.cancellation_token
    pure (some (emptied o))

  timeout_setting : ℕ → Settings n
  timeout_setting ms = if ms == 0 then [] else Setting.timeout ms ∷ []

  -- The setters of the fields that are always set, and the timeout.
  unfoldable pub get_quality : GetOptions → Settings n
  unfolding consolidation_mode query_target congestion_control priority locality reply_keyexpr
      timeout_setting
  get_quality o =
      Setting.consolidation (consolidation_mode o.consolidation)
      ∷ Setting.target (query_target o.target)
      ∷ Setting.congestion_control (congestion_control o.congestion_control)
      ∷ Setting.priority (priority o.priority)
      ∷ Setting.express o.is_express
      ∷ Setting.allowed_destination (locality o.allowed_destination)
      ∷ Setting.accept_replies (reply_keyexpr o.accept_replies)
      ∷ timeout_setting o.timeout_ms

  unfoldable pub get_settings : Option GetOptions → M n (Settings n × Option GetOptions)
  unfolding payload_setting encoding_setting source_setting attachment_setting token_setting
      get_quality
  get_settings none = pure ([], none)
  get_settings (some o) = do
    payloads ← payload_setting n o.payload
    encodings ← encoding_setting n o.encoding
    attachments ← attachment_setting n o.attachment
    tokens ← token_setting n o.cancellation_token
    pure (
      payloads
          ++ encodings
          ++ source_setting n o.source_info
          ++ attachments
          ++ get_quality o
          ++ tokens,
      some (emptied o),
    )

  unfoldable pub get_parsed :
      n.Session
      → n.KeyExpr
      → Closure n.World n.Reply
      → Option GetOptions
      → Result Bytes
      → M n (ZResult × Option GetOptions)
  unfolding get_clear drop_callback get_settings send code_of
  get_parsed session key_expr callback options (err r) = do
    options' ← get_clear options
    drop_callback n callback
    pure (r, options')
  get_parsed session key_expr callback options (ok params) = do
    (settings, options') ← get_settings options
    ended ← send n (n.get session key_expr params settings callback)
    pure (code_of ended, options')

  unfoldable pub z_get_with_parameters_substr :
      n.Session → n.KeyExpr → Ptr → ℕ → Ptr → Option GetOptions → M n (ZResult × Option GetOptions)
  unfolding take_callback parse_parameters get_parsed
  z_get_with_parameters_substr session key_expr params len callback options s =
      (do
        taken ← take_callback n callback
        get_parsed session key_expr taken options (parse_parameters s.memory params len))
        s

  unfoldable pub z_get :
      Strlen
      → n.Session
      → n.KeyExpr
      → Ptr
      → Ptr
      → Option GetOptions
      → M n (ZResult × Option GetOptions)
  unfolding strlen_or_zero z_get_with_parameters_substr
  z_get strlen session key_expr params callback options s =
      z_get_with_parameters_substr session key_expr params
        (strlen_or_zero strlen s.memory.byte params) callback options s
