-- ===== src/Requests/QueryConsumption.antt =====
-- Queries take over what the documentation says that they consume, however they end.
use zenoh_c.Common.{Option, none, some, List, [], ◌∷◌, ◌++◌, append-nil}
use zenoh_c.ResultCodes.{Result, ok, err}
use zenoh_c.Collections.Memory.{Ptr, Bytes}
use zenoh_c.Collections.Strings.{Strlen, strlen_or_zero}
use zenoh_c.Closures.{Closure}
use zenoh_c.Payload.Interface.{Zenoh}
use zenoh_c.Encoding.Interface.{ZenohEncoding}
use zenoh_c.Requests.Interface.{Network}
use zenoh_c.Requests.{
  pure, ◌>>=◌, Settings, take_payload, take_encoding, take_token, take_callback, payload_setting,
  encoding_setting, attachment_setting, token_setting, source_setting, drop_callback, drop_payload,
  code_of,
}
use zenoh_c.Requests.Taken.{
  to_list, listed, Takes, Takes-pure, Takes-bind, Takes-last, Takes-payload, Takes-encoding,
  Takes-token, Takes-callback, Takes-sending, Takes-drop_callback, Takes-drop_payload, Takes-map,
  Takes-payload_setting, Takes-encoding_setting, Takes-attachment_setting, Takes-token_setting,
}
use zenoh_c.Requests.Gets.{
  GetOptions, QuerierGetOptions, clear_payload, clear_encoding, clear_token, querier_clear,
  querier_settings, querier_get_parsed, z_querier_get_with_parameters_substr, z_querier_get,
  get_clear, get_settings, get_parsed, z_get_with_parameters_substr, z_get, parse_parameters,
  parameters_setting, get_quality, emptied,
}

module _ {z : Zenoh} {e : ZenohEncoding} (n : Network z e) where
  clear_payload-Takes : (o : Option Ptr) → Takes (to_list o) [] [] [] (clear_payload n o)
  unfolding clear_payload
  clear_payload-Takes none = Takes-pure tt
  clear_payload-Takes (some p) =
      Takes-last (take_payload n p) (drop_payload n) (Takes-payload p) Takes-drop_payload

  clear_encoding-Takes : (o : Option Ptr) → Takes [] (to_list o) [] [] (clear_encoding n o)
  unfolding clear_encoding
  clear_encoding-Takes none = Takes-pure tt
  clear_encoding-Takes (some p) = Takes-map (take_encoding n p) (λ x. tt) (Takes-encoding p)

  clear_token-Takes : (o : Option Ptr) → Takes [] [] (to_list o) [] (clear_token n o)
  unfolding clear_token
  clear_token-Takes none = Takes-pure tt
  clear_token-Takes (some p) = Takes-map (take_token n p) (λ x. tt) (Takes-token p)

  -- Both kinds of options are cleared in the same order.
  clearing :
      {B : Type 0} (payload encoding attachment token : Option Ptr) (b : B)
      → Takes (to_list payload ++ to_list attachment) (to_list encoding) (to_list token) [] (
          clear_payload n payload >>= λ t. clear_encoding n encoding >>= λ t.
          clear_payload n attachment >>= λ t. clear_token n token >>= λ t. pure b)
  clearing payload encoding attachment token b =
      rw (← append-nil (to_list attachment), ← append-nil (to_list encoding))
        (Takes-bind (clear_payload n payload) _ (clear_payload-Takes payload) (λ t.
          Takes-bind (clear_encoding n encoding) _ (clear_encoding-Takes encoding) (λ t.
            Takes-bind (clear_payload n attachment) _ (clear_payload-Takes attachment)
              (λ t. Takes-map (clear_token n token) (λ t. b) (clear_token-Takes token)))))

  -- And handed to the query in the same order.
  handing :
      {B : Type 0} (payload encoding attachment token : Option Ptr)
      (f : Settings n → Settings n → Settings n → Settings n → B)
      → Takes (to_list payload ++ to_list attachment) (to_list encoding) (to_list token) [] (
          payload_setting n payload >>= λ p. encoding_setting n encoding >>= λ c.
          attachment_setting n attachment >>= λ a. token_setting n token >>= λ t. pure (f p c a t))
  handing payload encoding attachment token f =
      rw (← append-nil (to_list attachment), ← append-nil (to_list encoding))
        (Takes-bind (payload_setting n payload) _ (Takes-payload_setting payload) (λ p.
          Takes-bind (encoding_setting n encoding) _ (Takes-encoding_setting encoding) (λ c.
            Takes-bind (attachment_setting n attachment) _ (Takes-attachment_setting attachment)
              (λ a. Takes-map (token_setting n token) (f p c a) (Takes-token_setting token)))))

  module _ (options : Option (QuerierGetOptions n)) where
    abbrev pub querier_payloads : List Ptr
    querier_payloads = listed options (λ o. o.payload) ++ listed options (λ o. o.attachment)

    abbrev pub querier_encodings : List Ptr
    querier_encodings = listed options (λ o. o.encoding)

    abbrev pub querier_tokens : List Ptr
    querier_tokens = listed options (λ o. o.cancellation_token)

  querier_clear-Takes :
      (options : Option (QuerierGetOptions n))
      → Takes
          (querier_payloads options)
          (querier_encodings options)
          (querier_tokens options)
          []
          (querier_clear n options)
  unfolding querier_clear
  querier_clear-Takes none = Takes-pure none
  querier_clear-Takes (some o) = clearing o.payload o.encoding o.attachment o.cancellation_token (
      some (record {
        payload = none;
        encoding = none;
        source_info = o.source_info;
        attachment = none;
        cancellation_token = none;
      }))

  querier_settings-Takes :
      (options : Option (QuerierGetOptions n))
      → Takes
          (querier_payloads options)
          (querier_encodings options)
          (querier_tokens options)
          []
          (querier_settings n options)
  unfolding querier_settings
  querier_settings-Takes none = Takes-pure _
  querier_settings-Takes (some o) =
      handing o.payload o.encoding o.attachment o.cancellation_token (λ p c a t. (
        p ++ c ++ source_setting n o.source_info ++ a ++ t,
        some (record {
          payload = none;
          encoding = none;
          source_info = o.source_info;
          attachment = none;
          cancellation_token = none;
        }),
      ))

  querier_get_parsed-Takes :
      (querier : n.Querier) (callback : Closure n.World n.Reply)
      (options : Option (QuerierGetOptions n)) (parsed : Result Bytes)
      → Takes
          (querier_payloads options)
          (querier_encodings options)
          (querier_tokens options)
          []
          (querier_get_parsed n querier callback options parsed)
  unfolding querier_get_parsed
  querier_get_parsed-Takes querier callback options (err r) =
      Takes-last (querier_clear n options) _ (querier_clear-Takes options)
        (λ o. Takes-map (drop_callback n callback) (λ t. (r, o)) (Takes-drop_callback callback))
  querier_get_parsed-Takes querier callback options (ok params) =
      Takes-last (querier_settings n options) _ (querier_settings-Takes options) (λ r.
        Takes-sending (n.querier_get querier (r.0 ++ parameters_setting n params) callback)
          (λ x. (code_of x, r.1)))

  pub z_querier_get-Takes :
      (strlen : Strlen) (querier : n.Querier) (params callback : Ptr)
      (options : Option (QuerierGetOptions n))
      → Takes
          (querier_payloads options)
          (querier_encodings options)
          (querier_tokens options)
          (callback ∷ [])
          (z_querier_get n strlen querier params callback options)
  unfolding z_querier_get z_querier_get_with_parameters_substr
  z_querier_get-Takes strlen querier params callback options s s' a r =
      Takes-bind (take_callback n callback) _ (Takes-callback callback)
        (λ taken.
          querier_get_parsed-Takes querier taken options
            (parse_parameters s.memory params (strlen_or_zero strlen s.memory.byte params)))
        s s' a r

  module _ (options : Option (GetOptions n)) where
    abbrev pub get_payloads : List Ptr
    get_payloads = listed options (λ o. o.payload) ++ listed options (λ o. o.attachment)

    abbrev pub get_encodings : List Ptr
    get_encodings = listed options (λ o. o.encoding)

    abbrev pub get_tokens : List Ptr
    get_tokens = listed options (λ o. o.cancellation_token)

  get_clear-Takes :
      (options : Option (GetOptions n))
      → Takes
          (get_payloads options)
          (get_encodings options)
          (get_tokens options)
          []
          (get_clear n options)
  unfolding get_clear
  get_clear-Takes none = Takes-pure none
  get_clear-Takes (some o) =
      clearing o.payload o.encoding o.attachment o.cancellation_token (some (emptied n o))

  get_settings-Takes :
      (options : Option (GetOptions n))
      → Takes
          (get_payloads options)
          (get_encodings options)
          (get_tokens options)
          []
          (get_settings n options)
  unfolding get_settings
  get_settings-Takes none = Takes-pure _
  get_settings-Takes (some o) =
      handing o.payload o.encoding o.attachment o.cancellation_token (λ p c a t.
        (p ++ c ++ source_setting n o.source_info ++ a ++ get_quality n o ++ t, some (emptied n o)))

  get_parsed-Takes :
      (session : n.Session) (key_expr : n.KeyExpr) (callback : Closure n.World n.Reply)
      (options : Option (GetOptions n)) (parsed : Result Bytes)
      → Takes
          (get_payloads options)
          (get_encodings options)
          (get_tokens options)
          []
          (get_parsed n session key_expr callback options parsed)
  unfolding get_parsed
  get_parsed-Takes session key_expr callback options (err r) =
      Takes-last (get_clear n options) _ (get_clear-Takes options)
        (λ o. Takes-map (drop_callback n callback) (λ t. (r, o)) (Takes-drop_callback callback))
  get_parsed-Takes session key_expr callback options (ok params) =
      Takes-last (get_settings n options) _ (get_settings-Takes options)
        (λ r. Takes-sending (n.get session key_expr params r.0 callback) (λ x. (code_of x, r.1)))

  pub z_get-Takes :
      (strlen : Strlen) (session : n.Session) (key_expr : n.KeyExpr) (params callback : Ptr)
      (options : Option (GetOptions n))
      → Takes
          (get_payloads options)
          (get_encodings options)
          (get_tokens options)
          (callback ∷ [])
          (z_get n strlen session key_expr params callback options)
  unfolding z_get z_get_with_parameters_substr
  z_get-Takes strlen session key_expr params callback options s s' a r =
      Takes-bind (take_callback n callback) _ (Takes-callback callback)
        (λ taken.
          get_parsed-Takes session key_expr taken options
            (parse_parameters s.memory params (strlen_or_zero strlen s.memory.byte params)))
        s s' a r
