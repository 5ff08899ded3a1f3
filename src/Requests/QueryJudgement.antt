-- ===== src/Requests/QueryJudgement.antt =====
-- What the queries of src/get.rs and src/querier.rs do.
use zenoh_c.Common.{◌≡◌, refl, Option, none, some, [], ◌∷◌, ◌++◌}
use zenoh_c.ResultCodes.{ZResult, Result, ok}
use zenoh_c.Collections.Memory.{Ptr, Bytes}
use zenoh_c.Collections.Strings.{Strlen, strlen_or_zero}
use zenoh_c.Payload.Interface.{Zenoh}
use zenoh_c.Encoding.Interface.{ZenohEncoding}
use zenoh_c.Requests.Interface.{Ended, Network}
use zenoh_c.Requests.{source_setting, State, code_of}
use zenoh_c.Requests.Sending.{KeepsTo, Keeps-four, Keeps-pure, Sends-settings}
use zenoh_c.Requests.Judgement.{Consumes, Sends-Consumes}
use zenoh_c.Requests.Gets.{
  GetOptions, QuerierGetOptions, emptied, querier_settings, parameters_setting, z_querier_get,
  get_settings, get_quality, z_get, parse_parameters,
}
use zenoh_c.Requests.QueryConsumption.{
  querier_payloads, querier_encodings, querier_tokens, get_payloads, get_encodings, get_tokens,
  z_get-Takes, z_querier_get-Takes,
}

module _ {z : Zenoh} {e : ZenohEncoding} (n : Network z e) where
  -- The options when their owned fields have been taken.
  abbrev pub taken_get_options : Option (GetOptions n) → Option (GetOptions n)
  taken_get_options none = none
  taken_get_options (some o) = some (emptied n o)

  abbrev pub taken_querier_options : Option (QuerierGetOptions n) → Option (QuerierGetOptions n)
  taken_querier_options none = none
  taken_querier_options (some o) =
      some
        (record o { payload = none; encoding = none; attachment = none; cancellation_token = none })

  get_settings-Keeps :
      (options : Option (GetOptions n)) (code : Ended → ZResult)
      → KeepsTo code (taken_get_options options) (get_settings n options)
  unfolding get_settings
  get_settings-Keeps none code = Keeps-pure _ (λ c. refl)
  get_settings-Keeps (some o) code =
      Keeps-four o.payload o.encoding o.attachment o.cancellation_token
        (λ p c a t. p ++ c ++ source_setting n o.source_info ++ a ++ get_quality n o ++ t)
        (taken_get_options (some o)) code

  querier_settings-Keeps :
      (options : Option (QuerierGetOptions n)) (code : Ended → ZResult)
      → KeepsTo code (taken_querier_options options) (querier_settings n options)
  unfolding querier_settings
  querier_settings-Keeps none code = Keeps-pure _ (λ c. refl)
  querier_settings-Keeps (some o) code =
      Keeps-four o.payload o.encoding o.attachment o.cancellation_token
        (λ p c a t. p ++ c ++ source_setting n o.source_info ++ a ++ t)
        (taken_querier_options (some o)) code

  module _ (strlen : Strlen) (params callback : Ptr) (s : State n) where
    -- What `parse_parameters` makes of a C string.
    abbrev pub parsed : Result Bytes
    parsed = parse_parameters s.memory params (strlen_or_zero strlen s.memory.byte params)

    z_get-Consumes :
        (session : n.Session) (key_expr : n.KeyExpr) (options : Option (GetOptions n)) {ps : Bytes}
        → parsed ≡ ok ps
        → Consumes
            (get_payloads n options)
            (get_encodings n options)
            (get_tokens n options)
            (callback ∷ [])
            (λ settings. n.get session key_expr ps settings (s.callbacks callback))
            (λ x. (code_of x, taken_get_options options))
            (z_get n strlen session key_expr params callback options)
            s
    unfolding z_get
    z_get-Consumes session key_expr options {ps} h =
        Sends-Consumes (λ settings. n.get session key_expr ps settings (s.callbacks callback))
          (λ x. (code_of x, taken_get_options options))
          (rw h (
            Sends-settings (get_settings n options) (λ r. r.0)
              (λ settings. n.get session key_expr ps settings (s.callbacks callback))
              (λ x r. (code_of x, r.1)) _ (get_settings-Keeps options code_of) _))
          (z_get-Takes n strlen session key_expr params callback options)

    z_querier_get-Consumes :
        (querier : n.Querier) (options : Option (QuerierGetOptions n)) {ps : Bytes}
        → parsed ≡ ok ps
        → Consumes
            (querier_payloads n options)
            (querier_encodings n options)
            (querier_tokens n options)
            (callback ∷ [])
            (λ settings. n.querier_get querier settings (s.callbacks callback))
            (λ x. (code_of x, taken_querier_options options))
            (z_querier_get n strlen querier params callback options)
            s
    unfolding z_querier_get
    z_querier_get-Consumes querier options {ps} h =
        Sends-Consumes (λ settings. n.querier_get querier settings (s.callbacks callback))
          (λ x. (code_of x, taken_querier_options options))
          (rw h (
            Sends-settings (querier_settings n options) (λ r. r.0 ++ parameters_setting n ps)
              (λ settings. n.querier_get querier settings (s.callbacks callback))
              (λ x r. (code_of x, r.1)) _ (querier_settings-Keeps options code_of) _))
          (z_querier_get-Takes n strlen querier params callback options)

    -- Where the parameters are UTF-8 text, `z_get` and `z_querier_get` always return. They send one
    -- query with the closure behind the pointer and return the code for how it ended. The closure,
    -- and the payload, the encoding, the attachment and the cancellation token of the options are
    -- gravestones then, however it ended, the options have no pointers to them any more, and no
    -- other variable of C code has changed.
    pub queries-Consume :
        (session : n.Session) (key_expr : n.KeyExpr) (querier : n.Querier)
        (options : Option (GetOptions n)) (own : Option (QuerierGetOptions n)) {ps : Bytes}
        → parsed ≡ ok ps
        → (Consumes
            (get_payloads n options)
            (get_encodings n options)
            (get_tokens n options)
            (callback ∷ [])
            (λ settings. n.get session key_expr ps settings (s.callbacks callback))
            (λ x. (code_of x, taken_get_options options))
            (z_get n strlen session key_expr params callback options)
            s)
          × (Consumes
              (querier_payloads n own)
              (querier_encodings n own)
              (querier_tokens n own)
              (callback ∷ [])
              (λ settings. n.querier_get querier settings (s.callbacks callback))
              (λ x. (code_of x, taken_querier_options own))
              (z_querier_get n strlen querier params callback own)
              s)
    queries-Consume session key_expr querier options own h =
        (z_get-Consumes session key_expr options h, z_querier_get-Consumes querier own h)
