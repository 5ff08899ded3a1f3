-- ===== src/Requests/ReplyJudgement.antt =====
-- What the replies of src/queryable.rs do.
use zenoh_c.Common.{refl, Option, none, some, [], ◌∷◌, ◌++◌}
use zenoh_c.ResultCodes.{ZResult}
use zenoh_c.Collections.Memory.{Ptr}
use zenoh_c.Payload.Interface.{Zenoh}
use zenoh_c.Encoding.Interface.{ZenohEncoding}
use zenoh_c.Requests.Interface.{Setting, Ended, Network}
use zenoh_c.Requests.{
  source_setting, timestamp_setting, State, take_payload, attachment_setting, send, plain_code_of,
}
use zenoh_c.Requests.Taken.{listed}
use zenoh_c.Requests.Sending.{
  KeepsTo, Keeps-pair, Keeps-bind, Keeps-pure, Keeps-attachment_setting, Sends-settings,
}
use zenoh_c.Requests.Judgement.{Consumes, Sends-Consumes}
use zenoh_c.Requests.Replies.{
  ReplyOptions, ReplyDelOptions, reply_settings, z_query_reply, z_query_reply_err,
  reply_err_encoding, reply_del_settings, z_query_reply_del,
}
use zenoh_c.Requests.Consumption.{
  z_query_reply-Takes, z_query_reply_err-Takes, z_query_reply_del-Takes,
}

module _ {z : Zenoh} {e : ZenohEncoding} (n : Network z e) where
  abbrev pub taken_reply_options : Option (ReplyOptions n) → Option (ReplyOptions n)
  taken_reply_options none = none
  taken_reply_options (some o) = some (record o { encoding = none; attachment = none })

  reply_settings-Keeps :
      (options : Option (ReplyOptions n)) (code : Ended → ZResult)
      → KeepsTo code (taken_reply_options options) (reply_settings n options)
  unfolding reply_settings
  reply_settings-Keeps none code = Keeps-pure _ (λ c. refl)
  reply_settings-Keeps (some o) code =
      Keeps-pair o.encoding o.attachment
        (λ c a.
          c
          ++ source_setting n o.source_info
          ++ a
          ++ timestamp_setting n o.timestamp
          ++ Setting.express o.is_express ∷ [])
        (taken_reply_options (some o)) code

  abbrev pub taken_del_options : Option (ReplyDelOptions n) → Option (ReplyDelOptions n)
  taken_del_options none = none
  taken_del_options (some o) = some (record o { attachment = none })

  del_settings-Keeps :
      (options : Option (ReplyDelOptions n)) (code : Ended → ZResult)
      → KeepsTo code (taken_del_options options) (reply_del_settings n options)
  unfolding reply_del_settings
  del_settings-Keeps none code = Keeps-pure _ (λ c. refl)
  del_settings-Keeps (some o) code =
      Keeps-bind (attachment_setting n o.attachment) _ (Keeps-attachment_setting o.attachment)
        (λ a t. Keeps-pure _ (λ c. refl))

  z_query_reply-Consumes :
      (query : n.Query) (key_expr : n.KeyExpr) (payload : Ptr) (options : Option (ReplyOptions n))
      (s : State n)
      → Consumes
          (payload ∷ listed options (λ o. o.attachment))
          (listed options (λ o. o.encoding))
          []
          []
          (n.reply query key_expr (s.payloads payload))
          (λ x. (plain_code_of x, taken_reply_options options))
          (z_query_reply n query key_expr payload options)
          s
  unfolding z_query_reply
  z_query_reply-Consumes query key_expr payload options s =
      Sends-Consumes (n.reply query key_expr (s.payloads payload))
        (λ x. (plain_code_of x, taken_reply_options options))
        (Sends-settings (reply_settings n options) (λ r. r.0)
          (n.reply query key_expr (s.payloads payload)) (λ x r. (plain_code_of x, r.1)) _
          (reply_settings-Keeps options plain_code_of) _)
        (z_query_reply-Takes n query key_expr payload options)

  z_query_reply_del-Consumes :
      (query : n.Query) (key_expr : n.KeyExpr) (options : Option (ReplyDelOptions n)) (s : State n)
      → Consumes
          (listed options (λ o. o.attachment))
          []
          []
          []
          (n.reply_del query key_expr)
          (λ x. (plain_code_of x, taken_del_options options))
          (z_query_reply_del n query key_expr options)
          s
  unfolding z_query_reply_del
  z_query_reply_del-Consumes query key_expr options s =
      Sends-Consumes (n.reply_del query key_expr)
        (λ x. (plain_code_of x, taken_del_options options))
        (Sends-settings (reply_del_settings n options) (λ r. r.0) (n.reply_del query key_expr)
          (λ x r. (plain_code_of x, r.1)) _ (del_settings-Keeps options plain_code_of) s)
        (z_query_reply_del-Takes n query key_expr options)

  -- The encoding that an error reply has: the default one unless the options point to one.
  abbrev pub reply_encoding : State n → Option (Option Ptr) → e.Encoding
  reply_encoding s (some (some p)) = s.encodings p
  reply_encoding s _ = e.default

  abbrev pub taken_err_options : Option (Option Ptr) → Option (Option Ptr)
  taken_err_options none = none
  taken_err_options (some o) = some none

  z_query_reply_err-Consumes :
      (query : n.Query) (payload : Ptr) (options : Option (Option Ptr)) (s : State n)
      → Consumes
          (payload ∷ [])
          (listed options (λ o. o))
          []
          []
          (λ settings.
            n.reply_err query
              (s.payloads payload)
              (Setting.encoding (reply_encoding s options) ∷ []))
          (λ x. (plain_code_of x, taken_err_options options))
          (z_query_reply_err n query payload options)
          s
  unfolding z_query_reply_err send take_payload reply_err_encoding
  z_query_reply_err-Consumes query payload none s =
      ([], _, refl, refl, z_query_reply_err-Takes n query payload none s _ _ refl)
  z_query_reply_err-Consumes query payload (some none) s =
      ([], _, refl, refl, z_query_reply_err-Takes n query payload (some none) s _ _ refl)
  z_query_reply_err-Consumes query payload (some (some p)) s =
      ([], _, refl, refl, z_query_reply_err-Takes n query payload (some (some p)) s _ _ refl)

  -- `z_query_reply`, `z_query_reply_err` and `z_query_reply_del` always return. They send one reply
  -- with the payload behind the pointer, where they have one, and return the code for how it ended.
  -- The payload and the encoding and attachment of the options are gravestones then, however it
  -- ended, the options have no pointers to them any more, and no other variable of C code has
  -- changed. An error reply has the encoding of its options, or the default one.
  pub replies-Consume :
      (query : n.Query) (key_expr : n.KeyExpr) (payload : Ptr) (options : Option (ReplyOptions n))
      (err_options : Option (Option Ptr)) (del_options : Option (ReplyDelOptions n)) (s : State n)
      → (Consumes
          (payload ∷ listed options (λ o. o.attachment))
          (listed options (λ o. o.encoding))
          []
          []
          (n.reply query key_expr (s.payloads payload))
          (λ x. (plain_code_of x, taken_reply_options options))
          (z_query_reply n query key_expr payload options)
          s)
        × (Consumes
            (payload ∷ [])
            (listed err_options (λ o. o))
            []
            []
            (λ settings.
              n.reply_err query
                (s.payloads payload)
                (Setting.encoding (reply_encoding s err_options) ∷ []))
            (λ x. (plain_code_of x, taken_err_options err_options))
            (z_query_reply_err n query payload err_options)
            s)
        × (Consumes
            (listed del_options (λ o. o.attachment))
            []
            []
            []
            (n.reply_del query key_expr)
            (λ x. (plain_code_of x, taken_del_options del_options))
            (z_query_reply_del n query key_expr del_options)
            s)
  replies-Consume query key_expr payload options err_options del_options s = (
    z_query_reply-Consumes query key_expr payload options s,
    z_query_reply_err-Consumes query payload err_options s,
    z_query_reply_del-Consumes query key_expr del_options s,
  )
