-- ===== src/Requests/Consumption.antt =====
-- Requests take over what the documentation says that they consume, however they end.
use zenoh_c.Common.{Option, none, some, [], ◌∷◌, ◌++◌}
use zenoh_c.Collections.Memory.{Ptr}
use zenoh_c.Payload.Interface.{Zenoh}
use zenoh_c.Encoding.Interface.{ZenohEncoding}
use zenoh_c.Requests.Interface.{Setting, Network}
use zenoh_c.Requests.{
  source_setting, timestamp_setting, take_payload, attachment_setting, code_of, plain_code_of,
}
use zenoh_c.Requests.Taken.{
  listed, Takes, Takes-pure, Takes-pair, Takes-request, Takes-bind, Takes-last, Takes-payload,
  Takes-encoding, Takes-sending, Takes-map, Takes-attachment_setting,
}
use zenoh_c.Requests.Puts.{
  PutOptions, quality, PublisherPutOptions, put_settings, z_put, apply_publisher_put_options,
  z_publisher_put,
}
use zenoh_c.Requests.Replies.{
  ReplyOptions, ReplyDelOptions, reply_settings, z_query_reply, reply_err_encoding,
  z_query_reply_err, reply_del_settings, z_query_reply_del,
}

module _ {z : Zenoh} {e : ZenohEncoding} (n : Network z e) where
  put_settings-Takes :
      (options : Option (PutOptions n))
      → Takes
          (listed options (λ o. o.attachment))
          (listed options (λ o. o.encoding))
          []
          []
          (put_settings n options)
  unfolding put_settings
  put_settings-Takes none = Takes-pure _
  put_settings-Takes (some o) = Takes-pair o.encoding o.attachment (λ c a. (
    c ++ a ++ timestamp_setting n o.timestamp ++ quality n o,
    some (record o { encoding = none; attachment = none }),
  ))

  pub z_put-Takes :
      (session : n.Session) (key_expr : n.KeyExpr) (payload : Ptr) (options : Option (PutOptions n))
      → Takes
          (payload ∷ listed options (λ o. o.attachment))
          (listed options (λ o. o.encoding))
          []
          []
          (z_put n session key_expr payload options)
  unfolding z_put
  z_put-Takes session key_expr payload options =
      Takes-request payload (put_settings n options) (λ bytes. n.put session key_expr bytes)
        (λ x o. (code_of x, o)) (put_settings-Takes options)

  publisher_settings-Takes :
      (options : Option (PublisherPutOptions n))
      → Takes
          (listed options (λ o. o.attachment))
          (listed options (λ o. o.encoding))
          []
          []
          (apply_publisher_put_options n options)
  unfolding apply_publisher_put_options
  publisher_settings-Takes none = Takes-pure _
  publisher_settings-Takes (some o) = Takes-pair o.encoding o.attachment (λ c a. (
    c ++ source_setting n o.source_info ++ a ++ timestamp_setting n o.timestamp,
    some (record o { encoding = none; attachment = none }),
  ))

  pub z_publisher_put-Takes :
      (publisher : n.Publisher) (payload : Ptr) (options : Option (PublisherPutOptions n))
      → Takes
          (payload ∷ listed options (λ o. o.attachment))
          (listed options (λ o. o.encoding))
          []
          []
          (z_publisher_put n publisher payload options)
  unfolding z_publisher_put
  z_publisher_put-Takes publisher payload options =
      Takes-request payload (apply_publisher_put_options n options)
        (λ bytes. n.publisher_put publisher bytes) (λ x o. (code_of x, o))
        (publisher_settings-Takes options)

  reply_settings-Takes :
      (options : Option (ReplyOptions n))
      → Takes
          (listed options (λ o. o.attachment))
          (listed options (λ o. o.encoding))
          []
          []
          (reply_settings n options)
  unfolding reply_settings
  reply_settings-Takes none = Takes-pure _
  reply_settings-Takes (some o) = Takes-pair o.encoding o.attachment (λ c a. (
    c
        ++ source_setting n o.source_info
        ++ a
        ++ timestamp_setting n o.timestamp
        ++ Setting.express o.is_express ∷ [],
    some (record o { encoding = none; attachment = none }),
  ))

  pub z_query_reply-Takes :
      (query : n.Query) (key_expr : n.KeyExpr) (payload : Ptr) (options : Option (ReplyOptions n))
      → Takes
          (payload ∷ listed options (λ o. o.attachment))
          (listed options (λ o. o.encoding))
          []
          []
          (z_query_reply n query key_expr payload options)
  unfolding z_query_reply
  z_query_reply-Takes query key_expr payload options =
      Takes-request payload (reply_settings n options) (λ bytes. n.reply query key_expr bytes)
        (λ x o. (plain_code_of x, o)) (reply_settings-Takes options)

  reply_err_encoding-Takes :
      (options : Option (Option Ptr))
      → Takes [] (listed options (λ o. o)) [] [] (reply_err_encoding n options)
  unfolding reply_err_encoding
  reply_err_encoding-Takes none = Takes-pure _
  reply_err_encoding-Takes (some none) = Takes-pure _
  reply_err_encoding-Takes (some (some p)) = Takes-encoding p

  pub z_query_reply_err-Takes :
      (query : n.Query) (payload : Ptr) (options : Option (Option Ptr))
      → Takes
          (payload ∷ [])
          (listed options (λ o. o))
          []
          []
          (z_query_reply_err n query payload options)
  unfolding z_query_reply_err
  z_query_reply_err-Takes query payload options =
      Takes-bind (take_payload n payload) _ (Takes-payload payload) (λ bytes.
        Takes-last (reply_err_encoding n options) _ (reply_err_encoding-Takes options) (λ r.
          Takes-sending (n.reply_err query bytes (Setting.encoding r ∷ []))
            (λ x. (plain_code_of x, elim options [ none ↦ none | some o ↦ some none ]))))

  reply_del_settings-Takes :
      (options : Option (ReplyDelOptions n))
      → Takes (listed options (λ o. o.attachment)) [] [] [] (reply_del_settings n options)
  unfolding reply_del_settings
  reply_del_settings-Takes none = Takes-pure _
  reply_del_settings-Takes (some o) =
      Takes-map (attachment_setting n o.attachment) _ (Takes-attachment_setting o.attachment)

  pub z_query_reply_del-Takes :
      (query : n.Query) (key_expr : n.KeyExpr) (options : Option (ReplyDelOptions n))
      → Takes
          (listed options (λ o. o.attachment))
          []
          []
          []
          (z_query_reply_del n query key_expr options)
  unfolding z_query_reply_del
  z_query_reply_del-Takes query key_expr options =
      Takes-last (reply_del_settings n options) _ (reply_del_settings-Takes options)
        (λ r. Takes-sending (n.reply_del query key_expr r.0) (λ x. (plain_code_of x, r.1)))
