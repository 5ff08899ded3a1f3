-- ===== src/Requests/Judgement.antt =====
-- What the requests of src/put.rs and src/publisher.rs do.
use zenoh_c.Common.{◌≡◌, refl, Option, none, some, List, [], ◌∷◌, ◌++◌}
use zenoh_c.ResultCodes.{ZResult}
use zenoh_c.Collections.Memory.{Ptr}
use zenoh_c.Payload.Interface.{Zenoh}
use zenoh_c.Encoding.Interface.{ZenohEncoding}
use zenoh_c.Requests.Interface.{Ended, Network}
use zenoh_c.Requests.{State, M, Settings, timestamp_setting, source_setting, code_of}
use zenoh_c.Requests.Taken.{IsTaken, Takes, listed}
use zenoh_c.Requests.Sending.{KeepsTo, Keeps-pair, Keeps-pure, Sends, Sends-settings}
use zenoh_c.Requests.Puts.{
  PutOptions, quality, PublisherPutOptions, put_settings, z_put, apply_publisher_put_options,
  z_publisher_put,
}
use zenoh_c.Requests.Consumption.{z_put-Takes, z_publisher_put-Takes}

module _ {z : Zenoh} {e : ZenohEncoding} {n : Network z e} where
  -- From `s` the call returns: it sends one request, which is given some settings, returns the
  -- result for its end, and leaves as gravestones exactly the variables that are listed.
  abbrev pub Consumes :
      {A : Type 0} (ps es ts cs : List Ptr) (wait : Settings n → n.World → Ended × n.World)
      → (Ended → A)
      → M n A
      → State n
      → Type 0
  Consumes ps es ts cs wait result k s =
      (settings : Settings n) × (s' : State n) × (k s ≡ some (result (wait settings s.world).0, s'))
      × (s'.world ≡ (wait settings s.world).1)
      × IsTaken ps es ts cs s s'

  pub Sends-Consumes :
      {A : Type 0} {ps es ts cs : List Ptr} (wait : Settings n → n.World → Ended × n.World)
      (result : Ended → A) {k : M n A} {s : State n}
      → Sends wait result k s
      → Takes ps es ts cs k
      → Consumes ps es ts cs wait result k s
  Sends-Consumes wait result {s} (settings, s', e, w) takes = (settings, s', e, w, takes s s' _ e)

module _ {z : Zenoh} {e : ZenohEncoding} (n : Network z e) where
  -- The options when their owned fields have been taken.
  abbrev pub taken_put_options : Option (PutOptions n) → Option (PutOptions n)
  taken_put_options none = none
  taken_put_options (some o) = some (record o { encoding = none; attachment = none })

  put_settings-Keeps :
      (options : Option (PutOptions n)) (code : Ended → ZResult)
      → KeepsTo code (taken_put_options options) (put_settings n options)
  unfolding put_settings
  put_settings-Keeps none code = Keeps-pure _ (λ c. refl)
  put_settings-Keeps (some o) code =
      Keeps-pair o.encoding o.attachment
        (λ c a. c ++ a ++ timestamp_setting n o.timestamp ++ quality n o)
        (taken_put_options (some o)) code

  abbrev pub taken_publisher_options :
      Option (PublisherPutOptions n) → Option (PublisherPutOptions n)
  taken_publisher_options none = none
  taken_publisher_options (some o) = some (record o { encoding = none; attachment = none })

  publisher_settings-Keeps :
      (options : Option (PublisherPutOptions n)) (code : Ended → ZResult)
      → KeepsTo code (taken_publisher_options options) (apply_publisher_put_options n options)
  unfolding apply_publisher_put_options
  publisher_settings-Keeps none code = Keeps-pure _ (λ c. refl)
  publisher_settings-Keeps (some o) code =
      Keeps-pair o.encoding o.attachment
        (λ c a. c ++ source_setting n o.source_info ++ a ++ timestamp_setting n o.timestamp)
        (taken_publisher_options (some o)) code

  z_put-Consumes :
      (session : n.Session) (key_expr : n.KeyExpr) (payload : Ptr) (options : Option (PutOptions n))
      (s : State n)
      → Consumes
          (payload ∷ listed options (λ o. o.attachment))
          (listed options (λ o. o.encoding))
          []
          []
          (n.put session key_expr (s.payloads payload))
          (λ x. (code_of x, taken_put_options options))
          (z_put n session key_expr payload options)
          s
  unfolding z_put
  z_put-Consumes session key_expr payload options s =
      Sends-Consumes (n.put session key_expr (s.payloads payload))
        (λ x. (code_of x, taken_put_options options))
        (Sends-settings (put_settings n options) (λ r. r.0)
          (n.put session key_expr (s.payloads payload)) (λ x r. (code_of x, r.1)) _
          (put_settings-Keeps options code_of) _)
        (z_put-Takes n session key_expr payload options)

  z_publisher_put-Consumes :
      (publisher : n.Publisher) (payload : Ptr) (options : Option (PublisherPutOptions n))
      (s : State n)
      → Consumes
          (payload ∷ listed options (λ o. o.attachment))
          (listed options (λ o. o.encoding))
          []
          []
          (n.publisher_put publisher (s.payloads payload))
          (λ x. (code_of x, taken_publisher_options options))
          (z_publisher_put n publisher payload options)
          s
  unfolding z_publisher_put
  z_publisher_put-Consumes publisher payload options s =
      Sends-Consumes (n.publisher_put publisher (s.payloads payload))
        (λ x. (code_of x, taken_publisher_options options))
        (Sends-settings (apply_publisher_put_options n options) (λ r. r.0)
          (n.publisher_put publisher (s.payloads payload)) (λ x r. (code_of x, r.1)) _
          (publisher_settings-Keeps options code_of) _)
        (z_publisher_put-Takes n publisher payload options)

  -- `z_put` and `z_publisher_put` always return. They send one put of the payload behind the pointer
  -- and return the code for how it ended. The payload and the encoding and attachment of the options
  -- are gravestones then, however the put ended, the options have no pointers to them any more, and
  -- no other variable of C code has changed; so too where two of the pointers are the same.
  pub puts-Consume :
      (session : n.Session) (key_expr : n.KeyExpr) (publisher : n.Publisher) (payload : Ptr)
      (options : Option (PutOptions n)) (own : Option (PublisherPutOptions n)) (s : State n)
      → (Consumes
          (payload ∷ listed options (λ o. o.attachment))
          (listed options (λ o. o.encoding))
          []
          []
          (n.put session key_expr (s.payloads payload))
          (λ x. (code_of x, taken_put_options options))
          (z_put n session key_expr payload options)
          s)
        × (Consumes
            (payload ∷ listed own (λ o. o.attachment))
            (listed own (λ o. o.encoding))
            []
            []
            (n.publisher_put publisher (s.payloads payload))
            (λ x. (code_of x, taken_publisher_options own))
            (z_publisher_put n publisher payload own)
            s)
  puts-Consume session key_expr publisher payload options own s = (
    z_put-Consumes session key_expr payload options s,
    z_publisher_put-Consumes publisher payload own s,
  )
