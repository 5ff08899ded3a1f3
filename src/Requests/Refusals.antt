-- ===== src/Requests/Refusals.antt =====
-- How the queries of src/get.rs and src/querier.rs refuse their parameters.
use zenoh_c.Common.{◌≡◌, ◌≢◌, refl, ap, ◌∙◌, false, Option, none, some, [], ◌∷◌, arith}
use zenoh_c.Common.Utf8.{is_utf8}
use zenoh_c.ResultCodes.{ZResult, z_einval, err}
use zenoh_c.Collections.Memory.{Ptr, null, Memory, read}
use zenoh_c.Collections.Strings.{Strlen, strlen_or_zero}
use zenoh_c.Closures.{Closure, default_closure, drop_closure}
use zenoh_c.Payload.Interface.{Zenoh}
use zenoh_c.Payload.{bytes_gravestone}
use zenoh_c.Encoding.Interface.{ZenohEncoding}
use zenoh_c.Requests.Interface.{Network}
use zenoh_c.Requests.{
  State, M, pure, update, bind-some, ◌>>=◌, take_payload, take_encoding, take_token, drop_callback,
  drop_payload,
}
use zenoh_c.Requests.Taken.{IsTaken}
use zenoh_c.Requests.Sending.{Keeps, Keeps-bind, Keeps-pure}
use zenoh_c.Requests.Gets.{
  GetOptions, QuerierGetOptions, parse_parameters, clear_payload, clear_encoding, clear_token,
  get_clear, querier_clear, z_get, z_querier_get,
}
use zenoh_c.Requests.QueryConsumption.{
  querier_payloads, querier_encodings, querier_tokens, get_payloads, get_encodings, get_tokens,
  z_get-Takes, z_querier_get-Takes,
}
use zenoh_c.Requests.QueryJudgement.{taken_get_options, taken_querier_options}

-- A C string that is not UTF-8.
abbrev pub IsNotText : Strlen → Memory → Ptr → Type 0
IsNotText strlen m p = (p ≢ null) × (is_utf8 (read m.byte p (strlen m.byte p)) ≡ false)

parse_parameters-err :
    (strlen : Strlen) (m : Memory) (p : Ptr)
    → IsNotText strlen m p
    → parse_parameters m p (strlen_or_zero strlen m.byte p) ≡ err z_einval
unfolding parse_parameters strlen_or_zero
parse_parameters-err strlen m p (some_address, bad) = ground arith

module _ {z : Zenoh} {e : ZenohEncoding} (n : Network z e) where
  drop_payload-some :
      (bytes : z.ZBytes) (s : State n) {m : Memory}
      → z.drop_zbytes bytes s.memory ≡ some (tt, m)
      → drop_payload n bytes s ≡ some (tt, record s { memory = m })
  unfolding drop_payload
  drop_payload-some bytes s h = rw (h, drop_payload)

  drop_callback-some :
      (c : Closure n.World n.Reply) (s : State n) {w : n.World}
      → drop_closure c s.world ≡ some w
      → drop_callback n c s ≡ some (tt, record s { world = w })
  unfolding drop_callback
  drop_callback-some c s h = rw (h, drop_callback)

  -- The drop of a payload always returns.
  abbrev pub DropsPayloads : Type 0
  DropsPayloads =
      (bytes : z.ZBytes) (m : Memory) → (m' : Memory) × (z.drop_zbytes bytes m ≡ some (tt, m'))

  module _ (drops : DropsPayloads) where
    Keeps-clear_payload : (o : Option Ptr) → Keeps {n = n} (λ t. Unit {0}) (clear_payload n o)
    unfolding clear_payload take_payload
    Keeps-clear_payload none s = (tt, s, refl, tt, refl)
    Keeps-clear_payload (some p) s =
        let (m, h) = drops (s.payloads p) s.memory in
        (
          tt,
          record s { payloads = update s.payloads p (bytes_gravestone z); memory = m },
          drop_payload-some (s.payloads p) _ h,
          tt,
          refl,
        )

    Keeps-clear_encoding : (o : Option Ptr) → Keeps {n = n} (λ t. Unit {0}) (clear_encoding n o)
    unfolding clear_encoding take_encoding
    Keeps-clear_encoding none s = (tt, s, refl, tt, refl)
    Keeps-clear_encoding (some p) s = (tt, _, refl, tt, refl)

    Keeps-clear_token : (o : Option Ptr) → Keeps {n = n} (λ t. Unit {0}) (clear_token n o)
    unfolding clear_token take_token
    Keeps-clear_token none s = (tt, s, refl, tt, refl)
    Keeps-clear_token (some p) s = (tt, _, refl, tt, refl)

    -- Both kinds of options are cleared in the same order.
    Keeps-clearing :
        {B : Type 0} (payload encoding attachment token : Option Ptr) (b : B)
        → Keeps
            (λ r. r ≡ b)
            (clear_payload n payload >>= λ t. clear_encoding n encoding >>= λ t.
              clear_payload n attachment >>= λ t. clear_token n token >>= λ t. pure b)
    Keeps-clearing payload encoding attachment token b =
        Keeps-bind (clear_payload n payload) _ (Keeps-clear_payload payload) (λ t u.
          Keeps-bind (clear_encoding n encoding) _ (Keeps-clear_encoding encoding) (λ t u.
            Keeps-bind (clear_payload n attachment) _ (Keeps-clear_payload attachment) (λ t u.
              Keeps-bind (clear_token n token) _ (Keeps-clear_token token)
                (λ t u. Keeps-pure b refl))))

    get_clear-Keeps :
        (options : Option (GetOptions n))
        → Keeps (λ o. o ≡ taken_get_options n options) (get_clear n options)
    unfolding get_clear
    get_clear-Keeps none = Keeps-pure none refl
    get_clear-Keeps (some o) =
        Keeps-clearing o.payload o.encoding o.attachment o.cancellation_token
          (taken_get_options n (some o))

    querier_clear-Keeps :
        (options : Option (QuerierGetOptions n))
        → Keeps (λ o. o ≡ taken_querier_options n options) (querier_clear n options)
    unfolding querier_clear
    querier_clear-Keeps none = Keeps-pure none refl
    querier_clear-Keeps (some o) =
        Keeps-clearing o.payload o.encoding o.attachment o.cancellation_token
          (taken_querier_options n (some o))

    -- The options, then the closure, which leaves the world `w`.
    clears :
        {O : Type 0} {o' : O} (k : M n O) (callback : Closure n.World n.Reply) (code : ZResult)
        → Keeps (λ o. o ≡ o') k
        → (s : State n) (w : n.World) → drop_closure callback s.world ≡ some w
        → (s' : State n) × ((k >>= λ o.
                drop_callback n callback >>= λ t. pure {A = ZResult × O} (code, o))
              s
            ≡ some ((code, o'), s'))
          × (s'.world ≡ w)
    clears {O} {o'} k callback code keeps s w d =
        let (o, t, e, same, h) = keeps s in
        (
          record t { world = w },
          bind-some k (λ o. drop_callback n callback >>= λ t. pure {A = ZResult × O} (code, o)) e
              ∙ (bind-some (drop_callback n callback) (λ x. pure {A = ZResult × O} (code, o))
                    (drop_callback-some callback t (ap (drop_closure callback) h ∙ d))
                  ∙ ap (λ o. some ((code, o), record t { world = w })) same),
          refl,
        )

    module _ (strlen : Strlen) (params callback : Ptr) (s : State n) {w : n.World}
        (bad : IsNotText strlen s.memory params)
        (dropped : drop_closure (s.callbacks callback) s.world ≡ some w) where
      z_get_returns :
          (session : n.Session) (key_expr : n.KeyExpr) (options : Option (GetOptions n))
          → (s' : State n) × (z_get n strlen session key_expr params callback options s
              ≡ some ((z_einval, taken_get_options n options), s'))
            × (s'.world ≡ w)
      unfolding z_get
      z_get_returns session key_expr options =
          let (s', e, h) =
            clears (get_clear n options) (s.callbacks callback) z_einval (get_clear-Keeps options)
              (record s { callbacks = update s.callbacks callback default_closure }) w dropped in
          (s', rw (parse_parameters-err strlen s.memory params bad) e, h)

      z_get-Refuses :
          (session : n.Session) (key_expr : n.KeyExpr) (options : Option (GetOptions n))
          → (s' : State n) × (z_get n strlen session key_expr params callback options s
              ≡ some ((z_einval, taken_get_options n options), s'))
            × (s'.world ≡ w)
            × IsTaken
                (get_payloads n options)
                (get_encodings n options)
                (get_tokens n options)
                (callback ∷ [])
                s
                s'
      z_get-Refuses session key_expr options =
          let (s', e, h) = z_get_returns session key_expr options in
          (s', e, h, z_get-Takes n strlen session key_expr params callback options s s' _ e)

      z_querier_get_returns :
          (querier : n.Querier) (options : Option (QuerierGetOptions n))
          → (s' : State n) × (z_querier_get n strlen querier params callback options s
              ≡ some ((z_einval, taken_querier_options n options), s'))
            × (s'.world ≡ w)
      unfolding z_querier_get
      z_querier_get_returns querier options =
          let (s', e, h) =
            clears (querier_clear n options) (s.callbacks callback) z_einval
              (querier_clear-Keeps options)
              (record s { callbacks = update s.callbacks callback default_closure }) w dropped in
          (s', rw (parse_parameters-err strlen s.memory params bad) e, h)

      z_querier_get-Refuses :
          (querier : n.Querier) (options : Option (QuerierGetOptions n))
          → (s' : State n) × (z_querier_get n strlen querier params callback options s
              ≡ some ((z_einval, taken_querier_options n options), s'))
            × (s'.world ≡ w)
            × IsTaken
                (querier_payloads n options)
                (querier_encodings n options)
                (querier_tokens n options)
                (callback ∷ [])
                s
                s'
      z_querier_get-Refuses querier options =
          let (s', e, h) = z_querier_get_returns querier options in
          (s', e, h, z_querier_get-Takes n strlen querier params callback options s s' _ e)

      -- Where the parameters are not NULL and not UTF-8, the drop of the payloads returns, and the
      -- drop of the closure leaves the world `w`: `z_get` and `z_querier_get` return `Z_EINVAL` and
      -- send nothing. They drop the closure and take what the options own, as if the query had been
      -- sent: those are gravestones then, and no other variable of C code has changed.
      pub queries-Refuse :
          (session : n.Session) (key_expr : n.KeyExpr) (querier : n.Querier)
          (options : Option (GetOptions n)) (own : Option (QuerierGetOptions n))
          → ((s' : State n) × (z_get n strlen session key_expr params callback options s
                ≡ some ((z_einval, taken_get_options n options), s'))
              × (s'.world ≡ w)
              × IsTaken
                  (get_payloads n options)
                  (get_encodings n options)
                  (get_tokens n options)
                  (callback ∷ [])
                  s
                  s')
            × ((s' : State n) × (z_querier_get n strlen querier params callback own s
                  ≡ some ((z_einval, taken_querier_options n own), s'))
                × (s'.world ≡ w)
                × IsTaken
                    (querier_payloads n own)
                    (querier_encodings n own)
                    (querier_tokens n own)
                    (callback ∷ [])
                    s
                    s')
      queries-Refuse session key_expr querier options own =
          (z_get-Refuses session key_expr options, z_querier_get-Refuses querier own)
