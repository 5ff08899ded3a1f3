-- ===== src/Requests/Sending.antt =====
-- A request is sent once, with what was moved into it, and its end is the code that is returned.
use zenoh_c.Common.{◌≡◌, refl, ap, ◌∙◌, Option, none, some}
use zenoh_c.ResultCodes.{ZResult}
use zenoh_c.Collections.Memory.{Ptr}
use zenoh_c.Payload.Interface.{Zenoh}
use zenoh_c.Encoding.Interface.{ZenohEncoding}
use zenoh_c.Requests.Interface.{Ended, Network}
use zenoh_c.Requests.{
  State, M, pure, ◌>>=◌, bind-some, Settings, payload_setting, encoding_setting, attachment_setting,
  token_setting, send,
}

module _ {z : Zenoh} {e : ZenohEncoding} {n : Network z e} where
  -- A call that always returns, with a result that satisfies `P`, and leaves the world alone.
  abbrev pub Keeps : {A : Type 0} → (A → Type 0) → M n A → Type 0
  Keeps {A} P k =
      (s : State n) → (a : A) × (s' : State n) × (k s ≡ some (a, s')) × P a × (s'.world ≡ s.world)

  pub Keeps-bind :
      {A B : Type 0} {P : A → Type 0} {Q : B → Type 0} (k : M n A) (f : A → M n B)
      → Keeps P k
      → ((a : A) → P a → Keeps Q (f a))
      → Keeps Q (k >>= f)
  Keeps-bind k f first next s =
      let (a, t, e, p, w) = first s in
      let (b, u, e', q, w') = next a p t in (b, u, bind-some k f e ∙ e', q, w' ∙ w)

  pub Keeps-pure : {A : Type 0} {P : A → Type 0} (a : A) → P a → Keeps P (pure {n = n} a)
  Keeps-pure a p s = (a, s, refl, p, refl)

  pub Keeps-payload_setting : (o : Option Ptr) → Keeps (λ a. Unit {0}) (payload_setting n o)
  unfolding payload_setting
  Keeps-payload_setting none s = (_, _, refl, tt, refl)
  Keeps-payload_setting (some p) s = (_, _, refl, tt, refl)

  pub Keeps-encoding_setting : (o : Option Ptr) → Keeps (λ a. Unit {0}) (encoding_setting n o)
  unfolding encoding_setting
  Keeps-encoding_setting none s = (_, _, refl, tt, refl)
  Keeps-encoding_setting (some p) s = (_, _, refl, tt, refl)

  pub Keeps-attachment_setting : (o : Option Ptr) → Keeps (λ a. Unit {0}) (attachment_setting n o)
  unfolding attachment_setting
  Keeps-attachment_setting none s = (_, _, refl, tt, refl)
  Keeps-attachment_setting (some p) s = (_, _, refl, tt, refl)

  pub Keeps-token_setting : (o : Option Ptr) → Keeps (λ a. Unit {0}) (token_setting n o)
  unfolding token_setting
  Keeps-token_setting none s = (_, _, refl, tt, refl)
  Keeps-token_setting (some p) s = (_, _, refl, tt, refl)

  -- With a result whose second part is known.
  abbrev pub KeepsTo : {O : Type 0} → (Ended → ZResult) → O → M n (Settings n × O) → Type 0
  KeepsTo {O} code o k =
      Keeps (λ r. (c : Ended) → ◌≡◌ {A = ZResult × O} (code c, r.1) (code c, o)) k

  -- The call sends the request that `wait` stands for, with some settings, and the result is made of
  -- how it ended.
  abbrev pub Sends :
      {A : Type 0}
      → (Settings n → n.World → Ended × n.World)
      → (Ended → A)
      → M n A
      → State n
      → Type 0
  Sends wait result k s =
      (settings : Settings n) × (s' : State n) × (k s ≡ some (result (wait settings s.world).0, s'))
      × (s'.world ≡ (wait settings s.world).1)

  -- The settings, then the request; `made` is what the result is made of a value besides the end.
  pub Sends-settings :
      {X A : Type 0} (k : M n X) (settings_of : X → Settings n)
      (wait : Settings n → n.World → Ended × n.World) (made : Ended → X → A) (result : Ended → A)
      → Keeps (λ x. (c : Ended) → made c x ≡ result c) k
      → (s : State n)
      → Sends wait result (k >>= λ x. send n (wait (settings_of x)) >>= λ c. pure (made c x)) s
  unfolding send
  Sends-settings k settings_of wait made result keeps s =
      let (x, t, e, same, w) = keeps s in
      let end = λ (y : n.World). wait (settings_of x) y in
      (
        settings_of x,
        record t { world = (end t.world).1 },
        bind-some k (λ x. send n (wait (settings_of x)) >>= λ c. pure (made c x)) e
            ∙ (ap (λ r. some (r, record t { world = (end t.world).1 })) (same (end t.world).0)
                ∙ ap (λ y. some (result (end y).0, record t { world = (end t.world).1 })) w),
        ap (λ y. (end y).1) w,
      )

  -- The encoding and the attachment of options, and all four fields of a query's options.
  pub Keeps-pair :
      {O : Type 0} (encoding attachment : Option Ptr) (f : Settings n → Settings n → Settings n)
      (o : O) (code : Ended → ZResult)
      → KeepsTo code o (
          encoding_setting n encoding >>= λ c.
          attachment_setting n attachment >>= λ a. pure (f c a, o))
  Keeps-pair encoding attachment f o code =
      Keeps-bind (encoding_setting n encoding) _ (Keeps-encoding_setting encoding) (λ c t.
        Keeps-bind (attachment_setting n attachment) _ (Keeps-attachment_setting attachment)
          (λ a t. Keeps-pure (f c a, o) (λ x. refl)))

  pub Keeps-four :
      {O : Type 0} (payload encoding attachment token : Option Ptr)
      (f : Settings n → Settings n → Settings n → Settings n → Settings n) (o : O)
      (code : Ended → ZResult)
      → KeepsTo code o (
          payload_setting n payload >>= λ p. encoding_setting n encoding >>= λ c.
          attachment_setting n attachment >>= λ a.
          token_setting n token >>= λ t. pure (f p c a t, o))
  Keeps-four payload encoding attachment token f o code =
      Keeps-bind (payload_setting n payload) _ (Keeps-payload_setting payload) (λ p u.
        Keeps-bind (encoding_setting n encoding) _ (Keeps-encoding_setting encoding) (λ c u.
          Keeps-bind (attachment_setting n attachment) _ (Keeps-attachment_setting attachment)
            (λ a u.
              Keeps-bind (token_setting n token) _ (Keeps-token_setting token)
                (λ t u. Keeps-pure (f p c a t, o) (λ x. refl)))))
