-- ===== src/Requests/Taken.antt =====
-- What requests take over: the variables that the arguments and the options point to.
use zenoh_c.Common.{
  append-nil, ◌≡◌, refl, subst, ◌∙◌, inl, inr, Option-cases, Bool, Option, none, some, List, [],
  ◌∷◌, ◌++◌, ◌==◌, if◌then◌else◌, any, arith,
}
use zenoh_c.Collections.Memory.{Ptr}
use zenoh_c.Closures.{Closure, default_closure}
use zenoh_c.Payload.Interface.{Zenoh}
use zenoh_c.Payload.{bytes_gravestone}
use zenoh_c.Encoding.Interface.{ZenohEncoding}
use zenoh_c.Encoding.{default_gravestone}
use zenoh_c.Requests.Interface.{Setting, Ended, Network}
use zenoh_c.Requests.{
  Settings, State, M, pure, ◌>>=◌, take_payload, take_encoding, take_token, take_callback,
  token_settings, payload_setting, encoding_setting, attachment_setting, token_setting, send,
  drop_callback, drop_payload,
}

abbrev pub to_list : Option Ptr → List Ptr
to_list none = []
to_list (some p) = p ∷ []

-- The addresses that options point to, by a field of theirs.
abbrev pub listed : {O : Type 0} → Option O → (O → Option Ptr) → List Ptr
listed none field = []
listed (some o) field = to_list (field o)

abbrev pub among : List Ptr → Ptr → Bool
among ps q = any (λ p. q == p) ps

among-append {ℓ} :
    {A : Type ℓ} (ps qs : List Ptr) (q : Ptr) (g a : A)
    → (if among (ps ++ qs) q then g else a)
      ≡ (if among qs q then g else (if among ps q then g else a))
among-append [] qs q g a = ground arith
among-append (p ∷ ps) qs q g a = ground (arith, among-append ps qs q g a)

module _ {z : Zenoh} {e : ZenohEncoding} {n : Network z e} where
  -- From one state to the other, exactly the variables at these addresses are left as gravestones,
  -- and no other variable changes.
  pub record IsTaken (payloads encodings tokens callbacks : List Ptr) (s s' : State n)
      : Type 0 where
    pub payloads_taken :
        (q : Ptr) → s'.payloads q ≡ (if among payloads q then bytes_gravestone z else s.payloads q)
    pub encodings_taken :
        (q : Ptr)
        → s'.encodings q ≡ (if among encodings q then default_gravestone e else s.encodings q)
    pub tokens_taken : (q : Ptr) → s'.tokens q ≡ (if among tokens q then none else s.tokens q)
    pub callbacks_taken :
        (q : Ptr) → s'.callbacks q ≡ (if among callbacks q then default_closure else s.callbacks q)

  none-IsTaken : (s : State n) → IsTaken [] [] [] [] s s
  none-IsTaken s = record {
    payloads_taken = λ q. refl;
    encodings_taken = λ q. refl;
    tokens_taken = λ q. refl;
    callbacks_taken = λ q. refl;
  }

  pub IsTaken-append :
      {ps es ts cs qs fs us ds : List Ptr} {s s' s'' : State n}
      → IsTaken ps es ts cs s s'
      → IsTaken qs fs us ds s' s''
      → IsTaken (ps ++ qs) (es ++ fs) (ts ++ us) (cs ++ ds) s s''
  IsTaken-append {ps} {es} {ts} {cs} {qs} {fs} {us} {ds} a b = record {
    payloads_taken = λ q. rw (b.payloads_taken q, a.payloads_taken q, among-append ps qs q) refl;
    encodings_taken = λ q. rw (b.encodings_taken q, a.encodings_taken q, among-append es fs q) refl;
    tokens_taken = λ q. rw (b.tokens_taken q, a.tokens_taken q, among-append ts us q) refl;
    callbacks_taken = λ q. rw (b.callbacks_taken q, a.callbacks_taken q, among-append cs ds q) refl;
  }

  -- Whenever the call returns, it has taken these.
  abbrev pub Takes : {A : Type 0} (ps es ts cs : List Ptr) → M n A → Type 0
  Takes {A} ps es ts cs k = (s s' : State n) (a : A) → k s ≡ some (a, s') → IsTaken ps es ts cs s s'

  pub Takes-pure : {A : Type 0} (a : A) → Takes [] [] [] [] (pure {n = n} a)
  Takes-pure a s s' b r = subst (IsTaken [] [] [] [] s) (ground arith) (none-IsTaken s)

  pub bind_inv :
      {A B : Type 0} (k : M n A) (f : A → M n B) (s s' : State n) (b : B)
      → (k >>= f) s ≡ some (b, s')
      → (a : A) × (t : State n) × (k s ≡ some (a, t)) × (f a t ≡ some (b, s'))
  bind_inv k f s s' b r = elim (Option-cases (k s)) [
    | inl e ↦ absurd (ground arith)
    | inr ((a, t), e) ↦ (a, t, e, ground arith)
  ]

  pub Takes-bind :
      {A B : Type 0} {ps es ts cs qs fs us ds : List Ptr} (k : M n A) (f : A → M n B)
      → Takes ps es ts cs k
      → ((a : A) → Takes qs fs us ds (f a))
      → Takes (ps ++ qs) (es ++ fs) (ts ++ us) (cs ++ ds) (k >>= f)
  Takes-bind k f first next s s' b r =
      let (a, t, e, rest) = bind_inv k f s s' b r in
      IsTaken-append (first s t a e) (next a t s' b rest)

  -- For a call that always returns.
  pub Takes-total :
      {A : Type 0} {ps es ts cs : List Ptr} (k : M n A) (result : State n → A)
      (end : State n → State n)
      → ((s : State n) → k s ≡ some (result s, end s))
      → ((s : State n) → IsTaken ps es ts cs s (end s))
      → Takes ps es ts cs k
  Takes-total {A} {ps} {es} {ts} {cs} k result end returns taken s s' a r =
      subst (IsTaken ps es ts cs s) {x = end s} (ground (arith, returns s)) (taken s)

  pub Takes-payload : (p : Ptr) → Takes (p ∷ []) [] [] [] (take_payload n p)
  unfolding take_payload
  Takes-payload p =
      Takes-total (take_payload n p) _ _ (λ s. refl)
        (λ s. record {
          payloads_taken = λ q. ground arith;
          encodings_taken = λ q. refl;
          tokens_taken = λ q. refl;
          callbacks_taken = λ q. refl;
        })

  pub Takes-encoding : (p : Ptr) → Takes [] (p ∷ []) [] [] (take_encoding n p)
  unfolding take_encoding
  Takes-encoding p =
      Takes-total (take_encoding n p) _ _ (λ s. refl)
        (λ s. record {
          payloads_taken = λ q. refl;
          encodings_taken = λ q. ground arith;
          tokens_taken = λ q. refl;
          callbacks_taken = λ q. refl;
        })

  pub Takes-token : (p : Ptr) → Takes [] [] (p ∷ []) [] (take_token n p)
  unfolding take_token
  Takes-token p =
      Takes-total (take_token n p) _ _ (λ s. refl)
        (λ s. record {
          payloads_taken = λ q. refl;
          encodings_taken = λ q. refl;
          tokens_taken = λ q. ground arith;
          callbacks_taken = λ q. refl;
        })

  pub Takes-callback : (p : Ptr) → Takes [] [] [] (p ∷ []) (take_callback n p)
  unfolding take_callback
  Takes-callback p =
      Takes-total (take_callback n p) _ _ (λ s. refl)
        (λ s. record {
          payloads_taken = λ q. refl;
          encodings_taken = λ q. refl;
          tokens_taken = λ q. refl;
          callbacks_taken = λ q. ground arith;
        })

  -- What leaves the variables alone.
  pub Takes-send : (wait : n.World → Ended × n.World) → Takes [] [] [] [] (send n wait)
  unfolding send
  Takes-send wait =
      Takes-total (send n wait) _ _ (λ s. refl)
        (λ s. record {
          payloads_taken = λ q. refl;
          encodings_taken = λ q. refl;
          tokens_taken = λ q. refl;
          callbacks_taken = λ q. refl;
        })

  pub Takes-drop_callback : (c : Closure n.World n.Reply) → Takes [] [] [] [] (drop_callback n c)
  unfolding drop_callback
  Takes-drop_callback c s s' a r = record {
    payloads_taken = λ q. ground arith;
    encodings_taken = λ q. ground arith;
    tokens_taken = λ q. ground arith;
    callbacks_taken = λ q. ground arith;
  }

  pub Takes-drop_payload : (bytes : z.ZBytes) → Takes [] [] [] [] (drop_payload n bytes)
  unfolding drop_payload
  Takes-drop_payload bytes s s' a r = record {
    payloads_taken = λ q. ground arith;
    encodings_taken = λ q. ground arith;
    tokens_taken = λ q. ground arith;
    callbacks_taken = λ q. ground arith;
  }

  -- A call, and then a result of what it returned.
  pub Takes-map :
      {A B : Type 0} {ps es ts cs : List Ptr} (k : M n A) (f : A → B)
      → Takes ps es ts cs k
      → Takes ps es ts cs (k >>= λ a. pure (f a))
  Takes-map {ps} {es} {ts} {cs} k f first s s' b r =
      let (a, t, e, rest) = bind_inv k (λ a. pure (f a)) s s' b r in
      subst (IsTaken ps es ts cs s) {x = t} (ground arith) (first s t a e)

  pub Takes-payload_setting : (o : Option Ptr) → Takes (to_list o) [] [] [] (payload_setting n o)
  unfolding payload_setting
  Takes-payload_setting none = Takes-pure []
  Takes-payload_setting (some p) =
      Takes-map (take_payload n p) (λ x. Setting.payload x ∷ []) (Takes-payload p)

  pub Takes-encoding_setting : (o : Option Ptr) → Takes [] (to_list o) [] [] (encoding_setting n o)
  unfolding encoding_setting
  Takes-encoding_setting none = Takes-pure []
  Takes-encoding_setting (some p) =
      Takes-map (take_encoding n p) (λ x. Setting.encoding x ∷ []) (Takes-encoding p)

  pub Takes-attachment_setting :
      (o : Option Ptr) → Takes (to_list o) [] [] [] (attachment_setting n o)
  unfolding attachment_setting
  Takes-attachment_setting none = Takes-pure []
  Takes-attachment_setting (some p) =
      Takes-map (take_payload n p) (λ x. Setting.attachment x ∷ []) (Takes-payload p)

  pub Takes-token_setting : (o : Option Ptr) → Takes [] [] (to_list o) [] (token_setting n o)
  unfolding token_setting
  Takes-token_setting none = Takes-pure []
  Takes-token_setting (some p) = Takes-map (take_token n p) (token_settings n) (Takes-token p)

  -- A call, and then one that leaves the variables alone.
  pub Takes-last :
      {A B : Type 0} {ps es ts cs : List Ptr} (k : M n A) (f : A → M n B)
      → Takes ps es ts cs k
      → ((a : A) → Takes [] [] [] [] (f a))
      → Takes ps es ts cs (k >>= f)
  Takes-last {ps} {es} {ts} {cs} k f first next s s' b r =
      let (a, t, e, rest) = bind_inv k f s s' b r in
      let quiet = next a t s' b rest in
      let taken = first s t a e in
      record {
        payloads_taken = λ q. quiet.payloads_taken q ∙ taken.payloads_taken q;
        encodings_taken = λ q. quiet.encodings_taken q ∙ taken.encodings_taken q;
        tokens_taken = λ q. quiet.tokens_taken q ∙ taken.tokens_taken q;
        callbacks_taken = λ q. quiet.callbacks_taken q ∙ taken.callbacks_taken q;
      }

  -- How each request ends: the code of what `wait` returned.
  pub Takes-sending :
      {B : Type 0} (wait : n.World → Ended × n.World) (f : Ended → B)
      → Takes [] [] [] [] (send n wait >>= λ ended. pure (f ended))
  Takes-sending wait f = Takes-map (send n wait) f (Takes-send wait)

  -- The encoding and the attachment of options are handed over in the same way everywhere.
  pub Takes-pair :
      {B : Type 0} (encoding attachment : Option Ptr) (f : Settings n → Settings n → B)
      → Takes (to_list attachment) (to_list encoding) [] [] (
          encoding_setting n encoding >>= λ c.
          attachment_setting n attachment >>= λ a. pure (f c a))
  Takes-pair encoding attachment f = rw (← append-nil (to_list encoding)) (
      Takes-bind (encoding_setting n encoding) _ (Takes-encoding_setting encoding) (λ c.
        Takes-map (attachment_setting n attachment) (f c) (Takes-attachment_setting attachment)))

  -- A payload, settings, and the request with both.
  pub Takes-request :
      {O B : Type 0} {ps es : List Ptr} (payload : Ptr) (k : M n (Settings n × O))
      (wait : z.ZBytes → Settings n → n.World → Ended × n.World) (f : Ended → O → B)
      → Takes ps es [] [] k
      → Takes (payload ∷ ps) es [] [] (
          take_payload n payload >>= λ bytes.
          k >>= λ r. send n (wait bytes r.0) >>= λ x. pure (f x r.1))
  Takes-request payload k wait f takes =
      Takes-bind (take_payload n payload) _ (Takes-payload payload)
        (λ bytes. Takes-last k _ takes (λ r. Takes-sending (wait bytes r.0) (λ x. f x r.1)))
