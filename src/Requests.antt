-- ===== src/Requests.antt =====
-- The requests of C code: src/put.rs, src/publisher.rs, src/get.rs, src/querier.rs and
-- src/queryable.rs. What is moved into a request lies in variables of C code, which are known by
-- their addresses: two pointers may name one variable. The features of unstable functions are on.
pub mod Interface
pub mod Puts
pub mod Gets
pub mod Replies
pub mod Taken
pub mod Sending
pub mod Consumption
pub mod QueryConsumption
pub mod Judgement
pub mod ReplyJudgement
pub mod QueryJudgement
pub mod Refusals
mod Tests
use zenoh_c.Common.{ℕ, ◌≡◌, Bool, Option, none, some, List, [], ◌∷◌, ◌++◌, ◌==◌, if◌then◌else◌}
use zenoh_c.ResultCodes.{ZResult, z_ok, z_esession_closed, z_egeneric}
use zenoh_c.Collections.Memory.{Ptr, Memory}
use zenoh_c.Closures.{Closure, default_closure, drop_closure}
use zenoh_c.Payload.Interface.{Zenoh}
use zenoh_c.Payload.{bytes_gravestone}
use zenoh_c.Encoding.Interface.{ZenohEncoding}
use zenoh_c.Encoding.{default_gravestone}
use zenoh_c.Requests.Interface.{Setting, Ended, done, session_closed, failed, Network}

-- What lies at the addresses of C variables of each type, the memory, and the world outside.
pub record State {z : Zenoh} {e : ZenohEncoding} (n : Network z e) : Type 0 where
  pub payloads : Ptr → z.ZBytes
  pub encodings : Ptr → e.Encoding
  pub tokens : Ptr → Option n.Token
  pub callbacks : Ptr → Closure n.World n.Reply
  pub memory : Memory
  pub world : n.World

-- `none` is a call that is undefined or does not return.
abbrev pub M : {z : Zenoh} {e : ZenohEncoding} → Network z e → Type 0 → Type 0
M n A = State n → Option (A × State n)

abbrev pub pure : {z : Zenoh} {e : ZenohEncoding} {n : Network z e} {A : Type 0} → A → M n A
pure a s = some (a, s)

infixl 5 ◌>>=◌ ◌>>◌
abbrev pub ◌>>=◌ :
    {z : Zenoh} {e : ZenohEncoding} {n : Network z e} {A B : Type 0} → M n A → (A → M n B) → M n B
◌>>=◌ k f s = elim (k s) [ none ↦ none | some (a, s') ↦ f a s' ]

pub bind-some :
    {z : Zenoh} {e : ZenohEncoding} {n : Network z e} {A B : Type 0} (k : M n A) (f : A → M n B)
    {s s' : State n} {a : A}
    → k s ≡ some (a, s')
    → (k >>= f) s ≡ f a s'
bind-some k f h = rw (h, ◌>>=◌)

abbrev pub ◌>>◌ :
    {z : Zenoh} {e : ZenohEncoding} {n : Network z e} {B : Type 0} → M n (Unit {0}) → M n B → M n B
first >> next = first >>= λ u. next

-- A write to the variable at `p`.
abbrev pub update {ℓ} : {A : Type ℓ} → (Ptr → A) → Ptr → A → Ptr → A
update f p a q = if q == p then a else f q

module _ {z : Zenoh} {e : ZenohEncoding} (n : Network z e) where
  abbrev pub Settings : Type 0
  Settings = List (Setting z e n.Timestamp n.SourceInfo n.Token)

  -- `take_rust_type` of a payload
  unfoldable pub take_payload : Ptr → M n z.ZBytes
  unfolding bytes_gravestone
  take_payload p s =
      some (s.payloads p, record s { payloads = update s.payloads p (bytes_gravestone z) })

  unfoldable pub take_encoding : Ptr → M n e.Encoding
  unfolding default_gravestone
  take_encoding p s =
      some (s.encodings p, record s { encodings = update s.encodings p (default_gravestone e) })

  unfoldable pub take_token : Ptr → M n (Option n.Token)
  take_token p s = some (s.tokens p, record s { tokens = update s.tokens p none })

  unfoldable pub take_callback : Ptr → M n (Closure n.World n.Reply)
  unfolding default_closure
  take_callback p s =
      some (s.callbacks p, record s { callbacks = update s.callbacks p default_closure })

  -- `if let Some(x) = options.field.take() { builder = builder.setter(x.take_rust_type()) }`
  unfoldable pub payload_setting : Option Ptr → M n Settings
  unfolding take_payload
  payload_setting none = pure []
  payload_setting (some p) = do bytes ← take_payload p; pure (Setting.payload bytes ∷ [])

  unfoldable pub encoding_setting : Option Ptr → M n Settings
  unfolding take_encoding
  encoding_setting none = pure []
  encoding_setting (some p) = do enc ← take_encoding p; pure (Setting.encoding enc ∷ [])

  unfoldable pub attachment_setting : Option Ptr → M n Settings
  unfolding take_payload
  attachment_setting none = pure []
  attachment_setting (some p) = do bytes ← take_payload p; pure (Setting.attachment bytes ∷ [])

  unfoldable pub token_settings : Option n.Token → Settings
  token_settings none = []
  token_settings (some token) = Setting.cancellation_token token ∷ []

  unfoldable pub token_setting : Option Ptr → M n Settings
  unfolding take_token token_settings
  token_setting none = pure []
  token_setting (some p) = do token ← take_token p; pure (token_settings token)

  unfoldable pub timestamp_setting : Option n.Timestamp → Settings
  timestamp_setting none = []
  timestamp_setting (some t) = Setting.timestamp t ∷ []

  unfoldable pub source_setting : Option n.SourceInfo → Settings
  source_setting none = []
  source_setting (some i) = Setting.source_info i ∷ []

  -- `wait`, in the world that is left.
  unfoldable pub send : (n.World → Ended × n.World) → M n Ended
  send wait s = some ((wait s.world).0, record s { world = (wait s.world).1 })

  -- The drop of a closure.
  unfoldable pub drop_callback : Closure n.World n.Reply → M n (Unit {0})
  unfolding drop_closure
  drop_callback c s = elim (drop_closure c s.world) [
    | none ↦ none
    | some w ↦ some (tt, record s { world = w })
  ]

  -- The drop of a payload.
  unfoldable pub drop_payload : z.ZBytes → M n (Unit {0})
  drop_payload bytes s = elim (z.drop_zbytes bytes s.memory) [
    | none ↦ none
    | some (_, m) ↦ some (tt, record s { memory = m })
  ]

-- The code of a request that tells a closed session apart.
unfoldable pub code_of : Ended → ZResult
code_of done = z_ok
code_of session_closed = z_esession_closed
code_of failed = z_egeneric

-- The code of one that does not.
unfoldable pub plain_code_of : Ended → ZResult
plain_code_of done = z_ok
plain_code_of _ = z_egeneric
