-- ===== src/Requests/Interface.antt =====
-- What src/put.rs, src/publisher.rs, src/get.rs, src/querier.rs and src/queryable.rs use of the
-- zenoh crate: a request is built by calls of setters on a builder and then sent by `wait`. The
-- model keeps the calls in their order and asks nothing of what the builder makes of them.
use zenoh_c.Common.{ℕ, Bool, List}
use zenoh_c.Collections.Memory.{Bytes}
use zenoh_c.Closures.{Closure}
use zenoh_c.Commons.{
  Locality, Reliability, ReplyKeyExpr, QueryTarget, ConsolidationMode, Priority, CongestionControl,
}
use zenoh_c.Payload.Interface.{Zenoh}
use zenoh_c.Encoding.Interface.{ZenohEncoding}

-- A call of a setter with its argument; `T`, `I` and `K` are the timestamps, the source infos and
-- the cancellation tokens.
pub data Setting (z : Zenoh) (e : ZenohEncoding) (T I K : Type 0) : Type 0 where
  payload : z.ZBytes → Setting z e T I K
  encoding : e.Encoding → Setting z e T I K
  attachment : z.ZBytes → Setting z e T I K
  timestamp : T → Setting z e T I K
  source_info : I → Setting z e T I K
  cancellation_token : K → Setting z e T I K
  parameters : Bytes → Setting z e T I K
  priority : Priority → Setting z e T I K
  congestion_control : CongestionControl → Setting z e T I K
  express : Bool → Setting z e T I K
  allowed_destination : Locality → Setting z e T I K
  reliability : Reliability → Setting z e T I K
  consolidation : ConsolidationMode → Setting z e T I K
  target : QueryTarget → Setting z e T I K
  accept_replies : ReplyKeyExpr → Setting z e T I K
  timeout : ℕ → Setting z e T I K

-- How `wait` ends: `Ok`, an `Err` that is a `SessionClosedError`, or another.
pub data Ended : Type 0 where
  done session_closed failed : Ended

-- `z` has the payloads and `e` the encodings of the crate. `World` is what requests and callbacks
-- act on. Each request is what its `wait` does; a `get` returns before it replies.
pub record Network (z : Zenoh) (e : ZenohEncoding) : Type 1 where
  pub Session : Type 0
  pub KeyExpr : Type 0
  pub Publisher : Type 0
  pub Querier : Type 0
  pub Query : Type 0
  pub Reply : Type 0
  pub Timestamp : Type 0
  pub SourceInfo : Type 0
  pub Token : Type 0
  pub World : Type 0
  -- `CongestionControl::DEFAULT_PUSH` and `DEFAULT_REQUEST`, and the defaults of the enumerations
  pub default_push : CongestionControl
  pub default_request : CongestionControl
  pub default_priority : Priority
  pub default_locality : Locality
  pub default_reliability : Reliability
  pub default_reply_keyexpr : ReplyKeyExpr
  pub default_target : QueryTarget
  pub default_consolidation : ConsolidationMode
  pub put :
      Session
      → KeyExpr
      → z.ZBytes
      → List (Setting z e Timestamp SourceInfo Token)
      → World
      → Ended × World
  pub delete :
      Session → KeyExpr → List (Setting z e Timestamp SourceInfo Token) → World → Ended × World
  pub publisher_put :
      Publisher → z.ZBytes → List (Setting z e Timestamp SourceInfo Token) → World → Ended × World
  pub publisher_delete :
      Publisher → List (Setting z e Timestamp SourceInfo Token) → World → Ended × World
  pub get :
      Session
      → KeyExpr
      → Bytes
      → List (Setting z e Timestamp SourceInfo Token)
      → Closure World Reply
      → World
      → Ended × World
  pub querier_get :
      Querier
      → List (Setting z e Timestamp SourceInfo Token)
      → Closure World Reply
      → World
      → Ended × World
  pub reply :
      Query
      → KeyExpr
      → z.ZBytes
      → List (Setting z e Timestamp SourceInfo Token)
      → World
      → Ended × World
  pub reply_err :
      Query → z.ZBytes → List (Setting z e Timestamp SourceInfo Token) → World → Ended × World
  pub reply_del :
      Query → KeyExpr → List (Setting z e Timestamp SourceInfo Token) → World → Ended × World
