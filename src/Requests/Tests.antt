-- ===== src/Requests/Tests.antt =====
-- Concrete requests, and the theorems at them. The world counts what is sent and dropped.
use zenoh_c.Common.{ℕ, suc, ◌≡◌, refl, true, false, Option, none, some, [], ◌∷◌, arith}
use zenoh_c.ResultCodes.{z_einval}
use zenoh_c.Collections.Memory.{null}
use zenoh_c.Closures.{drop_closure}
use zenoh_c.Commons.{
  Locality, Reliability, ReplyKeyExpr, QueryTarget, ConsolidationMode, Priority, CongestionControl,
  ZLocality, ZPriority, ZCongestionControl, ZReliability,
}
use zenoh_c.Payload.Tests.{pieces, held}
use zenoh_c.Payload.Interface.{Zenoh}
use zenoh_c.Encoding.Tests.{lengths}
use zenoh_c.Requests.Interface.{Ended, done, Network}
use zenoh_c.Requests.{State, code_of, plain_code_of}
use zenoh_c.Requests.Puts.{PutOptions, z_put, z_publisher_put}
use zenoh_c.Requests.Replies.{ReplyOptions, z_query_reply, z_query_reply_err, z_query_reply_del}
use zenoh_c.Requests.Gets.{QuerierGetOptions, z_get, z_querier_get, parse_parameters}
use zenoh_c.Requests.Taken.{IsTaken}
use zenoh_c.Requests.Judgement.{Consumes, taken_put_options, puts-Consume}
use zenoh_c.Requests.ReplyJudgement.{taken_reply_options, replies-Consume}
use zenoh_c.Requests.QueryJudgement.{taken_querier_options, queries-Consume}
use zenoh_c.Requests.Refusals.{DropsPayloads, IsNotText, queries-Refuse}
use zenoh_c.Common.Utf8.{is_utf8}
use zenoh_c.Collections.Strings.{Strlen, strlen_or_zero}

-- Payloads whose drop only returns.
abbrev kept : Zenoh
kept = record pieces { drop_zbytes = λ bytes m. some (tt, m) }

abbrev answers : ℕ → Ended × ℕ
answers w = (done, suc w)

abbrev counting : Network kept lengths
counting = record {
  Session = Unit {0};
  KeyExpr = ℕ;
  Publisher = Unit {0};
  Querier = Unit {0};
  Query = Unit {0};
  Reply = Unit {0};
  Timestamp = ℕ;
  SourceInfo = ℕ;
  Token = ℕ;
  World = ℕ;
  default_push = CongestionControl.drop;
  default_request = CongestionControl.block;
  default_priority = Priority.plain;
  default_locality = Locality.any;
  default_reliability = Reliability.reliable;
  default_reply_keyexpr = ReplyKeyExpr.matching_query;
  default_target = QueryTarget.best_matching;
  default_consolidation = ConsolidationMode.auto;
  put = λ session k bytes settings w. answers w;
  delete = λ session k settings w. answers w;
  publisher_put = λ p bytes settings w. answers w;
  publisher_delete = λ p settings w. answers w;
  get = λ session k params settings callback w. answers w;
  querier_get = λ q settings callback w. answers w;
  reply = λ q k bytes settings w. answers w;
  reply_err = λ q bytes settings w. answers w;
  reply_del = λ q k settings w. answers w;
}

abbrev start : State counting
start = record {
  payloads = λ p. held (p ∷ []);
  encodings = λ p. (p, none);
  tokens = λ p. some p;
  callbacks = λ p. record { context = p; call = none; drop = some (λ c w. some (suc w)) };
  memory = record { byte = λ p. 255; next = 100; boxes = []; calls = [] };
  world = 0;
}

-- The payload is its own attachment.
abbrev aliased : Option (PutOptions counting)
aliased = some (record {
  encoding = some 8;
  congestion_control = ZCongestionControl.drop;
  priority = ZPriority.plain;
  is_express = false;
  timestamp = none;
  reliability = ZReliability.reliable;
  allowed_destination = ZLocality.any;
  source_info = none;
  attachment = some 7;
})

puts-Consume_example :
    (Consumes
      (7 ∷ 7 ∷ [])
      (8 ∷ [])
      []
      []
      (λ settings w. answers w)
      (λ x. (code_of x, taken_put_options counting aliased))
      (z_put counting tt 5 7 aliased)
      start)
    × (Consumes
        (7 ∷ [])
        []
        []
        []
        (λ settings w. answers w)
        (λ x. (code_of x, none))
        (z_publisher_put counting tt 7 none)
        start)
puts-Consume_example = puts-Consume counting tt 5 tt 7 aliased none start

abbrev reply_options : Option (ReplyOptions counting)
reply_options = some (record {
  encoding = some 8;
  congestion_control = ZCongestionControl.block;
  priority = ZPriority.plain;
  is_express = true;
  timestamp = some 3;
  source_info = none;
  attachment = none;
})

replies-Consume_example :
    (Consumes
      (7 ∷ [])
      (8 ∷ [])
      []
      []
      (λ settings w. answers w)
      (λ x. (plain_code_of x, taken_reply_options counting reply_options))
      (z_query_reply counting tt 5 7 reply_options)
      start)
    × (Consumes
        (7 ∷ [])
        (9 ∷ [])
        []
        []
        (λ settings w. answers w)
        (λ x. (plain_code_of x, some none))
        (z_query_reply_err counting tt 7 (some (some 9)))
        start)
    × (Consumes [] [] [] []
        (λ settings w. answers w)
        (λ x. (plain_code_of x, none))
        (z_query_reply_del counting tt 5 none)
        start)
replies-Consume_example = replies-Consume counting tt 5 7 reply_options (some (some 9)) none start

abbrev own : Option (QuerierGetOptions counting)
own = some (record {
  payload = some 7;
  encoding = none;
  source_info = none;
  attachment = none;
  cancellation_token = some 4;
})

-- A C string of two bytes, which are not UTF-8.
abbrev two : Strlen
two f p = 2

queries-Consume_example :
    (Consumes [] [] []
      (6 ∷ [])
      (λ settings w. answers w)
      (λ x. (code_of x, none))
      (z_get counting two tt 5 null 6 none)
      start)
    × (Consumes
        (7 ∷ [])
        []
        (4 ∷ [])
        (6 ∷ [])
        (λ settings w. answers w)
        (λ x. (code_of x, taken_querier_options counting own))
        (z_querier_get counting two tt null 6 own)
        start)
unfolding parse_parameters strlen_or_zero
queries-Consume_example = queries-Consume counting two null 6 start tt 5 tt none own refl

start_drops : DropsPayloads counting
start_drops bytes m = (m, refl)

refused : IsNotText two start.memory 9
unfolding is_utf8
refused = (omega arith, refl)

queries-Refuse_example :
    ((s' : State counting) × (z_get counting two tt 5 9 6 none start ≡ some ((z_einval, none), s'))
      × (s'.world ≡ 1)
      × IsTaken [] [] [] (6 ∷ []) start s')
    × ((s' : State counting) × (z_querier_get counting two tt 9 6 own start
          ≡ some ((z_einval, taken_querier_options counting own), s'))
        × (s'.world ≡ 1)
        × IsTaken (7 ∷ []) [] (4 ∷ []) (6 ∷ []) start s')
unfolding drop_closure
queries-Refuse_example =
    queries-Refuse counting start_drops two 9 6 start refused refl tt 5 tt none own
