-- ===== src/Gateway/Publish/Tests.antt =====
-- The event of a receipt over a toy hash function, and the theorem at it.
use mathlib.Core.Option.{some}
use kp.Common.{ℕ, ◌≡◌, ◌≢◌, ◌↔◌, ◌<◌, refl, Option, none, [], ◌∷◌, Text, lit, replicate, arith}
use kp.KeeperHub.Json.{Json}
use kp.Policy.Types.{Verdict}
use kp.Receipts.Hash.{Bytes}
use kp.Receipts.Hash.Hex.{AreBytes}
use kp.Receipts.Receipt.{Receipt}
use kp.Events.{PublishedEvent, encode_event, event_json}
use kp.Events.Validate.{decode_event, ok, decision}
use kp.Gateway.Publish.Accepted.{decoded, published, decode_event-decision_event_iff}

abbrev toy : Bytes → Bytes
toy s = replicate 32 7

toy-AreBytes : (s : Bytes) → AreBytes (toy s)
toy-AreBytes s = omega arith

abbrev receipt : Receipt
receipt = record {
  intent_id = lit "i-1";
  intent_hash = lit "0x01";
  policy_hash = lit "0x02";
  guard = lit "0x03";
  chain_id = 8453;
  verdict = Verdict.deny;
  reasons = [];
  simulation = none;
  execution = none;
  at = lit "2026";
}

abbrev document : Json
document =
    event_json (PublishedEvent.decision (published toy (lit "0x02") (lit "0x03") none receipt))

abbrev stringify : Json → Bytes
stringify j = 123 ∷ []

abbrev parse : Bytes → Option Json
parse bytes = some document

abbrev any_date : Text → Option ℕ
any_date s = some 0

decode_event-decision_event_iff_example :
    (decode_event parse any_date (
        some (
          encode_event stringify
            (PublishedEvent.decision (published toy (lit "0x02") (lit "0x03") none receipt))))
      ≡ ok (decision (decoded (published toy (lit "0x02") (lit "0x03") none receipt))))
    ↔ ((lit "i-1" ≢ []) × (0 < 8453) × ((d : ℕ) × (any_date (lit "2026") ≡ some d)))
unfolding encode_event
decode_event-decision_event_iff_example =
    decode_event-decision_event_iff toy stringify parse any_date (lit "0x02") (lit "0x03") none
      receipt toy-AreBytes (λ s. refl) (λ e. cc) refl
