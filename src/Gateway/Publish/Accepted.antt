-- ===== src/Gateway/Publish/Accepted.antt =====
-- What packages/events/src/validate.ts makes of the events that apps/gateway/src/app.ts publishes.
use kp.Common.{
  ℕ, ◌+◌, ◌/◌, ◌%◌, ◌<◌, ◌≡◌, ◌≢◌, ◌↔◌, refl, true, Option, none, some, [], ◌∷◌, Text, lit, text_eq,
  length, arith,
}
use kp.KeeperHub.Json.{Json, Fields, num, str, arr, get, find}
use kp.Receipts.Hash.{Bytes, is_hex, hex_digit, hex_body, to_hex}
use kp.Receipts.Hash.Hex.{AreBytes, digit-hex_digit}
use kp.Receipts.Receipt.{Receipt, verdict_name, reason_payloads, hash_json, receipt_digest}
use kp.Events.{
  DecisionEvent, PublishedEvent, event_version, trace_field, decision_json, event_json,
  encode_event,
}
use kp.Events.Validate.{DecodedDecision, ok, decision, hex_test, all_hex, decode_event}
use kp.Events.Validate.Decisions.{IsDecision, decode_event-decision_iff}
use kp.Gateway.Publish.{decision_event}

-- The reading of a decision that was published.
abbrev pub decoded : DecisionEvent → DecodedDecision
decoded e = record {
  intent_id = e.intent_id;
  verdict = e.verdict;
  digest = e.digest;
  chain_id = e.chain_id;
  at = e.at;
  body = event_json (PublishedEvent.decision e);
}

module _ (e : DecisionEvent) where
  says_version : get (lit "v") (event_json (PublishedEvent.decision e)) ≡ some (num event_version)
  unfolding event_json decision_json get find lit text_eq
  says_version = refl

  says_type :
      get (lit "type") (event_json (PublishedEvent.decision e)) ≡ some (str (lit "decision"))
  unfolding event_json decision_json get find lit text_eq
  says_type = refl

  says_id : get (lit "intentId") (event_json (PublishedEvent.decision e)) ≡ some (str e.intent_id)
  unfolding event_json decision_json get find lit text_eq
  says_id = refl

  says_verdict :
      get (lit "verdict") (event_json (PublishedEvent.decision e))
      ≡ some (str (verdict_name e.verdict))
  unfolding event_json decision_json get find lit text_eq
  says_verdict = refl

  says_digest : get (lit "digest") (event_json (PublishedEvent.decision e)) ≡ some (str e.digest)
  unfolding event_json decision_json get find lit text_eq
  says_digest = refl

  says_chain : get (lit "chainId") (event_json (PublishedEvent.decision e)) ≡ some (num e.chain_id)
  unfolding event_json decision_json get find lit text_eq
  says_chain = refl

  says_reasons :
      get (lit "reasons") (event_json (PublishedEvent.decision e))
      ≡ some (arr (reason_payloads e.reasons))
  unfolding event_json decision_json get find lit text_eq
  says_reasons = refl

trace_at :
    (t : Option Text) (at : Text)
    → find (lit "at") (trace_field t (Fields.field (lit "at") (str at) Fields.end)) ≡ some (str at)
unfolding find lit text_eq trace_field
trace_at none at = refl
trace_at (some t) at = refl

says_at :
    (e : DecisionEvent) → get (lit "at") (event_json (PublishedEvent.decision e)) ≡ some (str e.at)
unfolding event_json decision_json get find lit text_eq
says_at e = trace_at e.traceparent e.at

-- What `toHex` prints is hex text, two digits for each byte.
hex_digit-is_hex : (n : ℕ) → n < 16 → is_hex (hex_digit n) ≡ true
hex_digit-is_hex n h = rw (digit-hex_digit n h) (ground arith)

all_hex-hex_body :
    (bytes : Bytes)
    → AreBytes bytes
    → (all_hex (hex_body bytes) ≡ true) × (length (hex_body bytes) ≡ length bytes + length bytes)
unfolding all_hex hex_body
all_hex-hex_body [] h = (refl, refl)
all_hex-hex_body (byte ∷ bytes) (p, h) =
    let (q, r) = all_hex-hex_body bytes h in
    (
      rw (hex_digit-is_hex (byte / 16) (omega arith), hex_digit-is_hex (byte % 16) (omega arith)) q,
      omega (arith, r),
    )

hex_test-to_hex :
    (bytes : Bytes)
    → AreBytes bytes
    → length bytes ≡ 32
    → (hex_test (to_hex bytes) ≡ true) × (length (to_hex bytes) ≡ 66)
unfolding hex_test to_hex
hex_test-to_hex bytes h l = let (q, r) = all_hex-hex_body bytes h in (q, omega (arith, r, l))

published-IsDecision :
    (parse_date : Text → Option ℕ) (e : DecisionEvent)
    → e.intent_id ≢ []
    → (hex_test e.digest ≡ true) × (length e.digest ≡ 66)
    → 0 < e.chain_id
    → (d : ℕ) × (parse_date e.at ≡ some d)
    → IsDecision parse_date (decoded e)
published-IsDecision parse_date e i h c d = (
  says_version e,
  says_type e,
  says_id e,
  i,
  says_verdict e,
  says_digest e,
  h,
  says_chain e,
  c,
  (reason_payloads e.reasons, says_reasons e),
  says_at e,
  d,
)

-- The event of a receipt with its digest.
abbrev pub published : (Bytes → Bytes) → Text → Text → Option Text → Receipt → DecisionEvent
published keccak policy_hash guard t r =
    decision_event policy_hash guard t r (receipt_digest keccak r)

-- If keccak256 gives 32 bytes, and `JSON.parse` reads the event's document, which is not empty, back
-- from its print: the consumer accepts the event that the gateway publishes for a decision, with the
-- decision's id, verdict, digest, chain and time, exactly if the intent's id is not empty, its chain
-- is not zero and the receipt's time reads as a date.
pub decode_event-decision_event_iff :
    (keccak : Bytes → Bytes) (stringify : Json → Bytes) (parse : Bytes → Option Json)
    (parse_date : Text → Option ℕ) (policy_hash guard : Text) (t : Option Text) (r : Receipt)
    → ((s : Bytes) → AreBytes (keccak s))
    → ((s : Bytes) → length (keccak s) ≡ 32)
    → encode_event stringify (PublishedEvent.decision (published keccak policy_hash guard t r)) ≢ []
    → parse
        (encode_event stringify (PublishedEvent.decision (published keccak policy_hash guard t r)))
      ≡ some (event_json (PublishedEvent.decision (published keccak policy_hash guard t r)))
    → (decode_event parse parse_date (
          some (
            encode_event stringify
              (PublishedEvent.decision (published keccak policy_hash guard t r))))
        ≡ ok (decision (decoded (published keccak policy_hash guard t r))))
      ↔ ((r.intent_id ≢ []) × (0 < r.chain_id) × ((d : ℕ) × (parse_date r.at ≡ some d)))
unfolding decision_event encode_event receipt_digest hash_json
decode_event-decision_event_iff keccak stringify parse parse_date policy_hash guard t r digests
      sizes nonempty parses =
    let e = published keccak policy_hash guard t r in
    let is =
      decode_event-decision_iff parse parse_date
        (encode_event stringify (PublishedEvent.decision e)) (decoded e) in
    (
      λ h. let (n, p, d) = is.0 h in (d.3, d.8, d.11),
      λ (i, c, d). is.1 (
        nonempty,
        parses,
        published-IsDecision parse_date e i (hex_test-to_hex _ (digests _) (sizes _)) c d,
      ),
    )
