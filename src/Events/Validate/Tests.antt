-- ===== src/Events/Validate/Tests.antt =====
-- Documents that the decoder accepts and refuses, and each theorem at one of them.
use kp.Common.{ℕ, ◌≡◌, ◌≢◌, ◌↔◌, refl, Option, some, [], ◌∷◌, ◌++◌, Text, lit, text_eq, replicate}
use kp.Common.Numbers.{digit}
use kp.KeeperHub.Json.{Json, num, str, arr, obj, nil, end, field, get}
use kp.Policy.Types.{Verdict}
use kp.Receipts.Hash.{Bytes}
use kp.Events.Validate.{
  decode_event, ok, fail, decision, DecodedDecision, bad_length, empty_payload,
}
use kp.Events.Validate.Decisions.{IsDecision, decode_event-decision_iff}

abbrev pub a_digest : Text
a_digest = lit "0x" ++ replicate 64 b'A'

document : Text → Json
document digest = obj (
    field (lit "v") (num 1) (
      field (lit "type") (str (lit "decision")) (
        field (lit "intentId") (str (lit "i-1")) (
          field (lit "chainId") (num 1) (
            field (lit "verdict") (str (lit "HOLD")) (
              field (lit "digest") (str digest)
                (field (lit "reasons") (arr nil) (field (lit "at") (str (lit "2026")) end))))))))

abbrev sample : DecodedDecision
sample = record {
  intent_id = lit "i-1";
  verdict = Verdict.hold;
  digest = a_digest;
  chain_id = 1;
  at = lit "2026";
  body = document a_digest;
}

-- A parser that reads one document in every text, and any text as a date.
abbrev reads : Text → Bytes → Option Json
reads digest bytes = some (document digest)

abbrev any_date : Text → Option ℕ
any_date s = some 0

abbrev payload : Bytes
payload = 123 ∷ []

accepted : decode_event (reads a_digest) any_date (some payload) ≡ ok (decision sample)
unfolding document decode_event get lit text_eq digit
accepted = refl

short : decode_event (reads (lit "0xab")) any_date (some payload) ≡ fail (bad_length 4)
unfolding document decode_event get lit text_eq digit
short = refl

no_payload : decode_event (reads a_digest) any_date (some []) ≡ fail empty_payload
unfolding decode_event
no_payload = refl

decode_event-decision_iff_example :
    (decode_event (reads a_digest) any_date (some payload) ≡ ok (decision sample))
    ↔ ((payload ≢ []) × (reads a_digest payload ≡ some sample.body) × IsDecision any_date sample)
decode_event-decision_iff_example =
    decode_event-decision_iff (reads a_digest) any_date payload sample
