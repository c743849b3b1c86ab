-- ===== src/Events/Validate.antt =====
-- packages/events/src/validate.ts: what the consumer accepts as an event. `parse` is `JSON.parse` of
-- the UTF-8 text, `none` where it throws, and `parse_date` is `Date.parse`, `none` for NaN. Numbers
-- in JSON are natural numbers. Of an error's message only what it is about is kept.
pub mod Checks
pub mod Decisions
pub mod Digests
mod Tests
use kp.Common.{
  ℕ, Bool, true, false, ◌&&◌, Option, none, some, List, [], ◌∷◌, Text, lit, text_eq, ltb, ◌==◌,
  if◌then◌else◌, length,
}
use kp.KeeperHub.Json.{Json, arr, obj, Fields, num, str, get, as_text, as_number}
use kp.Policy.Types.{Verdict}
use kp.Receipts.Hash.{Bytes, is_hex}
use kp.Events.{event_version}

pub data EventFault : Type 0 where
  empty_payload not_json not_object bad_version bad_type bad_intent_id bad_verdict not_hex :
      EventFault
  bad_length : ℕ → EventFault
  bad_chain_id bad_reasons bad_at : EventFault

-- `error.field`
unfoldable pub field_of : EventFault → Text
field_of empty_payload = lit "$"
field_of not_json = lit "$"
field_of not_object = lit "$"
field_of bad_version = lit "v"
field_of bad_type = lit "type"
field_of bad_intent_id = lit "intentId"
field_of bad_verdict = lit "verdict"
field_of not_hex = lit "digest"
field_of (bad_length n) = lit "digest"
field_of bad_chain_id = lit "chainId"
field_of bad_reasons = lit "reasons"
field_of bad_at = lit "at"

pub data Validated (A : Type 0) : Type 0 where
  ok : A → Validated A
  fail : EventFault → Validated A

infixl 5 ◌>>=◌
abbrev pub ◌>>=◌ : {From To : Type 0} → Validated From → (From → Validated To) → Validated To
fail fault >>= next = fail fault
ok value >>= next = next value

-- The validated parts of a decision, and the whole document.
pub record DecodedDecision : Type 0 where
  pub intent_id : Text
  pub verdict : Verdict
  pub digest : Text
  pub chain_id : ℕ
  pub at : Text
  pub body : Json

pub data NoyeetEvent : Type 0 where
  decision : DecodedDecision → NoyeetEvent
  anchor dead_letter : Json → NoyeetEvent

-- `VERDICTS.has(text)`, with the verdict.
unfoldable pub read_verdict : Text → Option Verdict
read_verdict s =
    if text_eq s (lit "ALLOW")
    then some Verdict.allow
    else if text_eq s (lit "HOLD")
    then some Verdict.hold
    else if text_eq s (lit "DENY")
    then some Verdict.deny
    else none

unfoldable pub all_hex : Text → Bool
all_hex [] = true
all_hex (c ∷ s) = is_hex c && all_hex s

-- The pattern `HEX`.
unfoldable pub hex_test : Text → Bool
unfolding all_hex
hex_test [] = false
hex_test (c ∷ []) = false
hex_test (c ∷ d ∷ s) = c == b'0' && d == b'x' && all_hex s

unfoldable pub check_intent_id : Option Text → Validated Text
check_intent_id none = fail bad_intent_id
check_intent_id (some []) = fail bad_intent_id
check_intent_id (some (c ∷ s)) = ok (c ∷ s)

unfoldable pub check_verdict : Option Text → Validated Verdict
unfolding read_verdict
check_verdict none = fail bad_verdict
check_verdict (some s) = elim (read_verdict s) [ some v ↦ ok v | none ↦ fail bad_verdict ]

unfoldable pub check_digest : Option Text → Validated Text
unfolding hex_test
check_digest none = fail not_hex
check_digest (some s) =
    if hex_test s
    then if length s == 66 then ok s else fail (bad_length (length s))
    else fail not_hex

unfoldable pub check_chain_id : Option ℕ → Validated ℕ
check_chain_id none = fail bad_chain_id
check_chain_id (some n) = if ltb 0 n then ok n else fail bad_chain_id

unfoldable pub check_reasons : Option Json → Validated Unit
check_reasons (some (arr items)) = ok tt
check_reasons _ = fail bad_reasons

unfoldable pub check_at : (Text → Option ℕ) → Option Text → Validated Text
check_at parse_date none = fail bad_at
check_at parse_date (some s) = elim (parse_date s) [ some t ↦ ok s | none ↦ fail bad_at ]

module _ (parse : Bytes → Option Json) (parse_date : Text → Option ℕ) where
  unfoldable pub validate_decision : Json → Validated NoyeetEvent
  unfolding check_intent_id check_verdict check_digest check_chain_id check_reasons check_at
  validate_decision body = do
    id ← check_intent_id (as_text (get (lit "intentId") body))
    v ← check_verdict (as_text (get (lit "verdict") body))
    d ← check_digest (as_text (get (lit "digest") body))
    c ← check_chain_id (as_number (get (lit "chainId") body))
    u ← check_reasons (get (lit "reasons") body)
    t ← check_at parse_date (as_text (get (lit "at") body))
    ok (
        decision
          (record { intent_id = id; verdict = v; digest = d; chain_id = c; at = t; body = body }))

  -- The `switch` on the type.
  unfoldable pub validate_type : Option Text → Json → Validated NoyeetEvent
  unfolding validate_decision
  validate_type none body = fail bad_type
  validate_type (some t) body =
      if text_eq t (lit "decision")
      then validate_decision body
      else if text_eq t (lit "anchor")
      then ok (anchor body)
      else if text_eq t (lit "dead-letter")
      then ok (dead_letter body)
      else fail bad_type

  unfoldable pub validate_version : Option ℕ → Json → Validated NoyeetEvent
  unfolding validate_type
  validate_version none body = fail bad_version
  validate_version (some v) body =
      if v == event_version
      then validate_type (as_text (get (lit "type") body)) body
      else fail bad_version

  unfoldable pub validate_body : Json → Validated NoyeetEvent
  unfolding validate_version
  validate_body (obj fields) =
      validate_version (as_number (get (lit "v") (obj fields))) (obj fields)
  validate_body _ = fail not_object

  unfoldable pub decode_event : Option Bytes → Validated NoyeetEvent
  unfolding validate_body
  decode_event none = fail empty_payload
  decode_event (some []) = fail empty_payload
  decode_event (some (byte ∷ bytes)) = elim (parse (byte ∷ bytes)) [
    | none ↦ fail not_json
    | some body ↦ validate_body body
  ]
