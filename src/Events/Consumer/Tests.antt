-- ===== src/Events/Consumer/Tests.antt =====
-- A handler that fails twice, and the theorem at it.
use kp.Common.{ℕ, zero, suc, ◌≡◌, refl, Option, none, some, List, [], ◌∷◌, Text, lit}
use kp.KeeperHub.Json.{null}
use kp.Receipts.Hash.{Bytes}
use kp.Events.{Topic, decisions, PublishedEvent}
use kp.Events.Validate.{Validated, ok, fail, NoyeetEvent, anchor, not_json, empty_payload, field_of}
use kp.Events.Consumer.{
  Message, Env, Ran, done, raised, handled, handler_failed, slept, dead_lettered, consumer_options,
  consume, each_message, attempts_from, dead_letter, dead_letter_event, pause,
}
use kp.Events.Consumer.Settles.{AreSettled, consume-AreSettled}

abbrev decode : Option Bytes → Validated NoyeetEvent
decode none = fail empty_payload
decode (some []) = fail not_json
decode (some (b ∷ bytes)) = ok (anchor null)

-- The state counts the failures that are left.
abbrev handler : NoyeetEvent → Message → ℕ → Ran ℕ
handler e m zero = done zero
handler e m (suc n) = raised (lit "busy") n

abbrev emit : Topic → Text → PublishedEvent → ℕ → Ran ℕ
emit t k e n = done n

abbrev env : Env ℕ
env = record {
  base64 = λ bytes. bytes;
  iso_now = lit "2026";
  message_of = λ fault. field_of fault;
  decode = decode;
  handler = handler;
  emit = emit;
  options = consumer_options none none;
}

abbrev message : Text → Option Bytes → Message
message offset value = record {
  topic = decisions;
  partition = 0;
  offset = offset;
  key = none;
  value = value;
}

abbrev messages : List Message
messages = message (lit "0") (some (1 ∷ [])) ∷ message (lit "1") (some []) ∷ []

-- Two failures, and the third attempt is handled; then a message that does not decode.
two_failures :
    (consume env messages 2).1
    ≡ handler_failed 1 (lit "busy")
      ∷ slept 500
      ∷ handler_failed 2 (lit "busy")
      ∷ slept 1000
      ∷ handled 3
      ∷ dead_lettered (dead_letter_event env (message (lit "1") (some [])) 1 (field_of not_json))
      ∷ []
unfolding consume each_message attempts_from dead_letter dead_letter_event pause
two_failures = refl

consume-AreSettled_example : AreSettled env messages (consume env messages 2).1
consume-AreSettled_example = consume-AreSettled env messages 2
