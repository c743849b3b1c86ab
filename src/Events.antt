-- ===== src/Events.antt =====
-- packages/events/src/schema.ts, topics.ts and `encodeEvent` of producer.ts: the events, as the JSON
-- documents that are published. The Kafka client is not modelled.
pub mod Validate
pub mod Consumer
use kp.Common.{ℕ, Bool, Option, none, some, List, [], ◌∷◌, Text, lit}
use kp.KeeperHub.Json.{Json, num, str, arr, obj, Items, nil, cons, Fields, end, field}
use kp.Policy.Types.{Verdict}
use kp.Receipts.Hash.{Bytes}
use kp.Receipts.Receipt.{
  Receipt, ReceiptReason, SimulationRecord, verdict_name, reason_payloads, simulation_payload,
}

pub data Topic : Type 0 where
  decisions anchors dead_letters : Topic

unfoldable pub topic_name : Topic → Text
topic_name decisions = lit "noyeet.decisions.v1"
topic_name anchors = lit "noyeet.anchors.v1"
topic_name dead_letters = lit "noyeet.dead-letter.v1"

abbrev pub event_version : ℕ
event_version = 1

pub record DecisionEvent : Type 0 where
  pub intent_id : Text
  pub chain_id : ℕ
  pub verdict : Verdict
  pub digest : Text
  pub policy_hash : Text
  pub guard : Text
  pub reasons : List ReceiptReason
  pub simulated : Option SimulationRecord
  pub traceparent : Option Text
  pub at : Text

pub record AnchorEvent : Type 0 where
  pub root : Text
  pub leaves : List Text
  pub at : Text

pub record DeadLetterEvent : Type 0 where
  pub source_topic : Topic
  pub partition : ℕ
  pub offset : Text
  pub attempts : ℕ
  pub error : Text
  pub payload_base64 : Text
  pub at : Text

pub data PublishedEvent : Type 0 where
  decision : DecisionEvent → PublishedEvent
  anchor : AnchorEvent → PublishedEvent
  dead_letter : DeadLetterEvent → PublishedEvent

-- An absent `traceparent` is no field.
unfoldable pub trace_field : Option Text → Fields → Fields
trace_field none fields = fields
trace_field (some t) fields = field (lit "traceparent") (str t) fields

unfoldable pub text_items : List Text → Items
text_items [] = nil
text_items (t ∷ ts) = cons (str t) (text_items ts)

unfoldable pub decision_json : DecisionEvent → Json
unfolding trace_field
decision_json e = obj (
    field (lit "v") (num event_version) (
      field (lit "type") (str (lit "decision")) (
        field (lit "intentId") (str e.intent_id) (
          field (lit "chainId") (num e.chain_id) (
            field (lit "verdict") (str (verdict_name e.verdict)) (
              field (lit "digest") (str e.digest) (
                field (lit "policyHash") (str e.policy_hash) (
                  field (lit "guard") (str e.guard) (
                    field (lit "reasons") (arr (reason_payloads e.reasons)) (
                      field (lit "simulated") (simulation_payload e.simulated)
                        (trace_field e.traceparent (field (lit "at") (str e.at) end))))))))))))

unfoldable pub event_json : PublishedEvent → Json
unfolding decision_json text_items topic_name
event_json (decision e) = decision_json e
event_json (anchor e) = obj (
    field (lit "v") (num event_version) (
      field (lit "type") (str (lit "anchor")) (
        field (lit "root") (str e.root)
          (field (lit "leaves") (arr (text_items e.leaves)) (field (lit "at") (str e.at) end)))))
event_json (dead_letter e) = obj (
    field (lit "v") (num event_version) (
      field (lit "type") (str (lit "dead-letter")) (
        field (lit "sourceTopic") (str (topic_name e.source_topic)) (
          field (lit "partition") (num e.partition) (
            field (lit "offset") (str e.offset) (
              field (lit "attempts") (num e.attempts) (
                field (lit "error") (str e.error) (
                  field (lit "payloadBase64") (str e.payload_base64)
                    (field (lit "at") (str e.at) end)))))))))

-- The bytes that `JSON.stringify` and UTF-8 make of a document are a parameter.
unfoldable pub encode_event : (Json → Bytes) → PublishedEvent → Bytes
unfolding event_json
encode_event stringify e = stringify (event_json e)
