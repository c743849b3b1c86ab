-- ===== src/Receipts/Receipt.antt =====
-- packages/receipts/src/receipt.ts and `hashJson` of hash.ts: a decision receipt and its digest.
-- keccak256 of the package @noble/hashes is a parameter.
use kp.Common.{ℕ, Bool, Option, none, some, List, [], ◌∷◌, Text, lit, text_eq, lower}
use kp.KeeperHub.Json.{Json, null, bool, num, str, arr, obj, Items, nil, cons, Fields, end, field}
use kp.Policy.Types.{Verdict, Severity}
use kp.Receipts.Hash.{Bytes, to_hex}
use kp.Receipts.Canonical.{canonical_bytes}

pub record ReceiptReason : Type 0 where
  pub code : Text
  pub severity : Severity
  pub message : Text

pub record SimulationRecord : Type 0 where
  pub would_revert : Bool
  pub gas_estimate : Text
  pub invariant_index : Option ℕ

pub record ExecutionRecord : Type 0 where
  pub tx_hash : Text
  pub gas_used : Text
  pub block : ℕ

pub record Receipt : Type 0 where
  pub intent_id : Text
  pub intent_hash : Text
  pub policy_hash : Text
  pub guard : Text
  pub chain_id : ℕ
  pub verdict : Verdict
  pub reasons : List ReceiptReason
  pub simulation : Option SimulationRecord
  pub execution : Option ExecutionRecord
  pub at : Text

unfoldable pub verdict_name : Verdict → Text
verdict_name Verdict.allow = lit "ALLOW"
verdict_name Verdict.hold = lit "HOLD"
verdict_name Verdict.deny = lit "DENY"

unfoldable pub severity_name : Severity → Text
severity_name Severity.hold = lit "hold"
severity_name Severity.deny = lit "deny"

unfoldable pub reason_payload : ReceiptReason → Json
unfolding severity_name
reason_payload r = obj (
    field (lit "code") (str r.code) (
      field (lit "severity") (str (severity_name r.severity))
        (field (lit "message") (str r.message) end)))

unfoldable pub reason_payloads : List ReceiptReason → Items
unfolding reason_payload
reason_payloads [] = nil
reason_payloads (r ∷ rs) = cons (reason_payload r) (reason_payloads rs)

unfoldable pub index_payload : Option ℕ → Fields
index_payload none = end
index_payload (some i) = field (lit "invariantIndex") (num i) end

unfoldable pub simulation_payload : Option SimulationRecord → Json
unfolding index_payload
simulation_payload none = null
simulation_payload (some s) = obj (
    field (lit "wouldRevert") (bool s.would_revert)
      (field (lit "gasEstimate") (str s.gas_estimate) (index_payload s.invariant_index)))

execution_payload : Option ExecutionRecord → Json
execution_payload none = null
execution_payload (some e) = obj (
    field (lit "txHash") (str e.tx_hash)
      (field (lit "gasUsed") (str e.gas_used) (field (lit "block") (num e.block) end)))

unfoldable pub digest_payload : Receipt → Json
unfolding verdict_name reason_payloads simulation_payload execution_payload
digest_payload r = obj (
    field (lit "intentId") (str r.intent_id) (
      field (lit "intentHash") (str r.intent_hash) (
        field (lit "policyHash") (str r.policy_hash) (
          field (lit "guard") (str r.guard) (
            field (lit "chainId") (num r.chain_id) (
              field (lit "verdict") (str (verdict_name r.verdict)) (
                field (lit "reasons") (arr (reason_payloads r.reasons)) (
                  field (lit "simulation") (simulation_payload r.simulation) (
                    field (lit "execution") (execution_payload r.execution)
                      (field (lit "at") (str r.at) end))))))))))

module _ (keccak : Bytes → Bytes) where
  unfoldable pub hash_json : Json → Text
  hash_json v = to_hex (keccak (canonical_bytes v))

  unfoldable pub receipt_digest : Receipt → Text
  unfolding hash_json digest_payload
  receipt_digest r = hash_json (digest_payload r)

  unfoldable pub verify_digest : Receipt → Text → Bool
  unfolding receipt_digest
  verify_digest r claimed = text_eq (lower (receipt_digest r)) (lower claimed)
