-- ===== src/Dashboard/Execute.antt =====
-- apps/dashboard/lib/execute.ts: the pipeline of an intent in the dashboard. What the network answers
-- is given: `none` is a call of `fetch` or a reading of its JSON that throws. The policy, with its
-- document, is what `JSON.parse` and `parsePolicy` give, `none` where they throw. The signing wallet is
-- given too, and so are keccak256 and the clock.
pub mod Follows
pub mod Sanctioned
pub mod Agrees
pub mod Answers
mod Tests
use mathlib.Core.Option
use kp.Common.{
  ℕ, Bool, true, false, Option, none, some, List, [], ◌∷◌, ◌++◌, map, Text, lit, drop, text_eq,
  if◌then◌else◌,
}
use kp.KeeperHub.Json.{Json, num, str, arr, obj, Items, nil, cons, Fields, end, field}
use kp.Policy.Types.{Verdict, Severity, Call, Invariant, Intent, EvalContext, Policy, Decision}
use kp.Policy.Rules.Holds.{all_rules}
use kp.Policy.Evaluate.{evaluate}
use kp.Receipts.Hash.{Bytes}
use kp.Receipts.Receipt.{ReceiptReason, SimulationRecord, Receipt, hash_json, receipt_digest}
use kp.Gateway.Authorize.{
  op_index, call_items, invariant_items, reason_of_rule, hash_intent, is_validation,
}
use kp.Dashboard.Ledger.{HoldRecord, Holds, create_hold}
use kp.Dashboard.Requests.{
  GuardRequest, SimulationReply, BroadcastReply, simulation_body, broadcast_body, held_intent,
  may_revert, execution_of,
}

pub record Env : Type 0 where
  pub keccak : Bytes → Bytes
  pub policy : Option (Policy × Json)
  pub guard : Text
  pub simulate : GuardRequest → Option SimulationReply
  pub broadcast : GuardRequest → Text → Option BroadcastReply
  pub executor : Option (Text × Bool)
  pub now : ℕ
  pub iso_now : Text

pub data Effect : Type 0 where
  simulated : GuardRequest → Effect
  broadcasted : GuardRequest → Text → Effect

pub record SimulationView : Type 0 where
  pub would_revert : Bool
  pub gas_estimate : Option Text
  pub revert_reason : Option Text

pub record Live : Type 0 where
  pub intent_id : Text
  pub verdict : Verdict
  pub reasons : List ReceiptReason
  pub simulation : Option SimulationView
  pub execution : Option Text
  pub held : Option HoldRecord
  pub digest : Text
  pub executor : Option (Text × Bool)
  pub at : Text

-- `live: false`, or the outcome of the pipeline.
pub data ExecutePayload : Type 0 where
  failed : ExecutePayload
  live : Live → ExecutePayload

-- The reason of a simulation that does not pass.
unfoldable pub reply_reason : SimulationReply → ReceiptReason
unfolding is_validation
reply_reason reply = record {
  code =
      if is_validation reply.failure_kind then lit "PREFLIGHT_REJECTED" else lit "INVARIANT_BROKEN";
  severity = Severity.deny;
  message =
      Option.get_or reply.revert_reason
        (lit "The guard predicts the transaction would revert, so it is not broadcast.");
}

unfoldable pub dapp_key : Intent → Text
dapp_key intent = lit "noyeet-dapp-" ++ intent.id

module _ (env : Env) (intent : Intent) (policy_json : Json) where
  unfoldable pub receipt_with : Verdict → List ReceiptReason → Option SimulationRecord → Receipt
  receipt_with verdict reasons simulation = record {
    intent_id = intent.id;
    intent_hash = hash_intent env.keccak intent;
    policy_hash = hash_json env.keccak policy_json;
    guard = env.guard;
    chain_id = intent.chain_id;
    verdict = verdict;
    reasons = reasons;
    simulation = simulation;
    execution = none;
    at = intent.submitted_at;
  }

  -- The payload of a verdict, with its digest.
  unfoldable pub payload :
      Verdict
      → List ReceiptReason
      → Option SimulationRecord
      → Option SimulationView
      → Option Text
      → Option HoldRecord
      → ExecutePayload
  unfolding receipt_with
  payload verdict reasons simulation view execution held = live (record {
    intent_id = intent.id;
    verdict = verdict;
    reasons = reasons;
    simulation = view;
    execution = execution;
    held = held;
    digest = receipt_digest env.keccak (receipt_with verdict reasons simulation);
    executor = env.executor;
    at = env.iso_now;
  })

  unfoldable pub hold_it : List ReceiptReason → Holds → Holds × ExecutePayload
  unfolding payload held_intent create_hold
  hold_it reasons holds =
      let digest = receipt_digest env.keccak (receipt_with Verdict.hold reasons none) in
      let (holds', r) =
        create_hold (lit "hold_" ++ drop 4 intent.id) intent.id reasons digest (held_intent intent)
          env.iso_now holds in
      (holds', payload Verdict.hold reasons none none none (some r))

  unfoldable pub record_of : Bool → SimulationReply → SimulationRecord
  record_of would_revert reply = record {
    would_revert = would_revert;
    gas_estimate = Option.get_or reply.gas_estimate (lit "0");
    invariant_index = none;
  }

  unfoldable pub refuse : List ReceiptReason → SimulationReply → ExecutePayload
  unfolding payload reply_reason record_of
  refuse reasons reply =
      payload Verdict.deny (reasons ++ reply_reason reply ∷ []) (some (record_of true reply))
        (some (record {
          would_revert = true;
          gas_estimate = some (Option.get_or reply.gas_estimate (lit "0"));
          revert_reason = reply.revert_reason;
        }))
        none none

  -- Behind a simulation that passes: the broadcast, or the verdict alone.
  unfoldable pub broadcast_or_answer :
      Bool → List ReceiptReason → SimulationReply → List Effect × ExecutePayload
  unfolding payload record_of broadcast_body dapp_key
  broadcast_or_answer false reasons reply = (
    [],
    payload Verdict.allow reasons (some (record_of false reply))
        (some (record {
          would_revert = false;
          gas_estimate = some (Option.get_or reply.gas_estimate (lit "0"));
          revert_reason = none;
        }))
        none none,
  )
  broadcast_or_answer true reasons reply =
      let body = broadcast_body env.guard intent.chain_id intent.calls intent.invariants in
      elim (env.broadcast body (dapp_key intent)) [
        | none ↦ (broadcasted body (dapp_key intent) ∷ [], failed)
        | some answer ↦ (
          broadcasted body (dapp_key intent) ∷ [],
          payload Verdict.allow reasons (some (record_of false reply))
              (some (record {
                would_revert = false;
                gas_estimate = reply.gas_estimate;
                revert_reason = none;
              }))
              (execution_of answer.execution_id) none,
        )
      ]

  unfoldable pub simulate_then : Bool → List ReceiptReason → List Effect × ExecutePayload
  unfolding simulation_body refuse broadcast_or_answer
  simulate_then broadcasts reasons =
      let body = simulation_body env.guard intent in
      elim (env.simulate body) [
        | none ↦ (simulated body ∷ [], failed)
        | some reply ↦
            let (effects, outcome) = broadcast_or_answer broadcasts reasons reply in
            if may_revert reply.would_revert
            then (simulated body ∷ [], refuse reasons reply)
            else (simulated body ∷ effects, outcome)
      ]

  -- What follows the decision of the policy.
  unfoldable pub follow : Bool → Decision → Holds → Holds × List Effect × ExecutePayload
  unfolding simulate_then hold_it payload
  follow broadcasts decision holds =
      let reasons = map reason_of_rule decision.reasons in
      elim decision.verdict [
        | Verdict.allow ↦
            let (effects, outcome) = simulate_then broadcasts reasons in (holds, effects, outcome)
        | Verdict.hold ↦ let (holds', outcome) = hold_it reasons holds in (holds', [], outcome)
        | Verdict.deny ↦ (holds, [], payload Verdict.deny reasons none none none none)
      ]

abbrev pub context_at : ℕ → EvalContext
context_at now = record { now = now; history = []; gas_estimate = none; known_counterparties = [] }

unfoldable pub decide_under :
    Env → Policy → Json → Bool → Intent → Holds → Holds × List Effect × ExecutePayload
unfolding follow
decide_under env policy document broadcasts intent holds =
    elim (evaluate intent policy (context_at env.now) all_rules) [
      | none ↦ (holds, [], failed)
      | some decision ↦ follow env intent document broadcasts decision holds
    ]

-- `broadcasts` is `options.broadcast !== false`.
unfoldable pub run_intent : Env → Bool → Intent → Holds → Holds × List Effect × ExecutePayload
unfolding decide_under
run_intent env broadcasts intent holds = elim env.policy [
  | none ↦ (holds, [], failed)
  | some p ↦ decide_under env p.0 p.1 broadcasts intent holds
]
