-- ===== src/Gateway/Authorize.antt =====
-- apps/gateway/src/authorize.ts: the pipeline from an intent to a verdict with its receipt. What
-- the simulator answers to a call is a function; keccak256 is a parameter.
pub mod Allows
use mathlib.Core.Option
use kp.Common.{
  ℕ, Bool, true, false, Option, none, some, List, [], ◌∷◌, ◌++◌, map, Text, lit, text_eq,
  if◌then◌else◌,
}
use kp.Resilience.Breaker.{Settled, returned, threw}
use kp.KeeperHub.Json.{Json, num, str, arr, Items, nil, cons, get, as_text}
use kp.KeeperHub.Http.{KeeperHubError}
use kp.KeeperHub.Reason.{
  GuardDenial, invariant, probe_failed, probe_short, not_executor, not_admin, reentrant,
  call_failed, describe_denial,
}
use kp.KeeperHub.Outcomes.{ContractCallRequest, SimulationOutcome}
use kp.Policy.Types.{
  Verdict, Severity, Reason, Call, InvariantOp, Invariant, Intent, EvalContext, Policy, Decision,
}
use kp.Policy.Rules.Holds.{all_rules}
use kp.Policy.Evaluate.{evaluate}
use kp.Receipts.Hash.{Bytes}
use kp.Receipts.Canonical.{serialize}
use kp.Receipts.Receipt.{ReceiptReason, SimulationRecord, Receipt, receipt_digest}

pub record AuthorizeOptions : Type 0 where
  pub policy : Policy
  pub policy_hash : Text
  pub guard : Text
  pub guard_abi : Text

pub record AuthorizeResult : Type 0 where
  pub verdict : Verdict
  pub simulation : Option SimulationOutcome
  pub receipt : Receipt
  pub digest : Text

-- Why `authorize` throws: a rule met text that is no number, or the simulator could not be asked.
pub data AuthorizeFault : Type 0 where
  rule_failed : AuthorizeFault
  simulator_failed : KeeperHubError → AuthorizeFault

-- `OPS.indexOf(op)`
unfoldable pub op_index : InvariantOp → ℕ
op_index InvariantOp.gte = 0
op_index InvariantOp.lte = 1
op_index InvariantOp.eq = 2
op_index InvariantOp.rel_dec_max = 3
op_index InvariantOp.rel_inc_max = 4

unfoldable pub call_items : List Call → Items
call_items [] = nil
call_items (c ∷ cs) =
    cons (arr (cons (str c.target) (cons (str c.value) (cons (str c.calldata) nil))))
      (call_items cs)

unfoldable pub invariant_items : List Invariant → Items
unfolding op_index
invariant_items [] = nil
invariant_items (i ∷ is) =
    cons
      (arr (
        cons (str i.target) (
          cons (str i.probe)
            (cons (num i.word) (cons (num (op_index i.op)) (cons (str i.threshold) nil))))))
      (invariant_items is)

-- The arguments are arrays of text and numbers alone, whose `JSON.stringify` is the canonical text.
unfoldable pub to_guard_call : Intent → Text → Text → ContractCallRequest
unfolding call_items invariant_items serialize
to_guard_call intent guard guard_abi = record {
  chain_id = intent.chain_id;
  contract_address = guard;
  function_name = lit "executeGuarded";
  function_args = some (
      serialize (
        arr (
          cons (arr (call_items intent.calls))
            (cons (arr (invariant_items intent.invariants)) nil))));
  abi = some guard_abi;
  value = none;
}

abbrev pub reason_of_rule : Reason → ReceiptReason
reason_of_rule r = record { code = r.code; severity = r.severity; message = r.message }

-- `GUARD_${denial.kind.toUpperCase()}`, and the code of a broken invariant.
unfoldable pub denial_code : GuardDenial → Text
denial_code (invariant _ _ _) = lit "INVARIANT_BROKEN"
denial_code (probe_failed _) = lit "GUARD_PROBE_FAILED"
denial_code (probe_short _ _ _) = lit "GUARD_PROBE_SHORT"
denial_code not_executor = lit "GUARD_NOT_EXECUTOR"
denial_code not_admin = lit "GUARD_NOT_ADMIN"
denial_code reentrant = lit "GUARD_REENTRANT"
denial_code call_failed = lit "GUARD_CALL_FAILED"

unfoldable pub is_validation : Option Text → Bool
is_validation (some kind) = text_eq kind (lit "validation")
is_validation none = false

unfoldable pub simulation_reason : SimulationOutcome → ReceiptReason
unfolding denial_code describe_denial is_validation
simulation_reason s = elim s.denial [
  | some denial ↦ record {
    code = denial_code denial;
    severity = Severity.deny;
    message = describe_denial denial;
  }
  | none ↦ record {
    code =
        if is_validation s.failure_kind
        then lit "PREFLIGHT_REJECTED"
        else lit "SIMULATION_REVERTED";
    severity = Severity.deny;
    message = Option.get_or s.revert_reason (lit "The transaction would revert.");
  }
]

unfoldable pub read_gas : SimulationOutcome → Text
read_gas s = Option.get_or (as_text (get (lit "gasEstimate") s.raw)) (lit "0")

invariant_index_of : Option GuardDenial → Option ℕ
invariant_index_of (some (invariant index _ _)) = some index
invariant_index_of _ = none

simulation_record : SimulationOutcome → SimulationRecord
unfolding read_gas invariant_index_of
simulation_record s = record {
  would_revert = s.would_revert;
  gas_estimate = read_gas s;
  invariant_index = invariant_index_of s.denial;
}

call_reason : Call → ReceiptReason
call_reason c = record {
  code = c.target;
  severity = Severity.deny;
  message = c.value ++ lit ":" ++ c.calldata;
}

module _ (keccak : Bytes → Bytes) where
  -- The receipt under whose digest the executable content of an intent is hashed.
  unfoldable pub hash_intent : Intent → Text
  unfolding call_reason receipt_digest
  hash_intent intent = receipt_digest keccak (record {
    intent_id = intent.id;
    intent_hash = lit "0x";
    policy_hash = lit "0x";
    guard = lit "0x";
    chain_id = intent.chain_id;
    verdict = Verdict.allow;
    reasons = map call_reason intent.calls;
    simulation = none;
    execution = none;
    at = intent.submitted_at;
  })

  unfoldable pub receipt_for :
      Intent
      → AuthorizeOptions
      → Text
      → Verdict
      → List ReceiptReason
      → Option SimulationOutcome
      → Receipt
  unfolding hash_intent simulation_record
  receipt_for intent options at verdict reasons simulation = record {
    intent_id = intent.id;
    intent_hash = hash_intent intent;
    policy_hash = options.policy_hash;
    guard = options.guard;
    chain_id = intent.chain_id;
    verdict = verdict;
    reasons = reasons;
    simulation = Option.map simulation_record simulation;
    execution = none;
    at = at;
  }

  unfoldable pub finish :
      Intent
      → AuthorizeOptions
      → Text
      → Verdict
      → List ReceiptReason
      → Option SimulationOutcome
      → AuthorizeResult
  unfolding receipt_for receipt_digest
  finish intent options at verdict reasons simulation = record {
    verdict = verdict;
    simulation = simulation;
    receipt = receipt_for intent options at verdict reasons simulation;
    digest = receipt_digest keccak (receipt_for intent options at verdict reasons simulation);
  }

  -- The part of `authorize` behind the simulation.
  unfoldable pub judge_simulation :
      Intent → AuthorizeOptions → Text → List ReceiptReason → SimulationOutcome → AuthorizeResult
  unfolding finish simulation_reason
  judge_simulation intent options at reasons s =
      if s.would_revert
      then finish intent options at Verdict.deny (reasons ++ simulation_reason s ∷ []) (some s)
      else finish intent options at Verdict.allow reasons (some s)

  unfoldable pub simulate_then :
      (ContractCallRequest → Settled SimulationOutcome KeeperHubError)
      → Intent
      → AuthorizeOptions
      → Text
      → List ReceiptReason
      → Settled AuthorizeResult AuthorizeFault
  unfolding judge_simulation
  simulate_then simulate intent options at reasons =
      elim (simulate (to_guard_call intent options.guard options.guard_abi)) [
        | returned s ↦ returned (judge_simulation intent options at reasons s)
        | threw e ↦ threw (simulator_failed e)
      ]

  unfoldable pub authorize :
      (ContractCallRequest → Settled SimulationOutcome KeeperHubError)
      → Intent
      → EvalContext
      → AuthorizeOptions
      → Text
      → Settled AuthorizeResult AuthorizeFault
  unfolding simulate_then finish
  authorize simulate intent context options at =
      elim (evaluate intent options.policy context all_rules) [
        | none ↦ threw rule_failed
        | some decision ↦
            let reasons = map reason_of_rule decision.reasons in
            elim decision.verdict [
              | Verdict.allow ↦ simulate_then simulate intent options at reasons
              | Verdict.hold ↦ returned (finish intent options at Verdict.hold reasons none)
              | Verdict.deny ↦ returned (finish intent options at Verdict.deny reasons none)
            ]
      ]
