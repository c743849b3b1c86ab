-- ===== src/Dashboard/Requests.antt =====
-- apps/dashboard/lib/execute.ts: what the dashboard asks of KeeperHub and reads of its answers. Of the
-- arguments of a call the document under `JSON.stringify` is kept; the ABI, a constant, is left out.
use kp.Common.{ℕ, Bool, true, false, Option, none, some, List, [], ◌∷◌, Text, lit}
use kp.KeeperHub.Json.{
  Json, num, str, arr, obj, Items, nil, cons, end, field, null, bool, get, as_text,
}
use kp.KeeperHub.Http.{HttpResponse}
use kp.Policy.Types.{Call, Invariant, Intent}
use kp.Gateway.Authorize.{op_index, call_items, invariant_items}
use kp.Dashboard.Ledger.{HeldIntent}

-- A body of `/api/execute/contract-call`.
pub record GuardRequest : Type 0 where
  pub chain_id : ℕ
  pub contract_address : Text
  pub function_name : Text
  pub function_args : Json
  pub simulate : Bool

-- `would_revert` is `none` where the field is missing or no Boolean.
pub record SimulationReply : Type 0 where
  pub would_revert : Option Bool
  pub gas_estimate : Option Text
  pub revert_reason : Option Text
  pub failure_kind : Option Text

pub record BroadcastReply : Type 0 where
  pub execution_id : Option Text
  pub error : Option Text

unfoldable pub call_objects : List Call → Items
call_objects [] = nil
call_objects (c ∷ cs) =
    cons
      (obj (
        field (lit "target") (str c.target)
          (field (lit "value") (str c.value) (field (lit "data") (str c.calldata) end))))
      (call_objects cs)

unfoldable pub invariant_objects : List Invariant → Items
unfolding op_index
invariant_objects [] = nil
invariant_objects (i ∷ is) =
    cons
      (obj (
        field (lit "target") (str i.target) (
          field (lit "probe") (str i.probe) (
            field (lit "word") (num i.word) (
              field (lit "op") (num (op_index i.op))
                (field (lit "threshold") (str i.threshold) end))))))
      (invariant_objects is)

-- The composite in array form, which is simulated.
unfoldable pub simulation_body : Text → Intent → GuardRequest
unfolding call_items invariant_items
simulation_body guard intent = record {
  chain_id = intent.chain_id;
  contract_address = guard;
  function_name = lit "executeGuarded";
  function_args =
      arr
        (cons (arr (call_items intent.calls)) (cons (arr (invariant_items intent.invariants)) nil));
  simulate = true;
}

-- The composite in object form, which is broadcast.
unfoldable pub broadcast_body : Text → ℕ → List Call → List Invariant → GuardRequest
unfolding call_objects invariant_objects
broadcast_body guard chain_id calls invariants = record {
  chain_id = chain_id;
  contract_address = guard;
  function_name = lit "executeGuarded";
  function_args =
      arr (cons (arr (call_objects calls)) (cons (arr (invariant_objects invariants)) nil));
  simulate = false;
}

unfoldable pub held_intent : Intent → HeldIntent
held_intent intent = record {
  intent_id = intent.id;
  chain_id = intent.chain_id;
  calls = intent.calls;
  invariants = intent.invariants;
}

-- `simulation.wouldRevert !== false`
abbrev pub may_revert : Option Bool → Bool
may_revert (some false) = false
may_revert (some true) = true
may_revert none = true

-- `executionId === "" ? null : { executionId }`
abbrev pub execution_of : Option Text → Option Text
execution_of none = none
execution_of (some []) = none
execution_of (some (c ∷ s)) = some (c ∷ s)

abbrev pub as_bool : Option Json → Option Bool
as_bool (some (bool b)) = some b
as_bool _ = none

-- What is read of an answer's JSON, whatever its status; a member of `null` throws.
unfoldable pub read_json : Json → Option SimulationReply
read_json null = none
read_json j = some (record {
  would_revert = as_bool (get (lit "wouldRevert") j);
  gas_estimate = as_text (get (lit "gasEstimate") j);
  revert_reason = as_text (get (lit "revertReason") j);
  failure_kind = as_text (get (lit "failureKind") j);
})

unfoldable pub read_reply : HttpResponse → Option SimulationReply
unfolding read_json
read_reply r = elim r.body [ none ↦ none | some j ↦ read_json j ]
