-- ===== src/Policy/Types.antt =====
-- packages/policy/src/types.ts and the type of schema.ts: intents, policies, contexts, decisions.
-- A field `data` is called `calldata`. Times are milliseconds since 1970.
use kp.Common.{ℕ, Bool, Option, List, Text}

pub data Verdict : Type 0 where
  allow hold deny : Verdict

pub data Severity : Type 0 where
  hold deny : Severity

-- A value of a reason's `detail`.
pub data Scalar : Type 0 where
  text : Text → Scalar
  num : ℕ → Scalar

pub record Reason : Type 0 where
  pub code : Text
  pub severity : Severity
  pub message : Text
  pub detail : List (Text × Scalar)

pub record Call : Type 0 where
  pub target : Text
  pub value : Text
  pub calldata : Text

pub data InvariantOp : Type 0 where
  gte lte eq rel_dec_max rel_inc_max : InvariantOp

pub record Invariant : Type 0 where
  pub target : Text
  pub probe : Text
  pub word : ℕ
  pub op : InvariantOp
  pub threshold : Text

pub record Intent : Type 0 where
  pub id : Text
  pub chain_id : ℕ
  pub calls : List Call
  pub invariants : List Invariant
  pub rationale : Option Text
  pub submitted_at : Text

-- `at` is the instant that `new Date(at)` reads; `none` is an unreadable date.
pub record HistoryEntry : Type 0 where
  pub at : Option ℕ
  pub verdict : Verdict
  pub native_value : Text

pub record EvalContext : Type 0 where
  pub now : ℕ
  pub history : List HistoryEntry
  pub gas_estimate : Option Text
  pub known_counterparties : List Text

pub record Decision : Type 0 where
  pub verdict : Verdict
  pub reasons : List Reason

pub record Targets : Type 0 where
  pub allow : List Text
  pub selectors : List (Text × List Text)

pub record Limits : Type 0 where
  pub max_native_value_per_intent : Text
  pub max_native_value_per_window : Text
  pub window_seconds : ℕ
  pub max_intents_per_window : ℕ
  pub max_gas : Text

pub record HoldAbove : Type 0 where
  pub native_value : Text
  pub unknown_counterparty : Bool

-- The parsed policy document. `schedule` holds the pair `allowedHoursUtc`, `approvals` the one
-- field `maxApproval`.
pub record Policy : Type 0 where
  pub name : Text
  pub chains : List ℕ
  pub targets : Targets
  pub limits : Limits
  pub hold_above : HoldAbove
  pub schedule : Option (ℕ × ℕ)
  pub max_approval : Text
  pub min_invariants : ℕ
