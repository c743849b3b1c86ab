-- ===== src/Gateway/Publish.antt =====
-- `publish` of apps/gateway/src/app.ts: the event of a decision.
mod Accepted
mod Tests
use kp.Common.{Option, Text}
use kp.Events.{DecisionEvent}
use kp.Receipts.Receipt.{Receipt}

-- `traceparent` is what the package @opentelemetry/api gives for the current span.
unfoldable pub decision_event : Text → Text → Option Text → Receipt → Text → DecisionEvent
decision_event policy_hash guard traceparent receipt digest = record {
  intent_id = receipt.intent_id;
  chain_id = receipt.chain_id;
  verdict = receipt.verdict;
  digest = digest;
  policy_hash = policy_hash;
  guard = guard;
  reasons = receipt.reasons;
  simulated = receipt.simulation;
  traceparent = traceparent;
  at = receipt.at;
}
