-- ===== src/Gateway/App/Tests.antt =====
-- Runs of the gateway, and each theorem on it at one of them.
use kp.Common.{
  Option, lower, mem_text, ◌≡◌, ◌≢◌, ◌↔◌, refl, true, false, none, some, List, [], ◌∷◌, lit,
  text_eq, OneOf, inl,
}
use kp.Gateway.App.{Body}
use kp.Gateway.App.Released.{hold-release}
use kp.Common.Int.{◌+ℤ◌}
use kp.Common.Numbers.{is_space, digit, big}
use kp.Policy.Rules.Calls.{sum_values, approval_amount, flat_map_calls, selector_of}
use kp.Policy.Rules.Static.{
  selector_entry, chain_allowed, target_allowlist, selector_allowlist, value_cap,
}
use kp.Policy.Rules.Limits.{
  windowed_limits, schedule_window, approval_bound, gas_ceiling, invariants_required,
}
use kp.Policy.Rules.Holds.{hold_on_large_value, hold_on_unknown_counterparty}
use kp.Policy.Evaluate.{evaluate}
use kp.Resilience.Breaker.{Settled, returned, threw}
use kp.KeeperHub.Json.{null}
use kp.KeeperHub.Http.{KeeperHubError, ErrorKind}
use kp.KeeperHub.Outcomes.{ContractCallRequest, SimulationOutcome, ExecutionAccepted}
use kp.Policy.Samples.{policy, safe, large, context, evaluate-safe}
use kp.Policy.Permits.{Permits}
use kp.Policy.Permits.Allowed.{evaluate-Permits_iff}
use kp.Receipts.Hash.{Bytes}
use kp.Gateway.Authorize.{AuthorizeOptions, to_guard_call}
use kp.Gateway.Authorize.Allows.{IsAllowed, IsSimulated, authorize-allow_iff}
use kp.Gateway.Holds.{HoldStatus, held, HoldRecord, Ledger, release, cancel, resolve}
use kp.Gateway.Holds.Once.{differ}
use kp.Gateway.App.{
  World, Request, post_hold, waiting, post_resolve, post_authorize, broadcasted, missing, handle,
  serve,
}
use kp.Gateway.App.Sanctioned.{IsSanctioned, handle-IsSanctioned}
use kp.Gateway.App.Resolved.{serve-resolved_once}

-- A hash for the runs: four zero bytes.
abbrev zeros : Bytes → Bytes
zeros bytes = 0 ∷ 0 ∷ 0 ∷ 0 ∷ []

abbrev config : AuthorizeOptions
config = record {
  policy = policy;
  policy_hash = lit "0x01";
  guard = lit "0x60";
  guard_abi = lit "[]";
}

abbrev passing : SimulationOutcome
passing = record {
  would_revert = false;
  failure_kind = none;
  revert_reason = none;
  code = none;
  denial = none;
  raw = null;
}

abbrev accepted : ExecutionAccepted
accepted = record {
  execution_id = lit "ex_1";
  status = lit "accepted";
  transaction_hash = none;
  transaction_link = none;
  idempotent_replay = false;
  raw = null;
}

abbrev healthy : ContractCallRequest → Settled SimulationOutcome KeeperHubError
healthy call = returned passing

abbrev world : World
world = record {
  simulate = healthy;
  broadcast = λ call key. returned accepted;
  stores = true;
  now = 32_400_000;
  iso_now = lit "1970-01-01T09:00:00.000Z";
  new_id = lit "hold_2";
}

safe_IsAllowed : IsAllowed zeros healthy safe context config (lit "t")
safe_IsAllowed =
    (authorize-allow_iff zeros healthy safe context config (lit "t")).1
      ((evaluate-Permits_iff safe policy context).0 evaluate-safe, (passing, refl, refl))

authorize-allow_iff_example :
    IsAllowed zeros healthy safe context config (lit "t")
    ↔ (Permits safe policy context × IsSimulated zeros healthy safe context config (lit "t"))
authorize-allow_iff_example = authorize-allow_iff zeros healthy safe context config (lit "t")

-- A simulator that is down.
abbrev down : ContractCallRequest → Settled SimulationOutcome KeeperHubError
down call = threw (record {
  kind = ErrorKind.network;
  status = none;
  retryable = true;
  code = none;
  retry_after_ms = none;
})

-- A record that waits.
abbrev waiting_record : HoldRecord
waiting_record = record {
  hold_id = lit "hold_1";
  intent = large;
  idempotency_key = lit "key-1";
  receipt = safe_IsAllowed.0.receipt;
  digest = lit "0x00";
  status = held;
  at = lit "t0";
  resolved_at = none;
}

abbrev released_record : HoldRecord
released_record = record waiting_record {
  status = HoldStatus.released;
  resolved_at = some (lit "t1");
}

abbrev ledger : Ledger
ledger = waiting_record ∷ []

first_release : (resolve (lit "hold_1") release (lit "t1") ledger).1 ≡ some released_record
unfolding resolve lit text_eq
first_release = refl

abbrev between : List (World × Request)
between = (world, post_resolve cancel (lit "hold_1")) ∷ (world, post_authorize none) ∷ []

unlike : lit "hold_1" ≢ lit "hold_2"
unfolding lit text_eq
unlike = differ (lit "hold_1") (lit "hold_2") refl

serve-resolved_once_example :
    let after =
      (serve zeros config between (resolve (lit "hold_1") release (lit "t1") ledger).0).0 in
    handle zeros config world (post_resolve release (lit "hold_1")) after ≡ (after, [], missing)
serve-resolved_once_example =
    serve-resolved_once zeros config (lit "hold_1") (lit "t1") release release ledger
      released_record between world first_release (unlike, (unlike, tt))

abbrev large_call : ContractCallRequest
large_call = to_guard_call large (lit "0x60") (lit "[]")

large_sent :
    OneOf
      (broadcasted large_call (lit "key-1"))
      (handle zeros config world (post_resolve release (lit "hold_1")) ledger).1
unfolding handle lit text_eq
large_sent = inl refl

handle-IsSanctioned_example :
    IsSanctioned zeros config world
      (post_resolve release (lit "hold_1"))
      ledger
      large_call
      (lit "key-1")
handle-IsSanctioned_example =
    handle-IsSanctioned zeros config world (post_resolve release (lit "hold_1")) ledger large_call
      (lit "key-1") large_sent

abbrev hold_body : Option Body
hold_body = some (record { intent = some large; idempotency_key = some (lit "key-2") })

held_answer :
    (r : HoldRecord) × ((handle zeros config world (post_hold hold_body) []).2 ≡ waiting r)
unfolding handle evaluate chain_allowed target_allowlist selector_allowlist value_cap
    windowed_limits schedule_window approval_bound gas_ceiling invariants_required
    hold_on_large_value hold_on_unknown_counterparty sum_values approval_amount flat_map_calls
    selector_of lit text_eq lower mem_text big selector_entry ◌+ℤ◌ is_space digit
held_answer = (_, refl)

hold-release_example :
    (handle zeros config world
      (post_resolve release held_answer.0.hold_id)
      (handle zeros config world (post_hold hold_body) []).0).1
    ≡ broadcasted
        (to_guard_call held_answer.0.intent config.guard config.guard_abi)
        held_answer.0.idempotency_key
      ∷ []
hold-release_example =
    hold-release zeros config world world hold_body [] held_answer.0 held_answer.1
