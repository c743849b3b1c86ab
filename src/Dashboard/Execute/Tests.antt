-- ===== src/Dashboard/Execute/Tests.antt =====
-- An intent that the sample policy permits, and the theorems on the pipeline at it.
use kp.Common.{◌≡◌, ◌⊎◌, inr, refl, true, false, none, some, [], ◌∷◌, lit, text_eq, All, arith}
use kp.Policy.Samples.{policy, safe, allowed, evaluate-safe}
use kp.Policy.Types.{Verdict}
use kp.Policy.Rules.Holds.{all_rules}
use kp.Policy.Evaluate.{evaluate}
use kp.KeeperHub.Json.{Json, null, bool, obj, field, end, get, find}
use kp.KeeperHub.Http.{HttpResponse, RetryPolicy}
use kp.KeeperHub.Outcomes.{ContractCallRequest}
use kp.KeeperHub.Client.{HttpRequest, post_method}
use kp.KeeperHub.Simulate.Answered.{takes}
use kp.Receipts.Hash.{Bytes}
use kp.Gateway.Authorize.{AuthorizeOptions}
use kp.Dashboard.Requests.{SimulationReply, read_json, read_reply}
use kp.Dashboard.Execute.{Env, context_at, run_intent}
use kp.Dashboard.Execute.Sanctioned.{IsSanctioned, run_intent-IsSanctioned}
use kp.Dashboard.Execute.Answers.{
  IsUnclear, dashboard_verdict, gateway_verdict, verdicts_agree, verdicts_apart,
}

abbrev zeros : Bytes → Bytes
zeros bytes = 0 ∷ 0 ∷ 0 ∷ 0 ∷ []

abbrev passing : SimulationReply
passing = record {
  would_revert = some false;
  gas_estimate = some (lit "21000");
  revert_reason = none;
  failure_kind = none;
}

abbrev env : Env
env = record {
  keccak = zeros;
  policy = some (policy, null);
  guard = lit "0x60";
  simulate = λ body. some passing;
  broadcast = λ body key. some (record { execution_id = some (lit "ex_1"); error = none });
  executor = none;
  now = 32_400_000;
  iso_now = lit "2026-01-01T09:00:00Z";
}

run_intent-IsSanctioned_example :
    All (IsSanctioned env true safe []) (run_intent env true safe []).1
run_intent-IsSanctioned_example = run_intent-IsSanctioned env true safe []

abbrev options : AuthorizeOptions
options = record {
  policy = policy;
  policy_hash = lit "0x01";
  guard = lit "0x60";
  guard_abi = lit "[]";
}

abbrev retry : RetryPolicy
retry = record { max_attempts = 2; base_delay_ms = 1; max_delay_ms = 1 }

abbrev to_request : ContractCallRequest → HttpRequest
to_request call = record {
  method = post_method;
  path = lit "/";
  body = none;
  idempotency_key = none;
}

-- An answer, and the environment in which the dashboard gets it.
abbrev response : Json → HttpResponse
response body = record { status = 200; retry_after = none; body = some body }

abbrev under : Json → Env
under body = record env { simulate = λ asked. read_reply (response body) }

abbrev clear : Json
clear = obj (field (lit "wouldRevert") (bool false) end)

abbrev silent : Json
silent = obj end

taken : takes (response clear) ≡ true
taken = refl

said : get (lit "wouldRevert") clear ≡ some (bool false)
unfolding get find lit text_eq
said = refl

verdicts_agree_example :
    dashboard_verdict
      (under clear)
      safe
      []
      null
      options
      (lit "2026")
      retry
      (λ i. 0)
      (λ i. 0)
      to_request
      (response clear)
      refl
      refl
      (omega arith)
    ≡ gateway_verdict
        (under clear)
        safe
        []
        null
        options
        (lit "2026")
        retry
        (λ i. 0)
        (λ i. 0)
        to_request
        (response clear)
        refl
        refl
        (omega arith)
verdicts_agree_example =
    verdicts_agree (under clear) safe [] null options (lit "2026") retry (λ i. 0) (λ i. 0)
      to_request (response clear) refl refl (omega arith) (taken, clear, false, refl, said)

permits : evaluate safe policy (context_at 32_400_000) all_rules ≡ some allowed
permits = evaluate-safe

abbrev unsure : SimulationReply
unsure = record {
  would_revert = none;
  gas_estimate = none;
  revert_reason = none;
  failure_kind = none;
}

unread : IsUnclear (response silent) unsure
unfolding read_reply read_json get find
unread = (refl, inr (refl, refl))

verdicts_apart_example :
    ((dashboard_verdict
          (under silent)
          safe
          []
          null
          options
          (lit "2026")
          retry
          (λ i. 0)
          (λ i. 0)
          to_request
          (response silent)
          refl
          refl
          (omega arith)
        ≡ some Verdict.deny)
      × (gateway_verdict
            (under silent)
            safe
            []
            null
            options
            (lit "2026")
            retry
            (λ i. 0)
            (λ i. 0)
            to_request
            (response silent)
            refl
            refl
            (omega arith)
          ≡ some Verdict.allow))
    ⊎ ((v : Verdict) × (dashboard_verdict
            (under silent)
            safe
            []
            null
            options
            (lit "2026")
            retry
            (λ i. 0)
            (λ i. 0)
            to_request
            (response silent)
            refl
            refl
            (omega arith)
          ≡ some v)
        × (gateway_verdict
              (under silent)
              safe
              []
              null
              options
              (lit "2026")
              retry
              (λ i. 0)
              (λ i. 0)
              to_request
              (response silent)
              refl
              refl
              (omega arith)
            ≡ none))
verdicts_apart_example =
    verdicts_apart (under silent) safe [] null options (lit "2026") retry (λ i. 0) (λ i. 0)
      to_request (response silent) refl refl (omega arith) allowed permits refl unsure unread
