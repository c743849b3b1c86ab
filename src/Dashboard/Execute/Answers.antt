-- ===== src/Dashboard/Execute/Answers.antt =====
-- One answer of KeeperHub to the simulation, read by apps/dashboard/lib/execute.ts and by the gateway's
-- client.
use mathlib.Core.Option
use kp.Common.{
  ℕ, ◌≤◌, ◌≡◌, refl, sym, subst, ap, ◌∙◌, ◌⊎◌, inl, inr, Bool, true, false, Option, none, some, map,
  Text, lit, Option-cases, some-eq-some, if◌then◌else◌,
}
use kp.Resilience.Breaker.{Settled, returned}
use kp.KeeperHub.Json.{Json, null, bool, num, str, arr, obj, get, is_true}
use kp.KeeperHub.Http.{HttpResponse, KeeperHubError, RetryPolicy, envelope}
use kp.KeeperHub.Outcomes.{ContractCallRequest, SimulationOutcome, to_simulation}
use kp.KeeperHub.Client.{HttpRequest, answered}
use kp.KeeperHub.Simulate.{simulate_contract_call}
use kp.KeeperHub.Simulate.Answered.{takes, simulate_taken, simulate_untaken}
use kp.Policy.Types.{Verdict, Intent, Decision}
use kp.Policy.Rules.Holds.{all_rules}
use kp.Policy.Evaluate.{evaluate}
use kp.Gateway.Authorize.{AuthorizeOptions, to_guard_call, authorize, reason_of_rule}
use kp.Dashboard.Ledger.{Holds}
use kp.Dashboard.Requests.{
  SimulationReply, simulation_body, may_revert, as_bool, read_json, read_reply,
}
use kp.Dashboard.Execute.{Env, context_at, run_intent}
use kp.Dashboard.Execute.Follows.{run_decided, follow_allow}
use kp.Dashboard.Execute.Agrees.{
  verdict_of_payload, verdict_of_result, AnswerAlike, run_intent-authorize, gateway_allow,
  gateway_simulated, gateway_unanswered, dashboard_simulated,
}

-- An answer that says whether the composite would revert: the client takes it, and its `wouldRevert` is a
-- Boolean.
abbrev pub IsClear : HttpResponse → Type 0
IsClear r =
    (takes r ≡ true)
    × (j : Json) × (b : Bool) × (r.body ≡ some j)
    × (get (lit "wouldRevert") j ≡ some (bool b))

-- An answer that is read, but the client does not take it, or it has no such Boolean.
abbrev pub IsUnclear : HttpResponse → SimulationReply → Type 0
IsUnclear r reply =
    (read_reply r ≡ some reply)
    × ((takes r ≡ false) ⊎ ((takes r ≡ true) × (reply.would_revert ≡ none)))

may_revert_known : (b : Bool) → may_revert (some b) ≡ b
may_revert_known true = refl
may_revert_known false = refl

reads_bool :
    (j : Json) (b : Bool)
    → get (lit "wouldRevert") j ≡ some (bool b)
    → (reply : SimulationReply) × (read_json j ≡ some reply) × (reply.would_revert ≡ some b)
unfolding read_json get
reads_bool null b h = cc
reads_bool (bool c) b h = cc
reads_bool (num n) b h = cc
reads_bool (str s) b h = cc
reads_bool (arr items) b h = cc
reads_bool (obj fields) b h = (_, refl, ap as_bool h)

read_reply-some : (r : HttpResponse) (j : Json) → r.body ≡ some j → read_reply r ≡ read_json j
unfolding read_reply
read_reply-some r j h = rw (read_reply, h) refl

simulation_read :
    (r : HttpResponse) (j : Json)
    → r.body ≡ some j
    → (to_simulation (envelope r)).would_revert ≡ is_true (get (lit "wouldRevert") j)
unfolding to_simulation
simulation_read r j h = ap (λ o. is_true (get (lit "wouldRevert") (Option.get_or o null))) h

no_bool : (o : Option Json) → as_bool o ≡ none → is_true o ≡ false
no_bool none h = refl
no_bool (some null) h = refl
no_bool (some (bool b)) h = cc
no_bool (some (num n)) h = refl
no_bool (some (str s)) h = refl
no_bool (some (arr items)) h = refl
no_bool (some (obj fields)) h = refl

alike_of :
    (reply : SimulationReply) (s : SimulationOutcome) (b : Bool)
    → reply.would_revert ≡ some b
    → s.would_revert ≡ b
    → AnswerAlike (some reply) (returned s)
alike_of reply s b p q = ap may_revert p ∙ may_revert_known b ∙ sym q

read_json-bool :
    (j : Json) (reply : SimulationReply)
    → read_json j ≡ some reply
    → reply.would_revert ≡ as_bool (get (lit "wouldRevert") j)
unfolding read_json
read_json-bool null reply h = cc
read_json-bool (bool b) reply h = ap (λ p. p.would_revert) (sym (some-eq-some h))
read_json-bool (num n) reply h = ap (λ p. p.would_revert) (sym (some-eq-some h))
read_json-bool (str s) reply h = ap (λ p. p.would_revert) (sym (some-eq-some h))
read_json-bool (arr items) reply h = ap (λ p. p.would_revert) (sym (some-eq-some h))
read_json-bool (obj fields) reply h = ap (λ p. p.would_revert) (sym (some-eq-some h))

-- Without the Boolean the gateway's reader says that nothing would revert.
unsaid :
    (r : HttpResponse) (reply : SimulationReply)
    → read_reply r ≡ some reply
    → reply.would_revert ≡ none
    → (to_simulation (envelope r)).would_revert ≡ false
unfolding read_reply
unsaid r reply h missing = elim (Option-cases r.body) [
  | inl unread ↦ absurd (cc (rw (read_reply, unread) at h))
  | inr (j, body) ↦
      simulation_read r j body
      ∙ no_bool (get (lit "wouldRevert") j)
          (sym (read_json-bool j reply (sym (read_reply-some r j body) ∙ h)) ∙ missing)
]

module _ (env : Env) (intent : Intent) (holds : Holds) (document : Json)
    (options : AuthorizeOptions) (at : Text) (retry : RetryPolicy) (clock random : ℕ → ℕ)
    (to_request : ContractCallRequest → HttpRequest) (r : HttpResponse)
    (same_policy : env.policy ≡ some (options.policy, document))
    (same_answer : env.simulate (simulation_body env.guard intent) ≡ read_reply r)
    (attempts : 1 ≤ retry.max_attempts) where
  abbrev pub simulator : ContractCallRequest → Settled SimulationOutcome KeeperHubError
  simulator call =
      simulate_contract_call retry (λ attempt. answered r) clock random (to_request call)

  abbrev pub dashboard_verdict : Option Verdict
  dashboard_verdict = verdict_of_payload (run_intent env false intent holds).2

  abbrev pub gateway_verdict : Option Verdict
  gateway_verdict =
      verdict_of_result (authorize env.keccak simulator intent (context_at env.now) options at)

  -- With one policy and one time, and one answer of KeeperHub that the dashboard reads and that the
  -- gateway's client, which tries at least once under a closed circuit, gets at every attempt: if the
  -- client takes the answer and it says whether the composite would revert, then asked for a verdict
  -- alone the dashboard and the gateway give the same one, or both give none.
  pub verdicts_agree : IsClear r → dashboard_verdict ≡ gateway_verdict
  verdicts_agree (taken, j, b, body, says) =
      let (reply, reads, known) = reads_bool j b says in
      let asked = same_answer ∙ read_reply-some r j body ∙ reads in
      let answers =
        simulate_taken retry clock random
          (to_request (to_guard_call intent options.guard options.guard_abi)) r taken attempts in
      run_intent-authorize env intent holds document simulator options at same_policy (
        subst
          (λ o. AnswerAlike o (simulator (to_guard_call intent options.guard options.guard_abi)))
          (sym asked)
          (subst (λ o. AnswerAlike (some reply) o) (sym answers)
            (alike_of reply (to_simulation (envelope r)) b known
              (simulation_read r j body ∙ ap is_true says))))

  module _ (d : Decision)
      (decided : evaluate intent options.policy (context_at env.now) all_rules ≡ some d)
      (allowed : d.verdict ≡ Verdict.allow) where
    dashboard_reads :
        (reply : SimulationReply)
        → read_reply r ≡ some reply
        → dashboard_verdict
          ≡ some (if may_revert reply.would_revert then Verdict.deny else Verdict.allow)
    dashboard_reads reply h =
        ap (λ x. verdict_of_payload x.2)
          (run_decided env false intent holds options.policy document d same_policy decided)
        ∙ ap (λ x. verdict_of_payload x.2) (follow_allow env false intent holds document d allowed)
        ∙ dashboard_simulated env intent holds document simulator options at same_policy
            (map reason_of_rule d.reasons) reply (same_answer ∙ h)

    gateway_throws : takes r ≡ false → gateway_verdict ≡ none
    gateway_throws refused =
        let (e, thrown) =
          simulate_untaken retry clock random
            (to_request (to_guard_call intent options.guard options.guard_abi)) r refused in
        ap (λ x. verdict_of_result x)
          (gateway_allow env intent holds document simulator options at same_policy d decided
            allowed)
        ∙ gateway_unanswered env intent holds document simulator options at same_policy
            (map reason_of_rule d.reasons) e thrown

    gateway_reads :
        takes r ≡ true
        → (to_simulation (envelope r)).would_revert ≡ false
        → gateway_verdict ≡ some Verdict.allow
    gateway_reads taken clean =
        let answers =
          simulate_taken retry clock random
            (to_request (to_guard_call intent options.guard options.guard_abi)) r taken attempts in
        ap (λ x. verdict_of_result x)
          (gateway_allow env intent holds document simulator options at same_policy d decided
            allowed)
        ∙ gateway_simulated env intent holds document simulator options at same_policy
            (map reason_of_rule d.reasons) (to_simulation (envelope r)) answers
        ∙ ap (λ (b : Bool). some (if b then Verdict.deny else Verdict.allow)) clean

    -- With one policy, one time and one answer of KeeperHub, as read by the dashboard and got by the
    -- gateway's client at every attempt, and an intent that the policy allows: if the answer is JSON that
    -- the dashboard reads, but the client does not take it or it does not say whether the composite
    -- would revert, they part. The dashboard denies where the gateway allows, or it gives a verdict
    -- where the gateway fails.
    pub verdicts_apart :
        (reply : SimulationReply)
        → IsUnclear r reply
        → ((dashboard_verdict ≡ some Verdict.deny) × (gateway_verdict ≡ some Verdict.allow))
          ⊎ ((v : Verdict) × (dashboard_verdict ≡ some v) × (gateway_verdict ≡ none))
    verdicts_apart reply (reads, inl refused) =
        inr (_, dashboard_reads reply reads, gateway_throws refused)
    verdicts_apart reply (reads, inr (taken, missing)) = inl (
      dashboard_reads reply reads
          ∙ ap (λ o. some (if may_revert o then Verdict.deny else Verdict.allow)) missing,
      gateway_reads taken (unsaid r reply reads missing),
    )
