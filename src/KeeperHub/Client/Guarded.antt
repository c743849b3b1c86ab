-- ===== src/KeeperHub/Client/Guarded.antt =====
-- `request` of packages/keeperhub/src/client.ts: what it sends, and what it tells the breaker.
use kp.Common.{
  ℕ, zero, suc, ◌+◌, ◌-◌, ◌<◌, ◌≡◌, inl, inr, refl, true, none, [], ◌∷◌, arith, lit, Option-cases,
}
use kp.Resilience.Breaker.{
  Breaker, opened, Settled, returned, threw, circuit_open, settled, assert_allowed, record_success,
  execute, settle,
}
use kp.KeeperHub.Json.{get, is_true}
use kp.KeeperHub.Http.{HttpResponse, KeeperHubError, RetryPolicy, envelope}
use kp.KeeperHub.Client.Retries.{attempt_from_accept}
use kp.KeeperHub.Client.{
  HttpRequest, Sent, answered, requested, judge, accept, is_transport_fault, send_with_retries,
  attempt_from, report, guarded_request,
}

report-settle :
    (now : ℕ) (s : Settled HttpResponse KeeperHubError) (b : Breaker)
    → report now s b ≡ settle (λ e. is_transport_fault e.kind) now s b
unfolding report settle
report-settle now (returned r) b = refl
report-settle now (threw e) b = refl

module _ (retry : RetryPolicy) (transport : ℕ → Sent) (clock random : ℕ → ℕ)
    (request : HttpRequest) where
  -- The client's own use of the breaker comes to `CircuitBreaker.execute` with the retry loop as
  -- its task and the transport faults as its failures.
  pub guarded_request-execute :
      (started ended : ℕ) (b : Breaker)
      → let (b', effects, result) =
          guarded_request retry transport clock random request started ended b in
        (b', result)
        ≡ execute
            (λ e. is_transport_fault e.kind)
            started
            ended
            (send_with_retries retry transport clock random request).1
            b
  unfolding guarded_request execute
  guarded_request-execute started ended b = elim (Option-cases (assert_allowed started b).1) [
    | inl h ↦ rw (guarded_request, execute, h, report-settle) refl
    | inr (ms, h) ↦ rw (guarded_request, execute, h) refl
  ]

  -- While the breaker is open and its cooldown runs, a request reaches no network and waits for
  -- nothing: it is refused at once with the time that is left, and the breaker is unchanged.
  pub guarded_request_cooling :
      (started ended : ℕ) (b : Breaker)
      → b.state ≡ opened
      → started < b.opened_at + b.cooldown_ms
      → guarded_request retry transport clock random request started ended b
        ≡ (b, [], circuit_open (b.opened_at + b.cooldown_ms - started))
  unfolding guarded_request assert_allowed
  guarded_request_cooling started ended b o h = ground arith

  reverting_accepted :
      (r : HttpResponse) (now : ℕ)
      → r.status ≡ 400
      → is_true (get (lit "wouldRevert") (envelope r)) ≡ true
      → judge (answered r) now ≡ accept r
  unfolding judge
  reverting_accepted r now s w = ground arith

  sent :
      (r : HttpResponse) (rounds : ℕ)
      → 0 < rounds
      → transport 1 ≡ answered r
      → r.status ≡ 400
      → is_true (get (lit "wouldRevert") (envelope r)) ≡ true
      → attempt_from retry transport clock random request rounds 1 none
        ≡ (requested request ∷ [], returned r)
  sent r zero m t s w = absurd (omega arith)
  sent r (suc rounds) m t s w =
      attempt_from_accept retry transport clock random request rounds 1 none
        (rw t (reverting_accepted r (clock 1) s w))

  -- A simulation that predicts a revert, which the service answers with 400 and `wouldRevert`, is
  -- a result of the request after one attempt, and the breaker is told of a success, so that
  -- unsafe intents cannot open the circuit.
  pub guarded_request_reverting :
      (started ended : ℕ) (b : Breaker) (r : HttpResponse)
      → 0 < retry.max_attempts
      → (assert_allowed started b).1 ≡ none
      → transport 1 ≡ answered r
      → r.status ≡ 400
      → is_true (get (lit "wouldRevert") (envelope r)) ≡ true
      → guarded_request retry transport clock random request started ended b ≡ (
        record_success ended (assert_allowed started b).0,
        requested request ∷ [],
        settled (returned r),
      )
  unfolding guarded_request report
  guarded_request_reverting started ended b r m allowed t s w =
      rw (guarded_request, allowed, send_with_retries, sent r retry.max_attempts m t s w) refl
