-- ===== src/KeeperHub/Client/Tests.antt =====
-- Runs of the client against concrete networks, and each theorem on it at one of them.
use kp.Common.{
  ℕ, zero, suc, ◌+◌, ◌≤◌, ◌<◌, ◌≡◌, refl, true, false, none, some, [], ◌∷◌, arith, All, lit,
}
use kp.Resilience.Breaker.{Breaker, opened, returned, new, execute}
use kp.KeeperHub.Json.{bool, obj, end, field, get}
use kp.KeeperHub.Http.{HttpResponse, default_retry, parse_retry_after, to_error, backoff_ms}
use kp.KeeperHub.Client.{
  Method, HttpRequest, Sent, lost, answered, requested, slept, judge, is_transport_fault,
  send_with_retries, guarded_request,
}
use kp.KeeperHub.Client.Retries.{
  IsBounded, IsRetried, Ends, requests, send_with_retries-IsBounded, send_with_retries_lem,
}
use kp.KeeperHub.Client.Guarded.{guarded_request-execute}

abbrev call : HttpRequest
call = record {
  method = Method.post_method;
  path = lit "/api/execute/contract-call";
  body = none;
  idempotency_key = some (lit "key-1");
}

abbrev accepted : HttpResponse
accepted = record { status = 202; retry_after = none; body = none }

abbrev unavailable : HttpResponse
unavailable = record { status = 503; retry_after = none; body = none }

abbrev reverting : HttpResponse
reverting = record {
  status = 400;
  retry_after = none;
  body = some (obj (field (lit "wouldRevert") (bool true) end));
}

-- A socket that dies, a server that is down, then an answer.
abbrev flaky : ℕ → Sent
flaky zero = lost false
flaky (suc zero) = lost true
flaky (suc (suc zero)) = answered unavailable
flaky (suc (suc (suc n))) = answered accepted

abbrev reverts : ℕ → Sent
reverts n = answered reverting

abbrev still : ℕ → ℕ
still n = 0

flaky_run :
    send_with_retries default_retry flaky still still call
    ≡ (requested call ∷ slept 0 ∷ requested call ∷ slept 0 ∷ requested call ∷ [], returned accepted)
unfolding send_with_retries judge backoff_ms to_error parse_retry_after get lit
flaky_run = refl

send_with_retries-IsBounded_example :
    All
      (IsBounded default_retry flaky still still call)
      (send_with_retries default_retry flaky still still call).0
send_with_retries-IsBounded_example =
    send_with_retries-IsBounded default_retry flaky still still call (λ n. omega arith)

send_with_retries_lem_example :
    let (effects, outcome) = send_with_retries default_retry flaky still still call in
    (n : ℕ) × (1 ≤ n)
    × (n ≤ 5)
    × ((m : ℕ) → 1 ≤ m → m < n → IsRetried default_retry flaky still still call m)
    × (1 + requests effects ≡ n + 1)
    × Ends default_retry flaky still still call n outcome
send_with_retries_lem_example =
    send_with_retries_lem default_retry flaky still still call (omega arith)

abbrev fresh : Breaker
fresh = new (record { failure_threshold = none; cooldown_ms = none; success_threshold = none })

abbrev broken : Breaker
broken = record fresh { state = opened; opened_at = 1000 }

guarded_request-execute_example :
    let (b', effects, result) = guarded_request default_retry flaky still still call 0 7 fresh in
    (b', result)
    ≡ execute
        (λ e. is_transport_fault e.kind)
        0
        7
        (send_with_retries default_retry flaky still still call).1
        fresh
guarded_request-execute_example =
    guarded_request-execute default_retry flaky still still call 0 7 fresh
