-- ===== src/KeeperHub/Client.antt =====
-- packages/keeperhub/src/client.ts: one request with its retries, under the circuit breaker.
-- What the network does is a function of the attempt, and so are the clock and the random draws;
-- what the client does, the requests and the sleeps, is a list in order. The `authorization` and
-- `accept` headers and the base URL, which are the same on every request, are left out.
pub mod Retries
pub mod Guarded
mod Tests
use mathlib.Core.Option
use kp.Common.{
  ℕ, zero, suc, ◌+◌, Bool, true, false, not, ◌&&◌, ◌||◌, Option, none, some, List, [], ◌∷◌, Text,
  lit, ltb, leb, ◌==◌, if◌then◌else◌,
}
use kp.Resilience.Breaker.{
  Breaker, Settled, returned, threw, Executed, circuit_open, settled, assert_allowed,
  record_success, record_failure,
}
use kp.KeeperHub.Json.{Json, null, get, is_true, is_text}
use kp.KeeperHub.Http.{
  HttpResponse, ErrorKind, KeeperHubError, RetryPolicy, envelope, to_error, backoff_ms,
}

pub data Method : Type 0 where
  get_method post_method : Method

pub record HttpRequest : Type 0 where
  pub method : Method
  pub path : Text
  pub body : Option Json
  pub idempotency_key : Option Text

-- What the transport does with a request: it throws (by a timeout or not), or it answers.
pub data Sent : Type 0 where
  lost : Bool → Sent
  answered : HttpResponse → Sent

pub data Effect : Type 0 where
  requested : HttpRequest → Effect
  slept : ℕ → Effect

unfoldable pub is_transport_fault : ErrorKind → Bool
is_transport_fault ErrorKind.network = true
is_transport_fault ErrorKind.timeout = true
is_transport_fault ErrorKind.rate_limited = true
is_transport_fault ErrorKind.cold_start = true
is_transport_fault ErrorKind.upstream = true
is_transport_fault _ = false

network_error : Bool → KeeperHubError
network_error timed_out = record {
  kind = if timed_out then ErrorKind.timeout else ErrorKind.network;
  status = none;
  retryable = true;
  code = none;
  retry_after_ms = none;
}

unfoldable pub is_retryable_conflict : HttpResponse → Bool
is_retryable_conflict r = is_text (get (lit "code") (envelope r)) (lit "idempotency_in_progress")

-- What the loop does with an attempt that is not the last.
pub data Judgement : Type 0 where
  accept : HttpResponse → Judgement
  give_up : KeeperHubError → Judgement
  again : KeeperHubError → Option ℕ → Judgement

unfoldable pub judge_error : KeeperHubError → Judgement
judge_error e = if not e.retryable then give_up e else again e e.retry_after_ms

unfoldable pub judge : Sent → ℕ → Judgement
unfolding network_error is_retryable_conflict judge_error
judge (lost timed_out) now = again (network_error timed_out) none
judge (answered r) now =
    if ltb r.status 400
    then accept r
    else if r.status == 409
    then if not (is_retryable_conflict r)
      then give_up (to_error r now)
      else again (to_error r now) none
    else if r.status == 400 && is_true (get (lit "wouldRevert") (envelope r))
    then accept r
    else judge_error (to_error r now)

exhausted : KeeperHubError
exhausted = record {
  kind = ErrorKind.unknown;
  status = none;
  retryable = false;
  code = none;
  retry_after_ms = none;
}

-- What `request` tells the breaker when the loop has ended.
unfoldable pub report : ℕ → Settled HttpResponse KeeperHubError → Breaker → Breaker
report now (returned r) b = record_success now b
report now (threw e) b =
    if is_transport_fault e.kind then record_failure now b else record_success now b

module _ (retry : RetryPolicy) (transport : ℕ → Sent) (clock random : ℕ → ℕ)
    (request : HttpRequest) where
  -- The `for` loop from an attempt on, with the number of rounds left.
  unfoldable pub attempt_from :
      ℕ → ℕ → Option KeeperHubError → List Effect × Settled HttpResponse KeeperHubError
  unfolding exhausted
  attempt_from zero attempt last = ([], threw (Option.get_or last exhausted))
  attempt_from (suc rounds) attempt last = elim (judge (transport attempt) (clock attempt)) [
    | accept r ↦ (requested request ∷ [], returned r)
    | give_up e ↦ (requested request ∷ [], threw e)
    | again e delay ↦
        let (effects, outcome) = attempt_from rounds (attempt + 1) (some e) in
        if attempt == retry.max_attempts then (requested request ∷ [], threw e) else (
          requested request ∷ slept (backoff_ms attempt retry (random attempt) delay) ∷ effects,
          outcome,
        )
  ]

  unfoldable pub send_with_retries : List Effect × Settled HttpResponse KeeperHubError
  unfolding attempt_from
  send_with_retries = attempt_from retry.max_attempts 1 none

  -- `request` under a breaker: its check at `started`, and its report at `ended`.
  unfoldable pub guarded_request :
      ℕ → ℕ → Breaker → Breaker × List Effect × Executed HttpResponse KeeperHubError
  unfolding send_with_retries report
  guarded_request started ended b =
      let (b', refused) = assert_allowed started b in
      elim refused [
        | some ms ↦ (b', [], circuit_open ms)
        | none ↦
            (report ended send_with_retries.1 b', send_with_retries.0, settled send_with_retries.1)
      ]
