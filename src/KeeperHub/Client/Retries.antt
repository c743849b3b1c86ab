-- ===== src/KeeperHub/Client/Retries.antt =====
-- `sendWithRetries` of packages/keeperhub/src/client.ts: its attempts, its delays and its end.
use kp.Common.{
  ℕ, zero, suc, ◌+◌, ◌^◌, ◌≤◌, ◌<◌, ◌≡◌, ◌⊎◌, inl, inr, refl, subst, true, false, Option, none,
  some, List, [], ◌∷◌, arith, All, Bool-cases, ◌==◌,
}
use kp.Resilience.Breaker.{Settled, returned, threw}
use kp.KeeperHub.Http.{HttpResponse, KeeperHubError, RetryPolicy, backoff_ms}
use kp.KeeperHub.Http.Delays.{backoff_ms-le}
use kp.KeeperHub.Client.{
  HttpRequest, Sent, Effect, requested, slept, Judgement, accept, give_up, again, judge,
  attempt_from, send_with_retries,
}

abbrev pub requests : List Effect → ℕ
requests [] = 0
requests (requested r ∷ effects) = suc (requests effects)
requests (slept ms ∷ effects) = requests effects

pub judgement_cases :
    (j : Judgement)
    → ((r : HttpResponse) × (j ≡ accept r))
      ⊎ ((e : KeeperHubError) × (j ≡ give_up e))
      ⊎ ((e : KeeperHubError) × (delay : Option ℕ) × (j ≡ again e delay))
judgement_cases (accept r) = inl (r, refl)
judgement_cases (give_up e) = inr (inl (e, refl))
judgement_cases (again e delay) = inr (inr (e, delay, refl))

module _ (retry : RetryPolicy) (transport : ℕ → Sent) (clock random : ℕ → ℕ)
    (request : HttpRequest) where
  -- One round of the loop, for each judgement.
  pub attempt_from_accept :
      {r : HttpResponse} (rounds attempt : ℕ) (last : Option KeeperHubError)
      → judge (transport attempt) (clock attempt) ≡ accept r
      → attempt_from retry transport clock random request (suc rounds) attempt last
        ≡ (requested request ∷ [], returned r)
  unfolding attempt_from
  attempt_from_accept rounds attempt last j = rw (attempt_from, j) refl

  pub attempt_from_give_up :
      {e : KeeperHubError} (rounds attempt : ℕ) (last : Option KeeperHubError)
      → judge (transport attempt) (clock attempt) ≡ give_up e
      → attempt_from retry transport clock random request (suc rounds) attempt last
        ≡ (requested request ∷ [], threw e)
  unfolding attempt_from
  attempt_from_give_up rounds attempt last j = rw (attempt_from, j) refl

  pub attempt_from_last :
      {e : KeeperHubError} {delay : Option ℕ} (rounds attempt : ℕ) (last : Option KeeperHubError)
      → judge (transport attempt) (clock attempt) ≡ again e delay
      → attempt == retry.max_attempts ≡ true
      → attempt_from retry transport clock random request (suc rounds) attempt last
        ≡ (requested request ∷ [], threw e)
  unfolding attempt_from
  attempt_from_last rounds attempt last j b = rw (attempt_from, j, b) refl

  pub attempt_from_again :
      {e : KeeperHubError} {delay : Option ℕ} (rounds attempt : ℕ) (last : Option KeeperHubError)
      → judge (transport attempt) (clock attempt) ≡ again e delay
      → attempt == retry.max_attempts ≡ false
      → attempt_from retry transport clock random request (suc rounds) attempt last ≡ (
          let (effects, outcome) =
            attempt_from retry transport clock random request rounds (attempt + 1) (some e) in
          (
            requested request ∷ slept (backoff_ms attempt retry (random attempt) delay) ∷ effects,
            outcome,
          ))
  unfolding attempt_from
  attempt_from_again rounds attempt last j b = rw (attempt_from, j, b) refl

  -- The request that is sent, or a sleep within the policy's maximum.
  abbrev pub IsBounded : Effect → Type 0
  IsBounded (requested r) = r ≡ request
  IsBounded (slept ms) = ms ≤ retry.max_delay_ms

  none_sent :
      (attempt : ℕ) (last : Option KeeperHubError)
      → All IsBounded (attempt_from retry transport clock random request 0 attempt last).0
  unfolding attempt_from
  none_sent attempt last = tt

  attempt_from-IsBounded :
      ((n : ℕ) → random n < 2 ^ 53)
      → (rounds attempt : ℕ) (last : Option KeeperHubError)
      → All IsBounded (attempt_from retry transport clock random request rounds attempt last).0
  attempt_from-IsBounded draws zero attempt last = none_sent attempt last
  attempt_from-IsBounded draws (suc rounds) attempt last =
      elim (judgement_cases (judge (transport attempt) (clock attempt))) [
        | inl (r, j) ↦ rw (attempt_from_accept rounds attempt last j) (refl, tt)
        | inr (inl (e, j)) ↦ rw (attempt_from_give_up rounds attempt last j) (refl, tt)
        | inr (inr (e, delay, j)) ↦ elim (Bool-cases (attempt == retry.max_attempts)) [
          | inl b ↦ rw (attempt_from_last rounds attempt last j b) (refl, tt)
          | inr b ↦ rw (attempt_from_again rounds attempt last j b) (
            refl,
            (
              backoff_ms-le attempt retry (random attempt) delay (draws attempt),
              attempt_from-IsBounded draws rounds (attempt + 1) (some e),
            ),
          )
        ]
      ]

  -- Whatever the network does, with random draws below one, every request of the loop is the one
  -- request, so under the one idempotency key, and no sleep is longer than the policy's maximum.
  pub send_with_retries-IsBounded :
      ((n : ℕ) → random n < 2 ^ 53)
      → All IsBounded (send_with_retries retry transport clock random request).0
  unfolding send_with_retries
  send_with_retries-IsBounded draws = attempt_from-IsBounded draws retry.max_attempts 1 none

  -- How the attempt `n` ends the loop.
  abbrev pub Ends : ℕ → Settled HttpResponse KeeperHubError → Type 0
  Ends n (returned r) = judge (transport n) (clock n) ≡ accept r
  Ends n (threw e) =
      (judge (transport n) (clock n) ≡ give_up e)
      ⊎ ((n ≡ retry.max_attempts)
          × ((delay : Option ℕ) × (judge (transport n) (clock n) ≡ again e delay)))

  abbrev pub IsRetried : ℕ → Type 0
  IsRetried n =
      (e : KeeperHubError) × (delay : Option ℕ) × (judge (transport n) (clock n) ≡ again e delay)

  IsRetried-step :
      {n : ℕ} {e : KeeperHubError} {delay : Option ℕ} (a : ℕ)
      → judge (transport a) (clock a) ≡ again e delay
      → ((m : ℕ) → a + 1 ≤ m → m < n → IsRetried m)
      → (m : ℕ) → a ≤ m
      → m < n
      → IsRetried m
  IsRetried-step {e = e} {delay = delay} a j before m from to = elim (Bool-cases (a == m)) [
    | inl same ↦
        (e, delay, subst (λ k. judge (transport k) (clock k) ≡ again e delay) (ground arith) j)
    | inr other ↦ before m (ground arith) to
  ]

  attempt_from_lem :
      (rounds attempt : ℕ) (last : Option KeeperHubError)
      → attempt + rounds ≡ retry.max_attempts + 1
      → 0 < rounds
      → let (effects, outcome) =
          attempt_from retry transport clock random request rounds attempt last in
        (n : ℕ) × (attempt ≤ n)
        × (n ≤ retry.max_attempts)
        × ((m : ℕ) → attempt ≤ m → m < n → IsRetried m)
        × (attempt + requests effects ≡ n + 1)
        × Ends n outcome
  attempt_from_lem zero attempt last h k = absurd (omega arith)
  attempt_from_lem (suc rounds) attempt last h k =
      elim (judgement_cases (judge (transport attempt) (clock attempt))) [
        | inl (r, j) ↦
            rw (attempt_from_accept rounds attempt last j)
              (attempt, omega arith, omega arith, λ m a b. absurd (omega arith), refl, j)
        | inr (inl (e, j)) ↦
            rw (attempt_from_give_up rounds attempt last j)
              (attempt, omega arith, omega arith, λ m a b. absurd (omega arith), refl, inl j)
        | inr (inr (e, delay, j)) ↦ elim (Bool-cases (attempt == retry.max_attempts)) [
          | inl b ↦ rw (attempt_from_last rounds attempt last j b) (
            attempt,
            omega arith,
            omega arith,
            λ m a b. absurd (omega arith),
            refl,
            inr (ground arith, (delay, j)),
          )
          | inr b ↦
              let (n, from, to, before, count, ends) =
                attempt_from_lem rounds (attempt + 1) (some e) (omega arith) (ground arith) in
              rw (attempt_from_again rounds attempt last j b)
                (n, omega arith, to, IsRetried-step attempt j before, omega arith, ends)
        ]
      ]

  -- Where the policy allows an attempt at all, the loop makes at least one request and at most the
  -- policy's number, one for each attempt up to the one that ends it. All attempts before that were to be retried. It returns a response
  -- that the last attempt gave and that is accepted, or throws the error of the last attempt, which
  -- was not to be retried or was the last one allowed.
  pub send_with_retries_lem :
      0 < retry.max_attempts
      → let (effects, outcome) = send_with_retries retry transport clock random request in
        (n : ℕ) × (1 ≤ n)
        × (n ≤ retry.max_attempts)
        × ((m : ℕ) → 1 ≤ m → m < n → IsRetried m)
        × (1 + requests effects ≡ n + 1)
        × Ends n outcome
  unfolding send_with_retries
  send_with_retries_lem h = attempt_from_lem retry.max_attempts 1 none (omega arith) h
