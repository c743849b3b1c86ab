-- ===== src/KeeperHub/Simulate/Answered.antt =====
-- A simulation to which KeeperHub gives one answer, however often it is asked.
use kp.Common.{
  ℕ, zero, suc, ◌+◌, ◌≤◌, ◌≡◌, refl, ap, ◌∙◌, inl, inr, Bool, true, false, ◌&&◌, ◌||◌, Option, none,
  some, lit, ltb, ◌==◌, Bool-cases, arith,
}
use kp.Resilience.Breaker.{returned, threw}
use kp.KeeperHub.Json.{get, is_true}
use kp.KeeperHub.Http.{HttpResponse, KeeperHubError, RetryPolicy, envelope, to_error}
use kp.KeeperHub.Outcomes.{to_simulation}
use kp.KeeperHub.Client.{
  HttpRequest, Sent, answered, Judgement, accept, give_up, again, judge, judge_error,
  is_retryable_conflict, attempt_from, send_with_retries,
}
use kp.KeeperHub.Client.Retries.{
  attempt_from_accept, attempt_from_give_up, attempt_from_last, attempt_from_again,
}
use kp.KeeperHub.Simulate.{simulate_contract_call}

-- The client takes an answer below 400, and a simulated revert under 400.
abbrev pub takes : HttpResponse → Bool
takes r = ltb r.status 400 || (r.status == 400 && is_true (get (lit "wouldRevert") (envelope r)))

other_status : (n : ℕ) → (n == 400) ≡ true → (n == 409) ≡ false
other_status n h = ground arith

-- An attempt that is not taken.
abbrev Untaken : Judgement → Type 0
Untaken (accept r) = ⊥
Untaken (give_up e) = Unit
Untaken (again e delay) = Unit

judge_error-Untaken : (e : KeeperHubError) → Untaken (judge_error e)
unfolding judge_error
judge_error-Untaken e = elim (Bool-cases e.retryable) [
  | inl yes_again ↦ rw yes_again tt
  | inr never ↦ rw never tt
]

judge_taken : (r : HttpResponse) (now : ℕ) → takes r ≡ true → judge (answered r) now ≡ accept r
unfolding judge
judge_taken r now h = elim (Bool-cases (ltb r.status 400)) [
  | inl below ↦ rw below refl
  | inr above ↦ elim (Bool-cases (r.status == 400)) [
    | inl bad ↦
        let w : is_true (get (lit "wouldRevert") (envelope r)) ≡ true = rw (above, bad) at h in
        rw above (rw (other_status r.status bad) (rw bad (rw w refl)))
    | inr other ↦ absurd (cc (rw (above, other) at h))
  ]
]

judge-Untaken : (r : HttpResponse) (now : ℕ) → takes r ≡ false → Untaken (judge (answered r) now)
unfolding judge
judge-Untaken r now h = elim (Bool-cases (ltb r.status 400)) [
  | inl below ↦ absurd (cc (rw below at h))
  | inr above ↦ elim (Bool-cases (r.status == 409)) [
    | inl conflict ↦ elim (Bool-cases (is_retryable_conflict r)) [
      | inl running ↦ rw above (rw conflict (rw running tt))
      | inr reused ↦ rw above (rw conflict (rw reused tt))
    ]
    | inr other ↦
        let plain : (r.status == 400 && is_true (get (lit "wouldRevert") (envelope r))) ≡ false =
          rw above at h in
        rw above (rw other (rw plain (judge_error-Untaken (to_error r now))))
  ]
]

module _ (retry : RetryPolicy) (clock random : ℕ → ℕ) (request : HttpRequest)
    (r : HttpResponse) where
  abbrev always : ℕ → Sent
  always attempt = answered r

  next_round :
      (rounds attempt : ℕ) (last : Option KeeperHubError) (j : Judgement)
      → judge (answered r) (clock attempt) ≡ j
      → Untaken j
      → ((other : Option KeeperHubError)
          → (e : KeeperHubError) × ((attempt_from retry always clock random request rounds
                (attempt + 1)
                other).1
              ≡ threw e))
      → (e : KeeperHubError) × ((attempt_from retry always clock random request
            (suc rounds)
            attempt
            last).1
          ≡ threw e)
  next_round rounds attempt last (accept r') j u later = absurd u
  next_round rounds attempt last (give_up e) j u later = (
    e,
    ap (λ x. x.1) (attempt_from_give_up retry always clock random request rounds attempt last j),
  )
  next_round rounds attempt last (again e delay) j u later =
      elim (Bool-cases (attempt == retry.max_attempts)) [
        | inl at_end ↦ (
          e,
          ap (λ x. x.1)
              (attempt_from_last retry always clock random request rounds attempt last j at_end),
        )
        | inr more ↦
            let (e', rest) = later (some e) in
            (
              e',
              ap (λ x. x.1)
                    (attempt_from_again retry always clock random request rounds attempt last j
                      more)
                  ∙ rest,
            )
      ]

  untaken_throws :
      (rounds attempt : ℕ) (last : Option KeeperHubError)
      → takes r ≡ false
      → (e : KeeperHubError) × ((attempt_from retry always clock random request rounds attempt
            last).1
          ≡ threw e)
  unfolding attempt_from
  untaken_throws zero attempt last h = (_, refl)
  untaken_throws (suc rounds) attempt last h =
      next_round rounds attempt last (judge (answered r) (clock attempt)) refl
        (judge-Untaken r (clock attempt) h) (λ other. untaken_throws rounds (attempt + 1) other h)

  taken_returns :
      (rounds attempt : ℕ) (last : Option KeeperHubError)
      → takes r ≡ true
      → 1 ≤ rounds
      → (attempt_from retry always clock random request rounds attempt last).1 ≡ returned r
  taken_returns zero attempt last h n = absurd (omega arith)
  taken_returns (suc rounds) attempt last h n =
      ap (λ x. x.1)
        (attempt_from_accept retry always clock random request rounds attempt last
          (judge_taken r (clock attempt) h))

  -- With an attempt at least, the simulation reads the answer that is taken.
  pub simulate_taken :
      takes r ≡ true
      → 1 ≤ retry.max_attempts
      → simulate_contract_call retry always clock random request
        ≡ returned (to_simulation (envelope r))
  unfolding simulate_contract_call send_with_retries
  simulate_taken h n = rw (simulate_contract_call, taken_returns retry.max_attempts 1 none h n) refl

  -- It throws where the answer is not taken.
  pub simulate_untaken :
      takes r ≡ false
      → (e : KeeperHubError) × (simulate_contract_call retry always clock random request ≡ threw e)
  unfolding simulate_contract_call send_with_retries
  simulate_untaken h =
      let (e, thrown) = untaken_throws retry.max_attempts 1 none h in
      (e, rw (simulate_contract_call, thrown) refl)
