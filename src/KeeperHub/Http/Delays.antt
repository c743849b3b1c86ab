-- ===== src/KeeperHub/Http/Delays.antt =====
-- packages/keeperhub/src/http.ts: the length of delays, and which errors are retried.
use Prim.Native.Nat.{min}
use kp.Common.{
  ℕ, ◌-◌, ◌*◌, ◌/◌, ◌^◌, ◌≤◌, ◌<◌, ◌≡◌, ◌↔◌, ◌⊎◌, inl, inr, true, Option, none, some, arith,
}
use kp.KeeperHub.Http.{HttpResponse, RetryPolicy, to_error, backoff_ms}

scaled_le : (r c : ℕ) → r < 2 ^ 53 → r * c / 2 ^ 53 ≤ c
scaled_le r c h = grind arith

-- With a random draw below one, a delay never passes the policy's maximum, whether the server named
-- it or it was drawn.
pub backoff_ms-le :
    (attempt : ℕ) (policy : RetryPolicy) (random : ℕ) (server : Option ℕ)
    → random < 2 ^ 53
    → backoff_ms attempt policy random server ≤ policy.max_delay_ms
unfolding backoff_ms
backoff_ms-le attempt policy random (some delay) h = omega arith
backoff_ms-le attempt policy random none h =
    omega (
      arith,
      scaled_le random (min policy.max_delay_ms (policy.base_delay_ms * 2 ^ (attempt - 1))) h,
    )

retried_cases :
    (r : HttpResponse) (now : ℕ)
    → (to_error r now).retryable ≡ true
    → (r.status ≡ 429) ⊎ (500 ≤ r.status)
unfolding to_error
retried_cases r now h = ground arith

retried : (r : HttpResponse) (now : ℕ) → 500 ≤ r.status → (to_error r now).retryable ≡ true
unfolding to_error
retried r now h = ground arith

rate_limited : (r : HttpResponse) (now : ℕ) → r.status ≡ 429 → (to_error r now).retryable ≡ true
unfolding to_error
rate_limited r now h = ground arith

-- An error response is retried exactly if it is 429 or a server error.
pub to_error-retryable_iff :
    (r : HttpResponse) (now : ℕ)
    → ((to_error r now).retryable ≡ true) ↔ ((r.status ≡ 429) ⊎ (500 ≤ r.status))
to_error-retryable_iff r now = (
  retried_cases r now,
  elim [ inl limited ↦ rate_limited r now limited | inr failed ↦ retried r now failed ],
)
