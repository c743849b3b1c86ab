-- ===== src/Keeper/Submit.antt =====
-- `submit` of apps/keeper/src/index.ts: how the keeper reads the status of a response of
-- `/v1/execute`, and the statuses that the gateway (apps/gateway/src/app.ts) answers. The network,
-- the reads of the chain and the endless loop around a tick are left out.
mod Tests
use kp.Common.{
  ◌≡◌, ◌≢◌, ◌↔◌, inl, inr, refl, Option, none, some, Text, lit, text_eq, lower, if◌then◌else◌,
}
use kp.Policy.Types.{Verdict}
use kp.Receipts.Receipt.{verdict_name}
use kp.Keeper.Core.{Submitted, submitted, held, denied}
use kp.Gateway.Authorize.Allows.{verdict_cases}
use kp.Dashboard.Execute.{Live, live}
use kp.Dashboard.Routes.{execute_status}

-- `none` is the error for a status that is not expected.
unfoldable pub read_status : Text → Option Submitted
read_status s =
    if text_eq s (lit "submitted")
    then some submitted
    else if text_eq s (lit "held")
    then some held
    else if text_eq s (lit "denied")
    then some denied
    else none

-- `status` of a response of the gateway that is no error.
unfoldable pub gateway_status : Verdict → Text
gateway_status Verdict.allow = lit "submitted"
gateway_status Verdict.hold = lower (verdict_name Verdict.hold)
gateway_status Verdict.deny = lower (verdict_name Verdict.deny)

abbrev pub outcome_of : Verdict → Submitted
outcome_of Verdict.allow = submitted
outcome_of Verdict.hold = held
outcome_of Verdict.deny = denied

-- The keeper cannot read the gateway's answer exactly if the intent is held or denied: it throws,
-- although the gateway has decided.
pub read_status-gateway_status_iff :
    (v : Verdict) → (read_status (gateway_status v) ≡ none) ↔ (v ≢ Verdict.allow)
unfolding read_status gateway_status verdict_name lower lit text_eq
read_status-gateway_status_iff Verdict.allow = (λ h. cc, λ n. absurd (n refl))
read_status-gateway_status_iff Verdict.hold = (λ h. λ e. cc, λ n. refl)
read_status-gateway_status_iff Verdict.deny = (λ h. λ e. cc, λ n. refl)

submitted_read : read_status (lit "submitted") ≡ some submitted
unfolding read_status lit text_eq
submitted_read = refl

held_read : read_status (lit "held") ≡ some held
unfolding read_status lit text_eq
held_read = refl

denied_read : read_status (lit "denied") ≡ some denied
unfolding read_status lit text_eq
denied_read = refl

-- The keeper reads every verdict that the dashboard answers as that verdict.
pub read_status-execute_status :
    (p : Live) → read_status (execute_status (live p)) ≡ some (outcome_of p.verdict)
unfolding execute_status
read_status-execute_status p = elim (verdict_cases p.verdict) [
  | inl a ↦ rw (execute_status, a) submitted_read
  | inr (inl h) ↦ rw (execute_status, h) held_read
  | inr (inr d) ↦ rw (execute_status, d) denied_read
]
