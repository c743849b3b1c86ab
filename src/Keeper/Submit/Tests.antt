-- ===== src/Keeper/Submit/Tests.antt =====
-- The theorems on statuses at one verdict each.
use kp.Common.{◌≡◌, ◌≢◌, ◌↔◌, none}
use kp.Policy.Types.{Verdict}
use kp.Keeper.Submit.{read_status, gateway_status, read_status-gateway_status_iff}

read_status-gateway_status_iff_example :
    (read_status (gateway_status Verdict.hold) ≡ none) ↔ (Verdict.hold ≢ Verdict.allow)
read_status-gateway_status_iff_example = read_status-gateway_status_iff Verdict.hold
