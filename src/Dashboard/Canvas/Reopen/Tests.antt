-- ===== src/Dashboard/Canvas/Reopen/Tests.antt =====
-- The policy of the samples, opened in the canvas of apps/dashboard and compiled again.
use kp.Common.{◌≡◌, refl, none}
use kp.Policy.Samples.{policy}
use kp.Dashboard.Canvas.Reopen.Recompiled.{recompiled, recompiled_lem}

recompiled_lem_example :
    ((recompiled 0 policy none).chains ≡ policy.chains)
    × ((recompiled 0 policy none).max_gas ≡ policy.limits.max_gas)
    × ((recompiled 0 policy none).unknown_counterparty ≡ policy.hold_above.unknown_counterparty)
    × ((recompiled 0 policy none).min_invariants ≡ policy.min_invariants)
    × ((recompiled 0 policy none).schedule ≡ none)
recompiled_lem_example = recompiled_lem 0 policy none refl
