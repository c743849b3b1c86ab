-- ===== src/Keeper/Core/Tests.antt =====
-- Runs of the keeper, and each theorem on it at one of them.
use kp.Common.{◌+◌, ◌-◌, ◌*◌, ◌≤◌, ◌<◌, ◌≡◌, refl, none, some}
use kp.Keeper.Core.{decide}
use kp.Keeper.Core.Repays.{backing, decide_restores}

-- A collateral of 100 and a debt of 60 with a target of 1.5: the keeper repays 10.
repays : decide 1250 60 100 1300 1_500_000_000_000_000_000 ≡ some (some 10)
unfolding decide
repays = refl

idles : decide 1250 40 100 1300 1_500_000_000_000_000_000 ≡ some none
unfolding decide
idles = refl

decide_restores_example :
    (1250 < 1300)
    × (0 < 10)
    × (10 ≤ 60)
    × ((60 - 10) * 1_500_000_000_000_000_000 ≤ backing 100)
    × (backing 100 < (60 - 10 + 1) * 1_500_000_000_000_000_000)
decide_restores_example = decide_restores 1250 60 100 1300 1_500_000_000_000_000_000 10 repays
