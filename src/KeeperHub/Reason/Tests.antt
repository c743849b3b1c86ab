-- ===== src/KeeperHub/Reason/Tests.antt =====
-- A run of the parser of revert reasons.
use kp.Common.{◌≡◌, arith, some, ◌++◌}
use kp.KeeperHub.Reason.{invariant, reason_prefix, parse_guard_denial}
use kp.KeeperHub.Reason.Printed.{payload, parse_guard_denial-payload}

parse_guard_denial-payload_example :
    parse_guard_denial (some (reason_prefix ++ payload (invariant 2 950 1300)))
    ≡ some (invariant 2 950 1300)
parse_guard_denial-payload_example = parse_guard_denial-payload (invariant 2 950 1300) (omega arith)
