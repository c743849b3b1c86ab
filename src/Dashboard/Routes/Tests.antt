-- ===== src/Dashboard/Routes/Tests.antt =====
-- A hold that waits, and the theorems on its routes.
use kp.Common.{◌≡◌, refl, true, none, some, [], ◌∷◌, lit, text_eq}
use kp.Common.Maps.{lookup}
use kp.Gateway.Holds.{held, is_held}
use kp.KeeperHub.Json.{null}
use kp.Policy.Samples.{policy}
use kp.Dashboard.Ledger.{HeldIntent, HoldRecord, Holds, get_hold}
use kp.Dashboard.Execute.{Env}
use kp.Dashboard.Routes.{
  DashboardConfig, hold_missing, released_hold, broadcast_intent, broadcast_intent, start_release,
  finish_release, handle_release, handle_cancel,
}
use kp.Dashboard.Routes.Released.{sent, handle_cancel-handle_release, handle_release_once}

abbrev env : Env
env = record {
  keccak = λ bytes. bytes;
  policy = some (policy, null);
  guard = lit "0x60";
  simulate = λ body. none;
  broadcast = λ body key. some (record { execution_id = some (lit "ex_1"); error = none });
  executor = none;
  now = 32_400_000;
  iso_now = lit "2026-01-01T09:00:00Z";
}

abbrev config : DashboardConfig
config = record {
  has_key = true;
  chain_id = 1;
  target_address = lit "0xAb";
  health_factor_floor = lit "7";
  new_id = lit "int_2";
}

abbrev intent : HeldIntent
intent = record { intent_id = lit "int_1"; chain_id = 1; calls = []; invariants = [] }

abbrev waiting : HoldRecord
waiting = record {
  hold_id = lit "hold_1";
  intent_id = lit "int_1";
  reasons = [];
  digest = lit "0x01";
  intent = intent;
  status = held;
  at = lit "2026";
  released_at = none;
}

abbrev holds : Holds
holds = (lit "hold_1", waiting) ∷ []

found : get_hold (lit "hold_1") holds ≡ some waiting
unfolding get_hold lookup lit text_eq
found = refl

handle_cancel-handle_release_example :
    (handle_release config env
      (lit "hold_1")
      (some intent)
      (handle_cancel env (lit "hold_1") holds).0).1
    ≡ sent config env (lit "hold_1") intent ∷ []
handle_cancel-handle_release_example =
    handle_cancel-handle_release config env (lit "hold_1") holds waiting intent refl found refl

released : (handle_release config env (lit "hold_1") none holds).2 ≡ released_hold (lit "ex_1")
unfolding handle_release start_release finish_release broadcast_intent get_hold lookup lit text_eq
released = refl

handle_release_once_example :
    (r : HoldRecord) × (get_hold (lit "hold_1") holds ≡ some r)
    × (is_held r.status ≡ true)
    × ((handle_release config env (lit "hold_1") none holds).1
        ≡ sent config env (lit "hold_1") r.intent ∷ [])
    × (handle_release config env
          (lit "hold_1")
          none
          (handle_release config env (lit "hold_1") none holds).0
        ≡ ((handle_release config env (lit "hold_1") none holds).0, [], hold_missing))
handle_release_once_example =
    handle_release_once config env env (lit "hold_1") (lit "ex_1") holds released
