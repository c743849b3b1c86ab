-- ===== src/Resilience/Breaker/Tests.antt =====
-- Runs of a breaker, and each theorem at an input that meets its conditions.
use kp.Common.{◌≡◌, refl, none, some, [], ◌∷◌, arith}
use kp.Resilience.Breaker.{
  closed, opened, half_open, Breaker, BreakerOptions, new, Event, step, run,
}
use kp.Resilience.Breaker.Invariant.{IsValid, run-IsValid}
use kp.Resilience.Breaker.Changes.{IsTraced, new-run-IsTraced}
use kp.Resilience.Breaker.Traces.{probes, recovers}

abbrev options : BreakerOptions
options = record { failure_threshold = some 3; cooldown_ms = some 1000; success_threshold = none }

abbrev fresh : Breaker
fresh = record {
  state = closed;
  failures = 0;
  successes = 0;
  opened_at = 0;
  failure_threshold = 3;
  cooldown_ms = 1000;
  success_threshold = 2;
  changes = [];
}

abbrev tripped : Breaker
tripped = record fresh {
  state = opened;
  failures = 3;
  opened_at = 50;
  changes = (closed, opened) ∷ [];
}

abbrev probing : Breaker
probing = record tripped { state = half_open }

new-options : new options ≡ fresh
unfolding new
new-options = refl

trips : run fresh (Event.fail 10 ∷ Event.fail 20 ∷ Event.fail 50 ∷ []) ≡ tripped
unfolding run step
trips = refl

fresh-IsValid : IsValid fresh
fresh-IsValid = ground arith

run-IsValid_example : IsValid (run fresh (Event.fail 10 ∷ Event.succeed 20 ∷ []))
run-IsValid_example = run-IsValid fresh (Event.fail 10 ∷ Event.succeed 20 ∷ []) fresh-IsValid

new-run-IsTraced_example : IsTraced (run (new options) (Event.fail 10 ∷ Event.force 20 ∷ []))
new-run-IsTraced_example = new-run-IsTraced options (Event.fail 10 ∷ Event.force 20 ∷ [])

recovers_example :
    let b = run tripped (probes (1050 ∷ 1060 ∷ [])) in (b.state ≡ closed) × (b.failures ≡ 0)
recovers_example = recovers (1060 ∷ []) 1050 tripped (ground arith) refl (omega arith) refl
