-- ===== src/Resilience/Breaker/Invariant.antt =====
-- What holds of a breaker between two calls.
use kp.Common.{◌<◌, ◌≡◌, ◌≢◌, List, [], ◌∷◌, arith}
use kp.Resilience.Breaker.{
  closed, half_open, Breaker, BreakerOptions, or_else, new, Event, step, run,
}

pub record IsValid (b : Breaker) : Type 0 where
  pub positive : 0 < b.failure_threshold
  pub probing : 0 < b.success_threshold
  pub below_threshold : b.state ≡ closed → b.failures < b.failure_threshold
  pub below_success : b.successes < b.success_threshold
  pub idle_probes : b.state ≢ half_open → b.successes ≡ 0

pub new-IsValid :
    (o : BreakerOptions)
    → 0 < or_else o.failure_threshold 5
    → 0 < or_else o.success_threshold 2
    → IsValid (new o)
unfolding new
new-IsValid o f s = ground arith

step-IsValid : (b : Breaker) (e : Event) → IsValid b → IsValid (step b e)
unfolding step
step-IsValid b (Event.ask now) v = ground arith
step-IsValid b (Event.succeed now) v = ground arith
step-IsValid b (Event.fail now) v = ground arith
step-IsValid b (Event.force now) v = ground arith

-- Every sequence of calls keeps the invariant: a closed breaker has counted fewer failures than
-- its threshold, the successes counted are below theirs, and none are counted outside half-open.
pub run-IsValid : (b : Breaker) (es : List Event) → IsValid b → IsValid (run b es)
unfolding run
run-IsValid b [] v = v
run-IsValid b (e ∷ es) v = run-IsValid (step b e) es (step-IsValid b e v)
