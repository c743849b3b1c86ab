-- ===== src/Resilience/Breaker.antt =====
-- packages/resilience/src/breaker.ts: the circuit breaker that fails closed.
-- A method that mutates the breaker returns the new record; calls of `onStateChange` are kept in
-- `changes`, in order. Times are in milliseconds, and a method reads the clock once.
pub mod Invariant
pub mod Changes
pub mod Traces
mod Tests
use kp.Common.{
  ℕ, ◌+◌, ◌-◌, Bool, true, false, not, ◌&&◌, Option, none, some, List, [], ◌∷◌, ◌++◌, leb,
  if◌then◌else◌,
}

-- `open` is a reserved word.
pub data BreakerState : Type 0 where
  closed opened half_open : BreakerState

abbrev pub state_code : BreakerState → ℕ
state_code closed = 0
state_code half_open = 1
state_code opened = 2

abbrev pub is_opened : BreakerState → Bool
is_opened opened = true
is_opened _ = false

abbrev pub is_half_open : BreakerState → Bool
is_half_open half_open = true
is_half_open _ = false

abbrev pub is_closed : BreakerState → Bool
is_closed closed = true
is_closed _ = false

abbrev pub state_eq : BreakerState → BreakerState → Bool
state_eq closed s = is_closed s
state_eq opened s = is_opened s
state_eq half_open s = is_half_open s

pub record Breaker : Type 0 where
  pub state : BreakerState
  pub failures : ℕ
  pub successes : ℕ
  pub opened_at : ℕ
  pub failure_threshold : ℕ
  pub cooldown_ms : ℕ
  pub success_threshold : ℕ
  pub changes : List (BreakerState × BreakerState)

pub record BreakerOptions : Type 0 where
  pub failure_threshold : Option ℕ
  pub cooldown_ms : Option ℕ
  pub success_threshold : Option ℕ

-- `option ?? fallback`
abbrev pub or_else {ℓ} : {A : Type ℓ} → Option A → A → A
or_else none d = d
or_else (some a) d = a

unfoldable pub new : BreakerOptions → Breaker
new o = record {
  state = closed;
  failures = 0;
  successes = 0;
  opened_at = 0;
  failure_threshold = or_else o.failure_threshold 5;
  cooldown_ms = or_else o.cooldown_ms 30_000;
  success_threshold = or_else o.success_threshold 2;
  changes = [];
}

unfoldable pub transition : ℕ → BreakerState → Breaker → Breaker
transition now to b = if state_eq b.state to then b else record b {
  state = to;
  opened_at = if is_opened to then now else b.opened_at;
  successes = if is_half_open to then b.successes else 0;
  failures = if is_closed to then 0 else b.failures;
  changes = b.changes ++ (b.state, to) ∷ [];
}

-- `now - openedAt >= cooldownMs`, with the subtraction moved to the other side
unfoldable pub maybe_half_open : ℕ → Breaker → Breaker
unfolding transition
maybe_half_open now b =
    if is_opened b.state && leb (b.opened_at + b.cooldown_ms) now
    then transition now half_open b
    else b

unfoldable pub current : ℕ → Breaker → Breaker × BreakerState
unfolding maybe_half_open
current now b = let b' = maybe_half_open now b in (b', b'.state)

unfoldable pub code : ℕ → Breaker → Breaker × ℕ
unfolding current
code now b = let (b', s) = current now b in (b', state_code s)

-- Subtraction on ℕ stops at 0, which is the source's `Math.max(0, …)`.
unfoldable pub retry_after_ms : ℕ → Breaker → Breaker × ℕ
unfolding current
retry_after_ms now b =
    let (b', s) = current now b in
    (b', if is_opened s then b'.opened_at + b'.cooldown_ms - now else 0)

unfoldable pub allows : ℕ → Breaker → Breaker × Bool
unfolding current
allows now b = let (b', s) = current now b in (b', not (is_opened s))

-- `some ms` is the thrown `CircuitOpenError(ms)`.
unfoldable pub assert_allowed : ℕ → Breaker → Breaker × Option ℕ
unfolding allows retry_after_ms
assert_allowed now b =
    let (b', allowed) = allows now b in
    if allowed then (b', none) else let (b'', ms) = retry_after_ms now b' in (b'', some ms)

-- A success of a probe, in half-open.
note_probe : ℕ → Breaker → Breaker
unfolding transition
note_probe now b = if leb b.success_threshold b.successes then transition now closed b else b

-- The part of `recordSuccess` behind `maybeHalfOpen`.
note_success : ℕ → Breaker → Breaker
unfolding note_probe
note_success now b =
    if is_half_open b.state
    then note_probe now (record b { successes = b.successes + 1 })
    else record b { failures = 0 }

unfoldable pub record_success : ℕ → Breaker → Breaker
unfolding maybe_half_open note_success
record_success now b = note_success now (maybe_half_open now b)

-- The part of `recordFailure` behind `maybeHalfOpen`.
note_failure : ℕ → Breaker → Breaker
unfolding transition
note_failure now b =
    let b' = record b { failures = b.failures + 1 } in
    if is_half_open b.state
    then transition now opened b'
    else if leb b'.failure_threshold b'.failures
    then transition now opened b'
    else b'

unfoldable pub record_failure : ℕ → Breaker → Breaker
unfolding maybe_half_open note_failure
record_failure now b = note_failure now (maybe_half_open now b)

unfoldable pub reset : ℕ → Breaker → Breaker
unfolding transition
reset now b = transition now closed (record b { failures = 0; successes = 0 })

-- What an asynchronous task ends in.
pub data Settled (A E : Type 0) : Type 0 where
  returned : A → Settled A E
  threw : E → Settled A E

pub data Executed (A E : Type 0) : Type 0 where
  circuit_open : ℕ → Executed A E
  settled : Settled A E → Executed A E

-- What `execute` records when its task has settled.
unfoldable pub settle : {A E : Type 0} → (E → Bool) → ℕ → Settled A E → Breaker → Breaker
unfolding record_success record_failure
settle is_transport now (returned a) b = record_success now b
settle is_transport now (threw e) b =
    if is_transport e then record_failure now b else record_success now b

-- `started` and `ended` are the instants of the check and of the task's end.
unfoldable pub execute :
    {A E : Type 0} → (E → Bool) → ℕ → ℕ → Settled A E → Breaker → Breaker × Executed A E
unfolding assert_allowed settle
execute is_transport started ended task b =
    let (b', refused) = assert_allowed started b in
    elim refused [
      | some ms ↦ (b', circuit_open ms)
      | none ↦ (settle is_transport ended task b', settled task)
    ]

-- The calls that a caller can make, each at an instant.
pub data Event : Type 0 where
  ask succeed fail force : ℕ → Event

unfoldable pub step : Breaker → Event → Breaker
unfolding allows record_success record_failure reset
step b (ask now) = (allows now b).0
step b (succeed now) = record_success now b
step b (fail now) = record_failure now b
step b (force now) = reset now b

unfoldable pub run : Breaker → List Event → Breaker
run b [] = b
run b (e ∷ es) = run (step b e) es
