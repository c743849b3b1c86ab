-- ===== src/Resilience/Breaker/Traces.antt =====
-- When the breaker opens, refuses, probes and recovers.
use kp.Common.{
  ℕ, ◌+◌, ◌-◌, ◌<◌, ◌≤◌, ◌≡◌, ◌≢◌, ◌↔◌, ◌⊎◌, Bool, true, false, List, [], ◌∷◌, arith, All, length,
  ap, ◌∙◌,
}
use kp.Resilience.Breaker.{
  closed, opened, half_open, Breaker, transition, allows, record_success, record_failure, Settled,
  returned, threw, circuit_open, settle, execute, Event, step, run,
}
use kp.Resilience.Breaker.Invariant.{IsValid}

-- While the cooldown runs, `execute` refuses at once: the outcome that the task would have had is
-- not consulted, the breaker is unchanged, and the error names the time that is left.
pub execute-refuses :
    {A E : Type 0} (is_transport : E → Bool) (started ended : ℕ) (task : Settled A E) (b : Breaker)
    → b.state ≡ opened
    → started < b.opened_at + b.cooldown_ms
    → execute is_transport started ended task b
      ≡ (b, circuit_open (b.opened_at + b.cooldown_ms - started))
unfolding execute
execute-refuses is_transport started ended task b o h = ground arith

allowed_cases :
    (now : ℕ) (b : Breaker)
    → (allows now b).1 ≡ true
    → (b.state ≢ opened) ⊎ (b.opened_at + b.cooldown_ms ≤ now)
unfolding allows
allowed_cases now b h = ground arith

-- A call is let through exactly when the circuit is not open or its cooldown has passed.
pub allows_iff :
    (now : ℕ) (b : Breaker)
    → ((allows now b).1 ≡ true) ↔ ((b.state ≢ opened) ⊎ (b.opened_at + b.cooldown_ms ≤ now))
unfolding allows
allows_iff now b = (λ h. allowed_cases now b h, λ h. ground arith)

-- Calls at which the breaker is told of no transport fault.
abbrev pub IsFaultless : Event → Type 0
IsFaultless (Event.fail _) = ⊥
IsFaultless _ = Unit

step_faultless :
    (b : Breaker) (e : Event) → IsFaultless e → b.state ≢ opened → (step b e).state ≢ opened
unfolding step
step_faultless b (Event.ask now) f h = ground arith
step_faultless b (Event.succeed now) f h = ground arith
step_faultless b (Event.fail now) f h = absurd f
step_faultless b (Event.force now) f h = ground arith

-- Without a transport fault a circuit that is not open never opens, whatever else is reported.
pub run_faultless :
    (b : Breaker) (es : List Event)
    → All IsFaultless es
    → b.state ≢ opened
    → (run b es).state ≢ opened
unfolding run
run_faultless b [] f h = h
run_faultless b (e ∷ es) (f, fs) h = run_faultless (step b e) es fs (step_faultless b e f h)

-- Settling a task with an error that is no transport fault counts as a success.
pub settle_expected :
    {A E : Type 0} (is_transport : E → Bool) (now : ℕ) (a : A) (e : E) (b : Breaker)
    → is_transport e ≡ false
    → settle {A = A} is_transport now (threw e) b ≡ settle {E = E} is_transport now (returned a) b
unfolding settle
settle_expected is_transport now a e b h = rw h

-- The failures of a list of calls that are all transport faults, at any instants.
abbrev pub faults : List ℕ → List Event
faults [] = []
faults (now ∷ times) = Event.fail now ∷ faults times

record_failure_below :
    (now : ℕ) (b : Breaker)
    → b.state ≡ closed
    → b.failures + 1 < b.failure_threshold
    → record_failure now b ≡ record b { failures = b.failures + 1 }
unfolding record_failure
record_failure_below now b c h = ground arith

record_failure_at :
    (now : ℕ) (b : Breaker)
    → b.state ≡ closed
    → b.failure_threshold ≤ b.failures + 1
    → ((record_failure now b).state ≡ opened)
      × ((record_failure now b).opened_at ≡ now)
      × ((record_failure now b).cooldown_ms ≡ b.cooldown_ms)
unfolding record_failure
record_failure_at now b c h = ground arith

counted : (b : Breaker) (m n : ℕ) → m ≡ n → record b { failures = m } ≡ record b { failures = n }
counted b m n h = ap (λ (k : ℕ). record b { failures = k }) h

-- A closed circuit stays closed while the faults in a row stay below the threshold, and counts
-- each of them.
pub faults_below :
    (times : List ℕ) (b : Breaker)
    → b.state ≡ closed
    → b.failures + length times < b.failure_threshold
    → run b (faults times) ≡ record b { failures = b.failures + length times }
unfolding run step
faults_below [] b c h = ground arith
faults_below (now ∷ times) b c h =
    rw (run, step, record_failure_below now b c (omega arith))
      (faults_below times (record b { failures = b.failures + 1 }) c (omega arith)
        ∙ counted b (b.failures + 1 + length times) _ (omega arith))

-- From a closed circuit, faults in a row open it with the one that reaches the threshold, and it is
-- stamped with that instant.
pub faults_trip :
    (times : List ℕ) (now : ℕ) (b : Breaker)
    → b.state ≡ closed
    → b.failures + length times + 1 ≡ b.failure_threshold
    → let b' = run (run b (faults times)) (Event.fail now ∷ []) in
      (b'.state ≡ opened) × (b'.opened_at ≡ now)
unfolding run step
faults_trip times now b c h = rw (faults_below times b c (omega arith)) (
    let (o, at, _) =
      record_failure_at now (record b { failures = b.failures + length times }) c (omega arith) in
    (o, at))

-- One fault of a probe opens the circuit again, whatever the threshold, for a whole new cooldown.
pub relapse :
    (now later : ℕ) (b : Breaker)
    → b.state ≡ half_open
    → later < now + b.cooldown_ms
    → (allows later (record_failure now b)).1 ≡ false
unfolding allows record_failure
relapse now later b s h = ground arith

-- The successes of probes, at any instants.
abbrev pub probes : List ℕ → List Event
probes [] = []
probes (now ∷ times) = Event.succeed now ∷ probes times

probe_success :
    (now : ℕ) (b : Breaker)
    → b.state ≡ half_open
    → b.successes + 1 < b.success_threshold
    → record_success now b ≡ record b { successes = b.successes + 1 }
unfolding record_success
probe_success now b s h = ground arith

probe_success_last :
    (now : ℕ) (b : Breaker)
    → b.state ≡ half_open
    → b.success_threshold ≤ b.successes + 1
    → ((record_success now b).state ≡ closed) × ((record_success now b).failures ≡ 0)
unfolding record_success
probe_success_last now b s h = ground arith

probes_close :
    (times : List ℕ) (now : ℕ) (b : Breaker)
    → b.state ≡ half_open
    → b.success_threshold ≡ b.successes + length times + 1
    → let b' = run b (probes (now ∷ times)) in (b'.state ≡ closed) × (b'.failures ≡ 0)
unfolding run step
probes_close [] now b s h = probe_success_last now b s (omega arith)
probes_close (next ∷ times) now b s h =
    rw (run, step, probe_success now b s (omega arith))
      (probes_close times next (record b { successes = b.successes + 1 }) s (omega arith))

record_success_cooled :
    (now : ℕ) (b : Breaker)
    → b.state ≡ opened
    → b.opened_at + b.cooldown_ms ≤ now
    → record_success now b ≡ record_success now (transition now half_open b)
unfolding record_success transition
record_success_cooled now b o h = ground arith

transition_probing :
    (now : ℕ) (b : Breaker)
    → b.state ≡ opened
    → let b' = transition now half_open b in
      (b'.state ≡ half_open)
      × (b'.successes ≡ b.successes)
      × (b'.success_threshold ≡ b.success_threshold)
unfolding transition
transition_probing now b o = ground arith

-- An open circuit that meets the invariant recovers: once its cooldown has passed, `success_threshold` successes in a row,
-- the first of them after the cooldown, close it with no failure counted.
pub recovers :
    (times : List ℕ) (now : ℕ) (b : Breaker)
    → IsValid b
    → b.state ≡ opened
    → b.opened_at + b.cooldown_ms ≤ now
    → b.success_threshold ≡ length times + 1
    → let b' = run b (probes (now ∷ times)) in (b'.state ≡ closed) × (b'.failures ≡ 0)
unfolding run step
recovers times now b v o cooled enough =
    let (probing, kept, same) = transition_probing now b o in
    rw (run, step, record_success_cooled now b o cooled)
      (probes_close times now (transition now half_open b) probing (ground arith))
