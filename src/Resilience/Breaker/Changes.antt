-- ===== src/Resilience/Breaker/Changes.antt =====
-- The state changes that a breaker reports through `onStateChange`.
use kp.Common.{
  ℕ, ◌+◌, ◌≡◌, refl, true, false, ◌&&◌, inl, inr, List, [], ◌∷◌, ◌++◌, arith, leb, Bool-cases,
}
use kp.Resilience.Breaker.{
  BreakerState, closed, opened, half_open, is_opened, is_half_open, Breaker, state_eq, transition,
  maybe_half_open, note_success, note_failure, BreakerOptions, new, Event, step, run,
}

-- The edges of the state diagram.
pub data Edge : BreakerState → BreakerState → Type 0 where
  trip : Edge closed opened
  cool : Edge opened half_open
  relapse : Edge half_open opened
  recover : Edge half_open closed
  forced : Edge opened closed

-- A list of changes that leads from one state to another along the diagram.
abbrev pub Leads : BreakerState → List (BreakerState × BreakerState) → BreakerState → Type 0
Leads s [] t = s ≡ t
Leads s ((a, b) ∷ rest) t = (s ≡ a) × Edge a b × Leads b rest t

Leads-snoc :
    (s : BreakerState) (xs : List (BreakerState × BreakerState)) (t u : BreakerState)
    → Leads s xs t
    → Edge t u
    → Leads s (xs ++ (t, u) ∷ []) u
Leads-snoc s [] t u h e = (h, e, refl)
Leads-snoc s ((a, b) ∷ xs) t u (p, f, h) e = (p, f, Leads-snoc b xs t u h e)

-- The changes reported since the breaker was built lead from `closed` to its state.
abbrev pub IsTraced : Breaker → Type 0
IsTraced b = Leads closed b.changes b.state

transition-IsTraced :
    (now : ℕ) (to : BreakerState) (b : Breaker)
    → (state_eq b.state to ≡ false → Edge b.state to)
    → IsTraced b
    → IsTraced (transition now to b)
unfolding transition
transition-IsTraced now to b edge h = elim (Bool-cases (state_eq b.state to)) [
  | inl same ↦ rw same h
  | inr moved ↦ rw moved (Leads-snoc closed b.changes b.state to h (edge moved))
]

Edge-cool : (s : BreakerState) → is_opened s ≡ true → Edge s half_open
Edge-cool opened _ = cool
Edge-cool closed h = cc
Edge-cool half_open h = cc

Edge-recover : (s : BreakerState) → is_half_open s ≡ true → Edge s closed
Edge-recover half_open _ = recover
Edge-recover closed h = cc
Edge-recover opened h = cc

Edge-opened : (s : BreakerState) → state_eq s opened ≡ false → Edge s opened
Edge-opened closed _ = trip
Edge-opened half_open _ = relapse
Edge-opened opened h = cc

Edge-closed : (s : BreakerState) → state_eq s closed ≡ false → Edge s closed
Edge-closed opened _ = forced
Edge-closed half_open _ = recover
Edge-closed closed h = cc

maybe_half_open-IsTraced : (now : ℕ) (b : Breaker) → IsTraced b → IsTraced (maybe_half_open now b)
unfolding maybe_half_open
maybe_half_open-IsTraced now b h =
    elim (Bool-cases (is_opened b.state && leb (b.opened_at + b.cooldown_ms) now)) [
      | inl t ↦ rw t (transition-IsTraced now half_open b (λ _. Edge-cool b.state (ground arith)) h)
      | inr f ↦ rw f h
    ]

note_success-IsTraced : (now : ℕ) (b : Breaker) → IsTraced b → IsTraced (note_success now b)
unfolding note_success
note_success-IsTraced now b h = elim (Bool-cases (is_half_open b.state)) [
  | inl t ↦ elim (Bool-cases (leb b.success_threshold (b.successes + 1))) [
    | inl u ↦
        rw (t, u)
          (transition-IsTraced now closed (record b { successes = b.successes + 1 })
            (λ _. Edge-recover b.state t) h)
    | inr u ↦ rw (t, u) h
  ]
  | inr f ↦ rw f h
]

note_failure-IsTraced : (now : ℕ) (b : Breaker) → IsTraced b → IsTraced (note_failure now b)
unfolding note_failure
note_failure-IsTraced now b h =
    let b' : Breaker = record b { failures = b.failures + 1 } in
    let tripped = transition-IsTraced now opened b' (Edge-opened b.state) h in
    elim (Bool-cases (is_half_open b.state)) [
      | inl t ↦ rw t tripped
      | inr f ↦ elim (Bool-cases (leb b.failure_threshold (b.failures + 1))) [
        | inl u ↦ rw (f, u) tripped
        | inr u ↦ rw (f, u) h
      ]
    ]

step-IsTraced : (b : Breaker) (e : Event) → IsTraced b → IsTraced (step b e)
unfolding step
step-IsTraced b (Event.ask now) h = maybe_half_open-IsTraced now b h
step-IsTraced b (Event.succeed now) h =
    note_success-IsTraced now (maybe_half_open now b) (maybe_half_open-IsTraced now b h)
step-IsTraced b (Event.fail now) h =
    note_failure-IsTraced now (maybe_half_open now b) (maybe_half_open-IsTraced now b h)
step-IsTraced b (Event.force now) h =
    transition-IsTraced now closed (record b { failures = 0; successes = 0 }) (Edge-closed b.state)
      h

run-IsTraced : (b : Breaker) (es : List Event) → IsTraced b → IsTraced (run b es)
unfolding run
run-IsTraced b [] h = h
run-IsTraced b (e ∷ es) h = run-IsTraced (step b e) es (step-IsTraced b e h)

-- After any calls on a new breaker the changes reported to `onStateChange` form one path, from
-- `closed` to the breaker's state, along the edges of the diagram.
pub new-run-IsTraced : (o : BreakerOptions) (es : List Event) → IsTraced (run (new o) es)
unfolding new
new-run-IsTraced o es = run-IsTraced (new o) es refl
