-- ===== src/Events/Consumer/Settles.antt =====
-- How packages/events/src/consumer.ts settles the messages of a partition.
use kp.Common.{
  ℕ, zero, suc, ◌+◌, ◌<◌, ◌≤◌, ◌≡◌, refl, sym, ap, ◌∙◌, Bool, true, false, ◌⊎◌, inl, inr, Option,
  none, some, List, [], ◌∷◌, ◌++◌, append_assoc, Text, ltb, length, select, select-append,
  length-append, Bool-cases, arith,
}
use kp.Events.{dead_letters, DeadLetterEvent, PublishedEvent}
use kp.Events.Validate.{EventFault, Validated, ok, fail, NoyeetEvent}
use kp.Events.Consumer.{
  Message, Ran, done, raised, Env, Act, handled, handler_failed, slept, dead_lettered, write_failed,
  dead_letter_event, dead_letter, pause, attempts_from, each_message, consume,
}

-- An act that settles a message.
abbrev pub is_final : Act → Bool
is_final (handled n) = true
is_final (dead_lettered d) = true
is_final (write_failed d cause) = true
is_final (handler_failed n cause) = false
is_final (slept ms) = false

-- A call of the handler.
abbrev pub is_call : Act → Bool
is_call (handled n) = true
is_call (handler_failed n cause) = true
is_call _ = false

abbrev pub count : (Act → Bool) → List Act → ℕ
count p acts = length (select p acts)

count-append : (p : Act → Bool) (xs ys : List Act) → count p (xs ++ ys) ≡ count p xs + count p ys
count-append p xs ys = rw (select-append p xs ys) (length-append (select p xs) (select p ys))

pub Ran-cases :
    {S : Type 0} (x : Ran S) → ((s : S) × (x ≡ done s)) ⊎ ((c : Text) × (s : S) × (x ≡ raised c s))
Ran-cases (done s) = inl (s, refl)
Ran-cases (raised c s) = inr (c, s, refl)

-- The dead letter of a message after a number of attempts, whether its write succeeds or not.
abbrev pub IsLetter : DeadLetterEvent → Act → Type 0
IsLetter letter (dead_lettered d) = d ≡ letter
IsLetter letter (write_failed d cause) = d ≡ letter
IsLetter letter _ = ⊥

final_lem :
    (letter : DeadLetterEvent) (final : Act)
    → IsLetter letter final
    → (is_final final ≡ true) × (is_call final ≡ false)
final_lem letter (dead_lettered d) h = (refl, refl)
final_lem letter (write_failed d cause) h = (refl, refl)
final_lem letter (handled n) h = absurd h
final_lem letter (handler_failed n cause) h = absurd h
final_lem letter (slept ms) h = absurd h

module _ {S : Type 0} (env : Env S) where
  dead_letter_lem :
      (m : Message) (n : ℕ) (error : Text) (s : S)
      → (final : Act) × ((dead_letter env m n error s).1 ≡ final ∷ [])
        × IsLetter (dead_letter_event env m n error) final
  unfolding dead_letter
  dead_letter_lem m n error s =
      elim (Ran-cases (
        env.emit dead_letters m.offset
          (PublishedEvent.dead_letter (dead_letter_event env m n error)) s)) [
            | inl (s', e) ↦
                (dead_lettered (dead_letter_event env m n error), rw (dead_letter, e) refl, refl)
            | inr (c, s', e) ↦
                (write_failed (dead_letter_event env m n error) c, rw (dead_letter, e) refl, refl)
          ]

  module _ (event : NoyeetEvent) (m : Message) where
    attempts_returned :
        (left attempt : ℕ) (last : Option Text) (s s' : S)
        → env.handler event m s ≡ done s'
        → attempts_from env (suc left) attempt last event m s ≡ (s', handled attempt ∷ [])
    unfolding attempts_from
    attempts_returned left attempt last s s' e = rw (attempts_from, e) refl

    attempts_threw :
        (left attempt : ℕ) (last : Option Text) (s s' : S) (c : Text)
        → env.handler event m s ≡ raised c s'
        → (attempts_from env (suc left) attempt last event m s).1
          ≡ handler_failed attempt c ∷ pause env attempt
            ++ (attempts_from env left (suc attempt) (some c) event m s').1
    unfolding attempts_from
    attempts_threw left attempt last s s' c e = rw (attempts_from, e) refl

    attempts_zero :
        (attempt : ℕ) (last : Option Text) (s : S)
        → (error : Text) × ((attempts_from env zero attempt last event m s).1
            ≡ (dead_letter env m env.options.max_attempts error s).1)
    unfolding attempts_from
    attempts_zero attempt last s = (_, refl)

    -- The end of the loop from an attempt on: the acts before the last settle nothing; the last is
    -- the handler's return at the attempt that is last called, or the dead letter after all of them.
    abbrev IsEnd : ℕ → ℕ → List Act → Type 0
    IsEnd left attempt acts =
        (before : List Act) × (final : Act) × (acts ≡ before ++ final ∷ [])
        × (count is_final before ≡ 0)
        × (is_final final ≡ true)
        × (((n : ℕ) × (final ≡ handled n)
              × (attempt ≤ n)
              × (n < attempt + left)
              × (count is_call acts + attempt ≡ suc n))
            ⊎ ((error : Text) × IsLetter (dead_letter_event env m env.options.max_attempts error)
                  final
                × (count is_call acts ≡ left)))

    pause_silent :
        (attempt : ℕ)
        → (count is_final (pause env attempt) ≡ 0) × (count is_call (pause env attempt) ≡ 0)
    unfolding pause
    pause_silent attempt = elim (Bool-cases (ltb attempt env.options.max_attempts)) [
      | inl p ↦ rw (p) (refl, refl)
      | inr p ↦ rw (p) (refl, refl)
    ]

    IsEnd-prepend :
        (left attempt : ℕ) (c : Text) (acts : List Act)
        → IsEnd left (suc attempt) acts
        → IsEnd (suc left) attempt (handler_failed attempt c ∷ pause env attempt ++ acts)
    IsEnd-prepend left attempt c acts (before, final, shape, quiet, ends, how) =
        let (p, q) = pause_silent attempt in
        let calls = count-append is_call (pause env attempt) acts in
        let finals = count-append is_final (pause env attempt) before in
        (
          handler_failed attempt c ∷ pause env attempt ++ before,
          final,
          ap (λ x. handler_failed attempt c ∷ pause env attempt ++ x) shape
              ∙ ap (λ x. handler_failed attempt c ∷ x)
                  (sym (append_assoc (pause env attempt) before (final ∷ []))),
          omega (arith, p, finals, quiet),
          ends,
          elim how [
            | inl (n, e, low, high, total) ↦
                inl (n, e, omega (arith, low), omega (arith, high), omega (arith, total, calls, q))
            | inr (error, letter, total) ↦ inr (error, letter, omega (arith, total, calls, q))
          ],
        )

    attempts_from-IsEnd :
        (left attempt : ℕ) (last : Option Text) (s : S)
        → IsEnd left attempt (attempts_from env left attempt last event m s).1
    attempts_from-IsEnd zero attempt last s =
        let (error, shape) = attempts_zero attempt last s in
        let (final, alone, letter) = dead_letter_lem m env.options.max_attempts error s in
        let (ends, silent) = final_lem _ final letter in
        rw (shape ∙ alone) ([], final, refl, refl, ends, inr (error, letter, rw silent refl))
    attempts_from-IsEnd (suc left) attempt last s = elim (Ran-cases (env.handler event m s)) [
      | inl (s', e) ↦ rw (attempts_returned left attempt last s s' e) (
        [],
        handled attempt,
        refl,
        refl,
        refl,
        inl (attempt, refl, omega arith, omega arith, omega arith),
      )
      | inr (c, s', e) ↦
          rw (attempts_threw left attempt last s s' c e)
            (IsEnd-prepend left attempt c _ (attempts_from-IsEnd left (suc attempt) (some c) s'))
    ]

  -- How a message is settled: the handler returned at its last call, an attempt within the budget;
  -- or it failed at every attempt, and the dead letter carries them all; or the message does not
  -- decode, the handler was never called, and the dead letter names the fault.
  abbrev pub IsSettledBy : Message → ℕ → Act → Type 0
  IsSettledBy m calls final =
      ((event : NoyeetEvent) × (env.decode m.value ≡ ok event)
        × (final ≡ handled calls)
        × (1 ≤ calls)
        × (calls ≤ env.options.max_attempts))
      ⊎ ((event : NoyeetEvent) × (error : Text) × (env.decode m.value ≡ ok event)
          × (calls ≡ env.options.max_attempts)
          × IsLetter (dead_letter_event env m env.options.max_attempts error) final)
      ⊎ ((fault : EventFault) × (env.decode m.value ≡ fail fault)
          × (calls ≡ 0)
          × IsLetter (dead_letter_event env m 1 (env.message_of fault)) final)

  -- The last act, and it alone, settles the message.
  abbrev pub IsSettled : Message → List Act → Type 0
  IsSettled m acts =
      (before : List Act) × (final : Act) × (acts ≡ before ++ final ∷ [])
      × (count is_final before ≡ 0)
      × (is_final final ≡ true)
      × IsSettledBy m (count is_call acts) final

  -- Each message in order is settled by a stretch of the acts.
  abbrev pub AreSettled : List Message → List Act → Type 0
  AreSettled [] acts = acts ≡ []
  AreSettled (m ∷ ms) acts =
      (first : List Act) × (rest : List Act) × (acts ≡ first ++ rest)
      × IsSettled m first
      × AreSettled ms rest

  Validated-cases :
      (x : Validated NoyeetEvent)
      → ((event : NoyeetEvent) × (x ≡ ok event)) ⊎ ((fault : EventFault) × (x ≡ fail fault))
  Validated-cases (ok event) = inl (event, refl)
  Validated-cases (fail fault) = inr (fault, refl)

  each_message_ok :
      (m : Message) (s : S) (event : NoyeetEvent)
      → env.decode m.value ≡ ok event
      → each_message env m s ≡ attempts_from env env.options.max_attempts 1 none event m s
  unfolding each_message
  each_message_ok m s event e = rw (each_message, e) refl

  each_message_fail :
      (m : Message) (s : S) (fault : EventFault)
      → env.decode m.value ≡ fail fault
      → each_message env m s ≡ dead_letter env m 1 (env.message_of fault) s
  unfolding each_message
  each_message_fail m s fault e = rw (each_message, e) refl

  each_message-IsSettled : (m : Message) (s : S) → IsSettled m (each_message env m s).1
  each_message-IsSettled m s = elim (Validated-cases (env.decode m.value)) [
    | inl (event, e) ↦
        let (before, final, shape, quiet, ends, how) =
          attempts_from-IsEnd event m env.options.max_attempts 1 none s in
        rw (each_message_ok m s event e) (
          before,
          final,
          shape,
          quiet,
          ends,
          elim how [
            | inl (n, h, low, high, total) ↦
                let calls : n
                    ≡ count is_call
                        (attempts_from env env.options.max_attempts 1 none event m s).1 =
                  omega (arith, total) in
                inl (
                  event,
                  e,
                  h ∙ ap (λ x. handled x) calls,
                  omega (arith, low, total),
                  omega (arith, high, total),
                )
            | inr (error, letter, total) ↦ inr (inl (event, error, e, total, letter))
          ],
        )
    | inr (fault, e) ↦
        let (final, alone, letter) = dead_letter_lem m 1 (env.message_of fault) s in
        let (ends, silent) = final_lem _ final letter in
        rw (each_message_fail m s fault e)
          (rw alone ([], final, refl, refl, ends, inr (inr (fault, e, rw silent refl, letter))))
  ]

  -- Whatever the handler and the producer do, every message of a partition is settled, in order and
  -- exactly once, with no more calls of the handler than the budget.
  pub consume-AreSettled : (ms : List Message) (s : S) → AreSettled ms (consume env ms s).1
  unfolding consume
  consume-AreSettled [] s = refl
  consume-AreSettled (m ∷ ms) s = (
    (each_message env m s).1,
    (consume env ms (each_message env m s).0).1,
    refl,
    each_message-IsSettled m s,
    consume-AreSettled ms (each_message env m s).0,
  )
