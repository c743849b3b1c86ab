-- ===== src/Anchor/Service/Waiting.antt =====
-- How long a digest waits in the batch of apps/anchor/src/index.ts.
use kp.Common.{
  ℕ, suc, ◌+◌, ◌<◌, ◌≡◌, refl, sym, subst, ap, ◌∙◌, inl, inr, true, false, List, [], ◌∷◌, ◌++◌,
  Text, length, if◌then◌else◌, Bool-cases, append-nil,
}
use kp.Receipts.Hash.{Bytes}
use kp.Events.Validate.{NoyeetEvent, decision, DecodedDecision}
use kp.Anchor.Batch.{ReceiptBatch, is_empty, new, add, should_flush}
use kp.Anchor.Service.{
  World, Step, consumed, ticked, stopped, flush, consume_event, tick, step, run,
}
use kp.Anchor.Service.Steps.{List-cases, flush_empty, flush_full, flush_empties}
use kp.Anchor.Service.Bounds.{IsFresh, tick-IsFresh}

-- Digests with the times at which they came.
abbrev pub Arrivals : Type 0
Arrivals = List (Text × ℕ)

abbrev pub arrived_in : World → Step → Arrivals
arrived_in w (consumed (decision e)) = (e.digest, w.now) ∷ []
arrived_in w _ = []

abbrev pub digests : Arrivals → List Text
digests [] = []
digests ((d, t) ∷ q) = d ∷ digests q

digests-append : (q r : Arrivals) → digests (q ++ r) ≡ digests q ++ digests r
digests-append [] r = refl
digests-append ((d, t) ∷ q) r = ap (λ l. d ∷ l) (digests-append q r)

length-digests : (q : Arrivals) → length (digests q) ≡ length q
length-digests [] = refl
length-digests ((d, t) ∷ q) = ap suc (length-digests q)

-- The batch opened when the first that waits came.
abbrev IsOpened : ReceiptBatch → Arrivals → Type 0
IsOpened b [] = Unit
IsOpened b ((d, t) ∷ q) = b.opened_at ≡ t

abbrev IsTimed : ReceiptBatch → Arrivals → Type 0
IsTimed b q = (digests q ≡ b.leaves) × IsOpened b q

abbrev added : World → Step → ReceiptBatch → ReceiptBatch
added w (consumed (decision e)) b = add e.digest w.now b
added w _ b = b

add-IsTimed :
    (w : World) (d : Text) (b : ReceiptBatch) (q : Arrivals)
    → IsTimed b q
    → IsTimed (add d w.now b) (q ++ (d, w.now) ∷ [])
unfolding add
add-IsTimed w d b [] (same, opened) = (ap (λ l. l ++ d ∷ []) same, rw (← same) refl)
add-IsTimed w d b ((d', t) ∷ q) (same, opened) = (
  digests-append ((d', t) ∷ q) ((d, w.now) ∷ []) ∙ ap (λ l. l ++ d ∷ []) same,
  rw (← same) opened,
)

added-IsTimed :
    (w : World) (s : Step) (b : ReceiptBatch) (q : Arrivals)
    → IsTimed b q
    → IsTimed (added w s b) (q ++ arrived_in w s)
added-IsTimed w (consumed (decision e)) b q h = add-IsTimed w e.digest b q h
added-IsTimed w (consumed (NoyeetEvent.anchor j)) b q h = rw (append-nil q) h
added-IsTimed w (consumed (NoyeetEvent.dead_letter j)) b q h = rw (append-nil q) h
added-IsTimed w ticked b q h = rw (append-nil q) h
added-IsTimed w stopped b q h = rw (append-nil q) h

nil_of : (l : List Text) → is_empty l ≡ true → l ≡ []
nil_of [] e = refl
nil_of (x ∷ l) e = cc

-- No digest waits, or fewer than a batch do and the first of them came less than the age ago.
abbrev pub IsYoung : ℕ → ℕ → ℕ → Arrivals → Type 0
IsYoung batch_size max_age_ms now [] = Unit
IsYoung batch_size max_age_ms now ((d, t) ∷ q) =
    (length ((d, t) ∷ q) < batch_size) × (now < t + max_age_ms)

fresh-IsYoung :
    (now : ℕ) (b : ReceiptBatch) (q : Arrivals)
    → IsTimed b q
    → IsFresh now b
    → IsYoung b.batch_size b.max_age_ms now q
fresh-IsYoung now b [] h fresh = tt
fresh-IsYoung now b ((d, t) ∷ q) (same, opened) (inl empty) = absurd (cc (same, empty))
fresh-IsYoung now b ((d, t) ∷ q) (same, opened) (inr (few, soon)) =
    let count = sym (length-digests ((d, t) ∷ q)) ∙ ap (λ l. length l) same in
    (rw count few, rw (← opened) soon)

-- The settings of a batch, which no step changes.
abbrev IsLike : ReceiptBatch → ReceiptBatch → Type 0
IsLike a b = (a.batch_size ≡ b.batch_size) × (a.max_age_ms ≡ b.max_age_ms)

module _ (keccak : Bytes → Bytes) where
  flush_gone : (w : World) (b : ReceiptBatch) → is_empty (flush keccak w b).0.leaves ≡ true
  flush_gone w b = ap (λ l. is_empty l) (flush_empties keccak w b)

  consume_kept :
      (w : World) (e : DecodedDecision) (b : ReceiptBatch)
      → is_empty (consume_event keccak w (decision e) b).0.leaves ≡ false
      → (consume_event keccak w (decision e) b).0 ≡ add e.digest w.now b
  unfolding consume_event
  consume_kept w e b h = elim (Bool-cases (should_flush w.now (add e.digest w.now b))) [
    | inl full ↦ absurd (cc (rw (consume_event, full) at h, flush_gone w (add e.digest w.now b)))
    | inr more ↦ rw (consume_event, more) refl
  ]

  tick_kept :
      (w : World) (b : ReceiptBatch)
      → is_empty (tick keccak w b).0.leaves ≡ false
      → (tick keccak w b).0 ≡ b
  unfolding tick
  tick_kept w b h = elim (Bool-cases (should_flush w.now b)) [
    | inl full ↦ absurd (cc (rw (tick, full) at h, flush_gone w b))
    | inr more ↦ rw (tick, more) refl
  ]

  -- A step after which a digest waits has flushed nothing.
  step_kept :
      (w : World) (s : Step) (b : ReceiptBatch)
      → is_empty (step keccak w s b).0.leaves ≡ false
      → (step keccak w s b).0 ≡ added w s b
  unfolding step consume_event
  step_kept w (consumed (decision e)) b h = consume_kept w e b h
  step_kept w (consumed (NoyeetEvent.anchor j)) b h = refl
  step_kept w (consumed (NoyeetEvent.dead_letter j)) b h = refl
  step_kept w ticked b h = tick_kept w b h
  step_kept w stopped b h = absurd (cc (h, flush_gone w b))

  -- The digests that wait after a step, given those that waited before: none after a flush.
  abbrev pub waiting_after : World → Step → ReceiptBatch → Arrivals → Arrivals
  waiting_after w s b q = if is_empty (step keccak w s b).0.leaves then [] else q ++ arrived_in w s

  -- The digests that wait after a run, each with the time at which it came.
  abbrev pub waiting : List (World × Step) → ReceiptBatch → Arrivals → Arrivals
  waiting [] b q = q
  waiting ((w, s) ∷ steps) b q = waiting steps (step keccak w s b).0 (waiting_after w s b q)

  step-IsTimed :
      (w : World) (s : Step) (b : ReceiptBatch) (q : Arrivals)
      → IsTimed b q
      → IsTimed (step keccak w s b).0 (waiting_after w s b q)
  step-IsTimed w s b q h = elim (Bool-cases (is_empty (step keccak w s b).0.leaves)) [
    | inl gone ↦ rw gone (sym (nil_of (step keccak w s b).0.leaves gone), tt)
    | inr some_wait ↦ rw some_wait (
        subst (λ b'. IsTimed b' (q ++ arrived_in w s)) (sym (step_kept w s b some_wait))
          (added-IsTimed w s b q h))
  ]

  run-IsTimed :
      (steps : List (World × Step)) (b : ReceiptBatch) (q : Arrivals)
      → IsTimed b q
      → IsTimed (run keccak steps b).0 (waiting steps b q)
  unfolding run
  run-IsTimed [] b q h = h
  run-IsTimed ((w, s) ∷ steps) b q h =
      run-IsTimed steps (step keccak w s b).0 (waiting_after w s b q) (step-IsTimed w s b q h)

  flush-IsLike : (w : World) (b : ReceiptBatch) → IsLike (flush keccak w b).0 b
  flush-IsLike w b = elim (List-cases b.leaves) [
    | inl none_left ↦
        let e = flush_empty keccak w b none_left in
        (ap (λ x. x.0.batch_size) e, ap (λ x. x.0.max_age_ms) e)
    | inr (leaf, rest, h) ↦
        let (effect, outcome, e, is) = flush_full keccak w b leaf rest h in
        (ap (λ x. x.0.batch_size) e, ap (λ x. x.0.max_age_ms) e)
  ]

  step-IsLike : (w : World) (s : Step) (b : ReceiptBatch) → IsLike (step keccak w s b).0 b
  unfolding step consume_event tick add
  step-IsLike w (consumed (decision e)) b =
      elim (Bool-cases (should_flush w.now (add e.digest w.now b))) [
        | inl full ↦ rw (consume_event, full) (flush-IsLike w (add e.digest w.now b))
        | inr more ↦ rw (consume_event, more) (refl, refl)
      ]
  step-IsLike w (consumed (NoyeetEvent.anchor j)) b = (refl, refl)
  step-IsLike w (consumed (NoyeetEvent.dead_letter j)) b = (refl, refl)
  step-IsLike w ticked b = elim (Bool-cases (should_flush w.now b)) [
    | inl full ↦ rw (tick, full) (flush-IsLike w b)
    | inr more ↦ rw (tick, more) (refl, refl)
  ]
  step-IsLike w stopped b = flush-IsLike w b

  run-IsLike : (steps : List (World × Step)) (b : ReceiptBatch) → IsLike (run keccak steps b).0 b
  unfolding run
  run-IsLike [] b = (refl, refl)
  run-IsLike ((w, s) ∷ steps) b =
      let (size, age) = run-IsLike steps (step keccak w s b).0 in
      let (size', age') = step-IsLike w s b in (size ∙ size', age ∙ age')

  ticked-IsFresh :
      (steps : List (World × Step)) (w : World) (b : ReceiptBatch)
      → IsFresh w.now (run keccak (steps ++ (w, ticked) ∷ []) b).0
  unfolding run step
  ticked-IsFresh [] w b = tick-IsFresh keccak w b
  ticked-IsFresh ((v, s) ∷ steps) w b = ticked-IsFresh steps w (step keccak v s b).0

  -- Whatever a new service has done before, after a tick of its timer no digest waits for a root, or
  -- fewer do than make a batch and the one that came first came less than the greatest age ago.
  pub waiting-IsYoung :
      (batch_size max_age_ms start : ℕ) (steps : List (World × Step)) (w : World)
      → (digests (waiting (steps ++ (w, ticked) ∷ []) (new batch_size max_age_ms start) [])
          ≡ (run keccak (steps ++ (w, ticked) ∷ []) (new batch_size max_age_ms start)).0.leaves)
        × IsYoung batch_size max_age_ms w.now
            (waiting (steps ++ (w, ticked) ∷ []) (new batch_size max_age_ms start) [])
  unfolding new
  waiting-IsYoung batch_size max_age_ms start steps w =
      let all_steps = steps ++ (w, ticked) ∷ [] in
      let b = new batch_size max_age_ms start in
      let timed = run-IsTimed all_steps b [] (refl, tt) in
      let (size, age) = run-IsLike all_steps b in
      (
        timed.0,
        subst (λ n. IsYoung n max_age_ms w.now (waiting all_steps b [])) size
            (subst
              (λ n. IsYoung (run keccak all_steps b).0.batch_size n w.now (waiting all_steps b []))
              age
              (fresh-IsYoung w.now (run keccak all_steps b).0 (waiting all_steps b []) timed
                (ticked-IsFresh steps w b))),
      )
