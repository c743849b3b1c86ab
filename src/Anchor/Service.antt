-- ===== src/Anchor/Service.antt =====
-- apps/anchor/src/index.ts: the consumer of decisions and its flushes. What the clock and the broker do during a
-- step is given with the step, and the service's effects are a list in order. `seal` runs between two
-- awaits, and nothing after an await reads the batch, so that steps do not interleave on it. The shutdown
-- is its flush, the step `stopped`: it then waits for the consumer to disconnect, and more steps may
-- follow until the process exits. Metrics, logs and the reading of the environment are left out.
pub mod Steps
pub mod Conserved
pub mod Rooted
pub mod Bounds
pub mod Waiting
mod Tests
use kp.Common.{
  ℕ, Bool, true, false, Option, none, some, List, [], ◌∷◌, ◌++◌, Text, lit, if◌then◌else◌,
}
use kp.Resilience.Breaker.{Settled, returned, threw}
use kp.Receipts.Hash.{Bytes}
use kp.Events.{Topic, anchors, AnchorEvent, PublishedEvent}
use kp.Events.Validate.{NoyeetEvent, decision}
use kp.Anchor.Batch.{ReceiptBatch, add, should_flush, Sealed, nothing, sealed, unreadable, seal}

pub record World : Type 0 where
  pub now : ℕ
  pub iso_now : Text
  pub emit : Topic → Text → PublishedEvent → Settled Unit Text

-- An anchor that the broker took, one that it refused, and leaves that have no tree.
pub data Effect : Type 0 where
  anchored : AnchorEvent → Effect
  refused : AnchorEvent → Text → Effect
  unrooted : List Text → Effect

pub data Step : Type 0 where
  consumed : NoyeetEvent → Step
  ticked stopped : Step

module _ (keccak : Bytes → Bytes) where
  unfoldable pub publish_anchor :
      World → Text → List Text → ReceiptBatch → ReceiptBatch × List Effect × Settled Unit Text
  publish_anchor w root leaves b =
      let event : AnchorEvent = record { root = root; leaves = leaves; at = w.iso_now } in
      elim (w.emit anchors root (PublishedEvent.anchor event)) [
        | returned u ↦ (b, anchored event ∷ [], returned u)
        | threw cause ↦ (b, refused event cause ∷ [], threw cause)
      ]

  -- What follows `seal` in `flush`.
  unfoldable pub publish_sealed :
      World → ReceiptBatch × Sealed → ReceiptBatch × List Effect × Settled Unit Text
  unfolding publish_anchor
  publish_sealed w (b, nothing) = (b, [], returned tt)
  publish_sealed w (b, sealed root leaves) = publish_anchor w root leaves b
  publish_sealed w (b, unreadable leaves) = (b, unrooted leaves ∷ [], threw (lit "Invalid hex"))

  unfoldable pub flush : World → ReceiptBatch → ReceiptBatch × List Effect × Settled Unit Text
  unfolding publish_sealed
  flush w b = publish_sealed w (seal keccak w.now b)

  -- The message handler.
  unfoldable pub consume_event :
      World → NoyeetEvent → ReceiptBatch → ReceiptBatch × List Effect × Settled Unit Text
  unfolding flush
  consume_event w (decision e) b =
      let b' = add e.digest w.now b in
      if should_flush w.now b' then flush w b' else (b', [], returned tt)
  consume_event w _ b = (b, [], returned tt)

  -- The timer, which logs an error.
  unfoldable pub tick : World → ReceiptBatch → ReceiptBatch × List Effect × Settled Unit Text
  unfolding flush
  tick w b = if should_flush w.now b then flush w b else (b, [], returned tt)

  unfoldable pub step : World → Step → ReceiptBatch → ReceiptBatch × List Effect × Settled Unit Text
  unfolding consume_event tick flush
  step w (consumed event) b = consume_event w event b
  step w ticked b = tick w b
  step w stopped b = flush w b

  unfoldable pub run : List (World × Step) → ReceiptBatch → ReceiptBatch × List Effect
  unfolding step
  run [] b = (b, [])
  run ((w, s) ∷ rest) b =
      let (b', effects, outcome) = step w s b in
      let (b'', later) = run rest b' in (b'', effects ++ later)
