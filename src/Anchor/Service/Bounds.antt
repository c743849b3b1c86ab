-- ===== src/Anchor/Service/Bounds.antt =====
-- How many digests of apps/anchor/src/index.ts wait for a root, and how long.
use kp.Common.{
  ℕ, ◌+◌, ◌<◌, ◌≡◌, refl, ◌⊎◌, inl, inr, true, false, ◌||◌, List, [], ◌∷◌, Text, length, leb,
  Bool-cases, arith,
}
use kp.Receipts.Hash.{Bytes}
use kp.Events.Validate.{decision, DecodedDecision}
use kp.Anchor.Batch.{ReceiptBatch, is_empty, add, should_flush}
use kp.Anchor.Service.{World, consume_event, tick}
use kp.Anchor.Service.Steps.{flush_empties}

-- Leaves that stay: none, or fewer than a batch and not yet too old.
abbrev pub IsFresh : ℕ → ReceiptBatch → Type 0
IsFresh now b =
    (b.leaves ≡ []) ⊎ ((length b.leaves < b.batch_size) × (now < b.opened_at + b.max_age_ms))

below : (a b c d : ℕ) → (leb a b || leb c d) ≡ false → (b < a) × (d < c)
below a b c d h = ground arith

fresh : (now : ℕ) (b : ReceiptBatch) → should_flush now b ≡ false → IsFresh now b
unfolding should_flush
fresh now b h = elim (Bool-cases (is_empty b.leaves)) [
  | inl p ↦ inl (is_empty-nil b.leaves p)
  | inr p ↦ inr (
      below b.batch_size (length b.leaves) (b.opened_at + b.max_age_ms) now
        (rw (should_flush, p) at h))
]
  where
    is_empty-nil : (l : List Text) → is_empty l ≡ true → l ≡ []
    is_empty-nil [] e = refl
    is_empty-nil (x ∷ l) e = cc

module _ (keccak : Bytes → Bytes) (w : World) where
  -- After a decision is consumed no digest waits, or fewer than a batch do and the oldest is not yet
  -- too old.
  pub consume_event-IsFresh :
      (e : DecodedDecision) (b : ReceiptBatch)
      → IsFresh w.now (consume_event keccak w (decision e) b).0
  unfolding consume_event
  consume_event-IsFresh e b = elim (Bool-cases (should_flush w.now (add e.digest w.now b))) [
    | inl full ↦ rw (consume_event, full) (inl (flush_empties keccak w (add e.digest w.now b)))
    | inr more ↦ rw (consume_event, more) (fresh w.now (add e.digest w.now b) more)
  ]

  -- The same after a tick of the timer.
  pub tick-IsFresh : (b : ReceiptBatch) → IsFresh w.now (tick keccak w b).0
  unfolding tick
  tick-IsFresh b = elim (Bool-cases (should_flush w.now b)) [
    | inl full ↦ rw (tick, full) (inl (flush_empties keccak w b))
    | inr more ↦ rw (tick, more) (fresh w.now b more)
  ]
