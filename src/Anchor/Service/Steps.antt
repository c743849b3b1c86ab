-- ===== src/Anchor/Service/Steps.antt =====
-- What each step of apps/anchor/src/index.ts does to the batch.
use kp.Common.{
  ◌≡◌, ◌≢◌, refl, sym, subst, ap, ◌∙◌, ◌⊎◌, inl, inr, none, some, List, [], ◌∷◌, ◌++◌, append-nil,
  Text, lit, Bool-cases, Option-cases,
}
use kp.Resilience.Breaker.{Settled, returned, threw}
use kp.Receipts.Hash.{Bytes}
use kp.Receipts.Merkle.{MerkleTree, build_tree}
use kp.Events.{anchors, AnchorEvent, PublishedEvent}
use kp.Events.Validate.{NoyeetEvent, decision, DecodedDecision}
use kp.Anchor.Batch.{ReceiptBatch, add, should_flush, seal_leaves, seal}
use kp.Anchor.Service.{
  World, Effect, anchored, refused, unrooted, Step, consumed, ticked, stopped, publish_anchor,
  publish_sealed, flush, consume_event, tick, step,
}

settled_cases : (x : Settled Unit Text) → (x ≡ returned tt) ⊎ ((c : Text) × (x ≡ threw c))
settled_cases (returned u) = inl refl
settled_cases (threw c) = inr (c, refl)

pub List-cases :
    {A : Type 0} (xs : List A) → (xs ≡ []) ⊎ ((x : A) × (rest : List A) × (xs ≡ x ∷ rest))
List-cases [] = inl refl
List-cases (x ∷ rest) = inr (x, rest, refl)

-- The digests that a step brings.
abbrev pub digests_in : Step → List Text
digests_in (consumed (decision e)) = e.digest ∷ []
digests_in _ = []

module _ (keccak : Bytes → Bytes) (w : World) where
  -- The anchor of some leaves: they have a tree, and the event carries its root.
  abbrev pub IsAnchor : List Text → AnchorEvent → Type 0
  IsAnchor leaves e =
      (e.leaves ≡ leaves)
      × ((tree : MerkleTree) × (build_tree keccak leaves ≡ some tree) × (e.root ≡ tree.root))

  abbrev anchor_of : Text → List Text → AnchorEvent
  anchor_of root leaves = record { root = root; leaves = leaves; at = w.iso_now }

  -- The effect of a flush of some leaves.
  abbrev pub IsFlush : List Text → Effect → Type 0
  IsFlush leaves (anchored e) =
      IsAnchor leaves e × (w.emit anchors e.root (PublishedEvent.anchor e) ≡ returned tt)
  IsFlush leaves (refused e c) =
      IsAnchor leaves e × (w.emit anchors e.root (PublishedEvent.anchor e) ≡ threw c)
  IsFlush leaves (unrooted l) = (l ≡ leaves) × (leaves ≢ []) × (build_tree keccak leaves ≡ none)

  abbrev pub emptied : ReceiptBatch → ReceiptBatch
  emptied b = record b { leaves = []; opened_at = w.now }

  pub flush_empty : (b : ReceiptBatch) → b.leaves ≡ [] → flush keccak w b ≡ (b, [], returned tt)
  unfolding flush publish_sealed seal seal_leaves
  flush_empty b h = ap (λ l. publish_sealed keccak w (seal_leaves keccak w.now b l)) h

  flush_tree :
      (b : ReceiptBatch) (tree : MerkleTree) (leaf : Text) (rest : List Text)
      → build_tree keccak (leaf ∷ rest) ≡ some tree
      → publish_sealed keccak w (seal_leaves keccak w.now b (leaf ∷ rest))
        ≡ publish_anchor keccak w tree.root (leaf ∷ rest) (emptied b)
  unfolding publish_sealed seal_leaves
  flush_tree b tree leaf rest t = rw (seal_leaves, t) refl

  flush_unreadable :
      (b : ReceiptBatch) (leaf : Text) (rest : List Text)
      → build_tree keccak (leaf ∷ rest) ≡ none
      → publish_sealed keccak w (seal_leaves keccak w.now b (leaf ∷ rest))
        ≡ (emptied b, unrooted (leaf ∷ rest) ∷ [], threw (lit "Invalid hex"))
  unfolding publish_sealed seal_leaves
  flush_unreadable b leaf rest t = rw (seal_leaves, t) refl

  publish_ok :
      (root : Text) (leaves : List Text) (b : ReceiptBatch)
      → w.emit anchors root (PublishedEvent.anchor (anchor_of root leaves)) ≡ returned tt
      → publish_anchor keccak w root leaves b
        ≡ (b, anchored (anchor_of root leaves) ∷ [], returned tt)
  unfolding publish_anchor
  publish_ok root leaves b h = rw (publish_anchor, h) refl

  publish_no :
      (root : Text) (leaves : List Text) (b : ReceiptBatch) (c : Text)
      → w.emit anchors root (PublishedEvent.anchor (anchor_of root leaves)) ≡ threw c
      → publish_anchor keccak w root leaves b ≡ (b, refused (anchor_of root leaves) c ∷ [], threw c)
  unfolding publish_anchor
  publish_no root leaves b c h = rw (publish_anchor, h) refl

  seal_leaves-IsFlush :
      (b : ReceiptBatch) (leaf : Text) (rest : List Text)
      → (effect : Effect) × (outcome : Settled Unit Text) × (publish_sealed keccak w
            (seal_leaves keccak w.now b (leaf ∷ rest))
          ≡ (emptied b, effect ∷ [], outcome))
        × IsFlush (leaf ∷ rest) effect
  seal_leaves-IsFlush b leaf rest = elim (Option-cases (build_tree keccak (leaf ∷ rest))) [
    | inl t ↦ (unrooted (leaf ∷ rest), _, flush_unreadable b leaf rest t, (refl, (λ e. cc), t))
    | inr (tree, t) ↦
        elim (settled_cases
          (w.emit anchors tree.root (PublishedEvent.anchor (anchor_of tree.root (leaf ∷ rest))))) [
            | inl taken ↦ (
              anchored (anchor_of tree.root (leaf ∷ rest)),
              returned tt,
              flush_tree b tree leaf rest t ∙ publish_ok tree.root (leaf ∷ rest) (emptied b) taken,
              ((refl, (tree, t, refl)), taken),
            )
            | inr (c, not_taken) ↦ (
              refused (anchor_of tree.root (leaf ∷ rest)) c,
              threw c,
              flush_tree b tree leaf rest t
                  ∙ publish_no tree.root (leaf ∷ rest) (emptied b) c not_taken,
              ((refl, (tree, t, refl)), not_taken),
            )
          ]
  ]

  -- A flush of a batch that is not empty empties it, and has one effect.
  pub flush_full :
      (b : ReceiptBatch) (leaf : Text) (rest : List Text)
      → b.leaves ≡ leaf ∷ rest
      → (effect : Effect) × (outcome : Settled Unit Text) × (flush keccak w b
          ≡ (emptied b, effect ∷ [], outcome))
        × IsFlush b.leaves effect
  unfolding flush seal
  flush_full b leaf rest h =
      let (effect, outcome, e, is) = seal_leaves-IsFlush b leaf rest in
      (
        effect,
        outcome,
        ap (λ l. publish_sealed keccak w (seal_leaves keccak w.now b l)) h ∙ e,
        subst (λ l. IsFlush l effect) (sym h) is,
      )

  pub flush_empties : (b : ReceiptBatch) → (flush keccak w b).0.leaves ≡ []
  flush_empties b = elim (List-cases b.leaves) [
    | inl none_left ↦ ap (λ x. x.0.leaves) (flush_empty b none_left) ∙ none_left
    | inr (leaf, rest, h) ↦
        let (effect, outcome, e, is) = flush_full b leaf rest h in ap (λ x. x.0.leaves) e
  ]

  -- What a step makes of leaves: they wait, or one flush has taken them all.
  abbrev pub IsDone : List Text → ReceiptBatch → List Effect → Type 0
  IsDone leaves b effects =
      ((b.leaves ≡ leaves) × (effects ≡ []))
      ⊎ ((effect : Effect) × (b.leaves ≡ []) × (effects ≡ effect ∷ []) × IsFlush leaves effect)

  pub flush-IsDone : (b : ReceiptBatch) → IsDone b.leaves (flush keccak w b).0 (flush keccak w b).1
  flush-IsDone b = elim (List-cases b.leaves) [
    | inl none_left ↦
        inl
          (ap (λ x. x.0.leaves) (flush_empty b none_left), ap (λ x. x.1) (flush_empty b none_left))
    | inr (leaf, rest, h) ↦
        let (effect, outcome, e, is) = flush_full b leaf rest h in
        inr (effect, ap (λ x. x.0.leaves) e, ap (λ x. x.1) e, is)
  ]

  consume_decision :
      (e : DecodedDecision) (b : ReceiptBatch)
      → IsDone
          (b.leaves ++ e.digest ∷ [])
          (consume_event keccak w (decision e) b).0
          (consume_event keccak w (decision e) b).1
  unfolding consume_event add
  consume_decision e b = elim (Bool-cases (should_flush w.now (add e.digest w.now b))) [
    | inl full ↦ rw (consume_event, full) (flush-IsDone (add e.digest w.now b))
    | inr more ↦ rw (consume_event, more) (inl (refl, refl))
  ]

  tick-IsDone : (b : ReceiptBatch) → IsDone b.leaves (tick keccak w b).0 (tick keccak w b).1
  unfolding tick
  tick-IsDone b = elim (Bool-cases (should_flush w.now b)) [
    | inl full ↦ rw (tick, full) (flush-IsDone b)
    | inr more ↦ rw (tick, more) (inl (refl, refl))
  ]

  pub step-IsDone :
      (s : Step) (b : ReceiptBatch)
      → IsDone (b.leaves ++ digests_in s) (step keccak w s b).0 (step keccak w s b).1
  unfolding step consume_event
  step-IsDone (consumed (decision e)) b = consume_decision e b
  step-IsDone (consumed (NoyeetEvent.anchor j)) b = inl (sym (append-nil b.leaves), refl)
  step-IsDone (consumed (NoyeetEvent.dead_letter j)) b = inl (sym (append-nil b.leaves), refl)
  step-IsDone ticked b =
      subst (λ l. IsDone l (tick keccak w b).0 (tick keccak w b).1) (sym (append-nil b.leaves))
        (tick-IsDone b)
  step-IsDone stopped b =
      subst (λ l. IsDone l (flush keccak w b).0 (flush keccak w b).1) (sym (append-nil b.leaves))
        (flush-IsDone b)
