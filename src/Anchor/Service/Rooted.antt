-- ===== src/Anchor/Service/Rooted.antt =====
-- The roots that apps/anchor/src/index.ts publishes.
use kp.Common.{
  ℕ, ◌≡◌, ◌≢◌, refl, sym, subst, ap, ◌∙◌, inl, inr, some, List, [], ◌∷◌, ◌++◌, append-nil,
  append_assoc, Text, All, All-append, get_elem?,
}
use kp.Resilience.Breaker.{returned, threw}
use kp.Receipts.Hash.{Bytes, from_hex}
use kp.Receipts.Hash.Hex.{AreBytes}
use kp.Receipts.Merkle.{MerkleTree, decode_all, build_tree, process_proof}
use kp.Receipts.Merkle.Proofs.{build_tree_total, process_proof-get_proof}
use kp.Events.{Topic, anchors, AnchorEvent, PublishedEvent}
use kp.Anchor.Batch.{ReceiptBatch}
use kp.Anchor.Service.{World, Effect, anchored, refused, unrooted, Step, stopped, flush, step, run}
use kp.Anchor.Service.Steps.{
  digests_in, IsFlush, IsDone, step-IsDone, List-cases, flush_full, flush_empties,
}
use kp.Anchor.Service.Conserved.{leaves_in, consumed_in, run-conserves}

abbrev pub IsRead : Text → Type 0
IsRead d = (bytes : Bytes) × (from_hex d ≡ some bytes)

-- The broker takes what it is given.
abbrev pub Accepts : World → Type 0
Accepts w = (t : Topic) (key : Text) (e : PublishedEvent) → w.emit t key e ≡ returned tt

abbrev pub Refuses : World → Type 0
Refuses w = (t : Topic) (key : Text) (e : PublishedEvent) → (c : Text) × (w.emit t key e ≡ threw c)

decode_all-IsRead :
    (leaves : List Text)
    → All IsRead leaves
    → (bottom : List Bytes) × (decode_all leaves ≡ some bottom)
unfolding decode_all
decode_all-IsRead [] h = ([], refl)
decode_all-IsRead (d ∷ leaves) ((bytes, p), h) =
    let (bottom, q) = decode_all-IsRead leaves h in (bytes ∷ bottom, rw (p, q) refl)

module _ (keccak : Bytes → Bytes) where
  has_tree :
      (leaves : List Text)
      → leaves ≢ []
      → All IsRead leaves
      → (tree : MerkleTree) × (build_tree keccak leaves ≡ some tree)
  has_tree leaves n h =
      let (bottom, d) = decode_all-IsRead leaves h in
      let (tree, b, e) = build_tree_total keccak leaves bottom n d in (tree, b)

  refused_by :
      (w : World) (leaves : List Text) (effect : Effect)
      → Refuses w
      → leaves ≢ []
      → All IsRead leaves
      → IsFlush keccak w leaves effect
      → (e : AnchorEvent) × (c : Text) × (effect ≡ refused e c) × (e.leaves ≡ leaves)
  refused_by w leaves (anchored e) refuses n h (is, taken) =
      let (c, bad) = refuses anchors e.root (PublishedEvent.anchor e) in absurd (cc (taken, bad))
  refused_by w leaves (refused e c) refuses n h (is, bad) = (e, c, refl, is.0)
  refused_by w leaves (unrooted l) refuses n h (same, m, none_built) =
      let (tree, b) = has_tree leaves n h in absurd (cc (b, none_built))

  -- When the broker refuses the anchor of a batch, the batch is empty all the same: its leaves are in
  -- no anchor that was taken, and wait for none.
  pub flush_refused :
      (w : World) (b : ReceiptBatch)
      → Refuses w
      → b.leaves ≢ []
      → All IsRead b.leaves
      → ((flush keccak w b).0.leaves ≡ [])
        × (e : AnchorEvent) × (c : Text) × ((flush keccak w b).1 ≡ refused e c ∷ [])
        × (e.leaves ≡ b.leaves)
  flush_refused w b refuses n h = elim (List-cases b.leaves) [
    | inl nil ↦ absurd (n nil)
    | inr (leaf, rest, shape) ↦
        let (effect, outcome, e, is) = flush_full keccak w b leaf rest shape in
        let (event, c, same, leaves) = refused_by w b.leaves effect refuses n h is in
        (flush_empties keccak w b, event, c, ap (λ x. x.1) e ∙ ap (λ x. x ∷ []) same, leaves)
  ]

  -- What is relied on of the hash function: its digests are bytes.
  module _ (digests : (s : Bytes) → AreBytes (keccak s)) where
    -- An anchor that was taken, each leaf of which has a proof that computes its root.
    abbrev pub IsRooted : Effect → Type 0
    IsRooted (anchored e) =
        (i : ℕ) (leaf : Text)
        → get_elem? e.leaves i ≡ some leaf
        → (proof : List Text) × (process_proof keccak leaf proof ≡ some e.root)
    IsRooted _ = ⊥

    IsFlush-IsRooted :
        (w : World) (leaves : List Text) (e : Effect)
        → Accepts w
        → All IsRead leaves
        → IsFlush keccak w leaves e
        → IsRooted e
    IsFlush-IsRooted w leaves (anchored e) takes h ((same, (tree, b, r)), taken) = λ i leaf at.
        let (proof, p, q) =
          process_proof-get_proof keccak digests leaves tree i leaf b
            (subst (λ l. get_elem? l i ≡ some leaf) same at) in
        (proof, q ∙ ap some (sym r))
    IsFlush-IsRooted w leaves (refused e c) takes h (is, bad) =
        absurd (cc (bad, takes anchors e.root (PublishedEvent.anchor e)))
    IsFlush-IsRooted w leaves (unrooted l) takes h (same, n, none_built) =
        let (tree, b) = has_tree leaves n h in absurd (cc (b, none_built))

    -- A broker that takes everything, and digests that read as bytes.
    abbrev pub IsGood : World × Step → Type 0
    IsGood (w, s) = Accepts w × All IsRead (digests_in s)

    step-IsRooted :
        (w : World) (leaves : List Text) (b : ReceiptBatch) (effects : List Effect)
        → Accepts w
        → All IsRead leaves
        → IsDone keccak w leaves b effects
        → All IsRooted effects × All IsRead b.leaves
    step-IsRooted w leaves b effects takes h (inl (kept, quiet)) = rw (quiet, kept) (tt, h)
    step-IsRooted w leaves b effects takes h (inr (e, gone, one, is)) =
        rw (one, gone) ((IsFlush-IsRooted w leaves e takes h is, tt), tt)

    run-IsRooted :
        (steps : List (World × Step)) (b : ReceiptBatch)
        → All IsRead b.leaves
        → All IsGood steps
        → All IsRooted (run keccak steps b).1
    unfolding run
    run-IsRooted [] b h k = tt
    run-IsRooted ((w, s) ∷ steps) b h ((takes, reads), k) =
        let (rooted, left) =
          step-IsRooted w (b.leaves ++ digests_in s) (step keccak w s b).0 (step keccak w s b).1
            takes (All-append IsRead b.leaves (digests_in s) h reads) (step-IsDone keccak w s b) in
        All-append IsRooted (step keccak w s b).1 _ rooted
          (run-IsRooted steps (step keccak w s b).0 left k)

    run-stopped :
        (steps : List (World × Step)) (w : World) (b : ReceiptBatch)
        → (run keccak (steps ++ (w, stopped) ∷ []) b).0.leaves ≡ []
    unfolding run step
    run-stopped [] w b = flush_empties keccak w b
    run-stopped ((v, s) ∷ steps) w b = run-stopped steps w (step keccak v s b).0

    consumed_in-stopped :
        (steps : List (World × Step)) (w : World)
        → consumed_in (steps ++ (w, stopped) ∷ []) ≡ consumed_in steps
    consumed_in-stopped [] w = refl
    consumed_in-stopped ((v, s) ∷ steps) w =
        ap (λ l. digests_in s ++ l) (consumed_in-stopped steps w)

    run-append :
        (xs ys : List (World × Step)) (b : ReceiptBatch)
        → run keccak (xs ++ ys) b ≡ (
          (run keccak ys (run keccak xs b).0).0,
          (run keccak xs b).1 ++ (run keccak ys (run keccak xs b).0).1,
        )
    unfolding run
    run-append [] ys b = refl
    run-append ((w, s) ∷ xs) ys b = rw (run-append xs ys (step keccak w s b).0) (
        ap (λ l. ((run keccak ys (run keccak xs (step keccak w s b).0).0).0, l))
          (sym (append_assoc (step keccak w s b).1 _ _)))

    -- The service up to the flush of its shutdown, where the broker takes every anchor and the digests
    -- read as bytes.
    flushed :
        (steps : List (World × Step)) (w : World) (b : ReceiptBatch)
        → All IsRead b.leaves
        → All IsGood steps
        → Accepts w
        → (leaves_in (run keccak (steps ++ (w, stopped) ∷ []) b).1 ≡ b.leaves ++ consumed_in steps)
          × All IsRooted (run keccak (steps ++ (w, stopped) ∷ []) b).1
    flushed steps w b h k takes =
        let all_steps = steps ++ (w, stopped) ∷ [] in
        let kept = run-conserves keccak all_steps b in
        (
          sym (append-nil _)
              ∙ ap (λ l. leaves_in (run keccak all_steps b).1 ++ l) (sym (run-stopped steps w b))
              ∙ sym kept
              ∙ ap (λ l. b.leaves ++ l) (consumed_in-stopped steps w),
          run-IsRooted all_steps b h (All-append IsGood steps _ k ((takes, tt), tt)),
        )

    left_over :
        (steps during : List (World × Step)) (w : World) (b : ReceiptBatch)
        → consumed_in during
          ≡ leaves_in (run keccak during (run keccak (steps ++ (w, stopped) ∷ []) b).0).1
            ++ (run keccak during (run keccak (steps ++ (w, stopped) ∷ []) b).0).0.leaves
    left_over steps during w b =
        let b' = (run keccak (steps ++ (w, stopped) ∷ []) b).0 in
        ap (λ l. l ++ consumed_in during) (sym (run-stopped steps w b))
        ∙ run-conserves keccak during b'

    -- The shutdown flushes, and then waits for the consumer to disconnect, so that more events may come.
    -- If up to then the broker takes every anchor and the digests consumed read as bytes, every digest
    -- that was consumed before the flush is a leaf of an anchor that was taken, in order and once, and
    -- each leaf of those anchors has a proof that computes its root. Of the digests that come while the
    -- service disconnects, some may be in later flushes, and all others are left in the batch when it
    -- exits.
    pub run-stopped-IsRooted :
        (steps during : List (World × Step)) (w : World) (b : ReceiptBatch)
        → All IsRead b.leaves
        → All IsGood steps
        → Accepts w
        → (before later : List Effect) × ((run keccak ((steps ++ (w, stopped) ∷ []) ++ during) b).1
            ≡ before ++ later)
          × (leaves_in before ≡ b.leaves ++ consumed_in steps)
          × All IsRooted before
          × (consumed_in during
              ≡ leaves_in later ++ (run keccak ((steps ++ (w, stopped) ∷ []) ++ during) b).0.leaves)
    run-stopped-IsRooted steps during w b h k takes =
        let stopping = steps ++ (w, stopped) ∷ [] in
        let b' = (run keccak stopping b).0 in
        let whole = run-append stopping during b in
        let (all_there, rooted) = flushed steps w b h k takes in
        (
          (run keccak stopping b).1,
          (run keccak during b').1,
          ap (λ x. x.1) whole,
          all_there,
          rooted,
          left_over steps during w b
              ∙ ap (λ (l : ReceiptBatch). leaves_in (run keccak during b').1 ++ l.leaves)
                  (sym (ap (λ x. x.0) whole)),
        )
