-- ===== src/Anchor/Service/Conserved.antt =====
-- The digests along a run of apps/anchor/src/index.ts.
use kp.Common.{
  ◌≡◌, refl, sym, ap, ◌∙◌, inl, inr, List, [], ◌∷◌, ◌++◌, append-nil, append_assoc, Text,
}
use kp.Receipts.Hash.{Bytes}
use kp.Anchor.Batch.{ReceiptBatch}
use kp.Anchor.Service.{World, Effect, anchored, refused, unrooted, Step, step, run}
use kp.Anchor.Service.Steps.{digests_in, IsFlush, IsDone, step-IsDone}

abbrev pub leaves_of : Effect → List Text
leaves_of (anchored e) = e.leaves
leaves_of (refused e c) = e.leaves
leaves_of (unrooted leaves) = leaves

abbrev pub leaves_in : List Effect → List Text
leaves_in [] = []
leaves_in (e ∷ es) = leaves_of e ++ leaves_in es

abbrev pub consumed_in : List (World × Step) → List Text
consumed_in [] = []
consumed_in ((w, s) ∷ steps) = digests_in s ++ consumed_in steps

module _ (keccak : Bytes → Bytes) where
  leaves_of-IsFlush :
      (w : World) (leaves : List Text) (e : Effect)
      → IsFlush keccak w leaves e
      → leaves_of e ≡ leaves
  leaves_of-IsFlush w leaves (anchored e) h = h.0.0
  leaves_of-IsFlush w leaves (refused e c) h = h.0.0
  leaves_of-IsFlush w leaves (unrooted l) h = h.0

  step-conserves :
      (w : World) (leaves : List Text) (b : ReceiptBatch) (effects : List Effect)
      → IsDone keccak w leaves b effects
      → leaves ≡ leaves_in effects ++ b.leaves
  step-conserves w leaves b effects (inl (kept, quiet)) = rw (quiet, kept) refl
  step-conserves w leaves b effects (inr (e, gone, one, is)) =
      rw (one, gone, leaves_of-IsFlush w leaves e is)
        (sym (append-nil (leaves ++ []) ∙ append-nil leaves))

  leaves_in-append : (xs ys : List Effect) → leaves_in (xs ++ ys) ≡ leaves_in xs ++ leaves_in ys
  leaves_in-append [] ys = refl
  leaves_in-append (x ∷ xs) ys = rw (leaves_in-append xs ys) (sym (append_assoc (leaves_of x) _ _))

  regroup :
      {A : Type 0} (b d rest x y z final : List A)
      → b ++ d ≡ x ++ y
      → y ++ rest ≡ z ++ final
      → b ++ (d ++ rest) ≡ (x ++ z) ++ final
  regroup b d rest x y z final h k =
      sym (append_assoc b d rest)
      ∙ ap (λ l. l ++ rest) h
      ∙ append_assoc x y rest
      ∙ ap (λ l. x ++ l) k
      ∙ sym (append_assoc x z final)

  -- Every digest that a run consumes is, in order and once, in a flush or still in the batch.
  pub run-conserves :
      (steps : List (World × Step)) (b : ReceiptBatch)
      → b.leaves ++ consumed_in steps
        ≡ leaves_in (run keccak steps b).1 ++ (run keccak steps b).0.leaves
  unfolding run
  run-conserves [] b = append-nil b.leaves
  run-conserves ((w, s) ∷ steps) b =
      let after = (step keccak w s b).0 in
      rw (leaves_in-append (step keccak w s b).1 (run keccak steps after).1) (
        regroup b.leaves (digests_in s) (consumed_in steps) _ after.leaves _ _
          (step-conserves w (b.leaves ++ digests_in s) after (step keccak w s b).1
            (step-IsDone keccak w s b))
          (run-conserves steps after))
