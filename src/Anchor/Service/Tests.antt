-- ===== src/Anchor/Service/Tests.antt =====
-- Runs of the service over a toy hash function, and each theorem at one of them.
use kp.Common.{ℕ, ◌+◌, ◌%◌, ◌≡◌, refl, List, [], ◌∷◌, ◌++◌, Text, lit, length, All, arith}
use kp.Common.Numbers.{digit, is_space}
use kp.KeeperHub.Json.{null}
use kp.Policy.Types.{Verdict}
use kp.Resilience.Breaker.{Settled, returned, threw}
use kp.Receipts.Hash.{Bytes, from_hex}
use kp.Receipts.Hash.Hex.{AreBytes}
use kp.Events.{AnchorEvent}
use kp.Events.Validate.{decision, DecodedDecision}
use kp.Anchor.Batch.{ReceiptBatch, new}
use kp.Anchor.Service.{World, Effect, refused, Step, consumed, ticked, stopped, flush, run}
use kp.Anchor.Service.Conserved.{leaves_in, consumed_in, run-conserves}
use kp.Anchor.Service.Rooted.{IsRead, IsRooted, flush_refused, run-stopped-IsRooted}
use kp.Anchor.Service.Waiting
use kp.Anchor.Service.Waiting.{digests, IsYoung, waiting-IsYoung}

abbrev total : Bytes → ℕ
total [] = 0
total (b ∷ bs) = b + total bs

abbrev toy : Bytes → Bytes
toy s = (total s % 256) ∷ (length s % 256) ∷ []

toy-AreBytes : (s : Bytes) → AreBytes (toy s)
toy-AreBytes s = omega arith

abbrev receipt : Text → DecodedDecision
receipt digest = record {
  intent_id = lit "i-1";
  verdict = Verdict.deny;
  digest = digest;
  chain_id = 1;
  at = lit "2026";
  body = null;
}

abbrev world : ℕ → Settled Unit Text → World
world now outcome = record { now = now; iso_now = lit "2026"; emit = λ t k e. outcome }

abbrev steps : List (World × Step)
steps =
    (world 1000 (returned tt), consumed (decision (receipt (lit "0x01"))))
    ∷ (world 1001 (returned tt), consumed (decision (receipt (lit "0x02"))))
    ∷ (world 1002 (returned tt), consumed (decision (receipt (lit "0x03"))))
    ∷ []

-- Two leaves make a batch.
abbrev start : ReceiptBatch
start = new 2 15_000 0

abbrev stopping : World
stopping = world 2000 (returned tt)

reads_one : IsRead (lit "0x01")
unfolding from_hex lit digit is_space
reads_one = (_, refl)

reads_two : IsRead (lit "0x02")
unfolding from_hex lit digit is_space
reads_two = (_, refl)

reads_three : IsRead (lit "0x03")
unfolding from_hex lit digit is_space
reads_three = (_, refl)

run-conserves_example :
    start.leaves ++ consumed_in steps
    ≡ leaves_in (run toy steps start).1 ++ (run toy steps start).0.leaves
run-conserves_example = run-conserves toy steps start

-- A digest that comes between the flush of the shutdown and the disconnection.
abbrev during : List (World × Step)
during = (world 2001 (returned tt), consumed (decision (receipt (lit "0x04")))) ∷ []

run-stopped-IsRooted_example :
    (before later : List Effect) × ((run toy
        ((steps ++ (stopping, stopped) ∷ []) ++ during)
        start).1
      ≡ before ++ later)
    × (leaves_in before ≡ lit "0x01" ∷ lit "0x02" ∷ lit "0x03" ∷ [])
    × All (IsRooted toy toy-AreBytes) before
    × (lit "0x04" ∷ []
        ≡ leaves_in later
          ++ (run toy ((steps ++ (stopping, stopped) ∷ []) ++ during) start).0.leaves)
unfolding new
run-stopped-IsRooted_example =
    run-stopped-IsRooted toy toy-AreBytes steps during stopping start tt
      (
        (λ t k e. refl, (reads_one, tt)),
        ((λ t k e. refl, (reads_two, tt)), ((λ t k e. refl, (reads_three, tt)), tt)),
      )
      (λ t k e. refl)

waiting-IsYoung_example :
    (digests (Waiting.waiting toy (steps ++ (stopping, ticked) ∷ []) (new 2 15_000 0) [])
      ≡ (run toy (steps ++ (stopping, ticked) ∷ []) (new 2 15_000 0)).0.leaves)
    × IsYoung 2 15_000 2000
        (Waiting.waiting toy (steps ++ (stopping, ticked) ∷ []) (new 2 15_000 0) [])
waiting-IsYoung_example = waiting-IsYoung toy 2 15_000 0 steps stopping

abbrev waiting : ReceiptBatch
waiting = record start { leaves = lit "0x01" ∷ []; opened_at = 1000 }

abbrev down : World
down = world 20_000 (threw (lit "down"))

flush_refused_example :
    ((flush toy down waiting).0.leaves ≡ [])
    × (e : AnchorEvent) × (c : Text) × ((flush toy down waiting).1 ≡ refused e c ∷ [])
    × (e.leaves ≡ lit "0x01" ∷ [])
flush_refused_example =
    flush_refused toy down waiting (λ t k e. (lit "down", refl)) (λ e. cc) (reads_one, tt)
