-- ===== src/KeeperHub/Reason/Printed.antt =====
-- The parser of packages/keeperhub/src/reason.ts on the strings that the guard reverts with, in
-- packages/guard/src/NoYeetGuard.sol, whose `_toString` prints in decimal.
use mathlib.Core.Option
use kp.Common.{
  ℕ, ◌<◌, ◌^◌, ◌≡◌, refl, ap, ◌∙◌, true, some, List, [], ◌∷◌, ◌++◌, arith, All, All-append, Text,
  lit, ltb, text_eq, get_elem?,
}
use kp.Common.Numbers.{is_space, show_ℕ}
use kp.Common.Numbers.Printing.{read_digits-show_base}
use kp.KeeperHub.Reason.{
  GuardDenial, invariant, probe_failed, probe_short, not_executor, not_admin, reentrant,
  call_failed, reason_prefix, split_colons, to_big, to_index, read_invariant, read_probe_short,
  read_payload, parse_guard_denial,
}
use kp.KeeperHub.Reason.Plain.{
  IsPlain, IsVisible, show_ℕ-IsPlain, IsVisible-of_IsPlain, split_colons_one, split_colons-cons,
  extract_payload-append,
}

split_colons_two :
    (k a : Text) → All IsPlain k → All IsPlain a → split_colons (k ++ b':' ∷ a) ≡ (k, a ∷ [])
split_colons_two k a hk ha =
    split_colons-cons k a hk ∙ ap (λ p. (k, p.0 ∷ p.1)) (split_colons_one a ha)

split_colons_four :
    (k a b c : Text)
    → All IsPlain k
    → All IsPlain a
    → All IsPlain b
    → All IsPlain c
    → split_colons (k ++ b':' ∷ (a ++ b':' ∷ (b ++ b':' ∷ c))) ≡ (k, a ∷ b ∷ c ∷ [])
split_colons_four k a b c hk ha hb hc =
    split_colons-cons k (a ++ b':' ∷ (b ++ b':' ∷ c)) hk
    ∙ ap (λ p. (k, p.0 ∷ p.1))
        (split_colons-cons a (b ++ b':' ∷ c) ha
          ∙ ap (λ p. (a, p.0 ∷ p.1)) (split_colons_two b c hb hc))

to_big-show_ℕ : (n : ℕ) → to_big (some (show_ℕ n)) ≡ some n
unfolding to_big show_ℕ
to_big-show_ℕ n = read_digits-show_base 10 n (omega arith) (omega arith)

to_index-show_ℕ : (n : ℕ) → n < 2 ^ 53 → to_index (some (show_ℕ n)) ≡ some n
unfolding to_index
to_index-show_ℕ n h =
    let small : ltb n (2 ^ 53) ≡ true = ground arith in rw (to_index, to_big-show_ℕ n, small) refl

-- The text behind the prefix in the guard's revert strings.
abbrev pub payload : GuardDenial → Text
payload (invariant index got want) =
    lit "INV" ++ b':' ∷ (show_ℕ index ++ b':' ∷ (show_ℕ got ++ b':' ∷ show_ℕ want))
payload (probe_failed index) = lit "PROBE_FAILED" ++ b':' ∷ show_ℕ index
payload (probe_short index length needed) =
    lit "PROBE_SHORT" ++ b':' ∷ (show_ℕ index ++ b':' ∷ (show_ℕ length ++ b':' ∷ show_ℕ needed))
payload not_executor = lit "NOT_EXECUTOR"
payload not_admin = lit "NOT_ADMIN"
payload reentrant = lit "REENTRANT"
payload call_failed = lit "CALL_FAILED"

-- The numbers that are read as indices are safe integers.
abbrev pub IsSafe : GuardDenial → Type 0
IsSafe (invariant index got want) = index < 2 ^ 53
IsSafe (probe_failed index) = index < 2 ^ 53
IsSafe (probe_short index length needed) = (index < 2 ^ 53) × (length < 2 ^ 53) × (needed < 2 ^ 53)
IsSafe _ = Unit

read_invariant-show_ℕ :
    (i g w : ℕ)
    → i < 2 ^ 53
    → read_invariant (show_ℕ i ∷ show_ℕ g ∷ show_ℕ w ∷ []) ≡ some (invariant i g w)
unfolding read_invariant
read_invariant-show_ℕ i g w h =
    rw (read_invariant, to_index-show_ℕ i h, to_big-show_ℕ g, to_big-show_ℕ w) refl

read_probe_short-show_ℕ :
    (i l n : ℕ)
    → i < 2 ^ 53
    → l < 2 ^ 53
    → n < 2 ^ 53
    → read_probe_short (show_ℕ i ∷ show_ℕ l ∷ show_ℕ n ∷ []) ≡ some (probe_short i l n)
unfolding read_probe_short
read_probe_short-show_ℕ i l n hi hl hn =
    rw (read_probe_short, to_index-show_ℕ i hi, to_index-show_ℕ l hl, to_index-show_ℕ n hn) refl

join-IsPlain : (s t : Text) → All IsVisible s → All IsVisible t → All IsVisible (s ++ b':' ∷ t)
unfolding is_space
join-IsPlain s t h k = All-append IsVisible s (b':' ∷ t) h (refl, k)

-- The kinds of the grammar have no space and no colon.
kind-IsPlain :
    All IsPlain (lit "INV")
    × All IsPlain (lit "PROBE_FAILED")
    × All IsPlain (lit "PROBE_SHORT")
    × All IsPlain (lit "NOT_EXECUTOR")
    × All IsPlain (lit "NOT_ADMIN")
    × All IsPlain (lit "REENTRANT")
    × All IsPlain (lit "CALL_FAILED")
unfolding lit is_space
kind-IsPlain = ground arith

shown : (n : ℕ) → All IsVisible (show_ℕ n)
shown n = IsVisible-of_IsPlain (show_ℕ n) (show_ℕ-IsPlain n)

payload-IsVisible : (d : GuardDenial) → All IsVisible (payload d)
payload-IsVisible (invariant i g w) =
    join-IsPlain (lit "INV") _ (IsVisible-of_IsPlain _ kind-IsPlain.0)
      (join-IsPlain (show_ℕ i) _ (shown i) (join-IsPlain (show_ℕ g) _ (shown g) (shown w)))
payload-IsVisible (probe_failed i) =
    join-IsPlain (lit "PROBE_FAILED") _ (IsVisible-of_IsPlain _ kind-IsPlain.1) (shown i)
payload-IsVisible (probe_short i l n) =
    join-IsPlain (lit "PROBE_SHORT") _ (IsVisible-of_IsPlain _ kind-IsPlain.2)
      (join-IsPlain (show_ℕ i) _ (shown i) (join-IsPlain (show_ℕ l) _ (shown l) (shown n)))
payload-IsVisible not_executor = IsVisible-of_IsPlain _ kind-IsPlain.3
payload-IsVisible not_admin = IsVisible-of_IsPlain _ kind-IsPlain.4
payload-IsVisible reentrant = IsVisible-of_IsPlain _ kind-IsPlain.5
payload-IsVisible call_failed = IsVisible-of_IsPlain _ kind-IsPlain.6

-- The readers that each kind selects.
read_payload-inv : (fields : List Text) → read_payload (lit "INV", fields) ≡ read_invariant fields
unfolding read_payload lit text_eq
read_payload-inv fields = refl

read_payload_failed :
    (fields : List Text)
    → read_payload (lit "PROBE_FAILED", fields)
      ≡ Option.map probe_failed (to_index (get_elem? fields 0))
unfolding read_payload lit text_eq
read_payload_failed fields = refl

read_payload_short :
    (fields : List Text) → read_payload (lit "PROBE_SHORT", fields) ≡ read_probe_short fields
unfolding read_payload lit text_eq
read_payload_short fields = refl

read_payload_alone :
    (read_payload (lit "NOT_EXECUTOR", []) ≡ some not_executor)
    × (read_payload (lit "NOT_ADMIN", []) ≡ some not_admin)
    × (read_payload (lit "REENTRANT", []) ≡ some reentrant)
    × (read_payload (lit "CALL_FAILED", []) ≡ some call_failed)
unfolding read_payload lit text_eq
read_payload_alone = (refl, refl, refl, refl)

read-payload : (d : GuardDenial) → IsSafe d → read_payload (split_colons (payload d)) ≡ some d
read-payload (invariant i g w) h =
    ap read_payload (
      split_colons_four (lit "INV") (show_ℕ i) (show_ℕ g) (show_ℕ w) kind-IsPlain.0
        (show_ℕ-IsPlain i) (show_ℕ-IsPlain g) (show_ℕ-IsPlain w))
    ∙ read_payload-inv _
    ∙ read_invariant-show_ℕ i g w h
read-payload (probe_failed i) h =
    ap read_payload
      (split_colons_two (lit "PROBE_FAILED") (show_ℕ i) kind-IsPlain.1 (show_ℕ-IsPlain i))
    ∙ read_payload_failed _
    ∙ ap (Option.map probe_failed) (to_index-show_ℕ i h)
read-payload (probe_short i l n) (hi, hl, hn) =
    ap read_payload (
      split_colons_four (lit "PROBE_SHORT") (show_ℕ i) (show_ℕ l) (show_ℕ n) kind-IsPlain.2
        (show_ℕ-IsPlain i) (show_ℕ-IsPlain l) (show_ℕ-IsPlain n))
    ∙ read_payload_short _
    ∙ read_probe_short-show_ℕ i l n hi hl hn
read-payload not_executor h =
    ap read_payload (split_colons_one _ kind-IsPlain.3) ∙ read_payload_alone.0
read-payload not_admin h =
    ap read_payload (split_colons_one _ kind-IsPlain.4) ∙ read_payload_alone.1
read-payload reentrant h =
    ap read_payload (split_colons_one _ kind-IsPlain.5) ∙ read_payload_alone.2
read-payload call_failed h =
    ap read_payload (split_colons_one _ kind-IsPlain.6) ∙ read_payload_alone.3

-- Each reason that the guard reverts with, in its grammar of the prefix and fields between colons
-- with decimal numbers, is parsed as the denial that it reports, where the indices and lengths in
-- it are safe integers; the compared values may be any.
pub parse_guard_denial-payload :
    (d : GuardDenial) → IsSafe d → parse_guard_denial (some (reason_prefix ++ payload d)) ≡ some d
unfolding parse_guard_denial
parse_guard_denial-payload d h =
    rw (parse_guard_denial, extract_payload-append (payload d) (payload-IsVisible d))
      (read-payload d h)
