-- ===== src/Policy/Permits/Calls.antt =====
-- The rules that look at each call.
use kp.Common.{
  if◌then◌else◌, ◌>>=◌, >>=-eq-some, some-eq-some, append-eq-nil, ℕ, ◌+◌, ◌≡◌, refl, ◌∙◌, ap, inl,
  inr, Bool, true, false, ◌||◌, Option, none, some, List, [], ◌∷◌, map, Text, lit, lower, All,
  OneOf, mem_text, mem_text→OneOf, OneOf→mem_text, Bool-cases,
}
use mathlib.Core.Bool.{or-true}
use kp.Common.Int.{ℤ, leb_ℤ→le, le→leb_ℤ}
use kp.Common.Numbers.{big}
use kp.Policy.Types.{Call, Reason}
use kp.Policy.Rules.Calls.{flat_map_calls, approval_amount}
use kp.Policy.Rules.Static.{
  check_target, selector_entry, selector_passes, selector_throws, check_selector,
}
use kp.Policy.Rules.Limits.{check_amount, check_approval}
use kp.Policy.Rules.Holds.{unknown_from}
use kp.Policy.Permits.{MaySelect, MayCall, MayApprove}

module _ (P : Call → Type 0) (f : ℕ → Call → Option (List Reason)) where
  pub All-flat_map :
      ((n : ℕ) (call : Call) → f n call ≡ some [] → P call)
      → (n : ℕ) (calls : List Call) → flat_map_calls f n calls ≡ some []
      → All P calls
  unfolding flat_map_calls
  All-flat_map each n [] h = tt
  All-flat_map each n (c ∷ cs) h =
      let (here, p, k) = >>=-eq-some (f n c) _ h in
      let (rest, q, e) = >>=-eq-some (flat_map_calls f (n + 1) cs) _ k in
      let (no_here, no_rest) = append-eq-nil here rest (some-eq-some e) in
      (each n c (p ∙ ap some no_here), All-flat_map each (n + 1) cs (q ∙ ap some no_rest))

  pub flat_map_of_All :
      ((n : ℕ) (call : Call) → P call → f n call ≡ some [])
      → (n : ℕ) (calls : List Call) → All P calls
      → flat_map_calls f n calls ≡ some []
  unfolding flat_map_calls
  flat_map_of_All each n [] h = refl
  flat_map_of_All each n (c ∷ cs) (p, h) = rw (each n c p, flat_map_of_All each (n + 1) cs h)

-- A conditional that passes, passed its test.
pub passed :
    (b : Bool) (r : Reason) (rs : List Reason)
    → (if◌then◌else◌ b (some []) (some (r ∷ rs))) ≡ some []
    → b ≡ true
passed true r rs h = refl
passed false r rs h = cc

pub target_pass :
    (allowed : List Text) (n : ℕ) (call : Call)
    → check_target allowed n call ≡ some []
    → OneOf (lower call.target) allowed
unfolding check_target
target_pass allowed n call h = mem_text→OneOf _ allowed (passed _ _ _ h)

pub target_passes :
    (allowed : List Text) (n : ℕ) (call : Call)
    → OneOf (lower call.target) allowed
    → check_target allowed n call ≡ some []
unfolding check_target
target_passes allowed n call h = rw (OneOf→mem_text _ allowed h)

may_select :
    (entry : Option (List Text)) (call : Call)
    → selector_passes entry call ≡ true
    → MaySelect entry call
unfolding selector_passes
may_select none call h = tt
may_select (some entry) call h = elim (Bool-cases (mem_text (lit "*") entry)) [
  | inl any ↦ inl (mem_text→OneOf _ entry any)
  | inr other ↦ inr (mem_text→OneOf _ (map lower entry) (rw other at h))
]

selects :
    (entry : Option (List Text)) (call : Call)
    → MaySelect entry call
    → selector_passes entry call ≡ true
unfolding selector_passes
selects none call h = refl
selects (some entry) call (inl h) = rw (OneOf→mem_text _ entry h)
selects (some entry) call (inr h) =
    rw (OneOf→mem_text _ (map lower entry) h) (or-true (mem_text (lit "*") entry))

-- A conditional that does not throw.
unthrown :
    (b : Bool) (m : Option (List Reason)) {rs : List Reason}
    → (if◌then◌else◌ b none m) ≡ some rs
    → (b ≡ false) × (m ≡ some rs)
unthrown true m h = cc
unthrown false m h = (refl, h)

pub selector_pass :
    (selectors : List (Text × List Text)) (n : ℕ) (call : Call)
    → check_selector selectors n call ≡ some []
    → MayCall selectors call
unfolding check_selector
selector_pass selectors n call h =
    let (own, k) = unthrown (selector_throws selectors call.target) _ h in
    (own, may_select (selector_entry selectors call.target) call (passed _ _ _ k))

pub selector_gives :
    (selectors : List (Text × List Text)) (n : ℕ) (call : Call)
    → MayCall selectors call
    → check_selector selectors n call ≡ some []
unfolding check_selector
selector_gives selectors n call (own, h) =
    rw own (rw (selects (selector_entry selectors call.target) call h) refl)

may_approve :
    (cap : Text) (n : ℕ) (amount : Option ℤ)
    → check_amount cap n amount ≡ some []
    → MayApprove cap (some amount)
unfolding check_amount
may_approve cap n none h = tt
may_approve cap n (some a) h =
    let (b, p, k) = >>=-eq-some (big cap) _ h in (b, p, leb_ℤ→le a b (passed _ _ _ k))

pub approval_pass :
    (cap : Text) (n : ℕ) (call : Call)
    → check_approval cap n call ≡ some []
    → MayApprove cap (approval_amount call.calldata)
unfolding check_approval
approval_pass cap n call h =
    let (amount, p, k) = >>=-eq-some (approval_amount call.calldata) _ h in
    rw p (may_approve cap n amount k)

approves :
    (cap : Text) (n : ℕ) (amount : Option ℤ)
    → MayApprove cap (some amount)
    → check_amount cap n amount ≡ some []
unfolding check_amount
approves cap n none h = refl
approves cap n (some a) (b, p, k) = rw p (rw (le→leb_ℤ a b k))

pub approval_passes :
    (cap : Text) (n : ℕ) (call : Call)
    → MayApprove cap (approval_amount call.calldata)
    → check_approval cap n call ≡ some []
unfolding check_approval
approval_passes cap n call h = passes (approval_amount call.calldata) refl h
  where
    passes :
        (amount : Option (Option ℤ))
        → approval_amount call.calldata ≡ amount
        → MayApprove cap amount
        → (approval_amount call.calldata >>= check_amount cap n) ≡ some []
    passes none e k = absurd k
    passes (some a) e k = rw e (approves cap n a k)

reported :
    (target : Text) (known : List Text) (skipped rest : List Reason) (r : Reason)
    → mem_text target known ≡ false
    → (if mem_text target known || mem_text target [] then skipped else r ∷ rest) ≡ []
    → ⊥
unfolding mem_text
reported target known skipped rest r new h = cc (rw new at h)

-- The rule on unknown counterparties passes exactly the calls to known ones: what is in `seen`
-- was reported before.
pub known_of_none :
    (known : List Text) (n : ℕ) (calls : List Call)
    → unknown_from known [] n calls ≡ []
    → All (λ (call : Call). OneOf (lower call.target) known) calls
unfolding unknown_from
known_of_none known n [] h = tt
known_of_none known n (c ∷ cs) h = elim (Bool-cases (mem_text (lower c.target) known)) [
  | inl old ↦ (mem_text→OneOf _ known old, known_of_none known (n + 1) cs (rw old at h))
  | inr new ↦ absurd (reported (lower c.target) known _ _ _ new h)
]

pub none_of_known :
    (known seen : List Text) (n : ℕ) (calls : List Call)
    → All (λ (call : Call). OneOf (lower call.target) known) calls
    → unknown_from known seen n calls ≡ []
unfolding unknown_from
none_of_known known seen n [] h = refl
none_of_known known seen n (c ∷ cs) (p, h) =
    rw (OneOf→mem_text (lower c.target) known p) (none_of_known known seen (n + 1) cs h)
