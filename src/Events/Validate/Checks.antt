-- ===== src/Events/Validate/Checks.antt =====
-- The checks of packages/events/src/validate.ts, one by one.
use kp.Common.{
  ℕ, ◌<◌, ◌≡◌, ◌≢◌, refl, ap, ◌∙◌, true, inl, inr, some-eq-some, Option, none, some, [], ◌∷◌, Text,
  text_eq, text_eq_iff, lit, ltb, ltb→lt, ==_iff, ◌==◌, length, arith, Bool-cases, Option-cases,
}
use kp.KeeperHub.Json.{Json, Items, num, str, arr, obj, as_text, as_number}
use kp.Policy.Types.{Verdict}
use kp.Receipts.Receipt.{verdict_name}
use kp.Events.Validate.{
  ok, read_verdict, hex_test, check_intent_id, check_verdict, check_digest, check_chain_id,
  check_reasons, check_at,
}

pub as_text_inv : (o : Option Json) {s : Text} → as_text o ≡ some s → o ≡ some (str s)
as_text_inv none h = cc
as_text_inv (some Json.null) h = cc
as_text_inv (some (Json.bool b)) h = cc
as_text_inv (some (num n)) h = cc
as_text_inv (some (str s)) h = cc
as_text_inv (some (arr i)) h = cc
as_text_inv (some (obj f)) h = cc

pub as_number_inv : (o : Option Json) {n : ℕ} → as_number o ≡ some n → o ≡ some (num n)
as_number_inv none h = cc
as_number_inv (some Json.null) h = cc
as_number_inv (some (Json.bool b)) h = cc
as_number_inv (some (num n)) h = cc
as_number_inv (some (str s)) h = cc
as_number_inv (some (arr i)) h = cc
as_number_inv (some (obj f)) h = cc

pub ok-eq-ok : {A : Type 0} {a b : A} → ok a ≡ ok b → a ≡ b
ok-eq-ok h = cc

pub read_verdict-verdict_name : (v : Verdict) → read_verdict (verdict_name v) ≡ some v
unfolding read_verdict verdict_name lit text_eq
read_verdict-verdict_name Verdict.allow = refl
read_verdict-verdict_name Verdict.hold = refl
read_verdict-verdict_name Verdict.deny = refl

verdict_name-read_verdict : (s : Text) {v : Verdict} → read_verdict s ≡ some v → s ≡ verdict_name v
unfolding read_verdict verdict_name
verdict_name-read_verdict s {v} h = elim (Bool-cases (text_eq s (lit "ALLOW"))) [
  | inl a ↦ rw (← some-eq-some (rw a at h)) ((text_eq_iff s (lit "ALLOW")).0 a)
  | inr a ↦ elim (Bool-cases (text_eq s (lit "HOLD"))) [
    | inl b ↦ rw (← some-eq-some (rw (a, b) at h)) ((text_eq_iff s (lit "HOLD")).0 b)
    | inr b ↦ elim (Bool-cases (text_eq s (lit "DENY"))) [
      | inl c ↦ rw (← some-eq-some (rw (a, b, c) at h)) ((text_eq_iff s (lit "DENY")).0 c)
      | inr c ↦ absurd (cc (rw (a, b, c) at h))
    ]
  ]
]

pub check_intent_id_inv :
    (o : Option Text) {s : Text} → check_intent_id o ≡ ok s → (o ≡ some s) × (s ≢ [])
unfolding check_intent_id
check_intent_id_inv none h = cc
check_intent_id_inv (some []) h = cc
check_intent_id_inv (some (c ∷ s)) h = rw (← ok-eq-ok h) (refl, λ e. cc)

pub check_verdict_inv :
    (o : Option Text) {v : Verdict} → check_verdict o ≡ ok v → o ≡ some (verdict_name v)
unfolding check_verdict
check_verdict_inv none h = cc
check_verdict_inv (some s) h = elim (Option-cases (read_verdict s)) [
  | inl missing ↦ absurd (cc (rw (check_verdict, missing) at h))
  | inr (v, found) ↦
      ap (λ x. some x)
        (verdict_name-read_verdict s
          (found ∙ ap (λ x. some x) (ok-eq-ok (rw (check_verdict, found) at h))))
]

pub check_digest_inv :
    (o : Option Text) {d : Text}
    → check_digest o ≡ ok d
    → (o ≡ some d) × (hex_test d ≡ true) × (length d ≡ 66)
unfolding check_digest
check_digest_inv none h = cc
check_digest_inv (some s) h = elim (Bool-cases (hex_test s)) [
  | inl p ↦ elim (Bool-cases (length s == 66)) [
    | inl q ↦ rw (← ok-eq-ok (rw (p, q) at h)) (refl, p, (==_iff (length s) 66).0 q)
    | inr q ↦ absurd (cc (rw (p, q) at h))
  ]
  | inr p ↦ absurd (cc (rw p at h))
]

pub check_chain_id_inv : (o : Option ℕ) {n : ℕ} → check_chain_id o ≡ ok n → (o ≡ some n) × (0 < n)
unfolding check_chain_id
check_chain_id_inv none h = cc
check_chain_id_inv (some m) h = elim (Bool-cases (ltb 0 m)) [
  | inl p ↦ rw (← ok-eq-ok (rw p at h)) (refl, ltb→lt 0 m p)
  | inr p ↦ absurd (cc (rw p at h))
]

pub check_reasons_inv :
    (o : Option Json) {u : Unit} → check_reasons o ≡ ok u → (items : Items) × (o ≡ some (arr items))
unfolding check_reasons
check_reasons_inv none h = cc
check_reasons_inv (some Json.null) h = cc
check_reasons_inv (some (Json.bool b)) h = cc
check_reasons_inv (some (num n)) h = cc
check_reasons_inv (some (str s)) h = cc
check_reasons_inv (some (arr i)) h = (i, refl)
check_reasons_inv (some (obj f)) h = cc

pub check_at_inv :
    (parse_date : Text → Option ℕ) (o : Option Text) {s : Text}
    → check_at parse_date o ≡ ok s
    → (o ≡ some s) × ((t : ℕ) × (parse_date s ≡ some t))
unfolding check_at
check_at_inv parse_date none h = cc
check_at_inv parse_date (some s) h = elim (Option-cases (parse_date s)) [
  | inl missing ↦ absurd (cc (rw (check_at, missing) at h))
  | inr (t, found) ↦ rw (← ok-eq-ok (rw (check_at, found) at h)) (refl, (t, found))
]

pub check_intent_id_ok : (s : Text) → s ≢ [] → check_intent_id (some s) ≡ ok s
unfolding check_intent_id
check_intent_id_ok [] h = absurd (h refl)
check_intent_id_ok (c ∷ s) h = refl

pub check_verdict_ok : (v : Verdict) → check_verdict (some (verdict_name v)) ≡ ok v
unfolding check_verdict
check_verdict_ok v = rw (check_verdict, read_verdict-verdict_name v) refl

pub check_digest_ok : (d : Text) → hex_test d ≡ true → length d ≡ 66 → check_digest (some d) ≡ ok d
unfolding check_digest
check_digest_ok d h l = rw (h, (==_iff (length d) 66).1 l) refl

pub check_chain_id_ok : (n : ℕ) → 0 < n → check_chain_id (some n) ≡ ok n
unfolding check_chain_id
check_chain_id_ok n h = ground arith

pub check_at_ok :
    (parse_date : Text → Option ℕ) (s : Text) (t : ℕ)
    → parse_date s ≡ some t
    → check_at parse_date (some s) ≡ ok s
unfolding check_at
check_at_ok parse_date s t h = rw (check_at, h) refl
