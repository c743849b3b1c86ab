-- ===== src/Gateway/App/Released.antt =====
-- The routes of apps/gateway/src/app.ts that make a hold and release it, one after the other.
use kp.Common.{
  ◌≡◌, inl, inr, refl, subst, true, Option, none, some, List, [], ◌∷◌, Text, text_eq, Bool-cases,
  Option-cases,
}
use kp.Policy.Types.{Intent}
use kp.Receipts.Hash.{Bytes}
use kp.Gateway.Authorize.{AuthorizeOptions, AuthorizeResult, to_guard_call}
use kp.Gateway.Authorize.Allows.{settled_cases, verdict_cases}
use kp.Gateway.Holds.{is_held, HoldRecord, Ledger, release, create, get}
use kp.Gateway.Holds.Once.{get-set_same, resolve_waiting, resolved_as}
use kp.Gateway.App.{
  World, Body, post_hold, post_resolve, Effect, broadcasted, Response, no_json, intent_missing,
  key_missing, waiting, keyed, authorize_in, stored, hold_intent, authorize_and_hold,
  handle_resolve, handle_hold, handle,
}
use kp.Gateway.App.Broadcasts.{send_held-effects}

-- What holds of the three refusals and of what comes behind the guards holds of the handler.
keyed_any :
    (P : Ledger × List Effect × Response → Type 0) (body : Option Body)
    (go : Intent → Text → Ledger × List Effect × Response) (ledger : Ledger)
    → P (ledger, [], no_json)
    → P (ledger, [], intent_missing)
    → P (ledger, [], key_missing)
    → ((intent : Intent) (key : Text) → P (go intent key))
    → P (keyed body go ledger)
unfolding keyed
keyed_any P none go ledger a b c d = a
keyed_any P (some body) go ledger a b c d = elim (Option-cases body.intent) [
  | inl e ↦ rw (keyed, e) b
  | inr (intent, e) ↦ elim (Option-cases body.idempotency_key) [
    | inl f ↦ rw (keyed, e, f) c
    | inr (key, f) ↦ elim (Bool-cases (text_eq key [])) [
      | inl g ↦ rw (keyed, e, f, g) c
      | inr g ↦ rw (keyed, e, f, g) (d intent key)
    ]
  ]
]

-- A record that is answered as waiting stands in the ledger, and is held.
abbrev Waits : Ledger × List Effect × Response → Type 0
Waits x =
    (r : HoldRecord) → x.2 ≡ waiting r → (get r.hold_id x.0 ≡ some r) × (is_held r.status ≡ true)

waiting-injective : {r s : HoldRecord} → waiting r ≡ waiting s → r ≡ s
waiting-injective h = cc

created :
    (id at : Text) (intent : Intent) (key : Text) (result : AuthorizeResult) (ledger : Ledger)
    (effects : List Effect)
    → let (after, r) = create id at intent key result.receipt result.digest ledger in
      Waits (after, effects, waiting r)
unfolding create
created id at intent key result ledger effects r h =
    subst
      (λ x.
        (get x.hold_id (create id at intent key result.receipt result.digest ledger).0 ≡ some x)
        × (is_held x.status ≡ true))
      (waiting-injective h) (get-set_same _ ledger, refl)

module _ (keccak : Bytes → Bytes) (config : AuthorizeOptions) (w : World) where
  hold_intent-Waits :
      (intent : Intent) (key : Text) (result : AuthorizeResult) (ledger : Ledger)
      → Waits (hold_intent keccak config w intent key result ledger)
  unfolding hold_intent
  hold_intent-Waits intent key result ledger = elim (verdict_cases result.verdict) [
    | inl v ↦ rw (hold_intent, v) (λ r h. absurd (cc h))
    | inr (inl v) ↦
        rw (hold_intent, v)
          (created w.new_id w.iso_now intent key result ledger (stored keccak config w result ∷ []))
    | inr (inr v) ↦ rw (hold_intent, v) (λ r h. absurd (cc h))
  ]

  hold-Waits :
      (ledger : Ledger) (intent : Intent) (key : Text)
      → Waits (authorize_and_hold keccak config w ledger intent key)
  unfolding authorize_and_hold
  hold-Waits ledger intent key = elim (settled_cases (authorize_in keccak config w intent)) [
    | inr (e, h) ↦ rw (authorize_and_hold, h) (λ r k. absurd (cc k))
    | inl (result, h) ↦ rw (authorize_and_hold, h) (hold_intent-Waits intent key result ledger)
  ]

  handle_hold-Waits :
      (body : Option Body) (ledger : Ledger) → Waits (handle_hold keccak config w body ledger)
  unfolding handle_hold
  handle_hold-Waits body ledger =
      keyed_any Waits body (authorize_and_hold keccak config w ledger) ledger (λ r h. absurd (cc h))
        (λ r h. absurd (cc h)) (λ r h. absurd (cc h)) (hold-Waits ledger)

  release_effects :
      (ledger : Ledger) (r : HoldRecord)
      → get r.hold_id ledger ≡ some r
      → is_held r.status ≡ true
      → (handle_resolve keccak config w release r.hold_id ledger).1
        ≡ broadcasted (to_guard_call r.intent config.guard config.guard_abi) r.idempotency_key ∷ []
  unfolding handle_resolve
  release_effects ledger r found waits =
      rw (handle_resolve, resolve_waiting r.hold_id release w.iso_now ledger r found waits)
        (send_held-effects keccak config w (resolved_as release w.iso_now r))

-- When the gateway answers a request with a hold that waits, releasing that hold next broadcasts the
-- guarded call of its intent under its key, and nothing else.
pub hold-release :
    (keccak : Bytes → Bytes) (config : AuthorizeOptions) (w later : World) (body : Option Body)
    (ledger : Ledger) (r : HoldRecord)
    → (handle keccak config w (post_hold body) ledger).2 ≡ waiting r
    → (handle keccak config later
        (post_resolve release r.hold_id)
        (handle keccak config w (post_hold body) ledger).0).1
      ≡ broadcasted (to_guard_call r.intent config.guard config.guard_abi) r.idempotency_key ∷ []
unfolding handle
hold-release keccak config w later body ledger r h =
    let (found, waits) = handle_hold-Waits keccak config w body ledger r h in
    release_effects keccak config later (handle_hold keccak config w body ledger).0 r found waits
