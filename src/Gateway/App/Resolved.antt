-- ===== src/Gateway/App/Resolved.antt =====
-- Holds that are resolved, over a sequence of requests to the routes of apps/gateway/src/app.ts.
use kp.Common.{
  ◌≡◌, ◌≢◌, inl, inr, refl, ap, ◌∙◌, false, Option, none, some, List, [], ◌∷◌, Text, text_eq,
  text_eq_iff, Bool-cases, Option-cases, All,
}
use kp.Policy.Types.{Intent}
use kp.Receipts.Hash.{Bytes}
use kp.Gateway.Authorize.{AuthorizeOptions, AuthorizeResult}
use kp.Gateway.Authorize.Allows.{settled_cases, verdict_cases}
use kp.Gateway.Holds.{is_held, HoldRecord, Ledger, Resolution, create, get, resolve}
use kp.Gateway.Holds.Once.{
  differ, get-set_other, resolve_settled, resolve-get_other, resolve-some, not_held,
}
use kp.Gateway.App.{
  World, Body, Request, post_authorize, post_execute, post_hold, post_resolve, post_verify, Effect,
  Response, missing, keyed, authorize_in, authorize_and_execute, hold_intent, authorize_and_hold,
  handle_authorize, handle_execute, handle_hold, handle_resolve, handle, serve,
}

abbrev pub IsResolved : Text → Ledger → Type 0
IsResolved id ledger = (r : HoldRecord) × (get id ledger ≡ some r) × (is_held r.status ≡ false)

keyed_ledger :
    (P : Ledger → Type 0) (body : Option Body)
    (go : Intent → Text → Ledger × List Effect × Response) (ledger : Ledger)
    → P ledger
    → ((intent : Intent) (key : Text) → P (go intent key).0)
    → P (keyed body go ledger).0
unfolding keyed
keyed_ledger P none go ledger h k = h
keyed_ledger P (some b) go ledger h k = elim (Option-cases b.intent) [
  | inl e ↦ rw (keyed, e) h
  | inr (intent, e) ↦ elim (Option-cases b.idempotency_key) [
    | inl f ↦ rw (keyed, e, f) h
    | inr (key, f) ↦ elim (Bool-cases (text_eq key [])) [
      | inl g ↦ rw (keyed, e, f, g) h
      | inr g ↦ rw (keyed, e, f, g) (k intent key)
    ]
  ]
]

module _ (keccak : Bytes → Bytes) (config : AuthorizeOptions) where
  module _ (w : World) (id : Text) where
    execute_ledger :
        (ledger : Ledger) (intent : Intent) (key : Text)
        → (authorize_and_execute keccak config w ledger intent key).0 ≡ ledger
    unfolding authorize_and_execute
    execute_ledger ledger intent key = elim (settled_cases (authorize_in keccak config w intent)) [
      | inr (e, h) ↦ rw (authorize_and_execute, h) refl
      | inl (result, h) ↦ rw (authorize_and_execute, h) refl
    ]

    authorize_ledger :
        (body : Option Body) (ledger : Ledger)
        → (handle_authorize keccak config w body ledger).0 ≡ ledger
    unfolding handle_authorize
    authorize_ledger none ledger = refl
    authorize_ledger (some body) ledger = elim (Option-cases body.intent) [
      | inl h ↦ rw (handle_authorize, h) refl
      | inr (intent, h) ↦ elim (settled_cases (authorize_in keccak config w intent)) [
        | inr (e, k) ↦ rw (handle_authorize, h, k) refl
        | inl (result, k) ↦ rw (handle_authorize, h, k) refl
      ]
    ]

    -- A new hold under another id hides nothing.
    hold_intent_ledger :
        (intent : Intent) (key : Text) (result : AuthorizeResult) (ledger : Ledger)
        → id ≢ w.new_id
        → get id (hold_intent keccak config w intent key result ledger).0 ≡ get id ledger
    unfolding hold_intent create
    hold_intent_ledger intent key result ledger fresh = elim (verdict_cases result.verdict) [
      | inl v ↦ rw (hold_intent, v) refl
      | inr (inl v) ↦ rw (hold_intent, v) (get-set_other id _ ledger fresh)
      | inr (inr v) ↦ rw (hold_intent, v) refl
    ]

    hold_ledger :
        (ledger : Ledger) (intent : Intent) (key : Text)
        → id ≢ w.new_id
        → get id (authorize_and_hold keccak config w ledger intent key).0 ≡ get id ledger
    unfolding authorize_and_hold
    hold_ledger ledger intent key fresh =
        elim (settled_cases (authorize_in keccak config w intent)) [
          | inr (e, h) ↦ rw (authorize_and_hold, h) refl
          | inl (result, h) ↦
              rw (authorize_and_hold, h) (hold_intent_ledger intent key result ledger fresh)
        ]

    handle_resolve_ledger :
        (resolution : Resolution) (other : Text) (ledger : Ledger)
        → (handle_resolve keccak config w resolution other ledger).0
          ≡ (resolve other resolution w.iso_now ledger).0
    unfolding handle_resolve
    handle_resolve_ledger resolution other ledger =
        elim (Option-cases (resolve other resolution w.iso_now ledger).1) [
          | inl h ↦ rw (handle_resolve, h) refl
          | inr (r, h) ↦ by_resolution resolution r h
        ]
      where
        by_resolution :
            (resolution : Resolution) (r : HoldRecord)
            → (resolve other resolution w.iso_now ledger).1 ≡ some r
            → (handle_resolve keccak config w resolution other ledger).0
              ≡ (resolve other resolution w.iso_now ledger).0
        by_resolution Resolution.release r h = rw (handle_resolve, h) refl
        by_resolution Resolution.cancel r h = rw (handle_resolve, h) refl

    resolve-IsResolved :
        (resolution : Resolution) (other at : Text) (ledger : Ledger)
        → IsResolved id ledger
        → IsResolved id (resolve other resolution at ledger).0
    resolve-IsResolved resolution other at ledger (r, found, settled) =
        elim (Bool-cases (text_eq id other)) [
          | inl e ↦
              let same = (text_eq_iff id other).0 e in
              rw (resolve_settled other resolution at ledger r (rw same at found) settled)
                (r, found, settled)
          | inr e ↦ (
            r,
            resolve-get_other other resolution at ledger id (differ id other e) ∙ found,
            settled,
          )
        ]

    -- No request reopens the hold, unless it makes a new hold under its id.
    handle-IsResolved :
        (request : Request) (ledger : Ledger)
        → id ≢ w.new_id
        → IsResolved id ledger
        → IsResolved id (handle keccak config w request ledger).0
    unfolding handle handle_execute handle_hold
    handle-IsResolved (post_authorize body) ledger fresh h = rw (authorize_ledger body ledger) h
    handle-IsResolved (post_execute body) ledger fresh h =
        keyed_ledger (IsResolved id) body (authorize_and_execute keccak config w ledger) ledger h
          (λ intent key. rw (execute_ledger ledger intent key) h)
    handle-IsResolved (post_hold body) ledger fresh (r, found, settled) =
        keyed_ledger (IsResolved id) body (authorize_and_hold keccak config w ledger) ledger
          (r, found, settled)
          (λ intent key. (r, hold_ledger ledger intent key fresh ∙ found, settled))
    handle-IsResolved (post_resolve resolution other) ledger fresh h =
        rw (handle_resolve_ledger resolution other ledger)
          (resolve-IsResolved resolution other w.iso_now ledger h)
    handle-IsResolved (post_verify body) ledger fresh h = h

  serve-IsResolved :
      (id : Text) (requests : List (World × Request)) (ledger : Ledger)
      → All (λ p. id ≢ p.0.new_id) requests
      → IsResolved id ledger
      → IsResolved id (serve keccak config requests ledger).0
  unfolding serve
  serve-IsResolved id [] ledger fresh h = h
  serve-IsResolved id ((w, request) ∷ rest) ledger (fresh, more) h =
      serve-IsResolved id rest (handle keccak config w request ledger).0 more
        (handle-IsResolved w id request ledger fresh h)

  handle_missing :
      (w : World) (resolution : Resolution) (id : Text) (ledger : Ledger)
      → resolve id resolution w.iso_now ledger ≡ (ledger, none)
      → handle keccak config w (post_resolve resolution id) ledger ≡ (ledger, [], missing)
  unfolding handle handle_resolve
  handle_missing w resolution id ledger h =
      let nothing : (resolve id resolution w.iso_now ledger).1 ≡ none = ap (λ x. x.1) h in
      let kept : (resolve id resolution w.iso_now ledger).0 ≡ ledger = ap (λ x. x.0) h in
      rw (handle_resolve, nothing) (ap (λ l. (l, [], missing)) kept)

  -- Once a hold has been released or cancelled, every later attempt to resolve it finds nothing and
  -- broadcasts nothing, whatever requests come between, as long as none of them is given the same
  -- id for a new hold.
  pub serve-resolved_once :
      (id at : Text) (first second : Resolution) (ledger : Ledger) (r : HoldRecord)
      (requests : List (World × Request)) (w : World)
      → (resolve id first at ledger).1 ≡ some r
      → All (λ p. id ≢ p.0.new_id) requests
      → let after = (serve keccak config requests (resolve id first at ledger).0).0 in
        handle keccak config w (post_resolve second id) after ≡ (after, [], missing)
  serve-resolved_once id at first second ledger r requests w done fresh =
      let (old, _, _, same, found) = resolve-some id first at ledger r done in
      let (s, there, settled) =
        serve-IsResolved id requests (resolve id first at ledger).0 fresh
          (r, found, not_held old first at r same) in
      handle_missing w second id _ (resolve_settled id second w.iso_now _ s there settled)
