-- ===== src/Dashboard/Routes/Released.antt =====
-- The release and cancel routes of apps/dashboard/app/v1 one after the other.
use kp.Common.{
  ◌≡◌, refl, sym, subst, ap, ◌∙◌, ◌⊎◌, inl, inr, true, false, Option, none, some, [], ◌∷◌, Text,
  Bool-cases, Option-cases,
}
use kp.Common.Maps.{lookup, store, lookup-store_same}
use kp.Gateway.Holds.{HoldStatus, released, cancelled, is_held}
use kp.Dashboard.Ledger.{
  HeldIntent, HoldRecord, Holds, get_hold, resolve_hold, release_hold, cancel_hold,
}
use kp.Dashboard.Requests.{broadcast_body}
use kp.Dashboard.Execute.{Env, Effect, broadcasted}
use kp.Dashboard.Routes.{
  DashboardConfig, release_key, broadcast_intent, hold_missing, broadcast_failed, released_hold,
  intent_to_send, sent_on, start_release, finish_release, handle_release, handle_cancel,
}

abbrev pub resolved : HoldStatus → Text → HoldRecord → HoldRecord
resolved status now r = record r { status = status; released_at = some now }

resolve_hold_waiting :
    (status : HoldStatus) (now id : Text) (holds : Holds) (r : HoldRecord)
    → lookup id holds ≡ some r
    → is_held r.status ≡ true
    → resolve_hold status now id holds
      ≡ (store id (resolved status now r) holds, some (resolved status now r))
unfolding resolve_hold
resolve_hold_waiting status now id holds r h w = rw (resolve_hold, h) (rw w refl)

-- After a hold has been resolved it stands with the new status.
get_hold-resolve_hold :
    (status : HoldStatus) (now id : Text) (holds : Holds) (r : HoldRecord)
    → get_hold id holds ≡ some r
    → is_held r.status ≡ true
    → get_hold id (resolve_hold status now id holds).0 ≡ some (resolved status now r)
unfolding get_hold
get_hold-resolve_hold status now id holds r h w =
    rw (resolve_hold_waiting status now id holds r h w)
      (lookup-store_same id (resolved status now r) holds)

module _ (config : DashboardConfig) (env : Env) (id : Text) where
  abbrev pub sent : HeldIntent → Effect
  sent intent =
      broadcasted (broadcast_body env.guard intent.chain_id intent.calls intent.invariants)
        (release_key intent)

  broadcast_effects :
      (intent : HeldIntent)
      → config.has_key ≡ true
      → (broadcast_intent config env intent).0 ≡ sent intent ∷ []
  unfolding broadcast_intent
  broadcast_effects intent key = rw key refl

  release_effects :
      (body : Option HeldIntent) (holds : Holds) (intent : HeldIntent)
      → intent_to_send (get_hold id holds) body ≡ some intent
      → (handle_release config env id body holds).1 ≡ (broadcast_intent config env intent).0
  unfolding handle_release start_release finish_release
  release_effects body holds intent h = elim (Option-cases (broadcast_intent config env intent).1) [
    | inl lost ↦ rw (start_release, h) (rw lost refl)
    | inr (x, got) ↦ rw (start_release, h) (rw got refl)
  ]

  cancel_holds :
      (holds : Holds) (r : HoldRecord)
      → get_hold id holds ≡ some r
      → is_held r.status ≡ true
      → get_hold id (handle_cancel env id holds).0 ≡ some (resolved cancelled env.iso_now r)
  unfolding handle_cancel cancel_hold
  cancel_holds holds r h w =
      rw (handle_cancel, h) (rw w (get_hold-resolve_hold cancelled env.iso_now id holds r h w))

  -- A hold that was cancelled is broadcast all the same when its release names an intent: whatever
  -- intent the body has, it is sent, guarded, with no policy and no simulation asked.
  pub handle_cancel-handle_release :
      (holds : Holds) (r : HoldRecord) (intent : HeldIntent)
      → config.has_key ≡ true
      → get_hold id holds ≡ some r
      → is_held r.status ≡ true
      → (handle_release config env id (some intent) (handle_cancel env id holds).0).1
        ≡ sent intent ∷ []
  handle_cancel-handle_release holds r intent key h w =
      release_effects (some intent) (handle_cancel env id holds).0 intent
        (ap (λ o. intent_to_send o (some intent)) (cancel_holds holds r h w))
      ∙ broadcast_effects intent key

  release_missing :
      (holds : Holds)
      → intent_to_send (get_hold id holds) none ≡ none
      → handle_release config env id none holds ≡ (holds, [], hold_missing)
  unfolding handle_release start_release finish_release
  release_missing holds h = rw (start_release, h) refl

  release_done :
      (holds : Holds) (r : HoldRecord) (x : Text)
      → get_hold id holds ≡ some r
      → is_held r.status ≡ true
      → (broadcast_intent config env r.intent).1 ≡ some x
      → handle_release config env id none holds ≡ (
        (release_hold env.iso_now id holds).0,
        (broadcast_intent config env r.intent).0,
        released_hold x,
      )
  unfolding handle_release start_release finish_release
  release_done holds r x h w got = rw (start_release, h) (rw w (rw got (rw h (rw w refl))))

  release_lost :
      (holds : Holds) (r : HoldRecord)
      → get_hold id holds ≡ some r
      → is_held r.status ≡ true
      → (broadcast_intent config env r.intent).1 ≡ none
      → handle_release config env id none holds
        ≡ (holds, (broadcast_intent config env r.intent).0, broadcast_failed)
  unfolding handle_release start_release finish_release
  release_lost holds r h w lost = rw (start_release, h) (rw w (rw lost refl))

  release_keyed :
      (intent : HeldIntent) (x : Text)
      → (broadcast_intent config env intent).1 ≡ some x
      → config.has_key ≡ true
  unfolding broadcast_intent
  release_keyed intent x h = elim (Bool-cases config.has_key) [
    | inl key ↦ key
    | inr bare ↦ absurd (cc (rw bare at h))
  ]

  unheld : (r : HoldRecord) → is_held r.status ≡ false → intent_to_send (some r) none ≡ none
  unheld r w = rw w refl

  -- A hold that waits.
  abbrev pub IsWaiting : Holds → HoldRecord → Type 0
  IsWaiting holds r = (get_hold id holds ≡ some r) × (is_held r.status ≡ true)

  IsWaiting-cases :
      (holds : Holds)
      → ((r : HoldRecord) × IsWaiting holds r) ⊎ (intent_to_send (get_hold id holds) none ≡ none)
  IsWaiting-cases holds = elim (Option-cases (get_hold id holds)) [
    | inl missing ↦ inr (rw missing refl)
    | inr (r, h) ↦ elim (Bool-cases (is_held r.status)) [
      | inl w ↦ inl (r, (h, w))
      | inr w ↦ inr (ap (λ o. intent_to_send o none) h ∙ unheld r w)
    ]
  ]

  after_release :
      (holds : Holds) (r : HoldRecord)
      → IsWaiting holds r
      → intent_to_send (get_hold id (release_hold env.iso_now id holds).0) none ≡ none
  unfolding release_hold
  after_release holds r (h, w) =
      ap (λ o. intent_to_send o none) (get_hold-resolve_hold released env.iso_now id holds r h w)

  resolve_resolved :
      (status : HoldStatus) (now : Text) (holds : Holds) (r : HoldRecord)
      → get_hold id holds ≡ some r
      → is_held r.status ≡ false
      → (resolve_hold status now id holds).0 ≡ holds
  unfolding resolve_hold get_hold
  resolve_resolved status now holds r h w = rw (resolve_hold, h) (rw w refl)

  start_done :
      (body : Option HeldIntent) (holds : Holds) (r : HoldRecord) (x : Text)
      → IsWaiting holds r
      → (broadcast_intent config env r.intent).1 ≡ some x
      → start_release config env id body holds
        ≡ sent_on true (broadcast_intent config env r.intent).0 (some x)
  unfolding start_release
  start_done body holds r x (h, w) got = rw (start_release, h) (rw w (rw got (rw h (rw w refl))))

  -- A hold that is cancelled while its release waits for the broadcast's answer has been sent all the
  -- same, and the release answers that it is released, but the ledger keeps it as cancelled.
  pub handle_cancel-finish_release :
      (body : Option HeldIntent) (holds : Holds) (r : HoldRecord) (x : Text)
      → get_hold id holds ≡ some r
      → is_held r.status ≡ true
      → (broadcast_intent config env r.intent).1 ≡ some x
      → (finish_release env id
            (start_release config env id body holds)
            (handle_cancel env id holds).0
          ≡ ((handle_cancel env id holds).0, sent r.intent ∷ [], released_hold x))
        × (get_hold id (handle_cancel env id holds).0 ≡ some (resolved cancelled env.iso_now r))
  unfolding finish_release release_hold
  handle_cancel-finish_release body holds r x h w got =
      let gone = cancel_holds holds r h w in
      let key = release_keyed r.intent x got in
      (
        ap (λ st. finish_release env id st (handle_cancel env id holds).0)
              (start_done body holds r x (h, w) got)
            ∙ rw
                (
                  resolve_resolved released env.iso_now (handle_cancel env id holds).0
                      (resolved cancelled env.iso_now r) gone refl,
                  broadcast_effects r.intent key,
                )
                refl,
        gone,
      )

-- Without an intent in the body, a release that succeeds found a hold that waited, and sent the
-- guarded composite of its intent under the intent's key and nothing else; and the next release of
-- it finds nothing and sends nothing.
pub handle_release_once :
    (config : DashboardConfig) (env next : Env) (id x : Text) (holds : Holds)
    → (handle_release config env id none holds).2 ≡ released_hold x
    → (r : HoldRecord) × (get_hold id holds ≡ some r)
      × (is_held r.status ≡ true)
      × ((handle_release config env id none holds).1 ≡ sent config env id r.intent ∷ [])
      × (handle_release config next id none (handle_release config env id none holds).0
          ≡ ((handle_release config env id none holds).0, [], hold_missing))
handle_release_once config env next id x holds success =
    elim (IsWaiting-cases config env id holds) [
      | inr missing ↦
          absurd (missing_response (rw (release_missing config env id holds missing) at success))
      | inl (r, (h, w)) ↦ elim (Option-cases (broadcast_intent config env r.intent).1) [
        | inl lost ↦
            absurd (lost_response (rw (release_lost config env id holds r h w lost) at success))
        | inr (y, got) ↦
            let done = release_done config env id holds r y h w got in
            let key = release_keyed config env id r.intent y got in
            (
              r,
              h,
              w,
              ap (λ t. t.1) done ∙ broadcast_effects config env id r.intent key,
              subst (λ (l : Holds). handle_release config next id none l ≡ (l, [], hold_missing))
                  (sym (ap (λ t. t.0) done))
                  (release_missing config next id _ (after_release config env id holds r (h, w))),
            )
      ]
    ]
  where
    missing_response : hold_missing ≡ released_hold x → ⊥
    missing_response e = cc

    lost_response : broadcast_failed ≡ released_hold x → ⊥
    lost_response e = cc
