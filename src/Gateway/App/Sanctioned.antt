-- ===== src/Gateway/App/Sanctioned.antt =====
-- Where the broadcasts of the routes of apps/gateway/src/app.ts come from.
use kp.Common.{
  ◌≡◌, ◌⊎◌, inl, inr, refl, ap, Option, none, some, List, [], ◌∷◌, Text, OneOf, Option-cases,
}
use kp.KeeperHub.Outcomes.{ContractCallRequest}
use kp.Policy.Types.{Intent}
use kp.Receipts.Hash.{Bytes}
use kp.Gateway.Authorize.{AuthorizeOptions, AuthorizeResult, to_guard_call}
use kp.Gateway.Authorize.Allows.{settled_cases, verdict_cases}
use kp.Gateway.Holds.{Ledger, release}
use kp.Gateway.App.{
  World, Body, Request, post_authorize, post_execute, post_hold, post_resolve, post_verify, Effect,
  broadcasted, authorize_in, stored, hold_intent, authorize_and_hold, handle_authorize, handle_hold,
  handle,
}
use kp.Gateway.App.Broadcasts.{
  Holds, IsAuthorized, IsReleased, keyed_cases, unsent_persisted, execute_sent, resolve_sent,
}

module _ (keccak : Bytes → Bytes) (config : AuthorizeOptions) (w : World) where
  -- A list of effects that is empty, or one receipt that is persisted.
  IsQuiet : List Effect → Type 0
  IsQuiet effects =
      (effects ≡ []) ⊎ ((result : AuthorizeResult) × (effects ≡ stored keccak config w result ∷ []))

  quiet :
      (effects : List Effect) (call : ContractCallRequest) (key : Text)
      → IsQuiet effects
      → OneOf (broadcasted call key) effects
      → ⊥
  unfolding IsQuiet
  quiet effects call key (inl nothing) h = rw nothing at h
  quiet effects call key (inr (result, one)) h =
      unsent_persisted keccak config w call key result (rw one at h)

  hold_intent-IsQuiet :
      (intent : Intent) (key : Text) (result : AuthorizeResult) (ledger : Ledger)
      → IsQuiet (hold_intent keccak config w intent key result ledger).1
  unfolding hold_intent IsQuiet
  hold_intent-IsQuiet intent key result ledger = elim (verdict_cases result.verdict) [
    | inl v ↦ inr (result, rw (hold_intent, v) refl)
    | inr (inl v) ↦ inr (result, rw (hold_intent, v) refl)
    | inr (inr v) ↦ inr (result, rw (hold_intent, v) refl)
  ]

  hold-IsQuiet :
      (ledger : Ledger) (intent : Intent) (key : Text)
      → IsQuiet (authorize_and_hold keccak config w ledger intent key).1
  unfolding authorize_and_hold IsQuiet
  hold-IsQuiet ledger intent key = elim (settled_cases (authorize_in keccak config w intent)) [
    | inr (e, h) ↦ inl (rw (authorize_and_hold, h) refl)
    | inl (result, h) ↦ rw (authorize_and_hold, h) (hold_intent-IsQuiet intent key result ledger)
  ]

  handle_hold-IsQuiet :
      (body : Option Body) (ledger : Ledger) → IsQuiet (handle_hold keccak config w body ledger).1
  unfolding handle_hold IsQuiet
  handle_hold-IsQuiet body ledger =
      elim (keyed_cases body (authorize_and_hold keccak config w ledger) ledger) [
        | inl nothing ↦ inl nothing
        | inr (intent, key, _, same) ↦ rw (handle_hold, same) (hold-IsQuiet ledger intent key)
      ]

  handle_authorize-IsQuiet :
      (body : Option Body) (ledger : Ledger)
      → IsQuiet (handle_authorize keccak config w body ledger).1
  unfolding handle_authorize IsQuiet
  handle_authorize-IsQuiet none ledger = inl refl
  handle_authorize-IsQuiet (some body) ledger = elim (Option-cases body.intent) [
    | inl h ↦ inl (rw (handle_authorize, h) refl)
    | inr (intent, h) ↦ elim (settled_cases (authorize_in keccak config w intent)) [
      | inr (e, k) ↦ inl (rw (handle_authorize, h, k) refl)
      | inl (result, k) ↦ inr (result, rw (handle_authorize, h, k) refl)
    ]
  ]

  -- A call comes from an execution of an intent that passes, or from the release of a held record.
  abbrev pub IsSanctioned : Request → Ledger → ContractCallRequest → Text → Type 0
  IsSanctioned request ledger call key =
      ((body : Option Body) × (intent : Intent) × (request ≡ post_execute body)
        × Holds body intent key
        × (call ≡ to_guard_call intent config.guard config.guard_abi)
        × IsAuthorized keccak config w intent)
      ⊎ ((id : Text) × (request ≡ post_resolve release id)
          × IsReleased keccak config w id ledger call key)

  -- Every call that a request broadcasts is the guarded call of an intent under the caller's key.
  -- Either the request executes that intent, the policy permits it and the simulation does not
  -- revert, or the request releases a hold that was waiting with that intent and key.
  pub handle-IsSanctioned :
      (request : Request) (ledger : Ledger) (call : ContractCallRequest) (key : Text)
      → OneOf (broadcasted call key) (handle keccak config w request ledger).1
      → IsSanctioned request ledger call key
  unfolding handle
  handle-IsSanctioned (post_authorize body) ledger call key h =
      absurd (quiet _ call key (handle_authorize-IsQuiet body ledger) h)
  handle-IsSanctioned (post_execute body) ledger call key h =
      let (intent, holds, same, permitted) = execute_sent keccak config w body ledger call key h in
      inl (body, intent, refl, holds, same, permitted)
  handle-IsSanctioned (post_hold body) ledger call key h =
      absurd (quiet _ call key (handle_hold-IsQuiet body ledger) h)
  handle-IsSanctioned (post_resolve resolution id) ledger call key h =
      let (same, sent) = resolve_sent keccak config w resolution id ledger call key h in
      inr (id, ap (λ x. post_resolve x id) same, sent)
  handle-IsSanctioned (post_verify body) ledger call key h = absurd h
