-- ===== src/Gateway/App/Broadcasts.antt =====
-- What the routes `/v1/execute` and `/v1/holds/:id/release` of apps/gateway/src/app.ts broadcast.
use kp.Common.{
  ◌≡◌, ◌≢◌, ◌⊎◌, inl, inr, refl, ap, ◌∙◌, Option, none, some, List, [], ◌∷◌, Text, text_eq, OneOf,
  Bool-cases, Option-cases,
}
use kp.Resilience.Breaker.{returned, threw}
use kp.KeeperHub.Outcomes.{ContractCallRequest}
use kp.Policy.Types.{Verdict, Intent}
use kp.Policy.Permits.{Permits}
use kp.Receipts.Hash.{Bytes}
use kp.Gateway.Authorize.{AuthorizeOptions, AuthorizeResult, AuthorizeFault, to_guard_call}
use kp.Gateway.Authorize.Allows.{IsSimulated, authorize-allow_iff, settled_cases, verdict_cases}
use kp.Gateway.Holds.{held, HoldRecord, Ledger, Resolution, release, get, resolve}
use kp.Gateway.Holds.Once.{resolve-some}
use kp.Gateway.App.{
  World, Body, Effect, broadcasted, Response, context_for, keyed, authorize_in, stored, send,
  send_held, execute_intent, authorize_and_execute, handle_execute, handle_resolve,
}

-- A body that passes the guards.
abbrev pub Holds : Option Body → Intent → Text → Type 0
Holds body intent key =
    (b : Body) × (body ≡ some b) × (b.intent ≡ some intent) × (b.idempotency_key ≡ some key)

pub keyed_cases :
    (body : Option Body) (go : Intent → Text → Ledger × List Effect × Response) (ledger : Ledger)
    → ((keyed body go ledger).1 ≡ [])
      ⊎ ((intent : Intent) × (key : Text) × Holds body intent key
          × (keyed body go ledger ≡ go intent key))
unfolding keyed
keyed_cases none go ledger = inl refl
keyed_cases (some b) go ledger = elim (Option-cases b.intent) [
  | inl h ↦ inl (rw (keyed, h) refl)
  | inr (intent, h) ↦ elim (Option-cases b.idempotency_key) [
    | inl k ↦ inl (rw (keyed, h, k) refl)
    | inr (key, k) ↦ elim (Bool-cases (text_eq key [])) [
      | inl e ↦ inl (rw (keyed, h, k, e) refl)
      | inr e ↦ inr (intent, key, (b, refl, h, k), rw (keyed, h, k, e) refl)
    ]
  ]
]

broadcasted-injective :
    {c c' : ContractCallRequest} {k k' : Text}
    → broadcasted c k ≡ broadcasted c' k'
    → (c ≡ c') × (k ≡ k')
broadcasted-injective h = (cc, cc)

module _ (keccak : Bytes → Bytes) (config : AuthorizeOptions) (w : World) where
  send-effects :
      (intent : Intent) (key : Text) (result : AuthorizeResult)
      → (send keccak config w intent key result).0
        ≡ stored keccak config w result
          ∷ broadcasted (to_guard_call intent config.guard config.guard_abi) key
          ∷ []
  unfolding send
  send-effects intent key result =
      elim (settled_cases (w.broadcast (to_guard_call intent config.guard config.guard_abi) key)) [
        | inl (a, h) ↦ rw (send, h) refl
        | inr (e, h) ↦ rw (send, h) refl
      ]

  pub send_held-effects :
      (r : HoldRecord)
      → (send_held keccak config w r).0
        ≡ broadcasted (to_guard_call r.intent config.guard config.guard_abi) r.idempotency_key ∷ []
  unfolding send_held
  send_held-effects r =
      elim (settled_cases
        (w.broadcast (to_guard_call r.intent config.guard config.guard_abi) r.idempotency_key)) [
          | inl (a, h) ↦ rw (send_held, h) refl
          | inr (e, h) ↦ rw (send_held, h) refl
        ]

  -- The effects of an execution, by its verdict.
  execute_allow :
      (intent : Intent) (key : Text) (result : AuthorizeResult)
      → result.verdict ≡ Verdict.allow
      → (execute_intent keccak config w intent key result).0
        ≡ stored keccak config w result
          ∷ broadcasted (to_guard_call intent config.guard config.guard_abi) key
          ∷ []
  unfolding execute_intent
  execute_allow intent key result h = rw (execute_intent, h) (send-effects intent key result)

  execute_refused :
      (intent : Intent) (key : Text) (result : AuthorizeResult)
      → result.verdict ≢ Verdict.allow
      → (execute_intent keccak config w intent key result).0 ≡ stored keccak config w result ∷ []
  unfolding execute_intent
  execute_refused intent key result h = elim (verdict_cases result.verdict) [
    | inl allowed ↦ absurd (h allowed)
    | inr (inl v) ↦ rw (execute_intent, v) refl
    | inr (inr v) ↦ rw (execute_intent, v) refl
  ]

  pub unsent_persisted :
      (call : ContractCallRequest) (key : Text) (result : AuthorizeResult)
      → OneOf (broadcasted call key) (stored keccak config w result ∷ [])
      → ⊥
  unfolding stored
  unsent_persisted call key result (inl e) = cc
  unsent_persisted call key result (inr e) = e

  sent_after_persisted :
      (call c : ContractCallRequest) (key k : Text) (result : AuthorizeResult)
      → OneOf (broadcasted call key) (stored keccak config w result ∷ broadcasted c k ∷ [])
      → (call ≡ c) × (key ≡ k)
  unfolding stored
  sent_after_persisted call c key k result (inl e) = cc
  sent_after_persisted call c key k result (inr (inl e)) = broadcasted-injective e
  sent_after_persisted call c key k result (inr (inr e)) = absurd e

  -- The intent passes the policy and the simulation, in the world of the request.
  abbrev pub IsAuthorized : Intent → Type 0
  IsAuthorized intent =
      Permits intent config.policy (context_for w)
      × IsSimulated keccak w.simulate intent (context_for w) config w.iso_now

  execute_threw :
      (ledger : Ledger) (intent : Intent) (key : Text) (e : AuthorizeFault)
      → authorize_in keccak config w intent ≡ threw e
      → (authorize_and_execute keccak config w ledger intent key).1 ≡ []
  unfolding authorize_and_execute
  execute_threw ledger intent key e h = rw (authorize_and_execute, h) refl

  execute_returned :
      (ledger : Ledger) (intent : Intent) (key : Text) (result : AuthorizeResult)
      → authorize_in keccak config w intent ≡ returned result
      → (authorize_and_execute keccak config w ledger intent key).1
        ≡ (execute_intent keccak config w intent key result).0
  unfolding authorize_and_execute
  execute_returned ledger intent key result h = rw (authorize_and_execute, h) refl

  authorized :
      (intent : Intent) (result : AuthorizeResult)
      → authorize_in keccak config w intent ≡ returned result
      → result.verdict ≡ Verdict.allow
      → IsAuthorized intent
  unfolding authorize_in
  authorized intent result h v =
      (authorize-allow_iff keccak w.simulate intent (context_for w) config w.iso_now).0
        (result, h, v)

  execute_sent_by :
      (ledger : Ledger) (intent : Intent) (k : Text) (call : ContractCallRequest) (key : Text)
      → OneOf (broadcasted call key) (authorize_and_execute keccak config w ledger intent k).1
      → (key ≡ k)
        × (call ≡ to_guard_call intent config.guard config.guard_abi)
        × IsAuthorized intent
  execute_sent_by ledger intent k call key h =
      elim (settled_cases (authorize_in keccak config w intent)) [
        | inr (e, failed) ↦ absurd (rw (execute_threw ledger intent k e failed) at h)
        | inl (result, done) ↦
            let sent = rw (execute_returned ledger intent k result done) at h in
            elim (verdict_cases result.verdict) [
              | inl v ↦
                  let (same_call, same_key) =
                    sent_after_persisted call _ key k result
                      (rw (execute_allow intent k result v) at sent) in
                  (same_key, same_call, authorized intent result done v)
              | inr (inl v) ↦ absurd (
                  unsent_persisted call key result
                    (rw (execute_refused intent k result (λ u. cc)) at sent))
              | inr (inr v) ↦ absurd (
                  unsent_persisted call key result
                    (rw (execute_refused intent k result (λ u. cc)) at sent))
            ]
      ]

  pub execute_sent :
      (body : Option Body) (ledger : Ledger) (call : ContractCallRequest) (key : Text)
      → OneOf (broadcasted call key) (handle_execute keccak config w body ledger).1
      → (intent : Intent) × Holds body intent key
        × (call ≡ to_guard_call intent config.guard config.guard_abi)
        × IsAuthorized intent
  unfolding handle_execute
  execute_sent body ledger call key h =
      elim (keyed_cases body (authorize_and_execute keccak config w ledger) ledger) [
        | inl nothing ↦ absurd (rw nothing at h)
        | inr (intent, k, holds, same) ↦
            let (same_key, same_call, permitted) =
              execute_sent_by ledger intent k call key (rw same at h) in
            (intent, rw same_key holds, same_call, permitted)
      ]

  released :
      (resolution : Resolution) (id : Text) (ledger : Ledger) (r : HoldRecord)
      → (resolve id resolution w.iso_now ledger).1 ≡ some r
      → ((handle_resolve keccak config w resolution id ledger).1 ≡ [])
        ⊎ ((resolution ≡ release)
            × ((handle_resolve keccak config w resolution id ledger).1
                ≡ (send_held keccak config w r).0))
  unfolding handle_resolve
  released Resolution.release id ledger r h = inr (refl, rw (handle_resolve, h) refl)
  released Resolution.cancel id ledger r h = inl (rw (handle_resolve, h) refl)

  unreleased :
      (resolution : Resolution) (id : Text) (ledger : Ledger)
      → (resolve id resolution w.iso_now ledger).1 ≡ none
      → (handle_resolve keccak config w resolution id ledger).1 ≡ []
  unfolding handle_resolve
  unreleased resolution id ledger h = rw (handle_resolve, h) refl

  -- The call that the release of a held record sends.
  abbrev pub IsReleased : Text → Ledger → ContractCallRequest → Text → Type 0
  IsReleased id ledger call key =
      (r : HoldRecord) × (get id ledger ≡ some r)
      × (r.status ≡ held)
      × (call ≡ to_guard_call r.intent config.guard config.guard_abi)
      × (key ≡ r.idempotency_key)

  send_held-IsReleased :
      (id : Text) (ledger : Ledger) (r : HoldRecord) (call : ContractCallRequest) (key : Text)
      → (resolve id release w.iso_now ledger).1 ≡ some r
      → OneOf (broadcasted call key) (send_held keccak config w r).0
      → IsReleased id ledger call key
  send_held-IsReleased id ledger r call key done h =
      let (old, found, waits, same, _) = resolve-some id release w.iso_now ledger r done in
      let sent = rw (send_held-effects r) at h in
      elim sent [
        | inl e ↦ (
          old,
          found,
          waits,
          (broadcasted-injective e).0
              ∙ ap (λ x. to_guard_call x.intent config.guard config.guard_abi) same,
          (broadcasted-injective e).1 ∙ ap (λ x. x.idempotency_key) same,
        )
        | inr e ↦ absurd e
      ]

  pub resolve_sent :
      (resolution : Resolution) (id : Text) (ledger : Ledger) (call : ContractCallRequest)
      (key : Text)
      → OneOf (broadcasted call key) (handle_resolve keccak config w resolution id ledger).1
      → (resolution ≡ release) × IsReleased id ledger call key
  resolve_sent resolution id ledger call key h =
      elim (Option-cases (resolve id resolution w.iso_now ledger).1) [
        | inl nothing ↦ absurd (rw (unreleased resolution id ledger nothing) at h)
        | inr (r, done) ↦ elim (released resolution id ledger r done) [
          | inl nothing ↦ absurd (rw nothing at h)
          | inr (same, sends) ↦
              (same, send_held-IsReleased id ledger r call key (rw same at done) (rw sends at h))
        ]
      ]
