-- ===== src/Gateway/App.antt =====
-- apps/gateway/src/app.ts: the routes of the gateway that decide, broadcast and keep holds. A body
-- is what the route reads of it, `none` where it is no JSON, and an intent in it has the shape of
-- the type. What the world does during one request (the simulator, the broadcast, the store, the
-- clock and a new hold's id) is given with the request; what the gateway does is a list in order.
-- A request touches the ledger once, between two awaits, so that requests do not interleave on it.
-- Metrics, traces, the event log, the notification of a hold and the routes that only read, for
-- health, metrics and the state of an execution, are left out.
pub mod Broadcasts
pub mod Sanctioned
pub mod Resolved
pub mod Released
mod Tests
use mathlib.Core.Option
use kp.Common.{
  ℕ, Bool, true, false, Option, none, some, List, [], ◌∷◌, ◌++◌, Text, lit, text_eq, lower,
  if◌then◌else◌,
}
use kp.Common.Numbers.{trim}
use kp.Resilience.Breaker.{Settled, returned, threw}
use kp.KeeperHub.Http.{KeeperHubError}
use kp.KeeperHub.Outcomes.{ContractCallRequest, SimulationOutcome, ExecutionAccepted}
use kp.Policy.Types.{Verdict, Intent, EvalContext}
use kp.Receipts.Hash.{Bytes}
use kp.Receipts.Receipt.{Receipt, receipt_digest}
use kp.Gateway.Authorize.{
  AuthorizeOptions, AuthorizeResult, AuthorizeFault, to_guard_call, authorize,
}
use kp.Gateway.Holds.{HoldRecord, Ledger, Resolution, release, cancel, create, resolve}

pub record World : Type 0 where
  pub simulate : ContractCallRequest → Settled SimulationOutcome KeeperHubError
  pub broadcast : ContractCallRequest → Text → Settled ExecutionAccepted KeeperHubError
  pub stores : Bool
  pub now : ℕ
  pub iso_now : Text
  pub new_id : Text

pub record Body : Type 0 where
  pub intent : Option Intent
  pub idempotency_key : Option Text

pub record VerifyBody : Type 0 where
  pub receipt : Option Receipt
  pub claimed_digest : Option Text

pub data Request : Type 0 where
  post_authorize post_execute post_hold : Option Body → Request
  post_resolve : Resolution → Text → Request
  post_verify : Option VerifyBody → Request

pub data Effect : Type 0 where
  persisted : Receipt → Text → Bool → Effect
  broadcasted : ContractCallRequest → Text → Effect

pub data Response : Type 0 where
  no_json intent_missing key_missing receipt_missing : Response
  failed : AuthorizeFault → Response
  broadcast_failed : KeeperHubError → Response
  decided : AuthorizeResult → Bool → Response
  unsent : AuthorizeResult → Response
  submitted : AuthorizeResult → ExecutionAccepted → Response
  waiting : HoldRecord → Response
  missing : Response
  released_as : HoldRecord → ExecutionAccepted → Response
  cancelled_as : HoldRecord → Response
  verified : Text → Option Bool → Response

-- `contextFor()`
unfoldable pub context_for : World → EvalContext
context_for w = record { now = w.now; history = []; gas_estimate = none; known_counterparties = [] }

-- The guards that `/v1/execute` and `/v1/holds` share, and `authorize` behind them.
unfoldable pub keyed :
    Option Body
    → (Intent → Text → Ledger × List Effect × Response)
    → Ledger
    → Ledger × List Effect × Response
keyed none go ledger = (ledger, [], no_json)
keyed (some body) go ledger = elim body.intent [
  | none ↦ (ledger, [], intent_missing)
  | some intent ↦ elim body.idempotency_key [
    | none ↦ (ledger, [], key_missing)
    | some key ↦ if text_eq key [] then (ledger, [], key_missing) else go intent key
  ]
]

-- `claimed === "" ? null : claimed.toLowerCase() === digest.toLowerCase()`
unfoldable pub claim_matches : Text → Text → Option Bool
claim_matches claimed digest =
    if text_eq claimed [] then none else some (text_eq (lower claimed) (lower digest))

module _ (keccak : Bytes → Bytes) (config : AuthorizeOptions) where
  unfoldable pub authorize_in : World → Intent → Settled AuthorizeResult AuthorizeFault
  unfolding context_for authorize
  authorize_in w intent = authorize keccak w.simulate intent (context_for w) config w.iso_now

  -- `persist`: the receipt with its digest, and whether the store took it.
  unfoldable pub stored : World → AuthorizeResult → Effect
  stored w result = persisted result.receipt result.digest w.stores

  unfoldable pub handle_authorize : World → Option Body → Ledger → Ledger × List Effect × Response
  unfolding authorize_in stored
  handle_authorize w none ledger = (ledger, [], no_json)
  handle_authorize w (some body) ledger = elim body.intent [
    | none ↦ (ledger, [], intent_missing)
    | some intent ↦ elim (authorize_in w intent) [
      | threw e ↦ (ledger, [], failed e)
      | returned result ↦ (ledger, stored w result ∷ [], decided result w.stores)
    ]
  ]

  unfoldable pub send : World → Intent → Text → AuthorizeResult → List Effect × Response
  unfolding stored
  send w intent key result =
      let call = to_guard_call intent config.guard config.guard_abi in
      let effects = stored w result ∷ broadcasted call key ∷ [] in
      elim (w.broadcast call key) [
        | returned accepted ↦ (effects, submitted result accepted)
        | threw e ↦ (effects, broadcast_failed e)
      ]

  unfoldable pub execute_intent : World → Intent → Text → AuthorizeResult → List Effect × Response
  unfolding send
  execute_intent w intent key result = elim result.verdict [
    | Verdict.allow ↦ send w intent key result
    | Verdict.hold ↦ (stored w result ∷ [], unsent result)
    | Verdict.deny ↦ (stored w result ∷ [], unsent result)
  ]

  unfoldable pub authorize_and_execute :
      World → Ledger → Intent → Text → Ledger × List Effect × Response
  unfolding authorize_in execute_intent
  authorize_and_execute w ledger intent key = elim (authorize_in w intent) [
    | threw e ↦ (ledger, [], failed e)
    | returned result ↦
        let (effects, response) = execute_intent w intent key result in (ledger, effects, response)
  ]

  unfoldable pub handle_execute : World → Option Body → Ledger → Ledger × List Effect × Response
  unfolding keyed authorize_and_execute
  handle_execute w body ledger = keyed body (authorize_and_execute w ledger) ledger

  unfoldable pub hold_intent :
      World → Intent → Text → AuthorizeResult → Ledger → Ledger × List Effect × Response
  unfolding stored create
  hold_intent w intent key result ledger = elim result.verdict [
    | Verdict.allow ↦ (ledger, stored w result ∷ [], unsent result)
    | Verdict.deny ↦ (ledger, stored w result ∷ [], unsent result)
    | Verdict.hold ↦
        let (ledger', r) =
          create w.new_id w.iso_now intent key result.receipt result.digest ledger in
        (ledger', stored w result ∷ [], waiting r)
  ]

  unfoldable pub authorize_and_hold :
      World → Ledger → Intent → Text → Ledger × List Effect × Response
  unfolding authorize_in hold_intent
  authorize_and_hold w ledger intent key = elim (authorize_in w intent) [
    | threw e ↦ (ledger, [], failed e)
    | returned result ↦ hold_intent w intent key result ledger
  ]

  unfoldable pub handle_hold : World → Option Body → Ledger → Ledger × List Effect × Response
  unfolding keyed authorize_and_hold
  handle_hold w body ledger = keyed body (authorize_and_hold w ledger) ledger

  -- The broadcast of a hold that is released.
  unfoldable pub send_held : World → HoldRecord → List Effect × Response
  send_held w r =
      let call = to_guard_call r.intent config.guard config.guard_abi in
      let effects = broadcasted call r.idempotency_key ∷ [] in
      elim (w.broadcast call r.idempotency_key) [
        | returned accepted ↦ (effects, released_as r accepted)
        | threw e ↦ (effects, broadcast_failed e)
      ]

  unfoldable pub handle_resolve :
      World → Resolution → Text → Ledger → Ledger × List Effect × Response
  unfolding resolve send_held
  handle_resolve w resolution id ledger =
      let (ledger', resolved) = resolve id resolution w.iso_now ledger in
      elim resolved [
        | none ↦ (ledger', [], missing)
        | some r ↦ elim resolution [
          | release ↦ let (effects, response) = send_held w r in (ledger', effects, response)
          | cancel ↦ (ledger', [], cancelled_as r)
        ]
      ]

  unfoldable pub handle_verify : Option VerifyBody → Response
  unfolding claim_matches receipt_digest
  handle_verify none = no_json
  handle_verify (some body) = elim body.receipt [
    | none ↦ receipt_missing
    | some r ↦
        let digest = receipt_digest keccak r in
        verified digest (claim_matches (trim (Option.get_or body.claimed_digest [])) digest)
  ]

  unfoldable pub handle : World → Request → Ledger → Ledger × List Effect × Response
  unfolding handle_authorize handle_execute handle_hold handle_resolve handle_verify
  handle w (post_authorize body) ledger = handle_authorize w body ledger
  handle w (post_execute body) ledger = handle_execute w body ledger
  handle w (post_hold body) ledger = handle_hold w body ledger
  handle w (post_resolve resolution id) ledger = handle_resolve w resolution id ledger
  handle w (post_verify body) ledger = (ledger, [], handle_verify body)

  -- Requests one after the other, each in its own world.
  unfoldable pub serve : List (World × Request) → Ledger → Ledger × List Effect
  unfolding handle
  serve [] ledger = (ledger, [])
  serve ((w, request) ∷ rest) ledger =
      let (ledger', effects, response) = handle w request ledger in
      let (ledger'', later) = serve rest ledger' in (ledger'', effects ++ later)
