-- ===== src/Dashboard/Routes.antt =====
-- apps/dashboard/app/v1: the routes that decide, broadcast and resolve holds, with `runExecute`,
-- `buildIntent` and `broadcastIntent` of apps/dashboard/lib/execute.ts. A body is what the route reads
-- of it, `none` where it is no JSON, and an intent in it has the shape of the type. The id of an
-- intent that the form builds is given. The routes that only read are left out.
pub mod Released
mod Tests
use kp.Common.{
  ℕ, Bool, true, false, not, ◌&&◌, Option, none, some, List, [], ◌∷◌, ◌++◌, Text, lit, text_eq,
  if◌then◌else◌,
}
use kp.Common.Numbers.{trim, show_base, show_ℕ}
use kp.Policy.Types.{Verdict, Call, InvariantOp, Invariant, Intent}
use kp.Gateway.Holds.{held, is_held}
use kp.Keeper.Core.{pad_word, probe_calldata}
use kp.Dashboard.Ledger.{HeldIntent, HoldRecord, Holds, get_hold, release_hold, cancel_hold}
use kp.Dashboard.Requests.{GuardRequest, BroadcastReply, broadcast_body, execution_of}
use kp.Dashboard.Execute.{Env, Effect, broadcasted, Live, ExecutePayload, failed, live, run_intent}
use kp.Dashboard.Amounts.{eth_to_wei}

-- The configuration that `runExecute` and `buildIntent` read, beside the guard's address.
pub record DashboardConfig : Type 0 where
  pub has_key : Bool
  pub chain_id : ℕ
  pub target_address : Text
  pub health_factor_floor : Text
  pub new_id : Text

unfoldable pub borrow_more : ℕ → Text
borrow_more amount = lit "0x9d0bf2e9" ++ pad_word (show_base 16 amount)

unfoldable pub build_intent : DashboardConfig → Env → ℕ → ℕ → Intent
unfolding borrow_more
build_intent config env amount value = record {
  id = config.new_id;
  chain_id = config.chain_id;
  calls =
      record { target = config.target_address; value = show_ℕ value; calldata = borrow_more amount }
      ∷ [];
  invariants =
      record {
        target = config.target_address;
        probe = probe_calldata env.guard;
        word = 5;
        op = InvariantOp.gte;
        threshold = config.health_factor_floor;
      }
      ∷ [];
  rationale = some (lit "Submitted from the noyeet dapp.");
  submitted_at = env.iso_now;
}

abbrev pub is_set : Text → Bool
is_set [] = false
is_set (c ∷ s) = true

unfoldable pub run_execute :
    DashboardConfig → Env → Bool → ℕ → ℕ → Holds → Holds × List Effect × ExecutePayload
unfolding build_intent
run_execute config env broadcasts amount value holds =
    if config.has_key
      && is_set env.guard
      && is_set config.target_address
      && is_set config.health_factor_floor
    then run_intent env broadcasts (build_intent config env amount value) holds
    else (holds, [], failed)

pub record ExecuteBody : Type 0 where
  pub amount_eth : Option Text
  pub value_eth : Option Text
  pub intent : Option Intent

-- A failure of the route itself, or the payload.
pub data ExecuteResponse : Type 0 where
  no_json amount_missing bad_amount : ExecuteResponse
  answered : ExecutePayload → ExecuteResponse

-- `typeof text === "string" && text.trim() !== ""`
abbrev pub given : Option Text → Option Text
given none = none
given (some s) = if is_set (trim s) then some s else none

abbrev pub value_of : Option Text → Option ℕ
value_of none = some 0
value_of (some s) = eth_to_wei s

unfoldable pub answer : Holds × List Effect × ExecutePayload → Holds × List Effect × ExecuteResponse
answer (holds, effects, outcome) = (holds, effects, answered outcome)

-- `/v1/execute` with `true`, `/v1/authorize` with `false`.
unfoldable pub handle_execute :
    DashboardConfig
    → Env
    → Bool
    → Option ExecuteBody
    → Holds
    → Holds × List Effect × ExecuteResponse
unfolding run_execute answer
handle_execute config env broadcasts none holds = (holds, [], no_json)
handle_execute config env broadcasts (some body) holds = elim body.intent [
  | some intent ↦ answer (run_intent env broadcasts intent holds)
  | none ↦ elim (given body.amount_eth) [
    | none ↦ (holds, [], amount_missing)
    | some amount_text ↦ elim (eth_to_wei amount_text) [
      | none ↦ (holds, [], bad_amount)
      | some amount ↦ elim (value_of (given body.value_eth)) [
        | none ↦ (holds, [], bad_amount)
        | some value ↦ answer (run_execute config env broadcasts amount value holds)
      ]
    ]
  ]
]

-- `status` of the response of `/v1/execute`.
unfoldable pub execute_status : ExecutePayload → Text
execute_status failed = lit "denied"
execute_status (live p) = elim p.verdict [
  | Verdict.allow ↦ lit "submitted"
  | Verdict.hold ↦ lit "held"
  | Verdict.deny ↦ lit "denied"
]

unfoldable pub release_key : HeldIntent → Text
release_key intent = lit "noyeet-hold-release-" ++ intent.intent_id

-- `none` is a thrown error.
unfoldable pub broadcast_intent : DashboardConfig → Env → HeldIntent → List Effect × Option Text
unfolding release_key
broadcast_intent config env intent =
    let body = broadcast_body env.guard intent.chain_id intent.calls intent.invariants in
    if config.has_key
    then (
      broadcasted body (release_key intent) ∷ [],
      elim (env.broadcast body (release_key intent)) [
        | none ↦ none
        | some reply ↦ execution_of reply.execution_id
      ],
    )
    else ([], none)

pub data HoldResponse : Type 0 where
  hold_missing already_resolved broadcast_failed cancelled_hold : HoldResponse
  released_hold : Text → HoldResponse

abbrev pub waits : Option HoldRecord → Bool
waits none = false
waits (some r) = is_held r.status

-- The intent to broadcast: that of a hold that waits, or else the one in the body.
abbrev pub intent_to_send : Option HoldRecord → Option HeldIntent → Option HeldIntent
intent_to_send none body = body
intent_to_send (some r) body = if is_held r.status then some r.intent else body

-- A release up to the broadcast's answer: without an intent nothing is sent; or else whether the hold
-- waited, and the broadcast with its outcome.
pub data StartedRelease : Type 0 where
  unsent : StartedRelease
  sent_on : Bool → List Effect → Option Text → StartedRelease

unfoldable pub start_release :
    DashboardConfig → Env → Text → Option HeldIntent → Holds → StartedRelease
unfolding broadcast_intent
start_release config env id body holds =
    let hold = get_hold id holds in
    elim (intent_to_send hold body) [
      | none ↦ unsent
      | some intent ↦
          let (effects, outcome) = broadcast_intent config env intent in
          sent_on (waits hold) effects outcome
    ]

-- What follows the broadcast, on the holds as they then are: the route has waited for the answer, and
-- other requests may have run.
unfoldable pub finish_release :
    Env → Text → StartedRelease → Holds → Holds × List Effect × HoldResponse
finish_release env id unsent holds = (holds, [], hold_missing)
finish_release env id (sent_on waited effects none) holds = (holds, effects, broadcast_failed)
finish_release env id (sent_on waited effects (some execution)) holds = (
  if waited then (release_hold env.iso_now id holds).0 else holds,
  effects,
  released_hold execution,
)

-- The route where no other request runs meanwhile.
unfoldable pub handle_release :
    DashboardConfig → Env → Text → Option HeldIntent → Holds → Holds × List Effect × HoldResponse
unfolding start_release finish_release
handle_release config env id body holds =
    finish_release env id (start_release config env id body holds) holds

unfoldable pub handle_cancel : Env → Text → Holds → Holds × HoldResponse
handle_cancel env id holds = elim (get_hold id holds) [
  | none ↦ (holds, hold_missing)
  | some r ↦
      if is_held r.status
      then ((cancel_hold env.iso_now id holds).0, cancelled_hold)
      else (holds, already_resolved)
]
