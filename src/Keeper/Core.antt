-- ===== src/Keeper/Core.antt =====
-- apps/keeper/src/core.ts: when the keeper acts, and the intent that it proposes. Amounts are natural
-- numbers, as the reads of uint256 words and the configured floors are.
pub mod Repays
mod Tests
use kp.Common.{
  ℕ, ◌+◌, ◌-◌, ◌*◌, ◌/◌, Bool, true, false, Option, none, some, List, [], ◌∷◌, ◌++◌, Text, lit,
  lower, ltb, leb, ◌==◌, if◌then◌else◌, length, drop, replicate,
}
use kp.Common.Numbers.{show_base, show_ℕ}
use kp.Policy.Types.{Call, InvariantOp, Invariant, Intent}

pub record KeeperConfig : Type 0 where
  pub chain_id : ℕ
  pub target : Text
  pub guard : Text
  pub floor_wei : ℕ
  pub target_wei : ℕ
  pub id_prefix : Text

pub record PositionRead : Type 0 where
  pub health_factor_wei : ℕ
  pub collateral_wei : ℕ
  pub debt_wei : ℕ

pub data Submitted : Type 0 where
  submitted held denied : Submitted

pub data KeeperOutcome : Type 0 where
  noop : ℕ → KeeperOutcome
  acted : Submitted → ℕ → Intent → KeeperOutcome

-- `text.padStart(64, "0")`
unfoldable pub pad_word : Text → Text
pad_word s = replicate (64 - length s) b'0' ++ s

unfoldable pub probe_calldata : Text → Text
unfolding pad_word
probe_calldata guard = lit "0xbf92857c" ++ pad_word (lower (drop 2 guard))

unfoldable pub repay_calldata : ℕ → Text
unfolding pad_word
repay_calldata amount = lit "0x371fd8e6" ++ pad_word (show_base 16 amount)

-- `none` is the `RangeError` of a division by a target of zero, `some none` is the result `null`.
unfoldable pub decide : ℕ → ℕ → ℕ → ℕ → ℕ → Option (Option ℕ)
decide health_factor debt collateral floor target =
    if leb floor health_factor
    then some none
    else if target == 0
    then none
    else let debt_at_target = collateral * 7500 / 10000 * 1_000_000_000_000_000_000 / target in
      let repay = if ltb debt_at_target debt then debt - debt_at_target else 0 in
      if ltb 0 repay then some (some repay) else some none

unfoldable pub build_intent : KeeperConfig → Text → Text → ℕ → Intent
unfolding repay_calldata probe_calldata
build_intent config id now amount = record {
  id = id;
  chain_id = config.chain_id;
  calls = record { target = config.target; value = lit "0"; calldata = repay_calldata amount } ∷ [];
  invariants =
      record {
        target = config.target;
        probe = probe_calldata config.guard;
        word = 5;
        op = InvariantOp.gte;
        threshold = show_ℕ config.floor_wei;
      }
      ∷ [];
  rationale = some (
      lit "health factor below floor, proposing repay of "
      ++ show_ℕ amount
      ++ lit " to restore "
      ++ show_ℕ config.target_wei);
  submitted_at = now;
}

-- One tick. `none` is a thrown error of `decide`; the gateway is a function of the intent.
unfoldable pub run_once :
    PositionRead → (Intent → Submitted) → Text → KeeperConfig → ℕ → Option KeeperOutcome
unfolding decide build_intent
run_once position submit now config nonce =
    elim (decide position.health_factor_wei position.debt_wei position.collateral_wei
      config.floor_wei config.target_wei) [
        | none ↦ none
        | some none ↦ some (noop position.health_factor_wei)
        | some (some amount) ↦
            let intent =
              build_intent config (config.id_prefix ++ lit "-" ++ show_ℕ nonce) now amount in
            some (acted (submit intent) position.health_factor_wei intent)
      ]
