-- ===== src/Policy/Rules/Limits.antt =====
-- packages/policy/src/rules.ts: the rules on the window, the hours, approvals, gas and invariants.
use kp.Common.{
  ◌>>=◌, ℕ, ◌+◌, ◌*◌, ◌/◌, ◌%◌, Bool, true, false, not, ◌&&◌, ◌||◌, Option, none, some, List, [],
  ◌∷◌, ◌++◌, Text, lit, leb, ltb, if◌then◌else◌, length, select,
}
use kp.Common.Int.{ℤ, pos, ◌+ℤ◌, leb_ℤ, ltb_ℤ}
use kp.Common.Numbers.{big, show_ℕ, show_ℤ}
use kp.Policy.Types.{Verdict, Severity, text, num, Reason, Call, HistoryEntry}
use kp.Policy.Rules.Calls.{Rule, sum_values, approval_amount, flat_map_calls}

-- `getTime() >= cutoff` with `cutoff = now - windowSeconds * 1000` moved to the other side; it
-- fails on an unreadable date.
abbrev pub is_recent : ℕ → ℕ → Option ℕ → Bool
is_recent now window none = false
is_recent now window (some at) = leb now (at + window * 1000)

abbrev pub is_deny : Verdict → Bool
is_deny Verdict.deny = true
is_deny _ = false

abbrev pub counts : ℕ → ℕ → HistoryEntry → Bool
counts now window h = not (is_deny h.verdict) && is_recent now window h.at

unfoldable pub spent_from : ℤ → List HistoryEntry → Option ℤ
spent_from acc [] = some acc
spent_from acc (h ∷ hs) = do v ← big h.native_value; spent_from (acc +ℤ v) hs

unfoldable pub rate_reason : ℕ → ℕ → ℕ → Reason
rate_reason count window limit = record {
  code = lit "RATE_LIMIT_EXCEEDED";
  severity = Severity.deny;
  message =
      show_ℕ count
      ++ lit " intents already executed in the last "
      ++ show_ℕ window
      ++ lit "s; limit is "
      ++ show_ℕ limit
      ++ lit ".";
  detail = (lit "count", num count) ∷ (lit "limit", num limit) ∷ [];
}

unfoldable pub window_reason : ℤ → ℤ → Reason
window_reason projected cap = record {
  code = lit "WINDOW_VALUE_EXCEEDED";
  severity = Severity.deny;
  message =
      lit "This intent would bring window spend to "
      ++ show_ℤ projected
      ++ lit " wei, above the cap of "
      ++ show_ℤ cap
      ++ lit ".";
  detail = (lit "projected", text (show_ℤ projected)) ∷ (lit "cap", text (show_ℤ cap)) ∷ [];
}

unfoldable pub windowed_limits : Rule
unfolding spent_from rate_reason window_reason
windowed_limits intent policy ctx =
    let recent = select (counts ctx.now policy.limits.window_seconds) ctx.history in
    let rate =
      if ltb policy.limits.max_intents_per_window (length recent + 1)
      then rate_reason (length recent) policy.limits.window_seconds
          policy.limits.max_intents_per_window
        ∷ []
      else [] in
    do
      spent ← spent_from (pos 0) recent
      total ← sum_values intent.calls
      cap ← big policy.limits.max_native_value_per_window
      some (
          rate
          ++ (if ltb_ℤ cap (spent +ℤ total) then window_reason (spent +ℤ total) cap ∷ [] else []))

abbrev pub utc_hour : ℕ → ℕ
utc_hour now = now / 3_600_000 % 24

abbrev pub is_inside : ℕ → ℕ → ℕ → Bool
is_inside start end hour =
    if leb start end then leb start hour && ltb hour end else leb start hour || ltb hour end

unfoldable pub schedule_reason : ℕ → ℕ → ℕ → Reason
schedule_reason start end hour = record {
  code = lit "OUTSIDE_SCHEDULE";
  severity = Severity.deny;
  message =
      lit "Execution is restricted to "
      ++ show_ℕ start
      ++ lit ":00-"
      ++ show_ℕ end
      ++ lit ":00 UTC; it is currently "
      ++ show_ℕ hour
      ++ lit ":00.";
  detail = (lit "hour", num hour) ∷ (lit "start", num start) ∷ (lit "end", num end) ∷ [];
}

unfoldable pub check_schedule : Option (ℕ × ℕ) → ℕ → List Reason
unfolding schedule_reason
check_schedule none hour = []
check_schedule (some (start, end)) hour =
    if is_inside start end hour then [] else schedule_reason start end hour ∷ []

unfoldable pub schedule_window : Rule
unfolding check_schedule
schedule_window intent policy ctx = some (check_schedule policy.schedule (utc_hour ctx.now))

unfoldable pub approval_reason : ℕ → ℤ → ℤ → Reason
approval_reason index amount cap = record {
  code = lit "APPROVAL_TOO_LARGE";
  severity = Severity.deny;
  message =
      lit "Call "
      ++ show_ℕ index
      ++ lit " approves "
      ++ show_ℤ amount
      ++ lit ", above the maximum of "
      ++ show_ℤ cap
      ++ lit ".";
  detail =
      (lit "index", num index)
      ∷ (lit "amount", text (show_ℤ amount))
      ∷ (lit "max", text (show_ℤ cap))
      ∷ [];
}

unfoldable pub check_amount : Text → ℕ → Option ℤ → Option (List Reason)
unfolding approval_reason
check_amount max_approval index none = some []
check_amount max_approval index (some amount) = do
  cap ← big max_approval
  if leb_ℤ amount cap then some [] else some (approval_reason index amount cap ∷ [])

unfoldable pub check_approval : Text → ℕ → Call → Option (List Reason)
unfolding check_amount
check_approval max_approval index call = do
  amount ← approval_amount call.calldata
  check_amount max_approval index amount

unfoldable pub approval_bound : Rule
unfolding check_approval
approval_bound intent policy ctx =
    flat_map_calls (check_approval policy.max_approval) 0 intent.calls

unfoldable pub gas_reason : ℤ → ℤ → Reason
gas_reason estimate ceiling = record {
  code = lit "GAS_CEILING_EXCEEDED";
  severity = Severity.deny;
  message =
      lit "Preflight estimated "
      ++ show_ℤ estimate
      ++ lit " gas, above the ceiling of "
      ++ show_ℤ ceiling
      ++ lit ".";
  detail = (lit "estimate", text (show_ℤ estimate)) ∷ (lit "ceiling", text (show_ℤ ceiling)) ∷ [];
}

unfoldable pub check_gas : Option Text → Text → Option (List Reason)
unfolding gas_reason
check_gas none max_gas = some []
check_gas (some gas) max_gas = do
  estimate ← big gas
  ceiling ← big max_gas
  if leb_ℤ estimate ceiling then some [] else some (gas_reason estimate ceiling ∷ [])

unfoldable pub gas_ceiling : Rule
unfolding check_gas
gas_ceiling intent policy ctx = check_gas ctx.gas_estimate policy.limits.max_gas

unfoldable pub invariants_reason : ℕ → ℕ → Reason
invariants_reason got required = record {
  code = lit "TOO_FEW_INVARIANTS";
  severity = Severity.deny;
  message =
      lit "Intent declares "
      ++ show_ℕ got
      ++ lit " invariants; policy requires at least "
      ++ show_ℕ required
      ++ lit ".";
  detail = (lit "got", num got) ∷ (lit "required", num required) ∷ [];
}

unfoldable pub invariants_required : Rule
unfolding invariants_reason
invariants_required intent policy ctx =
    if leb policy.min_invariants (length intent.invariants)
    then some []
    else some (invariants_reason (length intent.invariants) policy.min_invariants ∷ [])
