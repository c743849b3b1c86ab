-- ===== src/Dashboard/Canvas/Compile.antt =====
-- apps/dashboard/lib/canvas/compile.ts. `values` is the list of an object's entries. Where a block is
-- drawn is left out, and the carried fields are those that policy-to-blocks.ts carries. A text that is
-- no decimal number gives the number `none`, and so does one that rounds to Infinity.
mod Sound
mod Valid
mod Refused
mod Tests
use mathlib.Core.Option
use kp.Common.{
  ℕ, suc, ◌-◌, Bool, true, false, not, ◌&&◌, ◌||◌, Option, none, some, List, [], ◌∷◌, ◌++◌, map,
  Text, lit, lower, drop, text_eq, mem_text, leb, ltb, ◌==◌, if◌then◌else◌, length, all, select,
  replicate,
}
use kp.Common.Maps.{lookup}
use kp.Common.Numbers.{trim, read_digits}
use kp.Common.Doubles.{number}
use kp.Policy.Schema.{PolicyDocument, is_uint, is_address, is_selector, is_present, is_at_most}
use kp.Dashboard.Canvas.Blocks.{
  BlockKind, BlockLayer, FieldFormat, BlockField, BlockSpec, same_kind, spec_for,
}

abbrev pub Values : Type 0
Values = List (Text × Text)

pub record PlacedBlock : Type 0 where
  pub id : Text
  pub kind : BlockKind
  pub values : Values

pub data IssueSeverity : Type 0 where
  error warning : IssueSeverity

pub record CompileIssue : Type 0 where
  pub block_id : Option Text
  pub severity : IssueSeverity
  pub message : Text

pub record InvariantTuple : Type 0 where
  pub target : Text
  pub probe : Text
  pub word : Option ℕ
  pub op : ℕ
  pub threshold : Text

pub record CarryOver : Type 0 where
  pub chains : Option (List ℕ)
  pub max_gas : Option Text
  pub unknown_counterparty : Option Bool
  pub min_invariants : Option ℕ

pub record CompileOptions : Type 0 where
  pub carry_over : CarryOver
  pub name : Option Text

pub record Compiled : Type 0 where
  pub policy : PolicyDocument
  pub invariants : List InvariantTuple
  pub issues : List CompileIssue
  pub deployable : Bool

unfoldable pub first : List PlacedBlock → BlockKind → Option PlacedBlock
first [] kind = none
first (b ∷ blocks) kind =
    let later = first blocks kind in if same_kind b.kind kind then some b else later

abbrev pub or_fallback : Option Text → Text → Text
or_fallback none fallback = fallback
or_fallback (some raw) fallback = if is_present (trim raw) then trim raw else fallback

abbrev pub value_in : Values → Text → Text → Text
value_in values key fallback = or_fallback (lookup key values) fallback

abbrev pub value : Option PlacedBlock → Text → Text → Text
value none key fallback = fallback
value (some b) key fallback = value_in b.values key fallback

abbrev pub format_name : FieldFormat → Text
format_name FieldFormat.uint = lit "uint"
format_name FieldFormat.address = lit "address"
format_name FieldFormat.selector = lit "selector"
format_name FieldFormat.int = lit "int"
format_name FieldFormat.hours = lit "hours"

abbrev pub is_bad : FieldFormat → Text → Bool
is_bad FieldFormat.address raw = not (is_address raw)
is_bad FieldFormat.selector raw = not (is_selector raw)
is_bad FieldFormat.uint raw = not (is_uint raw)
is_bad FieldFormat.int raw = not (is_uint raw)
is_bad FieldFormat.hours raw = false

abbrev pub is_bad_hour : FieldFormat → Text → Bool
is_bad_hour FieldFormat.hours raw = not (is_uint raw && is_at_most 24 (number raw))
is_bad_hour format raw = false

abbrev pub issue : Option Text → IssueSeverity → Text → CompileIssue
issue id severity message = record { block_id = id; severity = severity; message = message }

abbrev pub when : Bool → CompileIssue → List CompileIssue
when b i = if b then i ∷ [] else []

abbrev pub raw_of : Values → Text → Text
raw_of values key = trim (Option.get_or (lookup key values) [])

unfoldable pub field_issues : Text → Text → Values → BlockField → List CompileIssue
field_issues id title values field =
    let raw = raw_of values field.key in
    if is_present raw
    then (when (is_bad field.format raw) (
          issue (some id) IssueSeverity.error (
            title
            ++ (lit ": "
                ++ (field.label
                    ++ (lit " is not a valid " ++ (format_name field.format ++ lit "."))))))
        ++ when (is_bad_hour field.format raw) (
            issue (some id) IssueSeverity.error
              (title ++ (lit ": " ++ (field.label ++ lit " must be an hour between 0 and 24.")))))
    else (issue (some id) IssueSeverity.error
          (title ++ (lit ": " ++ (field.label ++ lit " is empty.")))
        ∷ [])

unfoldable pub fields_issues : Text → Text → Values → List BlockField → List CompileIssue
unfolding field_issues
fields_issues id title values [] = []
fields_issues id title values (f ∷ fields) =
    field_issues id title values f ++ fields_issues id title values fields

unfoldable pub validate : List PlacedBlock → List CompileIssue
unfolding fields_issues
validate [] = []
validate (b ∷ blocks) =
    fields_issues b.id (spec_for b.kind).title b.values (spec_for b.kind).fields ++ validate blocks

abbrev pub is_invariant_layer : BlockLayer → Bool
is_invariant_layer BlockLayer.policy = false
is_invariant_layer BlockLayer.invariant = true

abbrev pub of_kind : BlockKind → List PlacedBlock → List PlacedBlock
of_kind kind blocks = select (λ b. same_kind b.kind kind) blocks

abbrev pub invariant_blocks : List PlacedBlock → List PlacedBlock
invariant_blocks blocks = select (λ b. is_invariant_layer (spec_for b.kind).layer) blocks

-- A warning for each function on a contract that is not allowed.
unfoldable pub scope_issues : List Text → List PlacedBlock → List CompileIssue
scope_issues allowed [] = []
scope_issues allowed (b ∷ selectors) =
    let on = lower (value_in b.values (lit "address") []) in
    when (is_present on && not (mem_text on allowed)) (
      issue (some b.id) IssueSeverity.warning
        (lit "Scoped to a contract that is not allowlisted, so this function can never run."))
    ++ scope_issues allowed selectors

abbrev pub exceeds : Option ℕ → Option ℕ → Bool
exceeds (some a) (some b) = ltb b a
exceeds (some a) none = false
exceeds none b = false

unfoldable pub review_issues : Option PlacedBlock → Option PlacedBlock → List CompileIssue
review_issues (some cap) (some hold) =
    let cap_value = value_in cap.values (lit "maxPerIntent") (lit "0") in
    let hold_value = value_in hold.values (lit "nativeValue") (lit "0") in
    when
      (is_uint cap_value
        && is_uint hold_value
        && exceeds (read_digits 10 hold_value) (read_digits 10 cap_value))
      (issue (some hold.id) IssueSeverity.warning
        (lit "The review threshold sits above the value cap, so nothing will ever reach a human."))
review_issues (some cap) none = []
review_issues none hold = []

-- `(selectorMap[on] ??= []).push(code)`
unfoldable pub push_selector : Text → Text → List (Text × List Text) → List (Text × List Text)
push_selector on code [] = (on, code ∷ []) ∷ []
push_selector on code ((k, codes) ∷ entries) =
    let later = push_selector on code entries in
    if text_eq on k then (k, codes ++ code ∷ []) ∷ entries else (k, codes) ∷ later

unfoldable pub selector_map : List PlacedBlock → List (Text × List Text) → List (Text × List Text)
unfolding push_selector
selector_map [] entries = entries
selector_map (b ∷ selectors) entries =
    let on = value_in b.values (lit "address") [] in
    let code = value_in b.values (lit "selector") [] in
    selector_map selectors
      (if is_present on && is_present code then push_selector on code entries else entries)

unfoldable pub probe_calldata : Text → Text → Text
probe_calldata selector subject =
    if is_selector selector
    then selector
      ++ (if is_address subject
          then replicate (64 - length (drop 2 subject)) b'0' ++ lower (drop 2 subject)
          else replicate 64 b'0')
    else selector

abbrev pub op_of : BlockKind → ℕ
op_of kind = if same_kind kind BlockKind.invariant_floor then 0 else 3

unfoldable pub invariant_of : PlacedBlock → InvariantTuple
unfolding probe_calldata
invariant_of b = record {
  target = value_in b.values (lit "target") [];
  probe = probe_calldata (value_in b.values (lit "probe") []) (value_in b.values (lit "target") []);
  word = number (value_in b.values (lit "word") (lit "0"));
  op = op_of b.kind;
  threshold = value_in b.values (lit "threshold") (lit "0");
}

abbrev pub schedule_of : Option PlacedBlock → Option (Option ℕ × Option ℕ)
schedule_of none = none
schedule_of (some b) = some (
  number (value_in b.values (lit "startHour") (lit "0")),
  number (value_in b.values (lit "endHour") (lit "24")),
)

abbrev pub name_of : Option Text → Text
name_of none = lit "canvas-policy"
name_of (some name) = if is_present (trim name) then name else lit "canvas-policy"

abbrev pub at_least_one : ℕ → ℕ
at_least_one n = if leb 1 n then n else 1

unfoldable pub document : List PlacedBlock → CompileOptions → PolicyDocument
unfolding first selector_map
document blocks options =
    let cap = first blocks BlockKind.value_cap in
    let rate = first blocks BlockKind.rate_limit in
    record {
      name = name_of options.name;
      chains = Option.get_or options.carry_over.chains (11_155_111 ∷ []);
      allow =
          select is_present
            (map (λ b. value_in b.values (lit "address") []) (of_kind BlockKind.target blocks));
      selectors = selector_map (of_kind BlockKind.selector blocks) [];
      max_native_value_per_intent = value cap (lit "maxPerIntent") (lit "0");
      max_native_value_per_window = value rate (lit "maxValue") (lit "0");
      window_seconds = number (value rate (lit "windowSeconds") (lit "3600"));
      max_intents_per_window = number (value rate (lit "maxIntents") (lit "1"));
      max_gas = Option.get_or options.carry_over.max_gas (lit "2000000");
      hold_native_value = value (first blocks BlockKind.hold_above) (lit "nativeValue") (lit "0");
      unknown_counterparty = Option.get_or options.carry_over.unknown_counterparty true;
      schedule = schedule_of (first blocks BlockKind.schedule);
      max_approval = value (first blocks BlockKind.approval_bound) (lit "maxApproval") (lit "0");
      min_invariants =
          Option.get_or options.carry_over.min_invariants
            (at_least_one (length (invariant_blocks blocks)));
    }

-- The findings on the blocks together.
unfoldable pub structural_issues : List PlacedBlock → List CompileIssue
unfolding scope_issues review_issues
structural_issues blocks =
    let targets = of_kind BlockKind.target blocks in
    let allowed = map (λ b. lower (value_in b.values (lit "address") [])) targets in
    when (not (is_present targets)) (
      issue none IssueSeverity.error
        (lit "No allowlisted target. Every call would be refused, so the agent can do nothing."))
    ++ (when (not (is_present (invariant_blocks blocks))) (
          issue none IssueSeverity.error (
            lit
              "No invariant. Nothing would be asserted on chain, so the guard could not refuse a bad outcome."))
        ++ (scope_issues allowed (of_kind BlockKind.selector blocks)
            ++ review_issues (first blocks BlockKind.value_cap)
                (first blocks BlockKind.hold_above)))

unfoldable pub issues_of : List PlacedBlock → List CompileIssue
unfolding validate structural_issues
issues_of blocks = validate blocks ++ structural_issues blocks

abbrev pub is_no_error : CompileIssue → Bool
is_no_error i = elim i.severity [ IssueSeverity.error ↦ false | IssueSeverity.warning ↦ true ]

unfoldable pub compile : List PlacedBlock → CompileOptions → Compiled
unfolding document issues_of invariant_of
compile blocks options = record {
  policy = document blocks options;
  invariants = map invariant_of (invariant_blocks blocks);
  issues = issues_of blocks;
  deployable = all is_no_error (issues_of blocks);
}
