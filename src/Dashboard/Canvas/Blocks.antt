-- ===== src/Dashboard/Canvas/Blocks.antt =====
-- apps/dashboard/lib/canvas/blocks.ts: the catalogue of blocks. The sentences that the page shows below a
-- title are left out.
use kp.Common.{
  ℕ, ◌≡◌, refl, sym, ap, ◌∙◌, Bool, true, false, List, [], ◌∷◌, Text, lit, ◌==◌, ==_iff,
  if◌then◌else◌,
}

pub data BlockKind : Type 0 where
  target selector value_cap approval_bound rate_limit : BlockKind
  schedule hold_above invariant_floor invariant_drop : BlockKind

pub data BlockLayer : Type 0 where
  policy invariant : BlockLayer

pub data FieldFormat : Type 0 where
  uint address selector int hours : FieldFormat

pub record BlockField : Type 0 where
  pub key : Text
  pub label : Text
  pub format : FieldFormat
  pub initial : Text

pub record BlockSpec : Type 0 where
  pub layer : BlockLayer
  pub title : Text
  pub fields : List BlockField
  pub singleton : Bool

abbrev kind_index : BlockKind → ℕ
kind_index BlockKind.target = 0
kind_index BlockKind.selector = 1
kind_index BlockKind.value_cap = 2
kind_index BlockKind.approval_bound = 3
kind_index BlockKind.rate_limit = 4
kind_index BlockKind.schedule = 5
kind_index BlockKind.hold_above = 6
kind_index BlockKind.invariant_floor = 7
kind_index BlockKind.invariant_drop = 8

unfoldable pub same_kind : BlockKind → BlockKind → Bool
unfolding kind_index
same_kind a b = kind_index a == kind_index b

abbrev target_address : Text
target_address = lit "0x2BeaFD2Ed0D8e3831752b3243E7C5b2CA67Fdb0B"

abbrev field : Text → Text → FieldFormat → Text → BlockField
field key label format initial = record {
  key = key;
  label = label;
  format = format;
  initial = initial;
}

abbrev spec : BlockLayer → Text → Bool → List BlockField → BlockSpec
spec layer title singleton fields = record {
  layer = layer;
  title = title;
  fields = fields;
  singleton = singleton;
}

-- The entry of `BLOCKS` for a kind.
unfoldable pub spec_for : BlockKind → BlockSpec
spec_for BlockKind.target =
    spec BlockLayer.policy (lit "Allowlisted target") false
      (field (lit "address") (lit "Contract") FieldFormat.address target_address ∷ [])
spec_for BlockKind.selector = spec BlockLayer.policy (lit "Permitted function") false (
    field (lit "address") (lit "On contract") FieldFormat.address target_address
    ∷ field (lit "selector") (lit "Selector") FieldFormat.selector (lit "0x9d0bf2e9")
    ∷ [])
spec_for BlockKind.value_cap = spec BlockLayer.policy (lit "Value cap") true (
    field (lit "maxPerIntent") (lit "Per intent (wei)") FieldFormat.uint (lit "1000000000000000000")
    ∷ [])
spec_for BlockKind.approval_bound = spec BlockLayer.policy (lit "Approval bound") true (
    field (lit "maxApproval") (lit "Maximum (wei)") FieldFormat.uint (lit "1000000000000000000")
    ∷ [])
spec_for BlockKind.rate_limit = spec BlockLayer.policy (lit "Rate limit") true (
    field (lit "maxIntents") (lit "Intents") FieldFormat.int (lit "20")
    ∷ field (lit "windowSeconds") (lit "Window (s)") FieldFormat.int (lit "3600")
    ∷ field (lit "maxValue") (lit "Value (wei)") FieldFormat.uint (lit "5000000000000000000")
    ∷ [])
spec_for BlockKind.schedule = spec BlockLayer.policy (lit "Schedule window") true (
    field (lit "startHour") (lit "From (UTC)") FieldFormat.hours (lit "8")
    ∷ field (lit "endHour") (lit "To (UTC)") FieldFormat.hours (lit "20")
    ∷ [])
spec_for BlockKind.hold_above = spec BlockLayer.policy (lit "Review threshold") true (
    field (lit "nativeValue") (lit "Hold above (wei)") FieldFormat.uint (lit "500000000000000000")
    ∷ [])
spec_for BlockKind.invariant_floor = spec BlockLayer.invariant (lit "Health factor floor") false (
    field (lit "target") (lit "Read from") FieldFormat.address target_address
    ∷ field (lit "probe") (lit "Probe selector") FieldFormat.selector (lit "0xbf92857c")
    ∷ field (lit "word") (lit "Return word") FieldFormat.int (lit "5")
    ∷ field (lit "threshold") (lit "Floor (wei)") FieldFormat.uint (lit "1400000000000000000")
    ∷ [])
spec_for BlockKind.invariant_drop = spec BlockLayer.invariant (lit "Maximum drawdown") false (
    field (lit "target") (lit "Read from") FieldFormat.address target_address
    ∷ field (lit "probe") (lit "Probe selector") FieldFormat.selector (lit "0x70a08231")
    ∷ field (lit "word") (lit "Return word") FieldFormat.int (lit "0")
    ∷ field (lit "threshold") (lit "Max drop (wei)") FieldFormat.uint (lit "100000000000000000")
    ∷ [])

kind_at : ℕ → BlockKind
kind_at n =
    if n == 0
    then BlockKind.target
    else if n == 1
    then BlockKind.selector
    else if n == 2
    then BlockKind.value_cap
    else if n == 3
    then BlockKind.approval_bound
    else if n == 4
    then BlockKind.rate_limit
    else if n == 5
    then BlockKind.schedule
    else if n == 6
    then BlockKind.hold_above
    else if n == 7
    then BlockKind.invariant_floor
    else BlockKind.invariant_drop

kind_at-kind_index : (k : BlockKind) → kind_at (kind_index k) ≡ k
unfolding kind_at
kind_at-kind_index BlockKind.target = refl
kind_at-kind_index BlockKind.selector = refl
kind_at-kind_index BlockKind.value_cap = refl
kind_at-kind_index BlockKind.approval_bound = refl
kind_at-kind_index BlockKind.rate_limit = refl
kind_at-kind_index BlockKind.schedule = refl
kind_at-kind_index BlockKind.hold_above = refl
kind_at-kind_index BlockKind.invariant_floor = refl
kind_at-kind_index BlockKind.invariant_drop = refl

pub same_kind-eq : (a b : BlockKind) → same_kind a b ≡ true → a ≡ b
unfolding same_kind
same_kind-eq a b h =
    sym (kind_at-kind_index a)
    ∙ ap kind_at ((==_iff (kind_index a) (kind_index b)).0 h)
    ∙ kind_at-kind_index b
