-- ===== src/Dashboard/Canvas/Compile/Valid.antt =====
-- What a deployable result of the compiler in apps/dashboard/lib/canvas/compile.ts is worth to the schema
-- of the policies.
use mathlib.Core.Option
use kp.Common.{
  ℕ, ◌≡◌, refl, inl, inr, Bool, true, ◌&&◌, Option, none, some, List, [], ◌∷◌, ◌++◌, map, Text, lit,
  Bool-cases, all, select, All, arith, text_eq,
}
use kp.Common.Numbers.{trim, trim_start}
use kp.Policy.Schema.{
  is_uint, is_address, is_selector, is_present, is_positive, accepts_chains, accepts_selector,
  accepts_entry, accepts_schedule, accepts,
}
use kp.Dashboard.Canvas.Blocks.{BlockKind, FieldFormat, spec_for}
use kp.Dashboard.Canvas.Compile.{
  Values, PlacedBlock, CarryOver, CompileOptions, first, value_in, value, name_of, of_kind,
  push_selector, selector_map, document, compile,
}
use kp.Dashboard.Canvas.Compile.Sound.{
  and_parts, sound, IsSound, deployable-IsSound, value_in_lem, un_not, of_kind-IsSound, first_value,
  slot_at,
}

address_in :
    (values : Values)
    → sound BlockKind.target values ≡ true
    → (is_present (value_in values (lit "address") []) ≡ true)
      × (is_address (value_in values (lit "address") []) ≡ true)
unfolding sound spec_for
address_in values h =
    let (p, q) =
      value_in_lem values (lit "address") [] FieldFormat.address
        (slot_at values (spec_for BlockKind.target).fields 0 _ refl h) in
    (p, un_not _ q)

function_in :
    (values : Values)
    → sound BlockKind.selector values ≡ true
    → (is_address (value_in values (lit "address") []) ≡ true)
      × (is_selector (value_in values (lit "selector") []) ≡ true)
unfolding sound spec_for
function_in values h =
    let slots = (spec_for BlockKind.selector).fields in
    (
      un_not _
          (value_in_lem values (lit "address") [] FieldFormat.address
            (slot_at values slots 0 _ refl h)).1,
      un_not _
          (value_in_lem values (lit "selector") [] FieldFormat.selector
            (slot_at values slots 1 _ refl h)).1,
    )

allow-AreAddresses :
    (targets : List PlacedBlock)
    → All (λ b. sound BlockKind.target b.values ≡ true) targets
    → all is_address (select is_present (map (λ b. value_in b.values (lit "address") []) targets))
      ≡ true
allow-AreAddresses [] is = refl
allow-AreAddresses (b ∷ targets) (i, is) =
    let (p, q) = address_in b.values i in rw p (rw q (allow-AreAddresses targets is))

all_snoc :
    {A : Type 0} (p : A → Bool) (xs : List A) (x : A)
    → all p xs ≡ true
    → p x ≡ true
    → all p (xs ++ x ∷ []) ≡ true
all_snoc p [] x h k = rw k refl
all_snoc p (y ∷ xs) x h k = let (a, b) = and_parts (p y) (all p xs) h in rw a (all_snoc p xs x b k)

push_selector_lem :
    (on code : Text) (entries : List (Text × List Text))
    → is_address on ≡ true
    → is_selector code ≡ true
    → all accepts_entry entries ≡ true
    → all accepts_entry (push_selector on code entries) ≡ true
unfolding push_selector
push_selector_lem on code [] a c h = rw a (rw c refl)
push_selector_lem on code ((k, codes) ∷ entries) a c h =
    let (now, later) = and_parts (accepts_entry (k, codes)) (all accepts_entry entries) h in
    let (address, selectors) = and_parts (is_address k) (all accepts_selector codes) now in
    elim (Bool-cases (text_eq on k)) [
      | inl e ↦
          rw e (rw address (rw (all_snoc accepts_selector codes code selectors (rw c refl)) later))
      | inr e ↦ rw e (rw address (rw selectors (push_selector_lem on code entries a c later)))
    ]

selector_map_lem :
    (selectors : List PlacedBlock) (entries : List (Text × List Text))
    → All (λ b. sound BlockKind.selector b.values ≡ true) selectors
    → all accepts_entry entries ≡ true
    → all accepts_entry (selector_map selectors entries) ≡ true
unfolding selector_map
selector_map_lem [] entries is h = h
selector_map_lem (b ∷ selectors) entries (i, is) h =
    let on = value_in b.values (lit "address") [] in
    let code = value_in b.values (lit "selector") [] in
    let (a, c) = function_in b.values i in
    elim (Bool-cases (is_present on && is_present code)) [
      | inl e ↦ rw e (
          selector_map_lem selectors (push_selector on code entries) is
            (push_selector_lem on code entries a c h))
      | inr e ↦ rw e (selector_map_lem selectors entries is h)
    ]

present_trimmed : (s : Text) → is_present (trim s) ≡ true → is_present s ≡ true
unfolding trim trim_start
present_trimmed [] h = absurd (cc h)
present_trimmed (c ∷ s) h = refl

name-present : (name : Option Text) → is_present (name_of name) ≡ true
unfolding lit
name-present none = refl
name-present (some name) = elim (Bool-cases (is_present (trim name))) [
  | inl e ↦ rw e (present_trimmed name e)
  | inr e ↦ rw e refl
]

-- The carried fields come from a policy that the schema accepts.
abbrev pub fits_carried : CarryOver → Bool
fits_carried carry =
    accepts_chains (Option.get_or carry.chains (1 ∷ []))
    && is_uint (Option.get_or carry.max_gas (lit "0"))

chains_carried :
    (chains : Option (List ℕ))
    → accepts_chains (Option.get_or chains (1 ∷ [])) ≡ true
    → accepts_chains (Option.get_or chains (11_155_111 ∷ [])) ≡ true
chains_carried none h = refl
chains_carried (some xs) h = h

gas_carried :
    (gas : Option Text)
    → is_uint (Option.get_or gas (lit "0")) ≡ true
    → is_uint (Option.get_or gas (lit "2000000")) ≡ true
unfolding is_uint lit
gas_carried none h = refl
gas_carried (some s) h = h

module _ (blocks : List PlacedBlock) (is : All IsSound blocks) where
  max_per_intent-is_uint :
      is_uint (value (first blocks BlockKind.value_cap) (lit "maxPerIntent") (lit "0")) ≡ true
  unfolding sound spec_for lit is_uint
  max_per_intent-is_uint = un_not _ (
      first_value BlockKind.value_cap (lit "maxPerIntent") (lit "0") FieldFormat.uint blocks
        (λ values h. slot_at values (spec_for BlockKind.value_cap).fields 0 _ refl h) refl is)

  max_value-is_uint :
      is_uint (value (first blocks BlockKind.rate_limit) (lit "maxValue") (lit "0")) ≡ true
  unfolding sound spec_for lit is_uint
  max_value-is_uint = un_not _ (
      first_value BlockKind.rate_limit (lit "maxValue") (lit "0") FieldFormat.uint blocks
        (λ values h. slot_at values (spec_for BlockKind.rate_limit).fields 2 _ refl h) refl is)

  hold_value-is_uint :
      is_uint (value (first blocks BlockKind.hold_above) (lit "nativeValue") (lit "0")) ≡ true
  unfolding sound spec_for lit is_uint
  hold_value-is_uint = un_not _ (
      first_value BlockKind.hold_above (lit "nativeValue") (lit "0") FieldFormat.uint blocks
        (λ values h. slot_at values (spec_for BlockKind.hold_above).fields 0 _ refl h) refl is)

  max_approval-is_uint :
      is_uint (value (first blocks BlockKind.approval_bound) (lit "maxApproval") (lit "0")) ≡ true
  unfolding sound spec_for lit is_uint
  max_approval-is_uint = un_not _ (
      first_value BlockKind.approval_bound (lit "maxApproval") (lit "0") FieldFormat.uint blocks
        (λ values h. slot_at values (spec_for BlockKind.approval_bound).fields 0 _ refl h) refl is)

-- What is left to check of the document of a deployable canvas.
pub accepts-document :
    (blocks : List PlacedBlock) (options : CompileOptions)
    → (compile blocks options).deployable ≡ true
    → fits_carried options.carry_over ≡ true
    → accepts (compile blocks options).policy ≡ (
        is_positive (compile blocks options).policy.window_seconds
        && is_positive (compile blocks options).policy.max_intents_per_window
        && accepts_schedule (compile blocks options).policy.schedule)
unfolding compile document accepts
accepts-document blocks options deployable carried =
    let is = deployable-IsSound blocks deployable in
    let carry = options.carry_over in
    let (chains, gas) =
      and_parts (accepts_chains (Option.get_or carry.chains (1 ∷ [])))
        (is_uint (Option.get_or carry.max_gas (lit "0"))) carried in
    rw (name-present options.name) (
      rw (chains_carried carry.chains chains) (
        rw
          (allow-AreAddresses (of_kind BlockKind.target blocks)
            (of_kind-IsSound BlockKind.target blocks is))
          (rw
            (selector_map_lem (of_kind BlockKind.selector blocks) []
              (of_kind-IsSound BlockKind.selector blocks is) refl)
            (rw (max_per_intent-is_uint blocks is) (
              rw (max_value-is_uint blocks is) (
                rw (hold_value-is_uint blocks is) (
                  rw (max_approval-is_uint blocks is)
                    (rw (gas_carried carry.max_gas gas) (ground arith)))))))))
