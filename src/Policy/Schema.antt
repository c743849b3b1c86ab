-- ===== src/Policy/Schema.antt =====
-- packages/policy/src/schema.ts: the checks of `PolicySchema` on a document that has the fields and types
-- of the schema. A number is `none` where it is no natural number. The combinators of zod are read as
-- the checks that they name.
use kp.Common.{
  ℕ, Bool, true, false, ◌&&◌, ◌||◌, Option, none, some, List, [], ◌∷◌, Text, lit, text_eq, leb, ltb,
  ◌==◌, length, all,
}
use kp.Common.Numbers.{digit}

abbrev pub is_decimal : ℕ → Bool
is_decimal c = leb b'0' c && leb c b'9'

-- `^\d+$`
unfoldable pub is_uint : Text → Bool
is_uint [] = false
is_uint (c ∷ s) = is_decimal c && all is_decimal s

-- `^0x[0-9a-fA-F]{n}$`
unfoldable pub is_hex_of : ℕ → Text → Bool
is_hex_of n [] = false
is_hex_of n (z ∷ []) = false
is_hex_of n (z ∷ x ∷ s) = z == b'0' && x == b'x' && length s == n && all (λ c. ltb (digit c) 16) s

abbrev pub is_address : Text → Bool
is_address s = is_hex_of 40 s

abbrev pub is_selector : Text → Bool
is_selector s = is_hex_of 8 s

abbrev pub is_positive : Option ℕ → Bool
is_positive none = false
is_positive (some n) = leb 1 n

abbrev pub is_at_most : ℕ → Option ℕ → Bool
is_at_most bound none = false
is_at_most bound (some n) = leb n bound

-- A policy document. `schedule` holds the pair `allowedHoursUtc`, `approvals` the field `maxApproval`.
pub record PolicyDocument : Type 0 where
  pub name : Text
  pub chains : List ℕ
  pub allow : List Text
  pub selectors : List (Text × List Text)
  pub max_native_value_per_intent : Text
  pub max_native_value_per_window : Text
  pub window_seconds : Option ℕ
  pub max_intents_per_window : Option ℕ
  pub max_gas : Text
  pub hold_native_value : Text
  pub unknown_counterparty : Bool
  pub schedule : Option (Option ℕ × Option ℕ)
  pub max_approval : Text
  pub min_invariants : ℕ

abbrev pub is_present : {A : Type 0} → List A → Bool
is_present [] = false
is_present (x ∷ xs) = true

abbrev pub accepts_chains : List ℕ → Bool
accepts_chains chains = is_present chains && all (λ n. leb 1 n) chains

abbrev pub accepts_selector : Text → Bool
accepts_selector s = is_selector s || text_eq s (lit "*")

abbrev pub accepts_entry : Text × List Text → Bool
accepts_entry (target, selectors) = is_address target && all accepts_selector selectors

abbrev pub accepts_schedule : Option (Option ℕ × Option ℕ) → Bool
accepts_schedule none = true
accepts_schedule (some (start, end)) = is_at_most 23 start && is_at_most 24 end

-- Whether `PolicySchema.parse` accepts the document.
unfoldable pub accepts : PolicyDocument → Bool
accepts d =
    is_present d.name
    && accepts_chains d.chains
    && all is_address d.allow
    && all accepts_entry d.selectors
    && is_uint d.max_native_value_per_intent
    && is_uint d.max_native_value_per_window
    && is_positive d.window_seconds
    && is_positive d.max_intents_per_window
    && is_uint d.max_gas
    && is_uint d.hold_native_value
    && accepts_schedule d.schedule
    && is_uint d.max_approval
