-- ===== src/Store/Memory.antt =====
-- packages/store/src/memory.ts: a `Map` of receipts by the intent's id, and the ids in the order in
-- which they were first put.
pub mod Refines
mod Tests
use mathlib.Core.Option
use mathlib.Core.List.{reverse}
use kp.Common.{
  ℕ, Bool, true, false, Option, none, some, List, [], ◌∷◌, ◌++◌, map, Text, length, take,
  if◌then◌else◌,
}
use kp.Common.Maps.{lookup, store}
use kp.Store.{StoredReceipt}

pub record MemoryStore : Type 0 where
  pub receipts : List (Text × StoredReceipt)
  pub order : List Text

abbrev pub empty_store : MemoryStore
empty_store = record { receipts = []; order = [] }

abbrev pub is_some : Option StoredReceipt → Bool
is_some none = false
is_some (some r) = true

unfoldable pub put : StoredReceipt → MemoryStore → MemoryStore
put r s =
    let id = r.receipt.intent_id in
    record {
      receipts = store id r s.receipts;
      order = if is_some (lookup id s.receipts) then s.order else s.order ++ id ∷ [];
    }

unfoldable pub get : Text → MemoryStore → Option StoredReceipt
get id s = lookup id s.receipts

-- `none` in the result is `undefined`, which the source asserts away.
unfoldable pub list : Option ℕ → MemoryStore → List (Option StoredReceipt)
unfolding get
list limit s = map (λ id. get id s) (take (Option.get_or limit 50) (reverse s.order))

unfoldable pub count : MemoryStore → ℕ
count s = length s.receipts

unfoldable pub put_all : List StoredReceipt → MemoryStore → MemoryStore
unfolding put
put_all [] s = s
put_all (r ∷ rs) s = put_all rs (put r s)
