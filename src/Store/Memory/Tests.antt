-- ===== src/Store/Memory/Tests.antt =====
-- Three puts for two ids, and each theorem at them.
use mathlib.Core.List.{reverse}
use kp.Common.{◌≡◌, none, some, List, [], ◌∷◌, map, Text, lit, take}
use kp.Policy.Types.{Verdict}
use kp.Store.{StoredReceipt}
use kp.Store.Memory.{empty_store, get, list, put_all}
use kp.Store.Memory.Refines.{latest, first_ids, get-put_all, list-put_all}

abbrev stored : Text → Text → StoredReceipt
stored id digest = record {
  receipt = record {
    intent_id = id;
    intent_hash = lit "0x01";
    policy_hash = lit "0x02";
    guard = lit "0x03";
    chain_id = 1;
    verdict = Verdict.deny;
    reasons = [];
    simulation = none;
    execution = none;
    at = lit "2026";
  };
  digest = digest;
  anchor = none;
}

abbrev puts : List StoredReceipt
puts =
    stored (lit "a") (lit "0x0a")
    ∷ stored (lit "b") (lit "0x0b")
    ∷ stored (lit "a") (lit "0x0c")
    ∷ []

get-put_all_example :
    get (lit "a") (put_all puts empty_store) ≡ latest (lit "a") puts (get (lit "a") empty_store)
get-put_all_example = get-put_all (lit "a") puts empty_store

list-put_all_example :
    (out : List StoredReceipt) × (list (some 1) (put_all puts empty_store) ≡ map (λ r. some r) out)
    × (map (λ r. r.receipt.intent_id) out ≡ take 1 (reverse (first_ids [] puts)))
list-put_all_example = list-put_all puts (some 1)
