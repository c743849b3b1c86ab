-- ===== src/KeeperHub/Json.antt =====
-- A JSON document as `JSON.parse` gives it. Numbers are natural numbers.
use kp.Common.{ℕ, Bool, false, Option, none, some, Text, text_eq, if◌then◌else◌}

mutual
  pub data Json : Type 0 where
    null : Json
    bool : Bool → Json
    num : ℕ → Json
    str : Text → Json
    arr : Items → Json
    obj : Fields → Json

  pub data Items : Type 0 where
    nil : Items
    cons : Json → Items → Items

  pub data Fields : Type 0 where
    end : Fields
    field : Text → Json → Fields → Fields

unfoldable pub find : Text → Fields → Option Json
find key end = none
find key (field k v fields) = let later = find key fields in if text_eq key k then some v else later

-- `asRecord(value)[key]`; an array is an object without such keys.
unfoldable pub get : Text → Json → Option Json
unfolding find
get key (obj fields) = find key fields
get key _ = none

-- `str(value)`
abbrev pub as_text : Option Json → Option Text
as_text (some (str s)) = some s
as_text _ = none

-- `value === true`
abbrev pub is_true : Option Json → Bool
is_true (some (bool b)) = b
is_true _ = false

abbrev pub as_number : Option Json → Option ℕ
as_number (some (num n)) = some n
as_number _ = none

-- `value === text`
unfoldable pub is_text : Option Json → Text → Bool
is_text (some (str s)) t = text_eq s t
is_text _ t = false
