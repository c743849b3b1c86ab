-- ===== src/Receipts/Canonical/Tests.antt =====
-- An object in two orders.
use kp.Common.{◌≡◌, ◌≢◌, refl, true, lit, text_eq, text_eq_iff}
use kp.KeeperHub.Json.{bool, num, obj, end, field}
use kp.Common.Numbers.{show_ℕ}
use kp.Receipts.Canonical.{text_lt, join_with_comma, quote, sort_members, print_members, serialize}

a_b : lit "a" ≢ lit "b"
unfolding lit text_eq
a_b = λ e. cc ((text_eq_iff (lit "a") (lit "b")).1 e)

sorted_text :
    serialize (obj (field (lit "b") (bool true) (field (lit "a") (num 12) end)))
    ≡ lit "{\"a\":12,\"b\":true}"
unfolding serialize lit join_with_comma print_members sort_members text_lt quote show_ℕ
sorted_text = refl
