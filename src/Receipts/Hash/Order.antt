-- ===== src/Receipts/Hash/Order.antt =====
-- `compareBytes` of packages/receipts/src/hash.ts as an order.
use kp.Common.{◌≡◌, refl, true, ◌⊎◌, [], ◌∷◌, arith}
use kp.Common.Int.{pos, pos_part, neg_part, leb_ℤ}
use kp.Receipts.Hash.{Bytes, compare_bytes}

-- The order of the arguments is the sign of the result.
compare_swap : (a b : Bytes) → pos_part (compare_bytes a b) ≡ neg_part (compare_bytes b a)
unfolding compare_bytes
compare_swap [] [] = refl
compare_swap [] (y ∷ b) = ground arith
compare_swap (x ∷ a) [] = ground arith
compare_swap (x ∷ a) (y ∷ b) = ground (arith, compare_swap a b)

pub compare_bytes-zero :
    (a b : Bytes) → pos_part (compare_bytes a b) ≡ 0 → neg_part (compare_bytes a b) ≡ 0 → a ≡ b
unfolding compare_bytes
compare_bytes-zero [] [] h k = refl
compare_bytes-zero [] (y ∷ b) h k = absurd (ground arith)
compare_bytes-zero (x ∷ a) [] h k = absurd (ground arith)
compare_bytes-zero (x ∷ a) (y ∷ b) h k = ground (arith, compare_bytes-zero a b)

-- Where each of two byte strings is at most the other they are equal, and one always is.
pub compare_bytes_antisym :
    (a b : Bytes)
    → leb_ℤ (compare_bytes a b) (pos 0) ≡ true
    → leb_ℤ (compare_bytes b a) (pos 0) ≡ true
    → a ≡ b
compare_bytes_antisym a b h k =
    compare_bytes-zero a b (ground arith) (ground (arith, compare_swap a b, compare_swap b a))

pub compare_bytes_total :
    (a b : Bytes)
    → (leb_ℤ (compare_bytes a b) (pos 0) ≡ true) ⊎ (leb_ℤ (compare_bytes b a) (pos 0) ≡ true)
compare_bytes_total a b = ground (arith, compare_swap a b, compare_swap b a)
