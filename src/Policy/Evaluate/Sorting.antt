-- ===== src/Policy/Evaluate/Sorting.antt =====
-- The order of the reasons that `evaluate` of packages/policy gives.
use kp.Common.{◌≡◌, refl, true, false, inl, inr, List, [], ◌∷◌, ◌++◌, arith, select, Bool-cases}
use kp.Policy.Types.{Severity, Reason}
use kp.Policy.Evaluate.{is_deny, is_hold, compare_reasons, insert_stable, sort_stable}

abbrev pub denials : List Reason → List Reason
denials = select (λ r. is_deny r.severity)

abbrev pub holds : List Reason → List Reason
holds = select (λ r. is_hold r.severity)

not_hold : (s : Severity) → is_deny s ≡ true → is_hold s ≡ false
not_hold Severity.deny h = refl
not_hold Severity.hold h = cc

must_hold : (s : Severity) → is_deny s ≡ false → is_hold s ≡ true
must_hold Severity.hold h = refl
must_hold Severity.deny h = cc

insert-deny :
    (r : Reason) (xs : List Reason)
    → is_deny r.severity ≡ true
    → insert_stable compare_reasons r xs ≡ r ∷ xs
unfolding insert_stable compare_reasons
insert-deny r [] h = refl
insert-deny r (x ∷ xs) h = ground arith

insert-hold :
    (r : Reason) (xs ys : List Reason)
    → is_deny r.severity ≡ false
    → insert_stable compare_reasons r (denials xs ++ holds ys)
      ≡ denials xs ++ insert_stable compare_reasons r (holds ys)
unfolding insert_stable compare_reasons
insert-hold r [] ys h = refl
insert-hold r (x ∷ xs) ys h = ground (arith, insert-hold r xs ys h)

insert-holds :
    (r : Reason) (ys : List Reason)
    → is_deny r.severity ≡ false
    → insert_stable compare_reasons r (holds ys) ≡ r ∷ holds ys
unfolding insert_stable compare_reasons
insert-holds r [] h = refl
insert-holds r (y ∷ ys) h = ground (arith, insert-holds r ys h)

-- The sort of the reasons is: all denials in the order raised, then all holds in the order raised.
pub sort_stable-denials-holds :
    (reasons : List Reason) → sort_stable compare_reasons reasons ≡ denials reasons ++ holds reasons
unfolding sort_stable
sort_stable-denials-holds [] = refl
sort_stable-denials-holds (r ∷ rs) = elim (Bool-cases (is_deny r.severity)) [
  | inl d ↦
      rw (sort_stable-denials-holds rs, insert-deny r (denials rs ++ holds rs) d, d, not_hold _ d)
  | inr h ↦
      rw
        (sort_stable-denials-holds rs, insert-hold r rs rs h, insert-holds r rs h, h, must_hold _ h)
]
