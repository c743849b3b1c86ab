-- ===== src/Common/Maps.antt =====
-- A JavaScript `Map` with text keys, as the list of its entries in the order of insertion.
use mathlib.Core.Path.{◌≡◌, refl, ap, subst}
use mathlib.Core.Logic.{◌≢◌, inl, inr}
use mathlib.Core.Bool.{true, false}
use mathlib.Core.Option.{Option, none, some}
use mathlib.Core.List.{List, [], ◌∷◌, ◌++◌}
use native.Mathlib.Omega.{arith}
use kp.Common.Tests.{Bool-cases, if◌then◌else◌}
use kp.Common.Lists.{length}
use kp.Common.Strings.{Text, text_eq, text_eq_iff, text_eq_refl, mem_text}

pub text_eq-false : (s t : Text) → s ≢ t → text_eq s t ≡ false
text_eq-false s t h = elim (Bool-cases (text_eq s t)) [
  | inl e ↦ absurd (h ((text_eq_iff s t).0 e))
  | inr e ↦ e
]

module _ {V : Type 0} where
  unfoldable pub lookup : Text → List (Text × V) → Option V
  lookup key [] = none
  lookup key ((k, v) ∷ entries) =
      let later = lookup key entries in if text_eq key k then some v else later

  unfoldable pub store : Text → V → List (Text × V) → List (Text × V)
  store key v [] = (key, v) ∷ []
  store key v ((k, old) ∷ entries) =
      let later = store key v entries in
      if text_eq key k then (k, v) ∷ entries else (k, old) ∷ later

  abbrev pub keys : List (Text × V) → List Text
  keys [] = []
  keys ((k, v) ∷ entries) = k ∷ keys entries

  pub lookup-store_same :
      (key : Text) (v : V) (entries : List (Text × V)) → lookup key (store key v entries) ≡ some v
  unfolding lookup store
  lookup-store_same key v [] = rw (text_eq_refl key) refl
  lookup-store_same key v ((k, old) ∷ entries) = elim (Bool-cases (text_eq key k)) [
    | inl e ↦ rw e (rw e refl)
    | inr e ↦ rw e (rw e (lookup-store_same key v entries))
  ]

  pub lookup-store_other :
      (other key : Text) (v : V) (entries : List (Text × V))
      → other ≢ key
      → lookup other (store key v entries) ≡ lookup other entries
  unfolding lookup store
  lookup-store_other other key v [] unlike = rw (text_eq-false other key unlike) refl
  lookup-store_other other key v ((k, old) ∷ entries) unlike = elim (Bool-cases (text_eq key k)) [
    | inl e ↦
        let apart : text_eq other k ≡ false =
          subst (λ t. text_eq other t ≡ false) ((text_eq_iff key k).0 e)
            (text_eq-false other key unlike) in
        rw e (rw apart refl)
    | inr e ↦ rw e (rw (lookup-store_other other key v entries unlike) refl)
  ]

  -- `has` on the entries is membership of the keys.
  pub lookup-none :
      (key : Text) (entries : List (Text × V))
      → mem_text key (keys entries) ≡ false
      → lookup key entries ≡ none
  unfolding lookup mem_text
  lookup-none key [] h = refl
  lookup-none key ((k, v) ∷ entries) h = elim (Bool-cases (text_eq key k)) [
    | inl e ↦ absurd (cc (rw e at h))
    | inr e ↦ rw e (lookup-none key entries (rw e at h))
  ]

  -- A new key stands last; a key that is there stays where it is.
  pub keys-store_new :
      (key : Text) (v : V) (entries : List (Text × V))
      → mem_text key (keys entries) ≡ false
      → store key v entries ≡ entries ++ (key, v) ∷ []
  unfolding store mem_text
  keys-store_new key v [] h = refl
  keys-store_new key v ((k, old) ∷ entries) h = elim (Bool-cases (text_eq key k)) [
    | inl e ↦ absurd (cc (rw e at h))
    | inr e ↦ rw (e, keys-store_new key v entries (rw e at h)) refl
  ]

  pub keys-store_old :
      (key : Text) (v : V) (entries : List (Text × V))
      → mem_text key (keys entries) ≡ true
      → keys (store key v entries) ≡ keys entries
  unfolding store mem_text
  keys-store_old key v [] h = cc
  keys-store_old key v ((k, old) ∷ entries) h = elim (Bool-cases (text_eq key k)) [
    | inl e ↦ rw e refl
    | inr e ↦ rw (e, keys-store_old key v entries (rw e at h)) refl
  ]

  pub keys-append : (xs ys : List (Text × V)) → keys (xs ++ ys) ≡ keys xs ++ keys ys
  keys-append [] ys = refl
  keys-append ((k, v) ∷ xs) ys = ap (λ l. k ∷ l) (keys-append xs ys)

  pub length-keys : (xs : List (Text × V)) → length (keys xs) ≡ length xs
  length-keys [] = refl
  length-keys ((k, v) ∷ xs) = omega (arith, length-keys xs)
