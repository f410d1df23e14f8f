-- ===== src/Prelude/Lists.antt =====
-- Lists measured and indexed by native numbers, and Boolean quantifiers that compute.
use Prim.Native.Nat.{ℕ, zero, suc, ◌+◌}
use mathlib.Core.Path.{◌≡◌, refl}
use mathlib.Core.Logic.{◌↔◌}
use mathlib.Core.Bool.{Bool, true, false, ◌&&◌, ◌||◌}
use mathlib.Core.List.{List, [], ◌∷◌, ◌++◌}
use mathlib.Core.Option.{Option, none, some}
use native.Mathlib.Omega.{arith}
use hardmoney.Prelude.Tests.{if◌then◌else◌}

module _ {ℓ} {A : Type ℓ} where
  abbrev pub length : List A → ℕ
  length [] = 0
  length (x ∷ xs) = suc (length xs)

  abbrev pub get_elem? : List A → ℕ → Option A
  get_elem? [] i = none
  get_elem? (x ∷ xs) zero = some x
  get_elem? (x ∷ xs) (suc i) = get_elem? xs i

  abbrev pub all_b : (A → Bool) → List A → Bool
  all_b p [] = true
  all_b p (x ∷ xs) = p x && all_b p xs

  abbrev pub any_b : (A → Bool) → List A → Bool
  any_b p [] = false
  any_b p (x ∷ xs) = p x || any_b p xs

  abbrev pub keep : (A → Bool) → List A → List A
  keep p [] = []
  keep p (x ∷ xs) = if p x then x ∷ keep p xs else keep p xs

  -- `Iterator::find`
  abbrev pub find_first : (A → Bool) → List A → Option A
  find_first p [] = none
  find_first p (x ∷ xs) = if p x then some x else find_first p xs

  abbrev pub All {κ} : (A → Type κ) → List A → Type κ
  All P [] = Unit
  All P (x ∷ xs) = P x × All P xs

module _ {ℓ} {A : Type ℓ} where
  pub length-append : (xs ys : List A) → length (xs ++ ys) ≡ length xs + length ys
  length-append [] ys = omega arith
  length-append (x ∷ xs) ys = omega (arith, length-append xs ys)

  pub all_b_iff : (p : A → Bool) (xs : List A) → (all_b p xs ≡ true) ↔ All (λ x. p x ≡ true) xs
  all_b_iff p [] = (λ _. tt, λ _. refl)
  all_b_iff p (x ∷ xs) = ground (arith, all_b_iff p xs)

  pub find_first-some : (p : A → Bool) (xs : List A) (a : A) → find_first p xs ≡ some a → p a ≡ true
  find_first-some p [] a h = cc
  find_first-some p (x ∷ xs) a h = ground (arith, find_first-some p xs a)

  pub all_b-append :
      (p : A → Bool) (xs ys : List A)
      → all_b p xs ≡ true
      → all_b p ys ≡ true
      → all_b p (xs ++ ys) ≡ true
  all_b-append p [] ys h k = k
  all_b-append p (x ∷ xs) ys h k = ground (arith, all_b-append p xs ys)
