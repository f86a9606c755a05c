-- ===== src/Prelude/Lists.antt =====
-- Lists measured and indexed by native numbers, and predicates on them by recursion.
use Prim.Native.Nat.{ℕ, zero, suc, ◌+◌}
use mathlib.Core.Path.{◌≡◌, refl, ap}
use mathlib.Core.Logic.{◌⊎◌, inl, inr}
use mathlib.Core.Bool.{Bool, true, false, ◌||◌}
use mathlib.Core.List.{List, [], ◌∷◌, ◌++◌}
use mathlib.Core.Option.{Option, none, some}
use native.Mathlib.Omega.{arith}
use drs.Prelude.Tests.{Bool-cases}

module _ {ℓ} {A : Type ℓ} where
  abbrev pub length : List A → ℕ
  length [] = 0
  length (x ∷ xs) = suc (length xs)

  abbrev pub get_elem? : List A → ℕ → Option A
  get_elem? [] i = none
  get_elem? (x ∷ xs) zero = some x
  get_elem? (x ∷ xs) (suc i) = get_elem? xs i

  abbrev pub take : ℕ → List A → List A
  take zero xs = []
  take (suc n) [] = []
  take (suc n) (x ∷ xs) = x ∷ take n xs

  pub take-append : (xs ys : List A) → take (length xs) (xs ++ ys) ≡ xs
  take-append [] [] = refl
  take-append [] (y ∷ ys) = refl
  take-append (x ∷ xs) ys = ap (λ (v : List A). x ∷ v) (take-append xs ys)

  -- The last entry of a non-empty list given by its head and tail.
  unfoldable pub last_of : A → List A → A
  last_of x [] = x
  last_of x (y ∷ ys) = last_of y ys

  pub length-append : (xs ys : List A) → length (xs ++ ys) ≡ length xs + length ys
  length-append [] ys = omega arith
  length-append (x ∷ xs) ys = omega (arith, length-append xs ys)

  pub ++-assoc : (xs ys zs : List A) → (xs ++ ys) ++ zs ≡ xs ++ (ys ++ zs)
  ++-assoc [] ys zs = refl
  ++-assoc (x ∷ xs) ys zs = ap (λ (v : List A). x ∷ v) (++-assoc xs ys zs)

  pub ++-nil : (xs : List A) → xs ++ [] ≡ xs
  ++-nil [] = refl
  ++-nil (x ∷ xs) = ap (λ (v : List A). x ∷ v) (++-nil xs)

  -- A loop that returns true at the first entry that passes.
  unfoldable pub any_of : (A → Bool) → List A → Bool
  any_of p [] = false
  any_of p (x ∷ xs) = p x || any_of p xs

module _ {ℓ κ} {A : Type ℓ} where
  abbrev pub All : (A → Type κ) → List A → Type κ
  All P [] = Unit
  All P (x ∷ xs) = P x × All P xs

-- There is an entry with the property, kept as data.
abbrev pub Some {ℓ} : {A : Type ℓ} → (A → Type 0) → List A → Type 0
Some P [] = ⊥
Some P (x ∷ xs) = P x ⊎ Some P xs

module _ {ℓ} {A : Type ℓ} (p : A → Bool) where
  pub any_of-Some : (xs : List A) → any_of p xs ≡ true → Some (λ x. p x ≡ true) xs
  unfolding any_of
  any_of-Some [] h = cc
  any_of-Some (x ∷ xs) h = elim (Bool-cases (p x)) [
    | inl hit ↦ inl hit
    | inr miss ↦ inr (any_of-Some xs (rw miss at h))
  ]

  pub Some-any_of : (xs : List A) → Some (λ x. p x ≡ true) xs → any_of p xs ≡ true
  unfolding any_of
  Some-any_of [] h = absurd h
  Some-any_of (x ∷ xs) (inl hit) = rw hit
  Some-any_of (x ∷ xs) (inr later) = ground (arith, Some-any_of xs later)

  pub any_of-eq-false : (xs : List A) → All (λ x. p x ≡ false) xs → any_of p xs ≡ false
  unfolding any_of
  any_of-eq-false [] h = refl
  any_of-eq-false (x ∷ xs) (miss, h) = rw miss (any_of-eq-false xs h)

module _ {ℓ} {A : Type ℓ} {P Q : A → Type 0} where
  pub Some-mono : ((x : A) → P x → Q x) → (xs : List A) → Some P xs → Some Q xs
  Some-mono f [] h = absurd h
  Some-mono f (x ∷ xs) (inl h) = inl (f x h)
  Some-mono f (x ∷ xs) (inr h) = inr (Some-mono f xs h)

  pub All-mono : ((x : A) → P x → Q x) → (xs : List A) → All P xs → All Q xs
  All-mono f [] h = tt
  All-mono f (x ∷ xs) (h, hs) = (f x h, All-mono f xs hs)
