-- ===== src/Prelude/Guards.antt =====
-- The conditions under which `if … { return err }` lets a function go on.
use Prim.Native.Nat.{ℕ, ◌≤◌}
use mathlib.Core.Path.{◌≡◌, refl}
use mathlib.Core.Logic.{◌↔◌, ◌≢◌, inl, inr}
use mathlib.Core.Bool.{Bool, true, false, not}
use mathlib.Core.List.{[], ◌∷◌}
use native.Mathlib.Omega.{arith}
use drs.Prelude.Tests.{ltb, eqb, eqb_iff, Bool-cases}
use drs.Prelude.Results.{ok, fail_if}
use drs.Prelude.Int.{ℤ, eqb_ℤ, eqb_ℤ_iff}
use drs.Prelude.Text.{Text, ◌==◌, ==_iff, is_empty}

module _ {E : Type 0} (e : E) where
  pub unless_true : (b : Bool) → (fail_if (not b) e ≡ ok tt) ↔ (b ≡ true)
  unless_true true = (λ h. refl, λ h. refl)
  unless_true false = (λ h. cc, λ h. cc)

  unless_iff : {P : Type 0} (b : Bool) → (b ≡ true) ↔ P → (fail_if (not b) e ≡ ok tt) ↔ P
  unless_iff b (to, from) =
      let (pass, back) = unless_true b in (λ h. to (pass h), λ p. back (from p))

  -- `if !a.Equal(b)`
  pub unless_equal : (s t : Text) → (fail_if (not (s == t)) e ≡ ok tt) ↔ (s ≡ t)
  unless_equal s t = unless_iff (s == t) (==_iff s t)

  -- `if a != b`
  pub unless_eq : (a b : ℕ) → (fail_if (not (eqb a b)) e ≡ ok tt) ↔ (a ≡ b)
  unless_eq a b = unless_iff (eqb a b) (eqb_iff a b)

  pub unless_eq_ℤ : (n m : ℤ) → (fail_if (not (eqb_ℤ n m)) e ≡ ok tt) ↔ (n ≡ m)
  unless_eq_ℤ n m = unless_iff (eqb_ℤ n m) (eqb_ℤ_iff n m)

  -- `if len(s) == 0`
  pub if_empty : (s : Text) → (fail_if (is_empty s) e ≡ ok tt) ↔ (s ≢ [])
  if_empty [] = (λ h. cc, λ h. absurd (h refl))
  if_empty (b ∷ s) = (λ h. cc, λ h. refl)

  -- `if n > limit`
  pub if_above : (limit n : ℕ) → (fail_if (ltb limit n) e ≡ ok tt) ↔ (n ≤ limit)
  if_above limit n = elim (Bool-cases (ltb limit n)) [
    | inl above ↦ rw above (λ h. cc, λ h. absurd (ground arith))
    | inr within ↦ rw within (λ h. ground arith, λ h. refl)
  ]
