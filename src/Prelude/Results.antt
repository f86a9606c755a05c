-- ===== src/Prelude/Results.antt =====
-- Go's `(value, error)` returns: a value, or an error of the caller's own type.
use mathlib.Core.Path.{◌≡◌, refl, ap}
use mathlib.Core.Logic.{◌↔◌, ◌⊎◌, inl, inr}
use mathlib.Core.Bool.{Bool, true, false}

pub data Result {ℓ} (E A : Type ℓ) : Type ℓ where
  err : E → Result E A
  ok : A → Result E A

-- A check that only fails or passes, as a Go function that returns `error`.
abbrev pub Checked : Type 0 → Type 0
Checked E = Result E (Unit {0})

-- `if bad { return err }`
abbrev pub fail_if : {E : Type 0} → Bool → E → Checked E
fail_if true e = err e
fail_if false e = ok tt

infixl 5 ◌>>=◌ ◌>>◌
-- The next call of the function, where the one before it returned no error.
abbrev pub ◌>>=◌ {ℓ} : {E A B : Type ℓ} (call : Result E A) (next : A → Result E B) → Result E B
err e >>= next = err e
ok value >>= next = next value

-- The same where the value is of no use.
abbrev pub ◌>>◌ {ℓ} : {E A B : Type ℓ} (call : Result E A) (next : Result E B) → Result E B
call >> next = call >>= λ _. next

pub Result-cases {ℓ} :
    {E A : Type ℓ} (r : Result E A) → ((a : A) × (r ≡ ok a)) ⊎ ((e : E) × (r ≡ err e))
Result-cases (ok a) = inl (a, refl)
Result-cases (err e) = inr (e, refl)

-- A chain that returned a value: the first call returned one, and the next gave the result on it.
pub >>=-eq-ok {ℓ} :
    {E A B : Type ℓ} (call : Result E A) (next : A → Result E B) {result : B}
    → ◌≡◌ {A = Result E B} (call >>= next) (ok result)
    → (value : A) × (call ≡ ok value) × (next value ≡ ok result)
>>=-eq-ok (err e) next returned = cc
>>=-eq-ok (ok value) next returned = (value, refl, returned)

pub >>=-ok {ℓ} :
    {E A B : Type ℓ} (call : Result E A) (next : A → Result E B) (value : A) (result : Result E B)
    → call ≡ ok value
    → next value ≡ result
    → ◌≡◌ {A = Result E B} (call >>= next) result
>>=-ok call next value result returned later = rw returned later

-- Two checks, the second only where the first passes.
pub >>-eq-ok_iff {ℓ} :
    {E A : Type ℓ} (call : Result E (Unit {ℓ})) (next : Result E A) (a : A)
    → ((call >> next) ≡ ok a) ↔ ((call ≡ ok tt) × (next ≡ ok a))
>>-eq-ok_iff (ok tt) next a = (λ h. (refl, h), λ h. h.1)
>>-eq-ok_iff (err e) next a = (λ h. cc, λ h. cc)

pub fail_if-eq-ok_iff : {E : Type 0} (bad : Bool) (e : E) → (fail_if bad e ≡ ok tt) ↔ (bad ≡ false)
fail_if-eq-ok_iff true e = (λ h. cc, λ h. cc)
fail_if-eq-ok_iff false e = (λ h. refl, λ h. refl)

abbrev value_or {ℓ} : {E A : Type ℓ} → A → Result E A → A
value_or d (ok a) = a
value_or d (err e) = d

pub ok-injective {ℓ} : {E A : Type ℓ} {a b : A} → ◌≡◌ {A = Result E A} (ok a) (ok b) → a ≡ b
ok-injective {a} h = ap (value_or a) h
