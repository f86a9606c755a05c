-- ===== src/Prelude/Int.antt =====
-- Signed integers, and Go's int64 and float64 over them.
use Prim.Native.Nat.{ℕ, suc, ◌+◌, ◌-◌, ◌%◌, ◌^◌, ◌≤◌, ◌<◌}
use mathlib.Core.Path.{◌≡◌, refl}
use mathlib.Core.Logic.{◌↔◌}
use mathlib.Core.Bool.{Bool, true, false}
use native.Mathlib.Omega.{arith}
use drs.Prelude.Tests.{ltb, leb, eqb, if◌then◌else◌}

-- `negsuc n` is -(n + 1).
pub data ℤ : Type 0 where
  pos : ℕ → ℤ
  negsuc : ℕ → ℤ

abbrev pub pos_part : ℤ → ℕ
pos_part (pos n) = n
pos_part (negsuc n) = 0

abbrev pub neg_part : ℤ → ℕ
neg_part (pos n) = 0
neg_part (negsuc n) = suc n

abbrev pub sub_ℕ : ℕ → ℕ → ℤ
sub_ℕ a b = if leb b a then pos (a - b) else negsuc (b - a - 1)

infixl 65 ◌+ℤ◌ ◌-ℤ◌
infix 50 ◌≤ℤ◌
unfoldable pub ◌+ℤ◌ : ℤ → ℤ → ℤ
a +ℤ b = sub_ℕ (pos_part a + pos_part b) (neg_part a + neg_part b)

unfoldable pub ◌-ℤ◌ : ℤ → ℤ → ℤ
a -ℤ b = sub_ℕ (pos_part a + neg_part b) (neg_part a + pos_part b)

abbrev pub ◌≤ℤ◌ : ℤ → ℤ → Type 0
a ≤ℤ b = pos_part a + neg_part b ≤ pos_part b + neg_part a

abbrev pub ltb_ℤ : ℤ → ℤ → Bool
ltb_ℤ a b = ltb (pos_part a + neg_part b) (pos_part b + neg_part a)

-- A 64-bit word read as an int64.
abbrev pub eqb_ℤ : ℤ → ℤ → Bool
eqb_ℤ (pos a) (pos b) = eqb a b
eqb_ℤ (pos a) (negsuc b) = false
eqb_ℤ (negsuc a) (pos b) = false
eqb_ℤ (negsuc a) (negsuc b) = eqb a b

pub eqb_ℤ_iff : (a b : ℤ) → (eqb_ℤ a b ≡ true) ↔ (a ≡ b)
eqb_ℤ_iff (pos a) (pos b) = ground arith
eqb_ℤ_iff (pos a) (negsuc b) = (λ h. cc, λ h. cc)
eqb_ℤ_iff (negsuc a) (pos b) = (λ h. cc, λ h. cc)
eqb_ℤ_iff (negsuc a) (negsuc b) = ground arith

unfoldable pub signed64 : ℕ → ℤ
signed64 w = if ltb w (2 ^ 63) then pos w else negsuc (2 ^ 64 - 1 - w)

-- The int64 that an integer wraps to.
unfoldable pub wrap64 : ℤ → ℤ
unfolding signed64
wrap64 (pos n) = signed64 (n % 2 ^ 64)
wrap64 (negsuc n) = signed64 (2 ^ 64 - 1 - n % 2 ^ 64)

-- The values of the type int64.
abbrev pub IsInt64 : ℤ → Type 0
IsInt64 a = (pos_part a < 2 ^ 63) × (neg_part a ≤ 2 ^ 63)

unfoldable pub add64 : ℤ → ℤ → ℤ
unfolding wrap64 ◌+ℤ◌
add64 a b = wrap64 (a +ℤ b)

unfoldable pub sub64 : ℤ → ℤ → ℤ
unfolding wrap64 ◌-ℤ◌
sub64 a b = wrap64 (a -ℤ b)

pub wrap64_id : (a : ℤ) → IsInt64 a → wrap64 a ≡ a
unfolding wrap64
wrap64_id (pos n) h = ground arith
wrap64_id (negsuc n) h = ground arith

pub -ℤ_parts :
    (a b : ℤ)
    → pos_part (a -ℤ b) + neg_part a + pos_part b ≡ neg_part (a -ℤ b) + pos_part a + neg_part b
unfolding ◌-ℤ◌
-ℤ_parts a b = ground arith

pub +ℤ_parts :
    (a b : ℤ)
    → pos_part (a +ℤ b) + neg_part a + neg_part b ≡ neg_part (a +ℤ b) + pos_part a + pos_part b
unfolding ◌+ℤ◌
+ℤ_parts a b = ground arith

pub add64_wrap : (a b : ℤ) → add64 a b ≡ wrap64 (a +ℤ b)
unfolding add64
add64_wrap a b = refl

pub sub64_wrap : (a b : ℤ) → sub64 a b ≡ wrap64 (a -ℤ b)
unfolding sub64
sub64_wrap a b = refl

-- Go's float64. A finite value is an integer multiple of 2 ^ -1074, the least positive one, so
-- `finite k` is k * 2 ^ -1074. Negative zero is `finite (pos 0)`: comparisons do not tell them
-- apart.
pub data Float64 : Type 0 where
  nan neg_inf pos_inf : Float64
  finite : ℤ → Float64

-- `a > b`, which is false where either is NaN.
abbrev pub fgt : Float64 → Float64 → Bool
fgt nan b = false
fgt neg_inf b = false
fgt pos_inf nan = false
fgt pos_inf pos_inf = false
fgt pos_inf _ = true
fgt (finite a) nan = false
fgt (finite a) neg_inf = true
fgt (finite a) pos_inf = false
fgt (finite a) (finite b) = ltb_ℤ b a

abbrev pub fzero : Float64
fzero = finite (pos 0)

abbrev pub is_nan : Float64 → Bool
is_nan nan = true
is_nan _ = false

-- Away from NaN, "not greater" is transitive.
pub fgt_trans :
    (a b c : Float64) → is_nan b ≡ false → fgt a b ≡ false → fgt b c ≡ false → fgt a c ≡ false
fgt_trans a nan c h p q = cc
fgt_trans nan b c h p q = refl
fgt_trans a b c h p q = ground arith

pub fgt_irrefl : (a : Float64) → fgt a a ≡ false
fgt_irrefl nan = refl
fgt_irrefl neg_inf = refl
fgt_irrefl pos_inf = refl
fgt_irrefl (finite a) = ground arith
