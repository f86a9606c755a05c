-- ===== src/Chain/Scalar.antt =====
-- strictVerifyEd25519 of drs-verify/pkg/verify/chain.go against the order of the numbers that the
-- bytes stand for.
use native.Mathlib.Nat.{pow-suc}
use drs.Prelude.{
  inl, inr, ℕ, zero, suc, ◌+◌, ◌*◌, ◌^◌, ◌≤◌, ◌<◌, ◌≡◌, ◌↔◌, refl, true, List, [], ◌∷◌, eqb,
  eqb_iff, ltb, arith, if◌then◌else◌, length, All, ok, err, Checked, Bool-cases,
}
use drs.Prelude.Text.{Text}
use drs.Chain.Jwt.{Env}
use drs.Chain.Signature.{
  SignatureError, ed_group_order, byte_at, scan_scalar, strict_verify_ed25519,
}

-- The number that n little-endian bytes stand for, from a function that gives byte i.
unfoldable pub value : (ℕ → ℕ) → ℕ → ℕ
value f zero = 0
value f (suc n) = value f n + f n * 256 ^ n

abbrev pub order_byte : ℕ → ℕ
order_byte i = byte_at ed_group_order i

-- byte i of the scalar S, which is the second half of a signature
abbrev pub scalar_byte : Text → ℕ → ℕ
scalar_byte sig i = byte_at sig (32 + i)

mul_le : (x y m : ℕ) → x ≤ y → x * m ≤ y * m
mul_le x y m h = grind arith

ltb→lt : (a b : ℕ) → ltb a b ≡ true → a < b
ltb→lt a b h = ground arith

value-lt : (f : ℕ → ℕ) (n : ℕ) → ((i : ℕ) → f i < 256) → value f n < 256 ^ n
unfolding value
value-lt f zero h = omega arith
value-lt f (suc n) h = grind (arith, value-lt f n h, h n, pow-suc 256 n, mul_le (f n) 255 (256 ^ n))

-- A greater digit outweighs everything below it.
digit_lt : (a b x y m : ℕ) → a < m → x < y → a + x * m < b + y * m
digit_lt a b x y m p q = grind (arith, mul_le (x + 1) y m)

module _ (r : Checked SignatureError) (e : SignatureError) (a b x y m : ℕ) where
  step_iff :
      a < m
      → b < m
      → (r ≡ ok tt) ↔ (a < b)
      → ((if ltb y x then err e else if ltb x y then ok tt else r) ≡ ok tt)
        ↔ (a + x * m < b + y * m)
  step_iff p q (to, from) = elim (Bool-cases (ltb y x)) [
    | inl above ↦ (
      λ h. cc (rw above at h),
      λ h. absurd (omega (arith, digit_lt b a y x m q (ltb→lt y x above))),
    )
    | inr not_above ↦ elim (Bool-cases (ltb x y)) [
      | inl below ↦ (λ h. digit_lt a b x y m p (ltb→lt x y below), λ h. rw (not_above, below))
      | inr not_below ↦
          let same : x ≡ y = ground arith in
          (
            λ h. rw same (omega (arith, to (rw (not_above, not_below) at h))),
            λ h. rw (not_above, not_below) (from (omega (arith, rw same at h))),
          )
    ]
  ]

module _ (sig : Text) (bytes : (i : ℕ) → scalar_byte sig i < 256) where
  scan_iff :
      (order : List ℕ)
      → ((i : ℕ) → byte_at order i < 256)
      → (n : ℕ)
      → (scan_scalar order sig n ≡ ok tt) ↔ (value (scalar_byte sig) n < value (byte_at order) n)
  unfolding scan_scalar value
  scan_iff order small zero = (λ h. cc, λ h. absurd (omega arith))
  scan_iff order small (suc n) =
      let below = value-lt (scalar_byte sig) n bytes in
      let below' = value-lt (byte_at order) n small in
      let (to, from) = scan_iff order small n in
      step_iff (scan_scalar order sig n) _ _ _ (scalar_byte sig n) (byte_at order n) (256 ^ n) below
        below' (to, from)

pub byte_at-lt : (s : List ℕ) (i : ℕ) → All (λ b. b < 256) s → byte_at s i < 256
unfolding byte_at
byte_at-lt [] i h = omega arith
byte_at-lt (b ∷ s) zero h = h.0
byte_at-lt (b ∷ s) (suc i) h = byte_at-lt s i h.1

-- L
abbrev pub group_order : ℕ
group_order = 2 ^ 252 + 27742317777372353535851937790883648493

order_value : value order_byte 32 ≡ group_order
unfolding value byte_at
order_value = refl

-- Of a byte string the strict check accepts exactly the 64-byte signatures whose second half,
-- read as a little-endian number, is below the group order L.
pub strict_verify_ed25519-eq-ok_iff :
    (env : Env) (sig : Text)
    → All (λ b. b < 256) sig
    → (strict_verify_ed25519 env sig ≡ ok tt)
      ↔ ((length sig ≡ 64) × (value (scalar_byte sig) 32 < group_order))
unfolding strict_verify_ed25519
strict_verify_ed25519-eq-ok_iff env sig bytes =
    let (to, from) =
      scan_iff sig (λ i. byte_at-lt sig (32 + i) bytes) ed_group_order
        (λ i. byte_at-lt ed_group_order i (omega arith)) 32 in
    rw (← order_value) (
      λ h. elim (Bool-cases (eqb (length sig) 64)) [
        | inl long ↦ ((eqb_iff _ _).0 long, to (rw long at h))
        | inr short ↦ cc (rw short at h)
      ],
      λ h. rw ((eqb_iff _ _).1 h.0) (from h.1),
    )
