-- ===== src/Chain/InForce.antt =====
-- Block E of drs-verify/pkg/verify/chain.go: the freshness of the invocation, and the windows.
use drs.Prelude.{
  ◌⊎◌, inl, inr, ℕ, zero, suc, ◌^◌, ◌≤◌, ◌<◌, ◌≡◌, ◌↔◌, refl, false, ◌&&◌, List, [], ◌∷◌, Option,
  none, some, arith, All, ok, fail_if, ◌>>◌,
}
use drs.Prelude.Int.{
  ℤ, pos, negsuc, pos_part, neg_part, ◌≤ℤ◌, ◌-ℤ◌, ◌+ℤ◌, ltb_ℤ, IsInt64, wrap64, wrap64_id,
  add64_wrap, sub64_wrap, -ℤ_parts, +ℤ_parts,
}
use drs.Types.{VerificationError, invocation_not_yet_valid, invocation_stale}
use drs.Chain.Structure.{fault, Link}
use drs.Chain.Semantic.{clock_skew, check_freshness, has_expired, check_times}
use drs.Chain.Links.{passed_both}

abbrev pub NotExpired : Option ℤ → ℤ → Type 0
NotExpired none now = Unit
NotExpired (some e) now = now ≤ℤ e

-- The time lies in the receipt's window.
abbrev pub IsActive : ℤ → Link → Type 0
IsActive now l = (l.nbf ≤ℤ now) × NotExpired l.exp now

-- The invocation is at most the skew ahead and, where a limit is set, no older than it.
abbrev pub IsFresh : ℤ → ℤ → ℤ → Type 0
IsFresh max_age now iat =
    (iat ≤ℤ now +ℤ clock_skew) × (0 < pos_part max_age → now -ℤ iat ≤ℤ max_age)

has_expired_iff : (o : Option ℤ) (now : ℤ) → (has_expired o now ≡ false) ↔ NotExpired o now
has_expired_iff none now = (λ h. tt, λ h. refl)
has_expired_iff (some e) now = (λ h. ground arith, λ h. ground arith)

begun_iff : (nbf now : ℤ) → (ltb_ℤ now nbf ≡ false) ↔ (nbf ≤ℤ now)
begun_iff nbf now = (λ h. ground arith, λ h. ground arith)

-- The loop over the receipts accepts exactly where the time lies in the window of each.
pub check_times-eq-ok_iff :
    (i : ℕ) (now : ℤ) (ls : List Link) → (check_times i now ls ≡ ok tt) ↔ All (IsActive now) ls
unfolding check_times
check_times-eq-ok_iff i now [] = (λ h. tt, λ h. refl)
check_times-eq-ok_iff i now (l ∷ ls) = (
  λ h.
      let (a, b, h1) = passed_both _ _ _ _ _ h in
      (
        ((begun_iff l.nbf now).0 a, (has_expired_iff l.exp now).0 b),
        (check_times-eq-ok_iff (suc i) now ls).0 h1,
      ),
  λ h.
      rw ((begun_iff l.nbf now).1 h.0.0, (has_expired_iff l.exp now).1 h.0.1)
        ((check_times-eq-ok_iff (suc i) now ls).1 h.1),
)

-- The two tests, for any time that is the latest allowed and any age.
tests_iff :
    (max_age latest age iat : ℤ) (e f : VerificationError)
    → ((fail_if (ltb_ℤ latest iat) e >> fail_if (ltb_ℤ (pos 0) max_age && ltb_ℤ max_age age) f)
        ≡ ok tt)
      ↔ ((iat ≤ℤ latest) × (0 < pos_part max_age → age ≤ℤ max_age))
tests_iff (negsuc m) latest age iat e f =
    (λ h. (ground arith, λ k. absurd (omega arith)), λ h. ground arith)
tests_iff (pos zero) latest age iat e f =
    (λ h. (ground arith, λ k. absurd (omega arith)), λ h. ground arith)
tests_iff (pos (suc m)) latest age iat e f =
    (λ h. (ground arith, λ k. ground arith), λ h. ground (arith, h.1 (omega arith)))

-- Where neither the sum nor the difference leaves int64, the freshness test is exact: it accepts
-- an iat that is at most 300 seconds ahead and, where a limit is set, no older than the limit.
pub check_freshness-eq-ok_iff :
    (max_age now iat : ℤ)
    → IsInt64 (now +ℤ clock_skew)
    → IsInt64 (now -ℤ iat)
    → (check_freshness max_age now iat ≡ ok tt) ↔ IsFresh max_age now iat
unfolding check_freshness
check_freshness-eq-ok_iff max_age now iat later age =
    rw (add64_wrap now clock_skew, sub64_wrap now iat, wrap64_id _ later, wrap64_id _ age)
      (tests_iff max_age (now +ℤ clock_skew) (now -ℤ iat) iat (fault invocation_not_yet_valid)
        (fault invocation_stale))

one_sign : (a : ℤ) → (pos_part a ≡ 0) ⊎ (neg_part a ≡ 0)
one_sign (pos n) = inr refl
one_sign (negsuc n) = inl refl

wrap64_negative : (a : ℤ) → 2 ^ 63 ≤ pos_part a → pos_part a < 2 ^ 64 → wrap64 a ≤ℤ pos 0
unfolding wrap64
wrap64_negative (negsuc n) low high = absurd (omega arith)
wrap64_negative (pos n) low high = ground arith

-- Where the limit and the clock are not negative and the clock with the skew fits int64, an iat
-- 2 ^ 63 seconds or more before the clock passes the freshness test: its age wraps.
pub check_freshness_wraps :
    (max_age now iat : ℤ)
    → pos 0 ≤ℤ max_age
    → pos 0 ≤ℤ now
    → IsInt64 (now +ℤ clock_skew)
    → IsInt64 iat
    → pos (2 ^ 63) ≤ℤ now -ℤ iat
    → check_freshness max_age now iat ≡ ok tt
unfolding check_freshness
check_freshness_wraps max_age now iat limit epoch later word old =
    let later_now = now +ℤ clock_skew in
    let sum = +ℤ_parts now clock_skew in
    let difference = -ℤ_parts now iat in
    let small : wrap64 (now -ℤ iat) ≤ℤ pos 0 =
      wrap64_negative (now -ℤ iat) (omega arith)
        (omega (arith, one_sign (now -ℤ iat), one_sign now, one_sign iat, one_sign later_now)) in
    rw (add64_wrap now clock_skew, sub64_wrap now iat, wrap64_id _ later)
      ((tests_iff max_age (now +ℤ clock_skew) (wrap64 (now -ℤ iat)) iat
          (fault invocation_not_yet_valid) (fault invocation_stale)).1
        (omega arith, λ k. omega arith))
