-- ===== src/Revocation/Digits.antt =====
-- The numbers in the log of drs-verify/pkg/revocation/file.go: printing and parsing.
use drs.Prelude.{
  ℕ, zero, suc, ◌+◌, ◌-◌, ◌*◌, ◌/◌, ◌%◌, ◌^◌, ◌≤◌, ◌<◌, true, [], ◌∷◌, ◌++◌, ◌≡◌, refl, sym, ap,
  ◌∙◌, some, eqb, length, length-append, All, arith, eqb_iff, Bool-cases, inl, inr,
}
use drs.Prelude.Text.{Text}
use drs.Revocation.Log.{put_digits, format_uint, is_digit, parse_from, parse_uint}

-- One digit more, where the number stays a uint64.
parse_from-digit :
    (n d : ℕ) (s : Text)
    → d < 10
    → 10 * n + d < 2 ^ 64
    → parse_from n ((b'0' + d) ∷ s) ≡ parse_from (10 * n + d) s
unfolding parse_from
parse_from-digit n d s h k = ground arith

parse_from-put_digits :
    (fuel n : ℕ) (tail : Text)
    → n < 10 ^ fuel
    → n < 2 ^ 64
    → parse_from 0 (put_digits fuel n tail) ≡ parse_from n tail
unfolding put_digits
parse_from-put_digits zero n tail h k = let none_left : n ≡ 0 = omega arith in rw none_left refl
parse_from-put_digits (suc fuel) n tail h k = elim (Bool-cases (eqb (n / 10) 0)) [
  | inl last ↦ rw last (
      rw (parse_from-digit 0 (n % 10) tail (omega arith) (omega arith))
        (ap (λ m. parse_from m tail) (omega (arith, (eqb_iff (n / 10) 0).0 last))))
  | inr more ↦ rw more (
      parse_from-put_digits fuel (n / 10) _ (omega arith) (omega arith)
      ∙ parse_from-digit (n / 10) (n % 10) tail (omega arith) (omega arith)
      ∙ ap (λ m. parse_from m tail) (omega arith))
]

abbrev pub IsNumeral : Text → Type 0
IsNumeral s = All (λ c. is_digit c ≡ true) s

put_digits-IsNumeral :
    (fuel n : ℕ) (tail : Text) → IsNumeral tail → IsNumeral (put_digits fuel n tail)
unfolding put_digits
put_digits-IsNumeral zero n tail h = h
put_digits-IsNumeral (suc fuel) n tail h =
    let first : is_digit (b'0' + n % 10) ≡ true = ground arith in
    elim (Bool-cases (eqb (n / 10) 0)) [
      | inl last ↦ rw last (first, h)
      | inr more ↦ rw more (put_digits-IsNumeral fuel (n / 10) _ (first, h))
    ]

length-put_digits :
    (fuel n : ℕ) (tail : Text) → (length (put_digits fuel n tail) ≤ fuel + length tail)
unfolding put_digits
length-put_digits zero n tail = omega arith
length-put_digits (suc fuel) n tail = elim (Bool-cases (eqb (n / 10) 0)) [
  | inl last ↦ rw last (omega arith)
  | inr more ↦ rw more (omega (arith, length-put_digits fuel (n / 10) ((b'0' + n % 10) ∷ tail)))
]

length-put_digits-le : (fuel n : ℕ) (tail : Text) → length tail ≤ length (put_digits fuel n tail)
unfolding put_digits
length-put_digits-le zero n tail = omega arith
length-put_digits-le (suc fuel) n tail = elim (Bool-cases (eqb (n / 10) 0)) [
  | inl last ↦ rw last (omega arith)
  | inr more ↦ rw more (omega (arith, length-put_digits-le fuel (n / 10) ((b'0' + n % 10) ∷ tail)))
]

length-put_digits-lt :
    (fuel n : ℕ) (tail : Text) → length tail < length (put_digits (suc fuel) n tail)
unfolding put_digits
length-put_digits-lt fuel n tail = elim (Bool-cases (eqb (n / 10) 0)) [
  | inl last ↦ rw last (omega arith)
  | inr more ↦ rw more (omega (arith, length-put_digits-le fuel (n / 10) ((b'0' + n % 10) ∷ tail)))
]

-- What FormatUint writes: one to twenty digits.
pub format_uint-IsNumeral : (n : ℕ) → IsNumeral (format_uint n)
unfolding format_uint
format_uint-IsNumeral n = put_digits-IsNumeral 20 n [] tt

pub length-format_uint : (n : ℕ) → (0 < length (format_uint n)) × (length (format_uint n) ≤ 20)
unfolding format_uint
length-format_uint n = (length-put_digits-lt 19 n [], length-put_digits 20 n [])

parse_uint-from : (s : Text) → 0 < length s → parse_uint s ≡ parse_from 0 s
unfolding parse_uint
parse_uint-from [] h = absurd (omega arith)
parse_uint-from (c ∷ s) h = refl

-- ParseUint reads back every uint64 that FormatUint writes.
pub parse_uint-format_uint : (n : ℕ) → n < 2 ^ 64 → parse_uint (format_uint n) ≡ some n
unfolding format_uint
parse_uint-format_uint n h =
    let (some_digit, _) = length-format_uint n in
    parse_uint-from _ some_digit
    ∙ parse_from-put_digits 20 n [] (omega arith) h
    ∙ (unfold parse_from in refl)

put_digits-append :
    (fuel n : ℕ) (s t : Text) → put_digits fuel n s ++ t ≡ put_digits fuel n (s ++ t)
unfolding put_digits
put_digits-append zero n s t = refl
put_digits-append (suc fuel) n s t = elim (Bool-cases (eqb (n / 10) 0)) [
  | inl last ↦ rw last refl
  | inr more ↦ rw more (put_digits-append fuel (n / 10) _ t)
]

-- A printed number goes on with what follows it.
parse_from-format_uint :
    (n : ℕ) (t : Text) → n < 2 ^ 64 → parse_from 0 (format_uint n ++ t) ≡ parse_from n t
unfolding format_uint
parse_from-format_uint n t h =
    ap (parse_from 0) (put_digits-append 20 n [] t) ∙ parse_from-put_digits 20 n t (omega arith) h

parse_from-cons :
    (n c x : ℕ) (s : Text)
    → parse_from n (c ∷ s) ≡ some x
    → parse_from (10 * n + (c - b'0')) s ≡ some x
unfolding parse_from
parse_from-cons n c x s h = ground arith

-- From a greater number the same digits give a greater one.
parse_from-lt :
    (s : Text) (a b x y : ℕ) → a < b → parse_from a s ≡ some x → parse_from b s ≡ some y → x < y
unfolding parse_from
parse_from-lt [] a b x y h p q = ground arith
parse_from-lt (c ∷ s) a b x y h p q =
    parse_from-lt s _ _ x y (omega arith) (parse_from-cons a c x s p) (parse_from-cons b c y s q)

-- The digits of a number that is not zero, and then those of `i`, never read as `i`.
pub parse_uint-joined :
    (j i m : ℕ)
    → 0 < j
    → j < 2 ^ 64
    → i < 2 ^ 64
    → parse_uint (format_uint j ++ format_uint i) ≡ some m
    → i < m
parse_uint-joined j i m positive fits small read =
    let (some_digit, _) = length-format_uint j in
    let long = length-append (format_uint j) (format_uint i) in
    let from_j : parse_from j (format_uint i) ≡ some m =
      sym (parse_from-format_uint j (format_uint i) fits)
      ∙ sym (parse_uint-from (format_uint j ++ format_uint i) (omega arith))
      ∙ read in
    let from_0 : parse_from 0 (format_uint i) ≡ some i =
      sym (parse_uint-from (format_uint i) (length-format_uint i).0)
      ∙ parse_uint-format_uint i small in
    parse_from-lt (format_uint i) 0 j i m positive from_0 from_j

pub IsNumeral-append : (s t : Text) → IsNumeral s → IsNumeral t → IsNumeral (s ++ t)
IsNumeral-append [] t h k = k
IsNumeral-append (c ∷ s) t (d, h) k = (d, IsNumeral-append s t h k)
