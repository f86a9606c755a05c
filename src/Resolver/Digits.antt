-- ===== src/Resolver/Digits.antt =====
-- base58Decode of drs-verify/pkg/resolver/did.go against the number that its digits stand for.
use drs.Prelude.{
  ℕ, zero, suc, ◌+◌, ◌*◌, ◌/◌, ◌%◌, ◌≤◌, ◌<◌, ◌≡◌, inl, inr, refl, ap, ◌∙◌, List, [], ◌∷◌, ◌++◌,
  some, eqb, if◌then◌else◌, All, arith, Bool-cases,
}
use drs.Prelude.Text.{Text}
use drs.Resolver.Base58.{
  bytes, digit, mul_add, prepend, push_digit, decode_digits, add_zeros, base58_decode,
}

-- 256 to the length
unfoldable pub scale : Text → ℕ
scale [] = 1
scale (b ∷ bs) = 256 * scale bs

-- The bytes as a number, the most significant first.
unfoldable pub value : Text → ℕ
unfolding scale
value [] = 0
value (b ∷ bs) = b * scale bs + value bs

-- The digits after the number `n`, in base 58.
unfoldable pub number_from : ℕ → List ℕ → ℕ
number_from n [] = n
number_from n (d ∷ ds) = number_from (58 * n + d) ds

-- The digits of a string of the alphabet.
pub data Spells : Text → List ℕ → Type 0 where
  nil : Spells [] []
  cons :
      {c d : ℕ} {s : Text} {ds : List ℕ} → digit c ≡ some d → Spells s ds → Spells (c ∷ s) (d ∷ ds)

abbrev pub IsByte : ℕ → Type 0
IsByte b = b < 256

-- No leading zero.
abbrev pub IsMinimal : Text → Type 0
IsMinimal [] = Unit
IsMinimal (b ∷ bs) = 0 < b

digit-lt : (c d : ℕ) → digit c ≡ some d → d < 58
unfolding digit
digit-lt c d h = ground arith

distribute : (q r x : ℕ) → r * x + q * (256 * x) ≡ (q * 256 + r) * x
distribute q r x = grind arith

bytes_of_product : (t x : ℕ) → t % 256 * x + t / 256 * (256 * x) ≡ t * x
bytes_of_product t x =
    let parts : t / 256 * 256 + t % 256 ≡ t = omega arith in
    distribute (t / 256) (t % 256) x ∙ ap (λ (n : ℕ). n * x) parts

mul_add-scale : (bs : Text) (carry : ℕ) → scale (mul_add bs carry).0 ≡ scale bs
unfolding mul_add scale
mul_add-scale [] carry = refl
mul_add-scale (b ∷ bs) carry = rw (mul_add-scale bs carry)

mul_add-value :
    (bs : Text) (carry : ℕ)
    → value (mul_add bs carry).0 + (mul_add bs carry).1 * scale bs ≡ 58 * value bs + carry
unfolding mul_add value scale
mul_add-value [] carry = omega arith
mul_add-value (b ∷ bs) carry =
    let later = mul_add-value bs carry in
    let same = mul_add-scale bs carry in
    rw same (grind (arith, later, bytes_of_product ((mul_add bs carry).1 + 58 * b) (scale bs)))

mul_add-lt :
    (bs : Text) (carry : ℕ)
    → All IsByte bs
    → carry < 58
    → ((mul_add bs carry).1 < 58) × All IsByte (mul_add bs carry).0
unfolding mul_add
mul_add-lt [] carry h k = (k, tt)
mul_add-lt (b ∷ bs) carry (h, hs) k =
    let (low, small) = mul_add-lt bs carry hs k in (omega arith, (omega arith, small))

-- A carry is fuel enough to write it out.
prepend-value :
    (fuel carry : ℕ) (bs : Text)
    → carry ≤ fuel
    → value (prepend fuel carry bs) ≡ carry * scale bs + value bs
unfolding prepend value scale
prepend-value zero carry bs h =
    let none_left : carry ≡ 0 = omega arith in rw none_left (omega arith)
prepend-value (suc fuel) carry bs h = elim (Bool-cases (eqb carry 0)) [
  | inl done ↦ let none_left : carry ≡ 0 = ground arith in rw done (rw none_left (omega arith))
  | inr more ↦
      let later = prepend-value fuel (carry / 256) ((carry % 256) ∷ bs) (ground arith) in
      rw more (later ∙ grind (arith, bytes_of_product carry (scale bs)))
]

push_digit-value : (bs : Text) (d : ℕ) → value (push_digit bs d) ≡ 58 * value bs + d
unfolding push_digit
push_digit-value bs d =
    prepend-value (mul_add bs d).1 (mul_add bs d).1 (mul_add bs d).0 (omega arith)
    ∙ rw (mul_add-scale bs d) (omega (arith, mul_add-value bs d))

prepend-All : (fuel carry : ℕ) (bs : Text) → All IsByte bs → All IsByte (prepend fuel carry bs)
unfolding prepend
prepend-All zero carry bs h = h
prepend-All (suc fuel) carry bs h = elim (Bool-cases (eqb carry 0)) [
  | inl done ↦ rw done h
  | inr more ↦ rw more (prepend-All fuel (carry / 256) ((carry % 256) ∷ bs) (omega arith, h))
]

prepend_nothing : (fuel : ℕ) (bs : Text) → prepend fuel 0 bs ≡ bs
unfolding prepend
prepend_nothing zero bs = refl
prepend_nothing (suc fuel) bs = refl

-- One digit can only be carried out as one byte.
prepend-small :
    (carry : ℕ) (bs : Text)
    → carry < 58
    → prepend carry carry bs ≡ (if eqb carry 0 then bs else carry ∷ bs)
unfolding prepend
prepend-small zero bs h = refl
prepend-small (suc n) bs h =
    let none_left : suc n / 256 ≡ 0 = omega arith in
    let whole : suc n % 256 ≡ suc n = omega arith in
    rw (none_left, whole, prepend_nothing n (suc n ∷ bs)) refl

push_digit-All : (bs : Text) (d : ℕ) → All IsByte bs → d < 58 → All IsByte (push_digit bs d)
unfolding push_digit
push_digit-All bs d h k = prepend-All _ _ (mul_add bs d).0 (mul_add-lt bs d h k).1

carried :
    (t : ℕ) (low : Text)
    → 58 ≤ t
    → t / 256 < 58
    → IsMinimal (prepend (t / 256) (t / 256) ((t % 256) ∷ low))
carried t low big small =
    rw (prepend-small (t / 256) _ small) (elim (Bool-cases (eqb (t / 256) 0)) [
      | inl none_left ↦ rw none_left (ground arith)
      | inr more ↦ rw more (ground arith)
    ])

push_digit-IsMinimal :
    (bs : Text) (d : ℕ) → All IsByte bs → d < 58 → IsMinimal bs → IsMinimal (push_digit bs d)
unfolding push_digit mul_add
push_digit-IsMinimal [] d h k m = rw (prepend-small d [] k) (elim (Bool-cases (eqb d 0)) [
  | inl none_left ↦ rw none_left tt
  | inr more ↦ rw more (ground arith)
])
push_digit-IsMinimal (b ∷ bs) d (h, hs) k m =
    let (low, _) = mul_add-lt bs d hs k in
    carried ((mul_add bs d).1 + 58 * b) (mul_add bs d).0 (omega arith) (omega arith)

decode_digits-Spells :
    (r s : Text) (ds : List ℕ)
    → Spells s ds
    → All IsByte r
    → IsMinimal r
    → (low : Text) × (decode_digits r s ≡ bytes low)
      × (value low ≡ number_from (value r) ds)
      × All IsByte low
      × IsMinimal low
unfolding decode_digits number_from
decode_digits-Spells r [] [] nil small least = (r, refl, refl, small, least)
decode_digits-Spells r [] (d ∷ ds) spelled small least = elim spelled [ ]
decode_digits-Spells r (c ∷ s) [] spelled small least = elim spelled [ ]
decode_digits-Spells r (c ∷ s) (d ∷ ds) (cons found spelled) small least =
    let k = digit-lt c d found in
    let (low, run, number, small', least') =
      decode_digits-Spells (push_digit r d) s ds spelled (push_digit-All r d small k)
        (push_digit-IsMinimal r d small k least) in
    (low, rw (decode_digits, found) run, rw (← push_digit-value r d) number, small', least')

-- As many zeros as the string has leading '1's.
unfoldable pub leading_ones : Text → ℕ
leading_ones [] = 0
leading_ones (c ∷ s) = let more = suc (leading_ones s) in if eqb c b'1' then more else 0

unfoldable pub zeros : ℕ → Text
zeros zero = []
zeros (suc n) = 0 ∷ zeros n

zeros_swap : (n : ℕ) (low : Text) → zeros n ++ 0 ∷ low ≡ 0 ∷ zeros n ++ low
unfolding zeros
zeros_swap zero low = refl
zeros_swap (suc n) low = ap (λ (t : Text). 0 ∷ t) (zeros_swap n low)

add_zeros-zeros : (s low : Text) → add_zeros s low ≡ zeros (leading_ones s) ++ low
unfolding add_zeros zeros leading_ones
add_zeros-zeros [] low = refl
add_zeros-zeros (c ∷ s) low = elim (Bool-cases (eqb c b'1')) [
  | inl one ↦ rw one (add_zeros-zeros s (0 ∷ low) ∙ zeros_swap (leading_ones s) low)
  | inr other ↦ rw other refl
]

-- A string of the alphabet is decoded, and to its number in base 256: a zero for every leading '1',
-- and then the bytes of the number that its digits are in base 58, without a leading zero.
pub base58_decode-Spells :
    (s : Text) (ds : List ℕ)
    → Spells s ds
    → (low : Text) × (base58_decode s ≡ bytes (zeros (leading_ones s) ++ low))
      × (value low ≡ number_from 0 ds)
      × All IsByte low
      × IsMinimal low
unfolding base58_decode value
base58_decode-Spells s ds spelled =
    let (low, run, number, small, least) = decode_digits-Spells [] s ds spelled tt tt in
    (low, rw run (ap bytes (add_zeros-zeros s low)), number, small, least)
