-- ===== src/Revocation/Bits.antt =====
-- getBit of drs-verify/pkg/revocation/status.go, and the bits of a byte string in order.
use drs.Prelude.{
  ℕ, zero, suc, ◌-◌, ◌/◌, ◌%◌, ◌^◌, ◌≡◌, refl, ap, ◌∙◌, Bool, false, List, [], ◌∷◌, ◌++◌, Option,
  none, some, eqb, arith, get_elem?,
}
use drs.Prelude.Text.{Text}
use drs.Revocation.Status.{get_bit}

abbrev bit : ℕ → ℕ → Bool
bit byte k = eqb (byte / 2 ^ k % 2) 1

-- The bits of a byte, from bit 7 down.
abbrev pub bits_of : ℕ → List Bool
bits_of b = bit b 7 ∷ bit b 6 ∷ bit b 5 ∷ bit b 4 ∷ bit b 3 ∷ bit b 2 ∷ bit b 1 ∷ bit b 0 ∷ []

abbrev pub all_bits : Text → List Bool
all_bits [] = []
all_bits (b ∷ s) = bits_of b ++ all_bits s

-- The entry, or false past the end.
abbrev pub bit_or_false : Option Bool → Bool
bit_or_false none = false
bit_or_false (some b) = b

quotient_next : (i : ℕ) → suc (suc (suc (suc (suc (suc (suc (suc i))))))) / 8 ≡ suc (i / 8)
quotient_next i = omega arith

remainder_next : (i : ℕ) → suc (suc (suc (suc (suc (suc (suc (suc i))))))) % 8 ≡ i % 8
remainder_next i = omega arith

get_bit-next :
    (b : ℕ) (s : Text) (i : ℕ)
    → get_bit (b ∷ s) (suc (suc (suc (suc (suc (suc (suc (suc i)))))))) ≡ get_bit s i
unfolding get_bit
get_bit-next b s i =
    rw (get_bit, quotient_next i)
      (ap
        (λ (r : ℕ). elim (get_elem? s (i / 8)) [
          | none ↦ false
          | some byte ↦ eqb (byte / 2 ^ (7 - r) % 2) 1
        ])
        (remainder_next i))

-- The bit at an index is the entry of the list of all bits, and false past its end.
pub get_bit_lem : (s : Text) (i : ℕ) → get_bit s i ≡ bit_or_false (get_elem? (all_bits s) i)
unfolding get_bit
get_bit_lem [] i = refl
get_bit_lem (b ∷ s) zero = refl
get_bit_lem (b ∷ s) (suc zero) = refl
get_bit_lem (b ∷ s) (suc (suc zero)) = refl
get_bit_lem (b ∷ s) (suc (suc (suc zero))) = refl
get_bit_lem (b ∷ s) (suc (suc (suc (suc zero)))) = refl
get_bit_lem (b ∷ s) (suc (suc (suc (suc (suc zero))))) = refl
get_bit_lem (b ∷ s) (suc (suc (suc (suc (suc (suc zero)))))) = refl
get_bit_lem (b ∷ s) (suc (suc (suc (suc (suc (suc (suc zero))))))) = refl
get_bit_lem (b ∷ s) (suc (suc (suc (suc (suc (suc (suc (suc i)))))))) =
    get_bit-next b s i ∙ get_bit_lem s i
