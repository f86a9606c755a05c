-- ===== src/Resolver/Runes.antt =====
-- A character outside ASCII in base58Decode of drs-verify/pkg/resolver/did.go: `lookup` is indexed by
-- the rune, and has 256 entries.
use drs.Prelude.{
  ℕ, ◌+◌, ◌/◌, ◌%◌, ◌<◌, ◌≤◌, ◌≡◌, refl, Bool, true, false, List, [], ◌∷◌, ◌++◌, none, ltb,
  if◌then◌else◌, arith, Bool-cases, inl, inr,
}
use drs.Prelude.Text.{Text}
use drs.Resolver.Base58.{
  Decoded, invalid_character, panicked, digit, is_wide, push_digit, decode_digits, base58_decode,
}
use drs.Resolver.Digits.{Spells, nil, cons}

-- The UTF-8 encoding of a character that is not in ASCII.
abbrev pub utf8 : ℕ → Text
utf8 r =
    if ltb r 0x800
    then (0xc0 + r / 64) ∷ (0x80 + r % 64) ∷ []
    else if ltb r 0x10000
    then (0xe0 + r / 4096) ∷ (0x80 + r / 64 % 64) ∷ (0x80 + r % 64) ∷ []
    else (0xf0 + r / 262144) ∷ (0x80 + r / 4096 % 64) ∷ (0x80 + r / 64 % 64) ∷ (0x80 + r % 64) ∷ []

-- No byte of such a character is in the alphabet.
high-digit : (c : ℕ) → 128 ≤ c → digit c ≡ none
unfolding digit
high-digit c h = ground arith

-- The answer at a first byte outside the alphabet.
abbrev stopped : Bool → Decoded
stopped wide = if wide then panicked else invalid_character

decode_digits_stops :
    (r s : Text) (ds : List ℕ) (c : ℕ) (rest : Text)
    → Spells s ds
    → 128 ≤ c
    → decode_digits r (s ++ c ∷ rest) ≡ stopped (is_wide c rest)
unfolding decode_digits
decode_digits_stops r [] [] c rest nil high = rw (high-digit c high, decode_digits) refl
decode_digits_stops r [] (d ∷ ds) c rest spelled high = elim spelled [ ]
decode_digits_stops r (x ∷ s) [] c rest spelled high = elim spelled [ ]
decode_digits_stops r (x ∷ s) (d ∷ ds) c rest (cons found spelled) high =
    rw (found, decode_digits) (decode_digits_stops (push_digit r d) s ds c rest spelled high)

base58_decode_stops :
    (s : Text) (ds : List ℕ) (c : ℕ) (rest : Text) (wide : Bool)
    → Spells s ds
    → 128 ≤ c
    → is_wide c rest ≡ wide
    → base58_decode (s ++ c ∷ rest) ≡ stopped wide
unfolding base58_decode
base58_decode_stops s ds c rest true spelled high h =
    rw (decode_digits_stops [] s ds c rest spelled high, h) refl
base58_decode_stops s ds c rest false spelled high h =
    rw (decode_digits_stops [] s ds c rest spelled high, h) refl

-- After any string of the alphabet, a character from U+0100 on makes base58Decode panic, and one from
-- U+0080 to U+00FF is an error.
pub base58_decode_panics :
    (s : Text) (ds : List ℕ) (r : ℕ) (rest : Text)
    → Spells s ds
    → 0x80 ≤ r
    → r < 0x110000
    → (0x100 ≤ r → base58_decode (s ++ (utf8 r ++ rest)) ≡ panicked)
      × (r < 0x100 → base58_decode (s ++ (utf8 r ++ rest)) ≡ invalid_character)
unfolding is_wide
base58_decode_panics s ds r rest spelled low high = elim (Bool-cases (ltb r 0x800)) [
  | inl two ↦ rw two (
    λ big.
        base58_decode_stops s ds (0xc0 + r / 64) ((0x80 + r % 64) ∷ rest) true spelled (omega arith)
          (ground arith),
    λ small.
        base58_decode_stops s ds (0xc0 + r / 64) ((0x80 + r % 64) ∷ rest) false spelled
          (omega arith) (ground arith),
  )
  | inr more ↦ elim (Bool-cases (ltb r 0x10000)) [
    | inl three ↦
        rw (more, three)
          (
            λ big.
                base58_decode_stops s ds (0xe0 + r / 4096)
                  ((0x80 + r / 64 % 64) ∷ (0x80 + r % 64) ∷ rest) true spelled (omega arith)
                  (ground arith),
            λ small. absurd (ground arith),
          )
    | inr four ↦
        rw (more, four)
          (
            λ big.
                base58_decode_stops s ds (0xf0 + r / 262144)
                  ((0x80 + r / 4096 % 64) ∷ (0x80 + r / 64 % 64) ∷ (0x80 + r % 64) ∷ rest) true
                  spelled (omega arith) (ground arith),
            λ small. absurd (ground arith),
          )
  ]
]
