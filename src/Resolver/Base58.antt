-- ===== src/Resolver/Base58.antt =====
-- base58Decode of drs-verify/pkg/resolver/did.go.
use drs.Prelude.{
  ℕ, zero, suc, ◌+◌, ◌-◌, ◌*◌, ◌/◌, ◌%◌, Bool, true, ◌&&◌, ◌||◌, ◌≡◌, refl, ◌++◌, [], ◌∷◌, Option,
  none, some, eqb, ltb, leb, if◌then◌else◌,
}
use drs.Prelude.Text.{Text, codes}

-- What a call gives: the bytes, an error, or a panic, since `lookup[c]` has 256 entries and `c` is
-- a rune.
pub data Decoded : Type 0 where
  bytes : Text → Decoded
  invalid_character : Decoded
  panicked : Decoded

abbrev between : ℕ → ℕ → ℕ → Bool
between lo hi c = leb lo c && leb c hi

-- lookup[c], with `none` for -1: the alphabet has no 0, O, I and l
unfoldable pub digit : ℕ → Option ℕ
digit c =
    if between b'1' b'9' c
    then some (c - b'1')
    else if between b'A' b'H' c
    then some (c - b'A' + 9)
    else if between b'J' b'N' c
    then some (c - b'J' + 17)
    else if between b'P' b'Z' c
    then some (c - b'P' + 22)
    else if between b'a' b'k' c
    then some (c - b'a' + 33)
    else if between b'm' b'z' c
    then some (c - b'm' + 44)
    else none

-- A rune that does not start with an ASCII byte is below 256 exactly if it is two bytes, the first
-- of them 0xc2 or 0xc3; an ill-formed sequence reads as U+FFFD.
unfoldable pub is_wide : ℕ → Text → Bool
is_wide a [] = leb 128 a
is_wide a (b ∷ s) = leb 128 a && (if between 0xc2 0xc3 a then ltb b 128 || ltb 0xbf b else true)

-- the inner loop, from the last byte to the first: the bytes, and what is carried out
unfoldable pub mul_add : Text → ℕ → Text × ℕ
mul_add [] carry = ([], carry)
mul_add (b ∷ bs) carry =
    let (low, c) = mul_add bs carry in (((c + 58 * b) % 256) ∷ low, (c + 58 * b) / 256)

-- `for carry > 0`; a carry is fuel enough for itself
unfoldable pub prepend : ℕ → ℕ → Text → Text
prepend zero carry bs = bs
prepend (suc fuel) carry bs =
    let rest = prepend fuel (carry / 256) ((carry % 256) ∷ bs) in if eqb carry 0 then bs else rest

-- one round of the loop over the characters
unfoldable pub push_digit : Text → ℕ → Text
push_digit result d = let (low, c) = mul_add result d in prepend c c low

unfoldable pub decode_digits : Text → Text → Decoded
decode_digits result [] = bytes result
decode_digits result (c ∷ s) = elim (digit c) [
  | some d ↦ decode_digits (push_digit result d) s
  | none ↦ if is_wide c s then panicked else invalid_character
]

-- the leading zeros
unfoldable pub add_zeros : Text → Text → Text
add_zeros [] result = result
add_zeros (c ∷ s) result =
    let more = add_zeros s (0 ∷ result) in if eqb c b'1' then more else result

abbrev pub with_zeros : Text → Decoded → Decoded
with_zeros s (bytes result) = bytes (add_zeros s result)
with_zeros s invalid_character = invalid_character
with_zeros s panicked = panicked

unfoldable pub base58_decode : Text → Decoded
base58_decode s = with_zeros s (decode_digits [] s)

hello_runs : base58_decode (codes "2NEpo7TZRRrLZSi2U") ≡ bytes (codes "Hello World!")
unfolding base58_decode decode_digits push_digit mul_add prepend digit add_zeros
hello_runs = refl

-- the euro sign
euro_runs : base58_decode (codes "6Mk" ++ 0xe2 ∷ 0x82 ∷ 0xac ∷ []) ≡ panicked
unfolding base58_decode decode_digits digit is_wide
euro_runs = refl
