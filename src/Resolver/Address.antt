-- ===== src/Resolver/Address.antt =====
-- privateRanges and isPrivateIP of drs-verify/pkg/resolver/did.go.
use drs.Prelude.{
  ℕ, ◌+◌, ◌-◌, ◌*◌, ◌/◌, ◌^◌, ◌≤◌, ◌≡◌, ◌↔◌, ◌⊎◌, Bool, true, false, List, [], ◌∷◌, eqb, arith,
  any_of,
}

-- A net.IP as Contains reads it: To4 where that is not nil, so an IPv6 address here is none that is
-- mapped from IPv4. The numbers are the 4 or 16 bytes, the first the most significant.
pub data Ip : Type 0 where
  v4 v6 : ℕ → Ip

-- A net.IPNet: the network number, and how many of the low bits the mask clears.
pub data Block : Type 0 where
  block4 block6 : ℕ → ℕ → Block

abbrev byte4 : ℕ → ℕ → ℕ → ℕ → ℕ
byte4 a b c d = ((a * 256 + b) * 256 + c) * 256 + d

abbrev pub private_ranges : List Block
private_ranges =
    block4 (byte4 127 0 0 0) 24
    ∷ block6 1 0
    ∷ block4 (byte4 169 254 0 0) 16
    ∷ block6 (0xfe80 * 2 ^ 112) 118
    ∷ block4 (byte4 10 0 0 0) 24
    ∷ block4 (byte4 172 16 0 0) 20
    ∷ block4 (byte4 192 168 0 0) 16
    ∷ block6 (0xfc00 * 2 ^ 112) 121
    ∷ block4 (byte4 100 64 0 0) 22
    ∷ block4 0 24
    ∷ []

-- (*IPNet).Contains: false where the lengths differ
abbrev pub block_contains : Block → Ip → Bool
block_contains (block4 net bits) (v4 n) = eqb (n / 2 ^ bits) (net / 2 ^ bits)
block_contains (block4 net bits) (v6 n) = false
block_contains (block6 net bits) (v4 n) = false
block_contains (block6 net bits) (v6 n) = eqb (n / 2 ^ bits) (net / 2 ^ bits)

unfoldable pub is_private_ip : Ip → Bool
is_private_ip ip = any_of (λ b. block_contains b ip) private_ranges

-- The number lies in the interval.
abbrev pub Within : ℕ → ℕ → ℕ → Type 0
Within lo hi n = (lo ≤ n) × (n ≤ hi)

-- An IPv6 address is refused exactly if it is ::1, in fe80::/10 or in fc00::/7; the unspecified
-- address :: is none of these.
pub is_private_ip-v6_iff :
    (n : ℕ)
    → (is_private_ip (v6 n) ≡ true) ↔ (
        (n ≡ 1)
        ⊎ (Within (0xfe80 * 2 ^ 112) (0xfec0 * 2 ^ 112 - 1) n
            ⊎ Within (0xfc00 * 2 ^ 112) (0xfe00 * 2 ^ 112 - 1) n))
unfolding is_private_ip any_of
is_private_ip-v6_iff n = (λ h. ground arith, λ h. ground arith)
