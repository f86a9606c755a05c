-- ===== src/Resolver/DidKey.antt =====
-- resolveDidKey of drs-verify/pkg/resolver/did.go, and what it shares with did:web documents.
use drs.Prelude.{
  ℕ, not, List, [], ◌∷◌, Option, none, some, eqb, eqb_iff, if◌then◌else◌, length, ◌≡◌, ◌↔◌, refl,
  ap, ◌++◌, arith, Bool-cases, Option-cases, inl, inr,
}
use drs.Prelude.Text.{Text, codes, strip_prefix, strip_prefix_sound, strip_prefix-append, split}
use drs.Resolver.Base58.{Decoded, bytes, invalid_character, panicked, base58_decode}

pub data Error : Type 0 where
  unsupported_method : Text → Error
  base58_failed unsupported_key_type : Error
  wrong_length : ℕ → Error
  bad_url circuit_open url_unparsed host_unresolved private_host : Error
  request_unbuilt fetch_failed bad_status document_unread document_too_large : Error
  document_unparsed no_key : Error

-- What a resolution gives.
pub data Resolved : Type 0 where
  key : Text → Resolved
  failed : Error → Resolved
  crashed : Resolved

abbrev pub did_key_prefix : Text
did_key_prefix = codes "did:key:z"

abbrev pub decoded_len : ℕ
decoded_len = 34

-- The 32 bytes behind the two of the multicodec prefix of Ed25519.
abbrev pub ed25519_bytes : Text → Option Text
ed25519_bytes [] = none
ed25519_bytes (hi ∷ []) = none
ed25519_bytes (hi ∷ lo ∷ k) = if eqb hi 0xed then (if eqb lo 0x01 then some k else none) else none

abbrev second_part : List Text → Text
second_part [] = codes "unknown"
second_part (a ∷ []) = codes "unknown"
second_part (a ∷ b ∷ rest) = b

-- the text between the first colon and the second
unfoldable pub method_of : Text → Text
method_of did = second_part (split b':' did)

abbrev pub of_prefixed : Option Text → Resolved
of_prefixed none = failed unsupported_key_type
of_prefixed (some k) = key k

abbrev pub of_decoded : Decoded → Resolved
of_decoded invalid_character = failed base58_failed
of_decoded panicked = crashed
of_decoded (bytes decoded) =
    if not (eqb (length decoded) decoded_len)
    then failed (wrong_length (length decoded))
    else of_prefixed (ed25519_bytes decoded)

unfoldable pub resolve_did_key : Text → Resolved
resolve_did_key did = elim (strip_prefix did_key_prefix did) [
  | none ↦ failed (unsupported_method (method_of did))
  | some encoded ↦ of_decoded (base58_decode encoded)
]

-- The key that a base58btc string names: 34 bytes, with the prefix of Ed25519 before it.
abbrev pub IsEd25519 : Text → Text → Type 0
IsEd25519 encoded k = (base58_decode encoded ≡ bytes (0xed ∷ 0x01 ∷ k)) × (length k ≡ 32)

abbrev key_or : Text → Resolved → Text
key_or d (key k) = k
key_or d _ = d

pub key-injective : {a b : Text} → key a ≡ key b → a ≡ b
key-injective {a} h = ap (key_or a) h

pub of_decoded-key :
    (d : Decoded) (k : Text)
    → of_decoded d ≡ key k
    → (d ≡ bytes (0xed ∷ 0x01 ∷ k)) × (length k ≡ 32)
of_decoded-key invalid_character k h = cc
of_decoded-key panicked k h = cc
of_decoded-key (bytes []) k h = cc
of_decoded-key (bytes (a ∷ [])) k h = cc
of_decoded-key (bytes (a ∷ b ∷ t)) k h = elim (Bool-cases (eqb (length (a ∷ b ∷ t)) decoded_len)) [
  | inr long ↦ cc (rw (long, of_decoded) at h)
  | inl right ↦ elim (Bool-cases (eqb a 0xed)) [
    | inr other ↦ cc (rw (right, other, of_decoded) at h)
    | inl hi ↦ elim (Bool-cases (eqb b 0x01)) [
      | inr other ↦ cc (rw (right, hi, other, of_decoded) at h)
      | inl lo ↦
          let same : t ≡ k = key-injective (rw (right, hi, lo, of_decoded) at h) in
          let a_is : a ≡ 0xed = (eqb_iff a 0xed).0 hi in
          let b_is : b ≡ 0x01 = (eqb_iff b 0x01).0 lo in
          rw (a_is, b_is, same)
            (refl, rw (← same) (omega (arith, (eqb_iff (length (a ∷ b ∷ t)) decoded_len).0 right)))
    ]
  ]
]

key-of_decoded :
    (d : Decoded) (k : Text) → d ≡ bytes (0xed ∷ 0x01 ∷ k) → length k ≡ 32 → of_decoded d ≡ key k
key-of_decoded d k e n = rw (e, of_decoded, n) refl

-- resolveDidKey gives a key exactly for "did:key:z" before a base58btc string whose bytes are the
-- Ed25519 prefix and that key of 32 bytes.
pub resolve_did_key_iff :
    (did k : Text)
    → (resolve_did_key did ≡ key k)
      ↔ ((encoded : Text) × (did ≡ did_key_prefix ++ encoded) × IsEd25519 encoded k)
unfolding resolve_did_key
resolve_did_key_iff did k = (
  λ h. elim (Option-cases (strip_prefix did_key_prefix did)) [
    | inl other ↦ cc (rw (other, resolve_did_key) at h)
    | inr (encoded, found) ↦ (
      encoded,
      strip_prefix_sound did_key_prefix did encoded found,
      of_decoded-key (base58_decode encoded) k (rw (found, resolve_did_key) at h),
    )
  ],
  λ (encoded, e, (d, n)).
      rw (e, resolve_did_key, strip_prefix-append did_key_prefix encoded, d, n) refl,
)
