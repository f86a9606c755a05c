-- ===== src/Resolver/DocumentKeys.antt =====
-- The key that extractEd25519FromDIDDocument of drs-verify/pkg/resolver/did.go takes from a document.
use drs.Prelude.{
  ℕ, false, List, [], ◌∷◌, Option, none, some, eqb, eqb_iff, length, arith, ◌≡◌, ◌⊎◌, ◌↔◌, inl, inr,
  refl, ap, sym, ◌∙◌, Bool-cases, Option-cases,
}
use mathlib.Core.Option.{some-injective}
use drs.Prelude.Text.{Text, codes, ◌==◌, ==_iff, is_empty}
use drs.Chain.Jwt.{base64_decode}
use drs.Resolver.Base58.{Decoded, bytes, invalid_character, panicked, base58_decode}
use drs.Resolver.DidKey.{
  key, decoded_len, ed25519_bytes, of_decoded, of_decoded-key, key-injective, IsEd25519,
}
use drs.Resolver.Document.{
  Jwk, Method, Round, next, found, panic, of_multibase, of_x, jwk_round, multibase_round,
  method_round, extract,
}

-- A verification method names the key: by a base58btc string, or, without one, as a JWK.
abbrev pub NamesJwk : Option Jwk → Text → Type 0
NamesJwk none k = ⊥
NamesJwk (some jwk) k =
    (jwk.kty ≡ codes "OKP")
    × (jwk.crv ≡ codes "Ed25519")
    × (base64_decode jwk.x ≡ some k)
    × (length k ≡ 32)

abbrev pub IsBase58btc : Text → Type 0
IsBase58btc [] = ⊥
IsBase58btc (c ∷ s) = c ≡ b'z'

abbrev pub Names : Method → Text → Type 0
Names vm k =
    ((encoded : Text) × (vm.public_key_multibase ≡ b'z' ∷ encoded) × IsEd25519 encoded k)
    ⊎ (¬ IsBase58btc vm.public_key_multibase × NamesJwk vm.public_key_jwk k)

of_found : Round → Option Text
of_found (found k) = some k
of_found _ = none

found-injective : {a b : Text} → found a ≡ found b → a ≡ b
unfolding of_found
found-injective h = some-injective _ _ (ap of_found h)

of_multibase-key : (d : Decoded) (k : Text) → of_multibase d ≡ found k → of_decoded d ≡ key k
of_multibase-key invalid_character k h = cc
of_multibase-key panicked k h = cc
of_multibase-key (bytes b) k h = elim (Bool-cases (eqb (length b) decoded_len)) [
  | inr long ↦ cc (rw (long, of_multibase) at h)
  | inl right ↦ elim (Option-cases (ed25519_bytes b)) [
    | inl other ↦ cc (rw (right, other, of_multibase) at h)
    | inr (k', e) ↦
        let same : k' ≡ k = found-injective (rw (right, e, of_multibase) at h) in
        rw (right, e, same) refl
  ]
]

of_multibase-found :
    (d : Decoded) (k : Text)
    → (of_multibase d ≡ found k) ↔ ((d ≡ bytes (0xed ∷ 0x01 ∷ k)) × (length k ≡ 32))
of_multibase-found d k =
    (λ h. of_decoded-key d k (of_multibase-key d k h), λ (e, n). rw (e, of_multibase, n) refl)

of_x-found : (o : Option Text) (k : Text) → (of_x o ≡ found k) ↔ ((o ≡ some k) × (length k ≡ 32))
of_x-found none k = (λ h. cc, λ (e, n). cc)
of_x-found (some raw) k = (
  λ h. elim (Bool-cases (eqb (length raw) 32)) [
    | inr long ↦ cc (rw (long, of_x) at h)
    | inl right ↦
        let same : raw ≡ k = found-injective (rw (right, of_x) at h) in
        (ap some same, rw (sym same) ((eqb_iff (length raw) 32).0 right))
  ],
  λ (e, n). let same : raw ≡ k = some-injective _ _ e in rw (same, n) refl,
)

not_empty : (x k : Text) → base64_decode x ≡ some k → length k ≡ 32 → is_empty x ≡ false
unfolding base64_decode
not_empty [] k e n =
    let same : [] ≡ k = some-injective _ _ e in
    let none_read : 0 ≡ length k = ap length same in absurd (omega arith)
not_empty (c ∷ x) k e n = refl

jwk_round-found : (o : Option Jwk) (k : Text) → (jwk_round o ≡ found k) ↔ NamesJwk o k
unfolding jwk_round
jwk_round-found none k = (λ h. cc, λ h. absurd h)
jwk_round-found (some jwk) k = (
  λ h. elim (Bool-cases (jwk.kty == codes "OKP")) [
    | inr other ↦ cc (rw (other, jwk_round) at h)
    | inl kty ↦ elim (Bool-cases (jwk.crv == codes "Ed25519")) [
      | inr other ↦ cc (rw (kty, other, jwk_round) at h)
      | inl crv ↦ elim (Bool-cases (is_empty jwk.x)) [
        | inl empty ↦ cc (rw (kty, crv, empty, jwk_round) at h)
        | inr given ↦
            let (read, n) =
              (of_x-found (base64_decode jwk.x) k).0 (rw (kty, crv, given, jwk_round) at h) in
            (
              (==_iff jwk.kty (codes "OKP")).0 kty,
              (==_iff jwk.crv (codes "Ed25519")).0 crv,
              read,
              n,
            )
      ]
    ]
  ],
  λ (kty, crv, read, n).
      rw
        (
          (==_iff jwk.kty (codes "OKP")).1 kty,
          (==_iff jwk.crv (codes "Ed25519")).1 crv,
          not_empty jwk.x k read n,
        )
        ((of_x-found (base64_decode jwk.x) k).1 (read, n)),
)

-- The rest of a text whose first byte is known.
tail_same : (a b : ℕ) (s t : Text) → a ∷ s ≡ b ∷ t → s ≡ t
tail_same a b s t h = cc

head_same : (a b : ℕ) (s t : Text) → a ∷ s ≡ b ∷ t → a ≡ b
head_same a b s t h = cc

names_iff :
    (text : Text) (jwk : Option Jwk) (k : Text)
    → (multibase_round text jwk ≡ found k) ↔ (
        ((encoded : Text) × (text ≡ b'z' ∷ encoded) × IsEd25519 encoded k)
        ⊎ (¬ IsBase58btc text × NamesJwk jwk k))
names_iff [] jwk k = (
  λ h. inr (λ x. x, (jwk_round-found jwk k).0 h),
  λ h. elim h [
    | inl (encoded, e, named) ↦ cc
    | inr (other, named) ↦ (jwk_round-found jwk k).1 named
  ],
)
names_iff (c ∷ s) jwk k = elim (Bool-cases (eqb c b'z')) [
  | inl is_z ↦
      let z : c ≡ b'z' = (eqb_iff c b'z').0 is_z in
      rw is_z (
        λ h. inl (s, ap (λ (a : ℕ). a ∷ s) z, (of_multibase-found (base58_decode s) k).0 h),
        λ h. elim h [
          | inl (encoded, e, named) ↦
              rw (tail_same c b'z' s encoded e)
                ((of_multibase-found (base58_decode encoded) k).1 named)
          | inr (other, named) ↦ absurd (other z)
        ],
      )
  | inr no_z ↦ rw no_z (
    λ h. inr (λ z. ground (arith, (eqb_iff c b'z').1 z), (jwk_round-found jwk k).0 h),
    λ h. elim h [
      | inl (encoded, e, named) ↦
          absurd (ground (arith, (eqb_iff c b'z').1 (head_same c b'z' s encoded e)))
      | inr (other, named) ↦ (jwk_round-found jwk k).1 named
    ],
  )
]

method_round-found : (vm : Method) (k : Text) → (method_round vm ≡ found k) ↔ Names vm k
unfolding method_round
method_round-found vm k = names_iff vm.public_key_multibase vm.public_key_jwk k

-- The document's key: the loop passes over every method before the one that names it.
pub data FirstKey : List Method → Text → Type 0 where
  here : {vm : Method} {vms : List Method} {k : Text} → Names vm k → FirstKey (vm ∷ vms) k
  there :
      {vm : Method} {vms : List Method} {k : Text}
      → method_round vm ≡ next
      → FirstKey vms k
      → FirstKey (vm ∷ vms) k

Round-cases : (r : Round) → (r ≡ next) ⊎ (((k : Text) × (r ≡ found k)) ⊎ (r ≡ panic))
Round-cases next = inl refl
Round-cases (found k) = inr (inl (k, refl))
Round-cases panic = inr (inr refl)

extract-FirstKey : (vms : List Method) (k : Text) → extract vms ≡ key k → FirstKey vms k
unfolding extract
extract-FirstKey [] k h = cc
extract-FirstKey (vm ∷ vms) k h = elim (Round-cases (method_round vm)) [
  | inl skipped ↦ there skipped (extract-FirstKey vms k (rw (skipped, extract) at h))
  | inr (inl (k', e)) ↦
      let same : k' ≡ k = key-injective (rw (e, extract) at h) in
      here ((method_round-found vm k).0 (e ∙ ap found same))
  | inr (inr broken) ↦ cc (rw (broken, extract) at h)
]

FirstKey-extract : (vms : List Method) (k : Text) → FirstKey vms k → extract vms ≡ key k
unfolding extract
FirstKey-extract [] k h = elim h [ ]
FirstKey-extract (vm ∷ vms) k (here named) = rw ((method_round-found vm k).1 named, extract) refl
FirstKey-extract (vm ∷ vms) k (there skipped later) =
    rw (skipped, extract) (FirstKey-extract vms k later)

-- A document gives a key exactly if it is named by a method before which the loop skips every
-- method: as the 34 bytes of a base58btc string with the Ed25519 prefix, or, by a method without
-- such a string, as an OKP JWK of the curve Ed25519 whose `x` is 32 bytes.
pub extract_iff : (vms : List Method) (k : Text) → (extract vms ≡ key k) ↔ FirstKey vms k
extract_iff vms k = (extract-FirstKey vms k, FirstKey-extract vms k)
