-- ===== src/Chain/Signed.antt =====
-- What Block C of drs-verify/pkg/verify/chain.go establishes: signatures under resolved keys.
use drs.Prelude.{
  ℕ, suc, ◌≡◌, ◌↔◌, inl, inr, refl, ap, ◌∙◌, Bool, true, false, not, List, [], ◌∷◌, ◌++◌, Option,
  none, some, All, ok, fail_if, Bool-cases, Option-cases, Result-cases,
}
use drs.Prelude.Text.{Text, codes, ◌==◌, ==_iff}
use drs.Chain.Jwt.{Env, Parts, jwt_parts, decode_header, base64_decode}
use drs.Chain.Structure.{Link, Decoded}
use drs.Chain.Signature.{
  SignatureError, Keys, key_of, strict_verify_ed25519, check_signature, verify_parts,
  verify_jwt_signature, check_receipt_signatures, check_invocation_signature,
}

-- The JWT claims EdDSA, and its signature is canonical and verifies under the issuer's key.
pub record Signed (env : Env) (keys : Keys) (jwt : Text) (did : Text) : Type 0 where
  pub header : decode_header env jwt ≡ ok (codes "EdDSA")
  pub parts : Parts
  pub three : jwt_parts jwt ≡ some parts
  pub key : Text
  pub known : key_of did keys ≡ some key
  pub sig : Text
  pub decoded : base64_decode parts.signature ≡ some sig
  pub canonical : strict_verify_ed25519 env sig ≡ ok tt
  pub verified : env.ed25519_verify key (parts.header ++ b'.' ∷ parts.payload) sig ≡ true

checked_last : (b : Bool) (e : SignatureError) → fail_if (not b) e ≡ ok tt → b ≡ true
checked_last true e h = refl
checked_last false e h = cc

module _ (env : Env) where
  check_signature_sound :
      (p : Parts) (key sig : Text)
      → check_signature env p key sig ≡ ok tt
      → (strict_verify_ed25519 env sig ≡ ok tt)
        × (env.ed25519_verify key (p.header ++ b'.' ∷ p.payload) sig ≡ true)
  unfolding check_signature
  check_signature_sound p key sig h = elim (Result-cases (strict_verify_ed25519 env sig)) [
    | inl (u, e) ↦ (e, checked_last _ _ (rw (e, check_signature) at h))
    | inr (e, f) ↦ cc (rw (f, check_signature) at h)
  ]

  verify_parts_sound :
      (o : Option Parts) (key : Text)
      → verify_parts env o key ≡ ok tt
      → (p : Parts) × (sig : Text) × (o ≡ some p)
        × (base64_decode p.signature ≡ some sig)
        × (check_signature env p key sig ≡ ok tt)
  unfolding verify_parts
  verify_parts_sound none key h = cc
  verify_parts_sound (some p) key h = elim (Option-cases (base64_decode p.signature)) [
    | inl e ↦ cc (rw (e, verify_parts) at h)
    | inr (sig, e) ↦ (p, sig, refl, e, rw (e, verify_parts) at h)
  ]

  verify_sound :
      (keys : Keys) (jwt did : Text)
      → verify_jwt_signature env jwt did keys ≡ ok tt
      → Signed env keys jwt did
  unfolding verify_jwt_signature
  verify_sound keys jwt did h = elim (Result-cases (decode_header env jwt)) [
    | inr (m, bad) ↦ cc (rw (bad, verify_jwt_signature) at h)
    | inl (alg, e) ↦ elim (Bool-cases (alg == codes "EdDSA")) [
      | inr other ↦ cc (rw (e, other, verify_jwt_signature) at h)
      | inl same ↦ elim (Option-cases (key_of did keys)) [
        | inl missing ↦ cc (rw (e, same, missing, verify_jwt_signature) at h)
        | inr (key, known) ↦
            let (p, sig, three, decoded, checked) =
              verify_parts_sound (jwt_parts jwt) key
                (rw (e, same, known, verify_jwt_signature) at h) in
            let (canonical, verified) = check_signature_sound p key sig checked in
            record {
              header = e ∙ ap ok ((==_iff alg (codes "EdDSA")).0 same);
              parts = p;
              three = three;
              key = key;
              known = known;
              sig = sig;
              decoded = decoded;
              canonical = canonical;
              verified = verified;
            }
      ]
    ]
  ]

  verify_complete :
      (keys : Keys) (jwt did : Text)
      → Signed env keys jwt did
      → verify_jwt_signature env jwt did keys ≡ ok tt
  unfolding verify_jwt_signature verify_parts check_signature
  verify_complete keys jwt did s = rw (
    s.header,
    (==_iff (codes "EdDSA") (codes "EdDSA")).1 refl,
    s.known,
    s.three,
    s.decoded,
    s.canonical,
    s.verified,
    verify_jwt_signature,
    verify_parts,
    check_signature,
  )

-- verifyJWTSignatureWithKey accepts exactly a JWT of three parts whose header claims EdDSA, whose
-- issuer has a resolved key, and whose signature decodes, is canonical and verifies under that
-- key over the first two parts.
pub verify_jwt_signature-eq-ok_iff :
    (env : Env) (keys : Keys) (jwt did : Text)
    → (verify_jwt_signature env jwt did keys ≡ ok tt) ↔ Signed env keys jwt did
verify_jwt_signature-eq-ok_iff env keys jwt did =
    (verify_sound env keys jwt did, verify_complete env keys jwt did)

abbrev pub SignedLink : Env → Keys → Link → Type 0
SignedLink env keys l = Signed env keys l.jwt l.iss

module _ (env : Env) (keys : Keys) where
  pub check_receipt_signatures_sound :
      (i : ℕ) (ls : List Link)
      → check_receipt_signatures env i ls keys ≡ ok tt
      → All (SignedLink env keys) ls
  unfolding check_receipt_signatures
  check_receipt_signatures_sound i [] h = tt
  check_receipt_signatures_sound i (l ∷ ls) h =
      elim (Result-cases (verify_jwt_signature env l.jwt l.iss keys)) [
        | inl (u, e) ↦ (
          verify_sound env keys l.jwt l.iss e,
          check_receipt_signatures_sound (suc i) ls (rw (e, check_receipt_signatures) at h),
        )
        | inr (m, e) ↦ cc (rw (e, check_receipt_signatures) at h)
      ]

  pub check_receipt_signatures_complete :
      (i : ℕ) (ls : List Link)
      → All (SignedLink env keys) ls
      → check_receipt_signatures env i ls keys ≡ ok tt
  unfolding check_receipt_signatures
  check_receipt_signatures_complete i [] h = refl
  check_receipt_signatures_complete i (l ∷ ls) h =
      rw (verify_complete env keys l.jwt l.iss h.0, check_receipt_signatures)
        (check_receipt_signatures_complete (suc i) ls h.1)

  pub check_invocation_signature_iff :
      (d : Decoded)
      → (check_invocation_signature env d keys ≡ ok tt)
        ↔ Signed env keys d.invocation_jwt d.invocation.iss
  unfolding check_invocation_signature
  check_invocation_signature_iff d = (
    λ h. elim (Result-cases (verify_jwt_signature env d.invocation_jwt d.invocation.iss keys)) [
      | inl (u, e) ↦ verify_sound env keys _ _ e
      | inr (m, e) ↦ cc (rw (e, check_invocation_signature) at h)
    ],
    λ s. rw (verify_complete env keys _ _ s, check_invocation_signature),
  )
