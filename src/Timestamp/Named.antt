-- ===== src/Timestamp/Named.antt =====
-- When the test of extractSignerCert in drs-verify/pkg/anchor/rfc3161.go finds a certificate named.
use drs.Prelude.{
  ◌≡◌, inl, inr, refl, Bool, true, false, ◌&&◌, List, [], ◌∷◌, Option, none, some, All, Bool-cases,
}
use drs.Prelude.Int.{pos, eqb_ℤ, eqb_ℤ_iff}
use drs.Prelude.Text.{Text, ◌==◌, ==_iff}
use drs.Timestamp.Token.{SignerInfo, IssuerAndSerial, Certificate, Library}
use drs.Timestamp.Signer.{matches_identifier, names_signer}

both : (a b : Bool) → (a && b) ≡ true → (a ≡ true) × (b ≡ true)
both true b h = (refl, h)
both false b h = cc

module _ (lib : Library) where
  open lib use {asn1}

  -- The SignerInfo is of version 1, and its identifier decodes to the certificate's issuer and
  -- serial number.
  pub record IsNamed (si : SignerInfo) (cert : Certificate) : Type 0 where
    pub version : si.version ≡ pos 1
    pub identifier : IssuerAndSerial
    pub rest : Text
    pub decoded : asn1.issuer_and_serial si.sid.full_bytes ≡ some (identifier, rest)
    pub serial : cert.serial_number ≡ identifier.serial_number
    pub issuer : cert.raw_issuer ≡ identifier.issuer.full_bytes

  matches_sound :
      (si : SignerInfo) (cert : Certificate) (found : Option (IssuerAndSerial × Text))
      → asn1.issuer_and_serial si.sid.full_bytes ≡ found
      → si.version ≡ pos 1
      → matches_identifier lib cert found ≡ true
      → IsNamed si cert
  matches_sound si cert none e one h = cc
  matches_sound si cert (some (ias, rest)) e one h =
      let (serial, issuer) =
        both (eqb_ℤ cert.serial_number ias.serial_number) (cert.raw_issuer == ias.issuer.full_bytes)
          h in
      record {
        version = one;
        identifier = ias;
        rest = rest;
        decoded = e;
        serial = (eqb_ℤ_iff cert.serial_number ias.serial_number).0 serial;
        issuer = (==_iff cert.raw_issuer ias.issuer.full_bytes).0 issuer;
      }

  pub names_signer_sound :
      (si : SignerInfo) (cert : Certificate) → names_signer lib si cert ≡ true → IsNamed si cert
  unfolding names_signer
  names_signer_sound si cert h =
      let (one, found) =
        both (eqb_ℤ si.version (pos 1))
          (matches_identifier lib cert (asn1.issuer_and_serial si.sid.full_bytes)) h in
      matches_sound si cert (asn1.issuer_and_serial si.sid.full_bytes) refl
        ((eqb_ℤ_iff si.version (pos 1)).0 one) found

  pub names_signer_complete :
      (si : SignerInfo) (cert : Certificate) → IsNamed si cert → names_signer lib si cert ≡ true
  unfolding names_signer
  names_signer_complete si cert n =
      rw
        (
          n.version,
          n.decoded,
          (eqb_ℤ_iff cert.serial_number n.identifier.serial_number).1 n.serial,
          (==_iff cert.raw_issuer n.identifier.issuer.full_bytes).1 n.issuer,
        )
        refl

  pub unnamed_all :
      (si : SignerInfo) (cs : List Certificate)
      → All (λ c. names_signer lib si c ≡ false) cs
      → All (λ c. ¬ IsNamed si c) cs
  unnamed_all si [] h = tt
  unnamed_all si (c ∷ cs) (other, others) =
      (λ n. let hit = names_signer_complete si c n in cc, unnamed_all si cs others)

  pub passed_all :
      (si : SignerInfo) (cs : List Certificate)
      → All (λ c. ¬ IsNamed si c) cs
      → All (λ c. names_signer lib si c ≡ false) cs
  passed_all si [] h = tt
  passed_all si (c ∷ cs) (other, others) = (
    elim (Bool-cases (names_signer lib si c)) [
      | inl hit ↦ absurd (other (names_signer_sound si c hit))
      | inr miss ↦ miss
    ],
    passed_all si cs others,
  )
