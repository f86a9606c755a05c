-- ===== src/Timestamp/Signer.antt =====
-- The signer's certificate among those of the token: extractSignerCert, extractIntermediateCerts and
-- hasTimestampingEKU of drs-verify/pkg/anchor/rfc3161.go.
use drs.Prelude.{
  Bool, false, ◌&&◌, List, [], ◌∷◌, Option, none, some, eqb, if◌then◌else◌, any_of, Result, err, ok,
}
use drs.Prelude.Int.{ℤ, pos, eqb_ℤ}
use drs.Prelude.Text.{Text, ◌==◌, is_empty}
use drs.Timestamp.Token.{
  RawValue, SignerInfo, IssuerAndSerial, Certificate, Library, ext_key_usage_time_stamping,
}
use drs.Timestamp.Values.{read_values}

pub data CertificateError : Type 0 where
  no_certificates no_parseable_certificate : CertificateError

unfoldable pub has_timestamping_eku : Certificate → Bool
unfolding any_of
has_timestamping_eku cert = any_of (λ eku. eqb eku ext_key_usage_time_stamping) cert.ext_key_usage

abbrev same_identity : Certificate → ℤ → Text → Bool
same_identity cert serial issuer = eqb_ℤ cert.serial_number serial && (cert.raw_issuer == issuer)

module _ (lib : Library) where
  open lib use {asn1, x509}

  abbrev pub matches_identifier : Certificate → Option (IssuerAndSerial × Text) → Bool
  matches_identifier cert none = false
  matches_identifier cert (some (ias, rest)) =
      same_identity cert ias.serial_number ias.issuer.full_bytes

  -- The signer identifier of a version 1 SignerInfo names the certificate.
  unfoldable pub names_signer : SignerInfo → Certificate → Bool
  unfolding ◌==◌
  names_signer si cert =
      eqb_ℤ si.version (pos 1) && matches_identifier cert (asn1.issuer_and_serial si.sid.full_bytes)

  abbrev pub fallback : Option Certificate → Result CertificateError Certificate
  fallback none = err no_parseable_certificate
  fallback (some cert) = ok cert

  abbrev pub first_of : Option Certificate → Certificate → Option Certificate
  first_of none cert = some cert
  first_of (some first) cert = some first

  -- The loop of extractSignerCert over the values that it reads.
  unfoldable pub scan_certificates :
      SignerInfo → Option Certificate → List RawValue → Result CertificateError Certificate
  unfolding names_signer
  scan_certificates si first [] = fallback first
  scan_certificates si first (v ∷ vs) = elim (x509.parse_certificate v.full_bytes) [
    | none ↦ scan_certificates si first vs
    | some cert ↦
        let later = scan_certificates si (first_of first cert) vs in
        if names_signer si cert then ok cert else later
  ]

  unfoldable pub extract_signer_cert : RawValue → SignerInfo → Result CertificateError Certificate
  unfolding scan_certificates read_values
  extract_signer_cert raw_certs si =
      if is_empty raw_certs.bytes
      then err no_certificates
      else scan_certificates si none (read_values asn1.raw_value raw_certs.bytes).items

  unfoldable pub is_leaf : Certificate → Certificate → Bool
  unfolding ◌==◌
  is_leaf leaf cert = same_identity cert leaf.serial_number leaf.raw_issuer

  unfoldable pub add_intermediates : Certificate → List RawValue → List Certificate
  unfolding is_leaf
  add_intermediates leaf [] = []
  add_intermediates leaf (v ∷ vs) =
      let pool = add_intermediates leaf vs in
      elim (x509.parse_certificate v.full_bytes) [
        | none ↦ pool
        | some cert ↦ if is_leaf leaf cert then pool else cert ∷ pool
      ]

  unfoldable pub extract_intermediate_certs : RawValue → Certificate → List Certificate
  unfolding add_intermediates read_values
  extract_intermediate_certs raw_certs leaf =
      if is_empty raw_certs.bytes
      then []
      else add_intermediates leaf (read_values asn1.raw_value raw_certs.bytes).items
