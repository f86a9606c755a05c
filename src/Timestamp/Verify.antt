-- ===== src/Timestamp/Verify.antt =====
-- VerifyTimestamp and VerifyTimestampTrusted of drs-verify/pkg/anchor/rfc3161.go.
use drs.Prelude.{
  not, List, [], ◌∷◌, Option, none, some, if◌then◌else◌, Result, err, ok, fail_if, ◌>>=◌, ◌>>◌,
}
use drs.Prelude.Int.{ℤ, eqb_ℤ}
use drs.Prelude.Text.{Text, ◌==◌, is_empty}
use drs.Timestamp.Token.{
  RawValue, SignerInfo, SignedData, TstInfo, Certificate, VerifyOptions, Library,
  pki_status_granted, oid_signed_data, oid_tst_info, sha256_oid, ext_key_usage_time_stamping,
}
use drs.Timestamp.Signer.{
  CertificateError, has_timestamping_eku, extract_signer_cert, extract_intermediate_certs,
}
use drs.Timestamp.Signature.{SignatureError, verify_signer_info_signature}

pub data TimestampError : Type 0 where
  no_trust_anchor : TimestampError
  parse_time_stamp_resp trailing_bytes status_not_granted no_time_stamp_token : TimestampError
  parse_content_info not_signed_data parse_signed_data not_tst_info : TimestampError
  parse_e_content parse_tst_info unexpected_algorithm hash_mismatch no_signer_infos : TimestampError
  signer_certificate : CertificateError → TimestampError
  signature_invalid : SignatureError → TimestampError
  chain_validation_failed no_timestamping_eku : TimestampError

-- `if _, err := asn1.Unmarshal(b, &v); err != nil`
abbrev pub decoded : {A : Type 0} → TimestampError → Option (A × Text) → Result TimestampError A
decoded e none = err e
decoded e (some (v, rest)) = ok v

-- The same, where bytes that are left over are an error too.
abbrev pub decoded_all :
    {A : Type 0} → TimestampError → TimestampError → Option (A × Text) → Result TimestampError A
decoded_all bad more none = err bad
decoded_all bad more (some (v, rest)) = if is_empty rest then ok v else err more

abbrev pub wrapped : {E A : Type 0} → (E → TimestampError) → Result E A → Result TimestampError A
wrapped f (err e) = err (f e)
wrapped f (ok a) = ok a

abbrev pub first_signer : List SignerInfo → Result TimestampError SignerInfo
first_signer [] = err no_signer_infos
first_signer (si ∷ rest) = ok si

-- What a token holds once its signature is verified.
pub record Signed : Type 0 where
  pub tst : TstInfo
  pub certificates : RawValue
  pub cert : Certificate

module _ (lib : Library) where
  open lib use {asn1, x509}

  -- The statements up to the TSTInfo: the SignedData, and the contents of its octet string.
  unfoldable pub open_token : Text → Result TimestampError (SignedData × Text)
  unfolding ◌==◌
  open_token token = do
    resp ← decoded_all parse_time_stamp_resp trailing_bytes (asn1.time_stamp_resp token)
    fail_if (not (eqb_ℤ resp.status pki_status_granted)) status_not_granted
    fail_if (is_empty resp.time_stamp_token.full_bytes) no_time_stamp_token
    ci ← decoded parse_content_info (asn1.content_info resp.time_stamp_token.full_bytes)
    fail_if (not (ci.content_type == oid_signed_data)) not_signed_data
    sd ← decoded parse_signed_data (asn1.signed_data ci.content.bytes)
    fail_if (not (sd.encap_content_info.e_content_type == oid_tst_info)) not_tst_info
    tst_bytes ← decoded parse_e_content (asn1.octet_string sd.encap_content_info.e_content.bytes)
    ok (sd, tst_bytes)

  -- The statements from the TSTInfo to the signature.
  unfoldable pub verify_signed : Text → SignedData → Text → Result TimestampError Signed
  unfolding ◌==◌ extract_signer_cert verify_signer_info_signature
  verify_signed expected_hash sd tst_bytes = do
    tst ← decoded parse_tst_info (asn1.tst_info tst_bytes)
    fail_if (not (tst.message_imprint.hash_algorithm == sha256_oid)) unexpected_algorithm
    fail_if (not (tst.message_imprint.hashed_message == expected_hash)) hash_mismatch
    si ← first_signer sd.signer_infos
    cert ← wrapped signer_certificate (extract_signer_cert lib sd.certificates si)
    wrapped signature_invalid (verify_signer_info_signature lib si tst_bytes cert)
    ok (record { tst = tst; certificates = sd.certificates; cert = cert })

  -- The statements that VerifyTimestamp and VerifyTimestampTrusted share.
  unfoldable pub verify_token : Text → Text → Result TimestampError Signed
  unfolding open_token verify_signed
  verify_token token expected_hash =
      open_token token >>= λ (sd, tst_bytes). verify_signed expected_hash sd tst_bytes

  unfoldable pub verify_timestamp : Text → Text → Result TimestampError ℤ
  unfolding verify_token
  verify_timestamp token expected_hash = do
    signed ← verify_token token expected_hash
    ok signed.tst.gen_time

  abbrev pub verify_options : List Certificate → Signed → VerifyOptions
  verify_options roots signed = record {
    roots = roots;
    intermediates = extract_intermediate_certs lib signed.certificates signed.cert;
    current_time = signed.tst.gen_time;
    key_usages = ext_key_usage_time_stamping ∷ [];
  }

  unfoldable pub verify_trust : List Certificate → Signed → Result TimestampError ℤ
  unfolding extract_intermediate_certs has_timestamping_eku
  verify_trust roots signed = do
    fail_if (not (x509.verify signed.cert (verify_options roots signed))) chain_validation_failed
    fail_if (not (has_timestamping_eku signed.cert)) no_timestamping_eku
    ok signed.tst.gen_time

  -- The pool of roots is nil where none is configured.
  unfoldable pub verify_timestamp_trusted :
      Text → Text → Option (List Certificate) → Result TimestampError ℤ
  unfolding verify_token verify_trust
  verify_timestamp_trusted token expected_hash none = err no_trust_anchor
  verify_timestamp_trusted token expected_hash (some roots) = do
    signed ← verify_token token expected_hash
    verify_trust roots signed
