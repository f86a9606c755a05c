-- ===== src/Timestamp/Signature.antt =====
-- The authority's signature: mapSignatureAlgorithm and verifySignerInfoSignature of
-- drs-verify/pkg/anchor/rfc3161.go.
use drs.Prelude.{ℕ, not, [], ◌∷◌, if◌then◌else◌, err, ok, Checked, fail_if}
use drs.Prelude.Text.{Text, ◌==◌}
use drs.Timestamp.Token.{
  Oid, SignerInfo, Certificate, SignatureAlgorithm, unknown_signature_algorithm, sha256_with_rsa,
  sha384_with_rsa, sha512_with_rsa, ecdsa_with_sha256, ecdsa_with_sha384, ecdsa_with_sha512,
  Library, oid_sha256_with_rsa, oid_sha384_with_rsa, oid_sha512_with_rsa, oid_ecdsa_with_sha256,
  oid_ecdsa_with_sha384, oid_ecdsa_with_sha512,
}
use drs.Timestamp.Attributes.{AttributeError, verify_signed_attrs_binding}

pub data SignatureError : Type 0 where
  unsupported_algorithm : SignatureError
  signed_attrs_binding : AttributeError → SignatureError
  bad_signature : SignatureError

unfoldable pub map_signature_algorithm : Oid → SignatureAlgorithm
unfolding ◌==◌
map_signature_algorithm oid =
    if oid == oid_sha256_with_rsa
    then sha256_with_rsa
    else if oid == oid_sha384_with_rsa
    then sha384_with_rsa
    else if oid == oid_sha512_with_rsa
    then sha512_with_rsa
    else if oid == oid_ecdsa_with_sha256
    then ecdsa_with_sha256
    else if oid == oid_ecdsa_with_sha384
    then ecdsa_with_sha384
    else if oid == oid_ecdsa_with_sha512
    then ecdsa_with_sha512
    else unknown_signature_algorithm

-- The DER tag of a SET
abbrev pub set_tag : ℕ
set_tag = 0x31

module _ (lib : Library) where
  open lib use {x509}

  abbrev pub checked_signature :
      Certificate → SignatureAlgorithm → Text → Text → Checked SignatureError
  checked_signature cert algo signed signature =
      fail_if (not (x509.check_signature cert algo signed signature)) bad_signature

  abbrev pub after_binding :
      Checked AttributeError → Checked SignatureError → Checked SignatureError
  after_binding (err e) next = err (signed_attrs_binding e)
  after_binding (ok done) next = next

  -- By the encoding of the signed attributes, whose first byte is replaced.
  abbrev pub signed_over :
      SignerInfo → Text → Certificate → SignatureAlgorithm → Text → Checked SignatureError
  signed_over si tst_bytes cert algo [] = checked_signature cert algo tst_bytes si.signature
  signed_over si tst_bytes cert algo (tag ∷ content) =
      after_binding (verify_signed_attrs_binding lib si tst_bytes)
        (checked_signature cert algo (set_tag ∷ content) si.signature)

  abbrev pub of_algorithm :
      SignerInfo → Text → Certificate → SignatureAlgorithm → Checked SignatureError
  of_algorithm si tst_bytes cert unknown_signature_algorithm = err unsupported_algorithm
  of_algorithm si tst_bytes cert algo =
      signed_over si tst_bytes cert algo si.signed_attrs.full_bytes

  unfoldable pub verify_signer_info_signature :
      SignerInfo → Text → Certificate → Checked SignatureError
  unfolding verify_signed_attrs_binding map_signature_algorithm
  verify_signer_info_signature si tst_bytes cert =
      of_algorithm si tst_bytes cert (map_signature_algorithm si.signature_algorithm)
