-- ===== src/Timestamp/Signed.antt =====
-- When verifySignerInfoSignature of drs-verify/pkg/anchor/rfc3161.go accepts a signature.
use drs.Prelude.{◌≡◌, ◌≢◌, ◌↔◌, inl, inr, refl, true, [], ◌∷◌, err, ok, Checked, Bool-cases}
use drs.Prelude.Text.{Text}
use drs.Timestamp.Token.{
  SignerInfo, Certificate, SignatureAlgorithm, unknown_signature_algorithm, sha256_with_rsa,
  sha384_with_rsa, sha512_with_rsa, ecdsa_with_sha256, ecdsa_with_sha384, ecdsa_with_sha512,
  Library,
}
use drs.Timestamp.Attributes.{AttributeError, verify_signed_attrs_binding}
use drs.Timestamp.Binding.{IsBound, verify_signed_attrs_binding-eq-ok_iff}
use drs.Timestamp.Signature.{
  SignatureError, map_signature_algorithm, set_tag, checked_signature, after_binding, signed_over,
  of_algorithm, verify_signer_info_signature,
}

module _ (lib : Library) (si : SignerInfo) (tst_bytes : Text) (cert : Certificate) where
  open lib use {x509}

  abbrev Valid : SignatureAlgorithm → Text → Type 0
  Valid algo signed = x509.check_signature cert algo signed si.signature ≡ true

  -- Without signed attributes the signature is over the TSTInfo; with them it is over their encoding
  -- as a SET, and they bind the TSTInfo.
  abbrev SignsContent : SignatureAlgorithm → Text → Type 0
  SignsContent algo [] = Valid algo tst_bytes
  SignsContent algo (tag ∷ content) = IsBound lib si tst_bytes × Valid algo (set_tag ∷ content)

  abbrev pub IsSigned : Type 0
  IsSigned =
      (map_signature_algorithm si.signature_algorithm ≢ unknown_signature_algorithm)
      × SignsContent (map_signature_algorithm si.signature_algorithm) si.signed_attrs.full_bytes

  checked_iff :
      (algo : SignatureAlgorithm) (signed : Text)
      → (checked_signature lib cert algo signed si.signature ≡ ok tt) ↔ Valid algo signed
  checked_iff algo signed = elim (Bool-cases (x509.check_signature cert algo signed si.signature)) [
    | inl good ↦ (λ h. good, λ h. rw good refl)
    | inr bad ↦ (λ h. cc (rw bad at h), λ h. cc)
  ]

  after_binding-eq-ok :
      (r : Checked AttributeError) (next : Checked SignatureError)
      → (after_binding lib r next ≡ ok tt) ↔ ((r ≡ ok tt) × (next ≡ ok tt))
  after_binding-eq-ok (ok tt) next = (λ h. (refl, h), λ h. h.1)
  after_binding-eq-ok (err e) next = (λ h. cc, λ h. cc)

  signed_over_iff :
      (algo : SignatureAlgorithm) (attrs : Text)
      → (signed_over lib si tst_bytes cert algo attrs ≡ ok tt) ↔ SignsContent algo attrs
  signed_over_iff algo [] = checked_iff algo tst_bytes
  signed_over_iff algo (tag ∷ content) =
      let (to_bound, from_bound) = verify_signed_attrs_binding-eq-ok_iff lib si tst_bytes in
      let (to_valid, from_valid) = checked_iff algo (set_tag ∷ content) in
      let (split, join) =
        after_binding-eq-ok (verify_signed_attrs_binding lib si tst_bytes)
          (checked_signature lib cert algo (set_tag ∷ content) si.signature) in
      (
        λ h. let (bound, valid) = split h in (to_bound bound, to_valid valid),
        λ (bound, valid). join (from_bound bound, from_valid valid),
      )

  known :
      (algo : SignatureAlgorithm)
      → algo ≢ unknown_signature_algorithm
      → (signed_over lib si tst_bytes cert algo si.signed_attrs.full_bytes ≡ ok tt)
        ↔ ((algo ≢ unknown_signature_algorithm) × SignsContent algo si.signed_attrs.full_bytes)
  known algo one =
      let (to, from) = signed_over_iff algo si.signed_attrs.full_bytes in
      (λ h. (one, to h), λ h. from h.1)

  of_algorithm_iff :
      (algo : SignatureAlgorithm)
      → (of_algorithm lib si tst_bytes cert algo ≡ ok tt)
        ↔ ((algo ≢ unknown_signature_algorithm) × SignsContent algo si.signed_attrs.full_bytes)
  of_algorithm_iff unknown_signature_algorithm = (λ h. cc, λ h. absurd (h.0 refl))
  of_algorithm_iff sha256_with_rsa = known sha256_with_rsa (λ e. cc)
  of_algorithm_iff sha384_with_rsa = known sha384_with_rsa (λ e. cc)
  of_algorithm_iff sha512_with_rsa = known sha512_with_rsa (λ e. cc)
  of_algorithm_iff ecdsa_with_sha256 = known ecdsa_with_sha256 (λ e. cc)
  of_algorithm_iff ecdsa_with_sha384 = known ecdsa_with_sha384 (λ e. cc)
  of_algorithm_iff ecdsa_with_sha512 = known ecdsa_with_sha512 (λ e. cc)

  -- A signature is accepted exactly when its algorithm is one of the six and it is valid: over the
  -- TSTInfo where there are no signed attributes, and else over these as a SET, bound to the TSTInfo.
  pub verify_signer_info_signature-eq-ok_iff :
      (verify_signer_info_signature lib si tst_bytes cert ≡ ok tt) ↔ IsSigned
  unfolding verify_signer_info_signature
  verify_signer_info_signature-eq-ok_iff =
      of_algorithm_iff (map_signature_algorithm si.signature_algorithm)
