-- ===== src/Timestamp/Trusted.antt =====
-- The tokens that VerifyTimestamp and VerifyTimestampTrusted of drs-verify/pkg/anchor/rfc3161.go accept.
use drs.Prelude.{
  ◌≡◌, ◌≢◌, ◌↔◌, refl, subst, true, List, [], ◌∷◌, Option, none, some, ok, >>=-eq-ok, >>-eq-ok_iff,
  >>=-ok, ok-injective, Some, any_of-Some, Some-any_of, eqb_iff, Some-mono,
}
use mathlib.Core.Option.{some-injective}
use drs.Prelude.Int.{ℤ}
use drs.Prelude.Text.{Text}
use drs.Prelude.Guards.{unless_true, unless_equal}
use drs.Timestamp.Token.{
  SignerInfo, SignedData, Certificate, Library, sha256_oid, ext_key_usage_time_stamping,
}
use drs.Timestamp.Signer.{has_timestamping_eku, extract_signer_cert}
use drs.Timestamp.Chosen.{IsSignerCert, embedded, extract_signer_cert-eq-ok_iff}
use drs.Timestamp.Signed.{IsSigned, verify_signer_info_signature-eq-ok_iff}
use drs.Timestamp.Opened.{
  IsOpened, open_token-eq-ok_iff, decoded-eq-ok, wrapped-eq-ok, first_signer-eq-ok,
}
use drs.Timestamp.Verify.{
  decoded, wrapped, first_signer, Signed, open_token, verify_signed, verify_token, verify_options,
  verify_timestamp, verify_trust, verify_timestamp_trusted,
}

has_timestamping_eku_iff :
    (cert : Certificate)
    → (has_timestamping_eku cert ≡ true)
      ↔ Some (λ eku. eku ≡ ext_key_usage_time_stamping) cert.ext_key_usage
unfolding has_timestamping_eku
has_timestamping_eku_iff cert = (
  λ h. Some-mono (λ eku. (eqb_iff eku _).0) cert.ext_key_usage (any_of-Some _ cert.ext_key_usage h),
  λ h. Some-any_of _ cert.ext_key_usage (Some-mono (λ eku. (eqb_iff eku _).1) cert.ext_key_usage h),
)

module _ (lib : Library) where
  open lib use {asn1, x509}

  -- The TSTInfo is a SHA-256 timestamp of the hash, and the first SignerInfo signs it by a
  -- certificate of the token.
  pub record IsVerified (expected_hash : Text) (sd : SignedData) (tst_bytes : Text)
      (signed : Signed) : Type 0 where
    pub si : SignerInfo
    pub others : List SignerInfo
    pub after_tst : Text
    pub tst_decodes : asn1.tst_info tst_bytes ≡ some (signed.tst, after_tst)
    pub algorithm : signed.tst.message_imprint.hash_algorithm ≡ sha256_oid
    pub imprint : signed.tst.message_imprint.hashed_message ≡ expected_hash
    pub signer : sd.signer_infos ≡ si ∷ others
    pub certificates : signed.certificates ≡ sd.certificates
    pub present : sd.certificates.bytes ≢ []
    pub certificate : IsSignerCert lib si (embedded lib sd.certificates) signed.cert
    pub signature : IsSigned lib si tst_bytes signed.cert

  module _ (expected_hash : Text) (sd : SignedData) (tst_bytes : Text) (signed : Signed) where
    verify_signed_sound :
        verify_signed lib expected_hash sd tst_bytes ≡ ok signed
        → IsVerified expected_hash sd tst_bytes signed
    unfolding verify_signed
    verify_signed_sound h =
        let (tst, decodes, h1) = >>=-eq-ok (decoded _ (asn1.tst_info tst_bytes)) _ h in
        let (algorithm, h2) = (>>-eq-ok_iff _ _ _).0 h1 in
        let (imprint, h3) = (>>-eq-ok_iff _ _ _).0 h2 in
        let (si, signer, h4) = >>=-eq-ok (first_signer sd.signer_infos) _ h3 in
        let (cert, found, h5) =
          >>=-eq-ok (wrapped _ (extract_signer_cert lib sd.certificates si)) _ h4 in
        let (signature, h6) = (>>-eq-ok_iff _ _ _).0 h5 in
        let (after_tst, tst_decodes) = (decoded-eq-ok _ _ _).0 decodes in
        let (others, signer) = (first_signer-eq-ok _ _).0 signer in
        let (present, certificate) =
          (extract_signer_cert-eq-ok_iff lib sd.certificates si cert).0
            ((wrapped-eq-ok _ _ _).0 found) in
        let it : Signed = record { tst = tst; certificates = sd.certificates; cert = cert } in
        let verified : IsVerified expected_hash sd tst_bytes it = record {
          si = si;
          others = others;
          after_tst = after_tst;
          tst_decodes = tst_decodes;
          algorithm = (unless_equal _ _ _).0 algorithm;
          imprint = (unless_equal _ _ _).0 imprint;
          signer = signer;
          certificates = refl;
          present = present;
          certificate = certificate;
          signature =
              (verify_signer_info_signature-eq-ok_iff lib si tst_bytes cert).0
                ((wrapped-eq-ok _ _ _).0 signature);
        } in
        subst (λ (s : Signed). IsVerified expected_hash sd tst_bytes s) (ok-injective h6) verified

    verify_signed_complete :
        IsVerified expected_hash sd tst_bytes signed
        → verify_signed lib expected_hash sd tst_bytes ≡ ok signed
    unfolding verify_signed
    verify_signed_complete h =
        >>=-ok _ _ signed.tst _ ((decoded-eq-ok _ _ _).1 (h.after_tst, h.tst_decodes)) (
          (>>-eq-ok_iff _ _ _).1 (
            (unless_equal _ _ _).1 h.algorithm,
            (>>-eq-ok_iff _ _ _).1 (
              (unless_equal _ _ _).1 h.imprint,
              >>=-ok _ _ h.si _ ((first_signer-eq-ok _ _).1 (h.others, h.signer)) (
                  >>=-ok _ _ signed.cert _
                    ((wrapped-eq-ok _ _ _).1 (
                      (extract_signer_cert-eq-ok_iff lib sd.certificates h.si signed.cert).1
                        (h.present, h.certificate)))
                    ((>>-eq-ok_iff _ _ _).1 (
                      (wrapped-eq-ok _ _ _).1 (
                          (verify_signer_info_signature-eq-ok_iff lib h.si tst_bytes signed.cert).1
                            h.signature),
                      rw h.certificates refl,
                    ))),
            ),
          ))

  -- The token is a granted timestamp of the hash, with its authority's signature.
  abbrev pub IsStamped : Text → Text → Signed → Type 0
  IsStamped token expected_hash signed =
      (sd : SignedData) × (tst_bytes : Text) × IsOpened lib token sd tst_bytes
      × IsVerified expected_hash sd tst_bytes signed

  verify_token_iff :
      (token expected_hash : Text) (signed : Signed)
      → (verify_token lib token expected_hash ≡ ok signed) ↔ IsStamped token expected_hash signed
  unfolding verify_token
  verify_token_iff token expected_hash signed = (
    λ h.
        let ((sd, tst_bytes), opened, verified) = >>=-eq-ok (open_token lib token) _ h in
        (
          sd,
          tst_bytes,
          (open_token-eq-ok_iff lib token sd tst_bytes).0 opened,
          verify_signed_sound expected_hash sd tst_bytes signed verified,
        ),
    λ (sd, tst_bytes, opened, verified).
        >>=-ok _ _ (sd, tst_bytes) _ ((open_token-eq-ok_iff lib token sd tst_bytes).1 opened)
          (verify_signed_complete expected_hash sd tst_bytes signed verified),
  )

  -- VerifyTimestamp returns a time exactly when the token is a granted SHA-256 timestamp of the
  -- hash, signed by a certificate of its own, and the time is then that of the TSTInfo.
  pub verify_timestamp-eq-ok_iff :
      (token expected_hash : Text) (time : ℤ)
      → (verify_timestamp lib token expected_hash ≡ ok time)
        ↔ ((signed : Signed) × IsStamped token expected_hash signed × (signed.tst.gen_time ≡ time))
  unfolding verify_timestamp
  verify_timestamp-eq-ok_iff token expected_hash time = (
    λ h.
        let (signed, verified, e) = >>=-eq-ok (verify_token lib token expected_hash) _ h in
        (signed, (verify_token_iff token expected_hash signed).0 verified, ok-injective e),
    λ (signed, stamped, e).
        >>=-ok _ _ signed _ ((verify_token_iff token expected_hash signed).1 stamped) (rw e refl),
  )

  -- The certificate chains to the roots at the time of the token, and is one for timestamping.
  abbrev pub IsTrusted : List Certificate → Signed → Type 0
  IsTrusted roots signed =
      (x509.verify signed.cert (verify_options lib roots signed) ≡ true)
      × Some (λ eku. eku ≡ ext_key_usage_time_stamping) signed.cert.ext_key_usage

  verify_trust_iff :
      (roots : List Certificate) (signed : Signed) (time : ℤ)
      → (verify_trust lib roots signed ≡ ok time)
        ↔ (IsTrusted roots signed × (signed.tst.gen_time ≡ time))
  unfolding verify_trust
  verify_trust_iff roots signed time = (
    λ h.
        let (chained, h1) = (>>-eq-ok_iff _ _ _).0 h in
        let (purpose, h2) = (>>-eq-ok_iff _ _ _).0 h1 in
        (
          (
            (unless_true _ _).0 chained,
            (has_timestamping_eku_iff signed.cert).0 ((unless_true _ _).0 purpose),
          ),
          ok-injective h2,
        ),
    λ ((chained, purpose), e). (>>-eq-ok_iff _ _ _).1 (
      (unless_true _ _).1 chained,
      (>>-eq-ok_iff _ _ _).1
          ((unless_true _ _).1 ((has_timestamping_eku_iff signed.cert).1 purpose), rw e refl),
    ),
  )

  -- VerifyTimestampTrusted returns a time exactly when roots are configured and the token is a
  -- granted SHA-256 timestamp of the hash, its TSTInfo of that time and signed, through the signed
  -- attributes where there are any, by a certificate of its own, which chains to the roots at the
  -- time of the TSTInfo and has the timestamping purpose.
  pub verify_timestamp_trusted-eq-ok_iff :
      (token expected_hash : Text) (pool : Option (List Certificate)) (time : ℤ)
      → (verify_timestamp_trusted lib token expected_hash pool ≡ ok time) ↔ (
          (roots : List Certificate) × (signed : Signed) × (pool ≡ some roots)
          × IsStamped token expected_hash signed
          × IsTrusted roots signed
          × (signed.tst.gen_time ≡ time))
  unfolding verify_timestamp_trusted
  verify_timestamp_trusted-eq-ok_iff token expected_hash none time = (λ h. cc, λ h. cc)
  verify_timestamp_trusted-eq-ok_iff token expected_hash (some roots) time = (
    λ h.
        let (signed, verified, rest) = >>=-eq-ok (verify_token lib token expected_hash) _ h in
        let (trusted, e) = (verify_trust_iff roots signed time).0 rest in
        (roots, signed, refl, (verify_token_iff token expected_hash signed).0 verified, trusted, e),
    λ (roots', signed, same, stamped, trusted, e).
        >>=-ok _ _ signed _ ((verify_token_iff token expected_hash signed).1 stamped)
          ((verify_trust_iff roots signed time).1 (rw (some-injective _ _ same) trusted, e)),
  )
