-- ===== src/Timestamp/Chosen.antt =====
-- The certificate that extractSignerCert of drs-verify/pkg/anchor/rfc3161.go takes from a token.
use drs.Prelude.{
  ◌≡◌, ◌≢◌, ◌↔◌, ◌⊎◌, inl, inr, refl, sym, ◌∙◌, ap, true, false, List, [], ◌∷◌, ◌++◌, Option, none,
  some, if◌then◌else◌, All, Result, err, ok, Bool-cases, Option-cases, ok-injective,
}
use drs.Prelude.Text.{Text, is_empty}
use drs.Timestamp.Token.{RawValue, SignerInfo, Certificate, Library}
use drs.Timestamp.Values.{read_values}
use drs.Timestamp.Signer.{
  CertificateError, no_certificates, names_signer, fallback, first_of, scan_certificates,
  extract_signer_cert,
}
use drs.Timestamp.Named.{
  IsNamed, names_signer_sound, names_signer_complete, unnamed_all, passed_all,
}

module _ (lib : Library) where
  open lib use {asn1, x509}

  -- The certificates of a list of values, without those that do not parse.
  unfoldable pub parsed : List RawValue → List Certificate
  parsed [] = []
  parsed (v ∷ vs) = elim (x509.parse_certificate v.full_bytes) [
    | none ↦ parsed vs
    | some cert ↦ cert ∷ parsed vs
  ]

  unfoldable pub embedded : RawValue → List Certificate
  embedded raw_certs = parsed (read_values asn1.raw_value raw_certs.bytes).items

  -- The first certificate that the identifier names, and the first of all where it names none.
  pub data IsSignerCert (si : SignerInfo) (certs : List Certificate) (cert : Certificate)
      : Type 0 where
    named :
        (before after : List Certificate)
        → certs ≡ before ++ (cert ∷ after)
        → All (λ c. ¬ IsNamed lib si c) before
        → IsNamed lib si cert
        → IsSignerCert si certs cert
    unnamed :
        (after : List Certificate)
        → certs ≡ cert ∷ after
        → All (λ c. ¬ IsNamed lib si c) certs
        → IsSignerCert si certs cert

  -- The loop over the certificates that parse.
  scan : SignerInfo → Option Certificate → List Certificate → Result CertificateError Certificate
  scan si first [] = fallback lib first
  scan si first (c ∷ cs) =
      let later = scan si (first_of lib first c) cs in if names_signer lib si c then ok c else later

  scan_certificates-parsed :
      (si : SignerInfo) (first : Option Certificate) (vs : List RawValue)
      → scan_certificates lib si first vs ≡ scan si first (parsed vs)
  unfolding scan_certificates scan parsed
  scan_certificates-parsed si first [] = refl
  scan_certificates-parsed si first (v ∷ vs) =
      elim (Option-cases (x509.parse_certificate v.full_bytes)) [
        | inl bad ↦ rw (bad, scan_certificates, parsed) (scan_certificates-parsed si first vs)
        | inr (cert, good) ↦
            rw (good, scan_certificates, parsed)
              (ap
                (λ (r : Result CertificateError Certificate).
                  if names_signer lib si cert then ok cert else r)
                (scan_certificates-parsed si (first_of lib first cert) vs))
      ]

  scan-named :
      (si : SignerInfo) (cert : Certificate) (after before : List Certificate)
      → All (λ c. names_signer lib si c ≡ false) before
      → names_signer lib si cert ≡ true
      → (first : Option Certificate) → scan si first (before ++ (cert ∷ after)) ≡ ok cert
  unfolding scan
  scan-named si cert after [] others hit first = rw hit
  scan-named si cert after (c ∷ before) (other, others) hit first =
      rw other (scan-named si cert after before others hit (first_of lib first c))

  scan-unnamed :
      (si : SignerInfo) (cs : List Certificate)
      → All (λ c. names_signer lib si c ≡ false) cs
      → (first : Certificate) → scan si (some first) cs ≡ ok first
  unfolding scan
  scan-unnamed si [] others first = refl
  scan-unnamed si (c ∷ cs) (other, others) first = rw other (scan-unnamed si cs others first)

  scan_complete :
      (si : SignerInfo) (cs : List Certificate) (cert : Certificate)
      → IsSignerCert si cs cert
      → scan si none cs ≡ ok cert
  unfolding scan
  scan_complete si cs cert (named before after e others hit) = rw e (
      scan-named si cert after before (passed_all lib si before others)
        (names_signer_complete lib si cert hit) none)
  scan_complete si cs cert (unnamed after e others) =
      let (other, rest) = first_other e (passed_all lib si cs others) in
      rw (e, other) (scan-unnamed si after rest cert)
    where
      first_other :
          {c : Certificate} {l m : List Certificate}
          → m ≡ c ∷ l
          → All (λ c. names_signer lib si c ≡ false) m
          → (names_signer lib si c ≡ false) × All (λ c. names_signer lib si c ≡ false) l
      first_other e h = rw e at h

  -- Whether some certificate is named.
  split :
      (si : SignerInfo) (cs : List Certificate)
      → All (λ c. names_signer lib si c ≡ false) cs
        ⊎ ((cert : Certificate) × (before : List Certificate) × (after : List Certificate) × (cs
              ≡ before ++ (cert ∷ after))
            × All (λ c. names_signer lib si c ≡ false) before
            × (names_signer lib si cert ≡ true))
  split si [] = inl tt
  split si (c ∷ cs) = elim (Bool-cases (names_signer lib si c)) [
    | inl hit ↦ inr (c, [], cs, refl, tt, hit)
    | inr other ↦ elim (split si cs) [
      | inl others ↦ inl (other, others)
      | inr (cert, before, after, e, others, hit) ↦
          inr
            (cert, c ∷ before, after, ap (λ (l : List Certificate). c ∷ l) e, (other, others), hit)
    ]
  ]

  scan_sound :
      (si : SignerInfo) (cs : List Certificate) (cert : Certificate)
      → scan si none cs ≡ ok cert
      → IsSignerCert si cs cert
  unfolding scan
  scan_sound si cs cert h = elim (split si cs) [
    | inr (c, before, after, e, others, hit) ↦
        let same : c ≡ cert =
          ok-injective (sym (scan-named si c after before others hit none) ∙ rw e at h) in
        named before after (rw (← same) e) (unnamed_all lib si before others)
          (names_signer_sound lib si cert (rw (← same) hit))
    | inl others ↦ unnamed_sound cs others h
  ]
    where
      unnamed_sound :
          (l : List Certificate)
          → All (λ c. names_signer lib si c ≡ false) l
          → scan si none l ≡ ok cert
          → IsSignerCert si l cert
      unnamed_sound [] others g = cc
      unnamed_sound (c ∷ l) (other, others) g =
          let same : c ≡ cert = ok-injective (sym (scan-unnamed si l others c) ∙ rw other at g) in
          unnamed l (rw same) (unnamed_all lib si (c ∷ l) (other, others))

  -- A certificate is found exactly when the token embeds certificates and it is the first of those
  -- that parse whose issuer and serial number the identifier of a version 1 SignerInfo has, or the
  -- first of all where there is no such one.
  pub extract_signer_cert-eq-ok_iff :
      (raw_certs : RawValue) (si : SignerInfo) (cert : Certificate)
      → (extract_signer_cert lib raw_certs si ≡ ok cert)
        ↔ ((raw_certs.bytes ≢ []) × IsSignerCert si (embedded raw_certs) cert)
  unfolding extract_signer_cert embedded
  extract_signer_cert-eq-ok_iff raw_certs si cert =
      rw (scan_certificates-parsed si none (read_values asn1.raw_value raw_certs.bytes).items)
        (of_bytes raw_certs.bytes)
    where
      found : Result CertificateError Certificate
      found = scan si none (embedded raw_certs)

      of_bytes :
          (b : Text)
          → ((if is_empty b then err no_certificates else found) ≡ ok cert)
            ↔ ((b ≢ []) × IsSignerCert si (embedded raw_certs) cert)
      of_bytes [] = (λ h. cc, λ h. absurd (h.0 refl))
      of_bytes (x ∷ b) = (λ h. (cc, scan_sound si _ cert h), λ h. scan_complete si _ cert h.1)
