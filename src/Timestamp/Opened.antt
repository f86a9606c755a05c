-- ===== src/Timestamp/Opened.antt =====
-- What VerifyTimestamp and VerifyTimestampTrusted of drs-verify/pkg/anchor/rfc3161.go read of a token.
use drs.Prelude.{
  ◌≡◌, ◌≢◌, ◌↔◌, refl, subst, List, [], ◌∷◌, Option, none, some, Result, err, ok, >>=-eq-ok,
  >>-eq-ok_iff, ok-injective, >>=-ok,
}
use drs.Prelude.Text.{Text}
use drs.Prelude.Guards.{unless_equal, unless_eq_ℤ, if_empty}
use drs.Timestamp.Token.{
  TimeStampResp, ContentInfo, SignerInfo, SignedData, Library, pki_status_granted, oid_signed_data,
  oid_tst_info,
}
use drs.Timestamp.Verify.{TimestampError, decoded, decoded_all, wrapped, first_signer, open_token}

pub decoded-eq-ok :
    {A : Type 0} (e : TimestampError) (o : Option (A × Text)) (v : A)
    → (decoded e o ≡ ok v) ↔ ((rest : Text) × (o ≡ some (v, rest)))
decoded-eq-ok e none v = (λ h. cc, λ h. cc)
decoded-eq-ok e (some (w, rest)) v = (λ h. (rest, cc), λ h. cc)

decoded_all-eq-ok :
    {A : Type 0} (bad more : TimestampError) (o : Option (A × Text)) (v : A)
    → (decoded_all bad more o ≡ ok v) ↔ (o ≡ some (v, []))
decoded_all-eq-ok bad more none v = (λ h. cc, λ h. cc)
decoded_all-eq-ok bad more (some (w, [])) v = (λ h. cc, λ h. cc)
decoded_all-eq-ok bad more (some (w, b ∷ rest)) v = (λ h. cc, λ h. cc)

pub wrapped-eq-ok :
    {E A : Type 0} (f : E → TimestampError) (r : Result E A) (a : A)
    → (wrapped f r ≡ ok a) ↔ (r ≡ ok a)
wrapped-eq-ok f (ok b) a = (λ h. cc, λ h. cc)
wrapped-eq-ok f (err e) a = (λ h. cc, λ h. cc)

pub first_signer-eq-ok :
    (l : List SignerInfo) (si : SignerInfo)
    → (first_signer l ≡ ok si) ↔ ((others : List SignerInfo) × (l ≡ si ∷ others))
first_signer-eq-ok [] si = (λ h. cc, λ h. cc)
first_signer-eq-ok (x ∷ l) si = (λ h. (l, cc), λ h. cc)

module _ (lib : Library) where
  open lib use {asn1}

  -- The whole token is one granted response, whose SignedData encapsulates these TSTInfo bytes.
  pub record IsOpened (token : Text) (sd : SignedData) (tst_bytes : Text) : Type 0 where
    pub resp : TimeStampResp
    pub ci : ContentInfo
    pub after_ci : Text
    pub after_sd : Text
    pub after_octets : Text
    pub response : asn1.time_stamp_resp token ≡ some (resp, [])
    pub granted : resp.status ≡ pki_status_granted
    pub present : resp.time_stamp_token.full_bytes ≢ []
    pub content : asn1.content_info resp.time_stamp_token.full_bytes ≡ some (ci, after_ci)
    pub signed_content : ci.content_type ≡ oid_signed_data
    pub signed : asn1.signed_data ci.content.bytes ≡ some (sd, after_sd)
    pub tst_content : sd.encap_content_info.e_content_type ≡ oid_tst_info
    pub octets :
        asn1.octet_string sd.encap_content_info.e_content.bytes ≡ some (tst_bytes, after_octets)

  module _ (token : Text) (sd : SignedData) (tst_bytes : Text) where
    open_token_sound : open_token lib token ≡ ok (sd, tst_bytes) → IsOpened token sd tst_bytes
    unfolding open_token
    open_token_sound h =
        let (resp, response, h1) = >>=-eq-ok (decoded_all _ _ (asn1.time_stamp_resp token)) _ h in
        let (granted, h2) = (>>-eq-ok_iff _ _ _).0 h1 in
        let (present, h3) = (>>-eq-ok_iff _ _ _).0 h2 in
        let (ci, content, h4) =
          >>=-eq-ok (decoded _ (asn1.content_info resp.time_stamp_token.full_bytes)) _ h3 in
        let (signed_content, h5) = (>>-eq-ok_iff _ _ _).0 h4 in
        let (sd', signed, h6) = >>=-eq-ok (decoded _ (asn1.signed_data ci.content.bytes)) _ h5 in
        let (tst_content, h7) = (>>-eq-ok_iff _ _ _).0 h6 in
        let (bytes', octets, h8) =
          >>=-eq-ok (decoded _ (asn1.octet_string sd'.encap_content_info.e_content.bytes)) _ h7 in
        let (after_ci, content) = (decoded-eq-ok _ _ _).0 content in
        let (after_sd, signed) = (decoded-eq-ok _ _ _).0 signed in
        let (after_octets, octets) = (decoded-eq-ok _ _ _).0 octets in
        let opened : IsOpened token sd' bytes' = record {
          resp = resp;
          ci = ci;
          after_ci = after_ci;
          after_sd = after_sd;
          after_octets = after_octets;
          response = (decoded_all-eq-ok _ _ _ _).0 response;
          granted = (unless_eq_ℤ _ _ _).0 granted;
          present = (if_empty _ _).0 present;
          content = content;
          signed_content = (unless_equal _ _ _).0 signed_content;
          signed = signed;
          tst_content = (unless_equal _ _ _).0 tst_content;
          octets = octets;
        } in
        subst (λ (p : SignedData × Text). IsOpened token p.0 p.1) (ok-injective h8) opened

    open_token_complete : IsOpened token sd tst_bytes → open_token lib token ≡ ok (sd, tst_bytes)
    unfolding open_token
    open_token_complete h = >>=-ok _ _ h.resp _ ((decoded_all-eq-ok _ _ _ _).1 h.response) (
        (>>-eq-ok_iff _ _ _).1 (
          (unless_eq_ℤ _ _ _).1 h.granted,
          (>>-eq-ok_iff _ _ _).1 (
            (if_empty _ _).1 h.present,
            >>=-ok _ _ h.ci _ ((decoded-eq-ok _ _ _).1 (h.after_ci, h.content)) (
                (>>-eq-ok_iff _ _ _).1 (
                  (unless_equal _ _ _).1 h.signed_content,
                  >>=-ok _ _ sd _ ((decoded-eq-ok _ _ _).1 (h.after_sd, h.signed)) (
                      (>>-eq-ok_iff _ _ _).1 (
                        (unless_equal _ _ _).1 h.tst_content,
                        >>=-ok _ _ tst_bytes _ ((decoded-eq-ok _ _ _).1 (h.after_octets, h.octets))
                            refl,
                      )),
                )),
          ),
        ))

    pub open_token-eq-ok_iff :
        (open_token lib token ≡ ok (sd, tst_bytes)) ↔ IsOpened token sd tst_bytes
    open_token-eq-ok_iff = (open_token_sound, open_token_complete)
