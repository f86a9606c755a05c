-- ===== src/Timestamp/Attributes.antt =====
-- The signed attributes of a SignerInfo: parseAttributeSet, checkContentTypeAttr,
-- checkMessageDigestAttr, hasherFor and verifySignedAttrsBinding of
-- drs-verify/pkg/anchor/rfc3161.go.
use drs.Prelude.{
  Bool, true, false, List, [], ◌∷◌, Option, none, some, if◌then◌else◌, Result, err, ok, Checked,
  fail_if, ◌>>=◌, ◌>>◌, not,
}
use drs.Prelude.Text.{Text, ◌==◌, is_empty}
use drs.Timestamp.Token.{
  Oid, RawValue, SignerInfo, CmsAttribute, Library, oid_tst_info, oid_content_type_attr,
  oid_message_digest_attr, sha256_oid, sha384_oid, sha512_oid,
}
use drs.Timestamp.Values.{Values, read_values}

pub data AttributeError : Type 0 where
  parse_outer_tag parse_signed_attrs : AttributeError
  duplicate_content_type duplicate_message_digest : AttributeError
  parse_content_type extra_content_types other_content_type : AttributeError
  parse_message_digest extra_message_digests unsupported_digest digest_mismatch : AttributeError
  missing_content_type missing_message_digest : AttributeError

module _ (lib : Library) where
  open lib use {asn1, x509}

  abbrev pub all_values : Values CmsAttribute → Result AttributeError (List CmsAttribute)
  all_values r = if r.complete then ok r.items else err parse_signed_attrs

  unfoldable pub parse_attribute_set : Text → Result AttributeError (List CmsAttribute)
  unfolding read_values
  parse_attribute_set content = all_values (read_values asn1.cms_attribute content)

  abbrev pub content_type_of : Option (Oid × Text) → Checked AttributeError
  content_type_of none = err parse_content_type
  content_type_of (some (oid, rest)) = do
    fail_if (not (is_empty rest)) extra_content_types
    fail_if (not (oid == oid_tst_info)) other_content_type

  unfoldable pub check_content_type_attr : RawValue → Checked AttributeError
  check_content_type_attr values = content_type_of (asn1.object_identifier values.bytes)

  unfoldable pub hasher_for : Oid → Result AttributeError (Text → Text)
  hasher_for oid =
      if oid == sha256_oid
      then ok x509.sha256
      else if oid == sha384_oid
      then ok x509.sha384
      else if oid == sha512_oid
      then ok x509.sha512
      else err unsupported_digest

  abbrev pub digest_of : Text → Oid → Option (Text × Text) → Checked AttributeError
  digest_of tst_bytes digest_oid none = err parse_message_digest
  digest_of tst_bytes digest_oid (some (declared, rest)) = do
    fail_if (not (is_empty rest)) extra_message_digests
    hash ← hasher_for digest_oid
    fail_if (not (declared == hash tst_bytes)) digest_mismatch

  unfoldable pub check_message_digest_attr : RawValue → Text → Oid → Checked AttributeError
  unfolding hasher_for
  check_message_digest_attr values tst_bytes digest_oid =
      digest_of tst_bytes digest_oid (asn1.octet_string values.bytes)

  -- The loop over the attributes, with ctSeen and mdSeen, and the tests after it.
  unfoldable pub check_attributes :
      Text → Oid → Bool → Bool → List CmsAttribute → Checked AttributeError
  check_attributes tst_bytes digest_oid ct_seen md_seen [] = do
    fail_if (not ct_seen) missing_content_type
    fail_if (not md_seen) missing_message_digest
  check_attributes tst_bytes digest_oid ct_seen md_seen (a ∷ rest) =
      let content_type = do
        fail_if ct_seen duplicate_content_type
        check_content_type_attr a.values
        check_attributes tst_bytes digest_oid true md_seen rest
      in let message_digest = do
        fail_if md_seen duplicate_message_digest
        check_message_digest_attr a.values tst_bytes digest_oid
        check_attributes tst_bytes digest_oid ct_seen true rest
        in let other = check_attributes tst_bytes digest_oid ct_seen md_seen rest in
          if a.type_oid == oid_content_type_attr
          then content_type
          else if a.type_oid == oid_message_digest_attr
          then message_digest
          else other

  abbrev pub attributes_of : Option (RawValue × Text) → Result AttributeError (List CmsAttribute)
  attributes_of none = err parse_outer_tag
  attributes_of (some (outer, rest)) = parse_attribute_set outer.bytes

  unfoldable pub verify_signed_attrs_binding : SignerInfo → Text → Checked AttributeError
  unfolding parse_attribute_set check_attributes check_content_type_attr check_message_digest_attr
  verify_signed_attrs_binding si tst_bytes =
      attributes_of (asn1.raw_value si.signed_attrs.full_bytes)
      >>= check_attributes tst_bytes si.digest_algorithm false false
