-- ===== src/Timestamp/Token.antt =====
-- The ASN.1 types and the object identifiers of drs-verify/pkg/anchor/rfc3161.go, with the fields
-- that the code reads. encoding/asn1, crypto/x509 and the hash functions are parameters.
use drs.Prelude.{ℕ, Bool, List, [], ◌∷◌, Option}
use drs.Prelude.Int.{ℤ}
use drs.Prelude.Text.{Text}

-- asn1.ObjectIdentifier, which Equal compares arc by arc
abbrev pub Oid : Type 0
Oid = List ℕ

abbrev pub sha256_oid : Oid
sha256_oid = 2 ∷ 16 ∷ 840 ∷ 1 ∷ 101 ∷ 3 ∷ 4 ∷ 2 ∷ 1 ∷ []

abbrev pub sha384_oid : Oid
sha384_oid = 2 ∷ 16 ∷ 840 ∷ 1 ∷ 101 ∷ 3 ∷ 4 ∷ 2 ∷ 2 ∷ []

abbrev pub sha512_oid : Oid
sha512_oid = 2 ∷ 16 ∷ 840 ∷ 1 ∷ 101 ∷ 3 ∷ 4 ∷ 2 ∷ 3 ∷ []

abbrev pub oid_signed_data : Oid
oid_signed_data = 1 ∷ 2 ∷ 840 ∷ 113549 ∷ 1 ∷ 7 ∷ 2 ∷ []

abbrev pub oid_tst_info : Oid
oid_tst_info = 1 ∷ 2 ∷ 840 ∷ 113549 ∷ 1 ∷ 9 ∷ 16 ∷ 1 ∷ 4 ∷ []

abbrev pub oid_sha256_with_rsa : Oid
oid_sha256_with_rsa = 1 ∷ 2 ∷ 840 ∷ 113549 ∷ 1 ∷ 1 ∷ 11 ∷ []

abbrev pub oid_sha384_with_rsa : Oid
oid_sha384_with_rsa = 1 ∷ 2 ∷ 840 ∷ 113549 ∷ 1 ∷ 1 ∷ 12 ∷ []

abbrev pub oid_sha512_with_rsa : Oid
oid_sha512_with_rsa = 1 ∷ 2 ∷ 840 ∷ 113549 ∷ 1 ∷ 1 ∷ 13 ∷ []

abbrev pub oid_ecdsa_with_sha256 : Oid
oid_ecdsa_with_sha256 = 1 ∷ 2 ∷ 840 ∷ 10045 ∷ 4 ∷ 3 ∷ 2 ∷ []

abbrev pub oid_ecdsa_with_sha384 : Oid
oid_ecdsa_with_sha384 = 1 ∷ 2 ∷ 840 ∷ 10045 ∷ 4 ∷ 3 ∷ 3 ∷ []

abbrev pub oid_ecdsa_with_sha512 : Oid
oid_ecdsa_with_sha512 = 1 ∷ 2 ∷ 840 ∷ 10045 ∷ 4 ∷ 3 ∷ 4 ∷ []

abbrev pub oid_content_type_attr : Oid
oid_content_type_attr = 1 ∷ 2 ∷ 840 ∷ 113549 ∷ 1 ∷ 9 ∷ 3 ∷ []

abbrev pub oid_message_digest_attr : Oid
oid_message_digest_attr = 1 ∷ 2 ∷ 840 ∷ 113549 ∷ 1 ∷ 9 ∷ 4 ∷ []

-- x509.ExtKeyUsageTimeStamping
abbrev pub ext_key_usage_time_stamping : ℕ
ext_key_usage_time_stamping = 8

-- pkiStatusGranted
abbrev pub pki_status_granted : ℤ
pki_status_granted = ℤ.pos 0

-- asn1.RawValue: the contents, and the encoding with its tag and length
pub record RawValue : Type 0 where
  pub bytes : Text
  pub full_bytes : Text

-- timeStampResp, with the number of its pkiStatusInfo
pub record TimeStampResp : Type 0 where
  pub status : ℤ
  pub time_stamp_token : RawValue

pub record ContentInfo : Type 0 where
  pub content_type : Oid
  pub content : RawValue

-- signerInfo, with the OIDs of its two algorithm identifiers
pub record SignerInfo : Type 0 where
  pub version : ℤ
  pub sid : RawValue
  pub digest_algorithm : Oid
  pub signed_attrs : RawValue
  pub signature_algorithm : Oid
  pub signature : Text

pub record EncapContentInfo : Type 0 where
  pub e_content_type : Oid
  pub e_content : RawValue

pub record SignedData : Type 0 where
  pub encap_content_info : EncapContentInfo
  pub certificates : RawValue
  pub signer_infos : List SignerInfo

-- hashAlgorithm of messageImprint by its OID
pub record MessageImprint : Type 0 where
  pub hash_algorithm : Oid
  pub hashed_message : Text

-- tstInfo: GenTime in nanoseconds
pub record TstInfo : Type 0 where
  pub message_imprint : MessageImprint
  pub gen_time : ℤ

pub record IssuerAndSerial : Type 0 where
  pub issuer : RawValue
  pub serial_number : ℤ

pub record CmsAttribute : Type 0 where
  pub type_oid : Oid
  pub values : RawValue

-- asn1.Unmarshal into one type: the value and the bytes after it, or no value
abbrev pub Decoder : Type 0 → Type 0
Decoder A = Text → Option (A × Text)

pub record Asn1 : Type 0 where
  pub time_stamp_resp : Decoder TimeStampResp
  pub content_info : Decoder ContentInfo
  pub signed_data : Decoder SignedData
  pub octet_string : Decoder Text
  pub tst_info : Decoder TstInfo
  pub raw_value : Decoder RawValue
  pub issuer_and_serial : Decoder IssuerAndSerial
  pub cms_attribute : Decoder CmsAttribute
  pub object_identifier : Decoder Oid

-- x509.Certificate. A parsed certificate has a serial number, as a decoded IssuerAndSerial has, so
-- the source's tests for nil always pass.
pub record Certificate : Type 0 where
  pub raw : Text
  pub raw_issuer : Text
  pub serial_number : ℤ
  pub ext_key_usage : List ℕ

-- x509.SignatureAlgorithm, the values in use
pub data SignatureAlgorithm : Type 0 where
  unknown_signature_algorithm : SignatureAlgorithm
  sha256_with_rsa sha384_with_rsa sha512_with_rsa : SignatureAlgorithm
  ecdsa_with_sha256 ecdsa_with_sha384 ecdsa_with_sha512 : SignatureAlgorithm

-- x509.VerifyOptions, its pools by the certificates added
pub record VerifyOptions : Type 0 where
  pub roots : List Certificate
  pub intermediates : List Certificate
  pub current_time : ℤ
  pub key_usages : List ℕ

pub record X509 : Type 0 where
  pub parse_certificate : Text → Option Certificate
  -- CheckSignature: over the signed bytes, then the signature
  pub check_signature : Certificate → SignatureAlgorithm → Text → Text → Bool
  pub verify : Certificate → VerifyOptions → Bool
  pub sha256 : Text → Text
  pub sha384 : Text → Text
  pub sha512 : Text → Text

pub record Library : Type 0 where
  pub asn1 : Asn1
  pub x509 : X509
