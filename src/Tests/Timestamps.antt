-- ===== src/Tests/Timestamps.antt =====
-- A small token, with an encoding of its own for each type: one byte stands for a value.
use drs.Prelude.{
  ℕ, ◌≡◌, ◌≢◌, refl, true, false, List, [], ◌∷◌, none, some, if◌then◌else◌, ok, err, length, ◌<◌,
  arith,
}
use drs.Prelude.Int.{pos}
use drs.Prelude.Text.{Text, ◌==◌}
use drs.Timestamp.Token.{
  RawValue, SignerInfo, SignedData, TstInfo, CmsAttribute, Certificate, Library, Decoder,
  oid_signed_data, oid_tst_info, sha256_oid, sha384_oid, oid_sha256_with_rsa, oid_content_type_attr,
  oid_message_digest_attr,
}
use drs.Timestamp.Values.{Reads, read_values, read_values-Reads}
use drs.Timestamp.Signer.{extract_signer_cert}
use drs.Timestamp.Chosen.{IsSignerCert, embedded, extract_signer_cert-eq-ok_iff}
use drs.Timestamp.Attributes.{digest_mismatch, missing_message_digest, verify_signed_attrs_binding}
use drs.Timestamp.Binding.{IsBound, verify_signed_attrs_binding-eq-ok_iff}
use drs.Timestamp.Verify.{Signed, no_trust_anchor, hash_mismatch, verify_timestamp_trusted}
use drs.Timestamp.Trusted.{IsStamped, IsTrusted, verify_timestamp_trusted-eq-ok_iff}
use drs.Types.{TimestampResult}
use drs.Chain.Structure.{Link}
use drs.Chain.Verify.{verify_timestamps}
use drs.Timestamp.Receipts.{with_roots, AllReported, verify_timestamps-AllReported}
use drs.Tests.Fixture.{World, env, deps, fresh, root_link, child_link}
use drs.Chain.Verify

-- The value that a first byte stands for, and the bytes after it.
abbrev at : {A : Type 0} → ℕ → A → Decoder A
at b v [] = none
at b v (c ∷ s) = if (b ∷ []) == (c ∷ []) then some (v, s) else none

abbrev raw : Text → Text → RawValue
raw b f = record { bytes = b; full_bytes = f }

abbrev either : {A : Type 0} → Decoder A → Decoder A → Decoder A
either d e s = elim (d s) [ none ↦ e s | some r ↦ some r ]

-- 10 is the outer tag of the signed attributes, and 20 and 21 are certificates.
abbrev raw_value : Decoder RawValue
raw_value [] = none
raw_value (b ∷ s) =
    if (b ∷ []) == (10 ∷ []) then some (raw s (b ∷ s), []) else some (raw [] (b ∷ []), s)

abbrev signer : SignerInfo
signer = record {
  version = pos 1;
  sid = raw [] (15 ∷ []);
  digest_algorithm = sha384_oid;
  signed_attrs = raw [] (10 ∷ 11 ∷ 12 ∷ []);
  signature_algorithm = oid_sha256_with_rsa;
  signature = 99 ∷ [];
}

abbrev hash : Text
hash = 7 ∷ 7 ∷ []

abbrev other_cert : Certificate
other_cert = record {
  raw = 20 ∷ [];
  raw_issuer = 50 ∷ [];
  serial_number = pos 1;
  ext_key_usage = [];
}

abbrev signer_cert : Certificate
signer_cert = record {
  raw = 21 ∷ [];
  raw_issuer = 50 ∷ [];
  serial_number = pos 2;
  ext_key_usage = 1 ∷ 8 ∷ [];
}

abbrev root : Certificate
root = record { raw = 22 ∷ []; raw_issuer = 51 ∷ []; serial_number = pos 1; ext_key_usage = [] }

abbrev digest_attribute : CmsAttribute
digest_attribute = record { type_oid = oid_message_digest_attr; values = raw (32 ∷ []) [] }

abbrev content_attribute : CmsAttribute
content_attribute = record { type_oid = oid_content_type_attr; values = raw (31 ∷ []) [] }

abbrev signed_data : SignedData
signed_data = record {
  encap_content_info = record { e_content_type = oid_tst_info; e_content = raw (4 ∷ []) [] };
  certificates = raw (20 ∷ 21 ∷ []) [];
  signer_infos = signer ∷ [];
}

abbrev stamp : TstInfo
stamp = record {
  message_imprint = record { hash_algorithm = sha256_oid; hashed_message = hash };
  gen_time = pos 5;
}

abbrev lib : Library
lib = record {
  asn1 = record {
    time_stamp_resp = at 1 (record { status = pos 0; time_stamp_token = raw [] (2 ∷ []) });
    content_info = at 2 (record { content_type = oid_signed_data; content = raw (3 ∷ []) [] });
    signed_data = at 3 signed_data;
    octet_string = either (at 4 (5 ∷ [])) (at 32 (38 ∷ 5 ∷ []));
    tst_info = at 5 stamp;
    raw_value = raw_value;
    issuer_and_serial = at 15 (record { issuer = raw [] (50 ∷ []); serial_number = pos 2 });
    cms_attribute = either (at 11 content_attribute) (at 12 digest_attribute);
    object_identifier = at 31 oid_tst_info;
  };
  x509 = record {
    parse_certificate = λ s.
        if s == (20 ∷ [])
        then some other_cert
        else if s == (21 ∷ [])
        then some signer_cert
        else none;
    check_signature = λ cert algo signed signature.
        if cert.raw == (21 ∷ []) then signed == (0x31 ∷ 11 ∷ 12 ∷ []) else false;
    verify = λ cert options. elim options.roots [ [] ↦ false | _ ↦ true ];
    sha256 = λ s. 25 ∷ s;
    sha384 = λ s. 38 ∷ s;
    sha512 = λ s. 51 ∷ s;
  };
}

trusted_run : verify_timestamp_trusted lib (1 ∷ []) hash (some (root ∷ [])) ≡ ok (pos 5)
unfolding verify_timestamp_trusted ◌==◌
trusted_run = refl

no_roots_run : verify_timestamp_trusted lib (1 ∷ []) hash none ≡ err no_trust_anchor
unfolding verify_timestamp_trusted ◌==◌
no_roots_run = refl

other_hash_run :
    verify_timestamp_trusted lib (1 ∷ []) (7 ∷ []) (some (root ∷ [])) ≡ err hash_mismatch
unfolding verify_timestamp_trusted ◌==◌
other_hash_run = refl

other_content_run : verify_signed_attrs_binding lib signer (6 ∷ []) ≡ err digest_mismatch
unfolding verify_signed_attrs_binding ◌==◌
other_content_run = refl

no_digest_run :
    verify_signed_attrs_binding lib
      (record signer { signed_attrs = raw [] (10 ∷ 11 ∷ []) })
      (5 ∷ [])
    ≡ err missing_message_digest
unfolding verify_signed_attrs_binding ◌==◌
no_digest_run = refl

verify_timestamp_trusted-eq-ok_iff_example :
    (roots : List Certificate) × (signed : Signed) × (some (root ∷ []) ≡ some roots)
    × IsStamped lib (1 ∷ []) hash signed
    × IsTrusted lib roots signed
    × (signed.tst.gen_time ≡ pos 5)
verify_timestamp_trusted-eq-ok_iff_example =
    (verify_timestamp_trusted-eq-ok_iff lib (1 ∷ []) hash (some (root ∷ [])) (pos 5)).0 trusted_run

bound_run : verify_signed_attrs_binding lib signer (5 ∷ []) ≡ ok tt
unfolding verify_signed_attrs_binding ◌==◌
bound_run = refl

verify_signed_attrs_binding-eq-ok_iff_example : IsBound lib signer (5 ∷ [])
verify_signed_attrs_binding-eq-ok_iff_example =
    (verify_signed_attrs_binding-eq-ok_iff lib signer (5 ∷ [])).0 bound_run

signer_run : extract_signer_cert lib signed_data.certificates signer ≡ ok signer_cert
unfolding extract_signer_cert ◌==◌
signer_run = refl

extract_signer_cert-eq-ok_iff_example :
    (signed_data.certificates.bytes ≢ [])
    × IsSignerCert lib signer (embedded lib signed_data.certificates) signer_cert
extract_signer_cert-eq-ok_iff_example =
    (extract_signer_cert-eq-ok_iff lib signed_data.certificates signer signer_cert).0 signer_run

raw_value-shrinks :
    (s rest : Text) (v : RawValue) → raw_value s ≡ some (v, rest) → length rest < length s
unfolding ◌==◌
raw_value-shrinks [] rest v h = cc
raw_value-shrinks (b ∷ s) rest v h = ground arith

read_values-Reads_example :
    Reads raw_value
      (20 ∷ 21 ∷ [])
      (read_values raw_value (20 ∷ 21 ∷ [])).items
      (read_values raw_value (20 ∷ 21 ∷ [])).complete
read_values-Reads_example = read_values-Reads raw_value raw_value-shrinks (20 ∷ 21 ∷ [])

abbrev links : List Link
links = root_link ∷ child_link ∷ []

-- A store with one token under every key.
abbrev token_store : Verify.Store World
token_store = record { put = λ k v w. (none, w); get = λ k w. (some (1 ∷ []), w) }

-- The token is a timestamp of the root receipt.
abbrev root_stamp : TstInfo
root_stamp = record {
  message_imprint = record {
    hash_algorithm = sha256_oid;
    hashed_message = env.sha256 root_link.jwt;
  };
  gen_time = pos 5;
}

abbrev root_lib : Library
root_lib = record lib { asn1 = record lib.asn1 { tst_info = at 5 root_stamp } }

-- The root's timestamp is valid, and the child's is not.
abbrev results : List TimestampResult
results =
    record { index = 0; valid = true; time = some (pos 5) }
    ∷ record { index = 1; valid = false; time = none }
    ∷ []

results_run :
    (verify_timestamps env
      (with_roots root_lib (some (root ∷ [])) deps)
      token_store
      0
      links
      fresh).0
    ≡ results
unfolding verify_timestamps verify_timestamp_trusted ◌==◌
results_run = refl

verify_timestamps-AllReported_example :
    AllReported env root_lib (some (root ∷ [])) deps token_store 0 links fresh results
unfolding verify_timestamps verify_timestamp_trusted ◌==◌
verify_timestamps-AllReported_example =
    verify_timestamps-AllReported env root_lib (some (root ∷ [])) deps token_store 0 links fresh
