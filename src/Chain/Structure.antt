-- ===== src/Chain/Structure.antt =====
-- Blocks A and B of Chain in drs-verify/pkg/verify/chain.go, with the decoding between them. Each
-- loop is a function over the receipts that remain; `i` is the index that its errors name.
use drs.Prelude.{
  ℕ, suc, Bool, true, false, not, List, [], ◌∷◌, Option, none, some, eqb, ltb, if◌then◌else◌,
  length, last_of, Result, ok, err, Checked, fail_if, ◌>>=◌, ◌>>◌,
}
use drs.Prelude.Text.{Text, codes, ◌==◌, is_empty, has_prefix, is_blank}
use drs.Types.{
  DelegationReceipt, InvocationReceipt, ChainBundle, ConsentRecord, Code, VerificationError,
  empty_chain, chain_too_deep, missing_invocation, malformed_receipt, malformed_invocation,
  wrong_type, version_mismatch, invalid_jti, chain_structure, missing_consent, invalid_consent,
  chain_break, issuer_mismatch, invoker_mismatch, chain_reference_mismatch,
}
use drs.Chain.Jwt.{Env, compute_chain_hash, decode_receipt, decode_invocation}

abbrev pub Verdict : Type 0
Verdict = Checked VerificationError

-- types.Invalid with no receipt named, and with one
abbrev pub fault : Code → VerificationError
fault c = record { code = c; index = none }

abbrev pub fault_at : Code → ℕ → VerificationError
fault_at c i = record { code = c; index = some i }

-- A receipt beside the JWT that it was decoded from.
pub record Link : Type 0 where
  pub jwt : Text
  pub receipt : DelegationReceipt
  pub open receipt use *

-- receipts[0], the other receipts, and the invocation
pub record Decoded : Type 0 where
  pub root : Link
  pub rest : List Link
  pub invocation_jwt : Text
  pub invocation : InvocationReceipt

abbrev pub all_links : Decoded → List Link
all_links d = d.root ∷ d.rest

abbrev pub leaf : Decoded → Link
leaf d = last_of d.root d.rest

abbrev pub max_chain_depth : ℕ
max_chain_depth = 16

abbrev pub expected_drs_version : Text
expected_drs_version = codes "4.0"

abbrev pub expected_dr_type : Text
expected_dr_type = codes "delegation-receipt"

abbrev pub expected_inv_type : Text
expected_inv_type = codes "invocation-receipt"

-- Block A
unfoldable pub block_a : ChainBundle → Verdict
block_a bundle =
    fail_if (eqb (length bundle.receipts) 0) (fault empty_chain)
    >> fail_if (ltb max_chain_depth (length bundle.receipts)) (fault chain_too_deep)
    >> fail_if (is_empty bundle.invocation) (fault missing_invocation)

-- B1, over the receipts
unfoldable pub check_types : ℕ → List Link → Verdict
check_types i [] = ok tt
check_types i (l ∷ ls) =
    fail_if (not (l.drs_type == expected_dr_type)) (fault_at wrong_type i)
    >> fail_if (not (l.drs_v == expected_drs_version)) (fault_at version_mismatch i)
    >> check_types (suc i) ls

unfoldable pub check_invocation_type : InvocationReceipt → Verdict
check_invocation_type inv =
    fail_if (not (inv.drs_type == expected_inv_type)) (fault wrong_type)
    >> fail_if (not (inv.drs_v == expected_drs_version)) (fault version_mismatch)

-- B1b
unfoldable pub check_jtis : ℕ → List Link → Verdict
check_jtis i [] = ok tt
check_jtis i (l ∷ ls) =
    fail_if (not (has_prefix l.jti (codes "dr:"))) (fault_at invalid_jti i) >> check_jtis (suc i) ls

unfoldable pub check_invocation_jti : InvocationReceipt → Verdict
check_invocation_jti inv = fail_if (not (has_prefix inv.jti (codes "inv:"))) (fault invalid_jti)

-- validateConsentRecord: the first field that is empty
pub data ConsentField : Type 0 where
  method timestamp session_id policy_hash : ConsentField

unfoldable pub validate_consent_record : ConsentRecord → Option ConsentField
validate_consent_record c =
    if is_blank c.method
    then some method
    else if is_blank c.timestamp
    then some timestamp
    else if is_blank c.session_id
    then some session_id
    else if is_blank c.policy_hash
    then some policy_hash
    else none

abbrev pub is_set {ℓ} : {A : Type ℓ} → Option A → Bool
is_set none = false
is_set (some a) = true

abbrev pub is_human : Option Text → Bool
is_human none = false
is_human (some t) = t == codes "human"

abbrev pub check_consent : Option ConsentRecord → Verdict
check_consent none = err (fault_at missing_consent 0)
check_consent (some c) = fail_if (is_set (validate_consent_record c)) (fault_at invalid_consent 0)

-- B2
unfoldable pub check_root : DelegationReceipt → Verdict
check_root r =
    fail_if (is_set r.prev_dr_hash) (fault_at chain_structure 0)
    >> (if is_human r.drs_root_type then check_consent r.drs_consent else ok tt)

abbrev pub hash_is : Option Text → Text → Bool
hash_is none expected = false
hash_is (some claimed) expected = claimed == expected

module _ (env : Env) where
  unfoldable pub decode_links : ℕ → List Text → Result VerificationError (List Link)
  decode_links i [] = ok []
  decode_links i (jwt ∷ jwts) = elim (decode_receipt env jwt) [
    | none ↦ err (fault_at malformed_receipt i)
    | some r ↦ do ls ← decode_links (suc i) jwts; ok (record { jwt = jwt; receipt = r } ∷ ls)
  ]

  -- Block A has excluded the empty list.
  abbrev pub with_invocation : Text → List Link → Result VerificationError Decoded
  with_invocation jwt [] = err (fault empty_chain)
  with_invocation jwt (l ∷ ls) = elim (decode_invocation env jwt) [
    | none ↦ err (fault malformed_invocation)
    | some inv ↦ ok (record { root = l; rest = ls; invocation_jwt = jwt; invocation = inv })
  ]

  unfoldable pub decode_all : ChainBundle → Result VerificationError Decoded
  decode_all bundle = do
    links ← decode_links 0 bundle.receipts
    with_invocation bundle.invocation links

  -- B3: a missing hash and a wrong one have the same code
  unfoldable pub check_hashes : ℕ → Link → List Link → Verdict
  check_hashes i parent [] = ok tt
  check_hashes i parent (l ∷ ls) =
      fail_if (not (hash_is l.prev_dr_hash (compute_chain_hash env parent.jwt)))
        (fault_at chain_break i)
      >> check_hashes (suc i) l ls

  -- the loop of B6; the lengths were compared before it
  unfoldable pub check_references : ℕ → List Text → List Link → Verdict
  check_references i hashes [] = ok tt
  check_references i [] (l ∷ ls) = err (fault_at chain_reference_mismatch i)
  check_references i (h ∷ hs) (l ∷ ls) =
      fail_if (not (h == compute_chain_hash env l.jwt)) (fault_at chain_reference_mismatch i)
      >> check_references (suc i) hs ls

-- B4
unfoldable pub check_issuers : ℕ → Link → List Link → Verdict
check_issuers i parent [] = ok tt
check_issuers i parent (l ∷ ls) =
    fail_if (not (l.iss == parent.aud)) (fault_at issuer_mismatch i) >> check_issuers (suc i) l ls

module _ (env : Env) where
  -- B6
  unfoldable pub check_dr_chain : Decoded → Verdict
  check_dr_chain d =
      fail_if (not (eqb (length d.invocation.dr_chain) (length (all_links d))))
        (fault chain_reference_mismatch)
      >> check_references env 0 d.invocation.dr_chain (all_links d)

  unfoldable pub block_b : Decoded → Verdict
  block_b d = do
    check_types 0 (all_links d)
    check_invocation_type d.invocation
    check_jtis 0 (all_links d)
    check_invocation_jti d.invocation
    check_root d.root.receipt
    check_hashes env 1 d.root d.rest
    check_issuers 1 d.root d.rest
    fail_if (not (d.invocation.iss == (leaf d).aud)) (fault invoker_mismatch)
    check_dr_chain d
