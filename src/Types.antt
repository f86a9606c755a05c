-- ===== src/Types.antt =====
-- The receipts and results of drs-verify/pkg/types/types.go. A pointer field is an `Option`, a
-- string its bytes, a nil slice the empty list, int64 a `ℤ` and uint64 a `ℕ`.
use drs.Prelude.{ℕ, Bool, true, false, List, [], Option, none, some, if◌then◌else◌}
use drs.Prelude.Int.{ℤ, Float64}
use drs.Prelude.Text.{Text, ◌==◌}

-- The values that an `interface{}` holds here. json.Unmarshal makes null, bool, float64, string,
-- array and object; the other numbers come from Go callers.
mutual
  pub data Value : Type 0 where
    null : Value
    bool : Bool → Value
    float64 : Float64 → Value
    float32 : Float64 → Value
    int : ℤ → Value
    int64 : ℤ → Value
    string : Text → Value
    array : Values → Value
    object : Fields → Value

  pub data Values : Type 0 where
    nil : Values
    item : Value → Values → Values

  pub data Fields : Type 0 where
    end : Fields
    field : Text → Value → Fields → Fields

-- m[k] of a map[string]interface{}
unfoldable pub lookup : Text → Fields → Option Value
lookup k end = none
lookup k (field j v m) = if j == k then some v else lookup k m

pub record Policy : Type 0 where
  pub max_cost_usd : Option Float64
  pub pii_access : Option Bool
  pub write_access : Option Bool
  pub max_calls : Option ℕ
  pub allowed_tools : List Text
  pub allowed_resources : List Text
  pub allowed_data_classes : List Text

pub record ConsentRecord : Type 0 where
  pub method : Text
  pub timestamp : Text
  pub session_id : Text
  pub policy_hash : Text
  pub locale : Text

pub record RegulatoryMetadata : Type 0 where
  pub frameworks : List Text
  pub risk_level : Text
  pub retention_days : ℕ

pub record DelegationReceipt : Type 0 where
  pub iss : Text
  pub sub : Text
  pub aud : Text
  pub drs_v : Text
  pub drs_type : Text
  pub cmd : Text
  pub policy : Policy
  pub nbf : ℤ
  pub exp : Option ℤ
  pub iat : ℤ
  pub jti : Text
  pub prev_dr_hash : Option Text
  pub drs_consent : Option ConsentRecord
  pub drs_root_type : Option Text
  pub drs_regulatory : Option RegulatoryMetadata
  pub drs_status_list_index : Option ℕ
  pub correlation_id : Option Text
  pub budget : Text

pub record InvocationReceipt : Type 0 where
  pub iss : Text
  pub sub : Text
  pub drs_v : Text
  pub drs_type : Text
  pub cmd : Text
  pub args : Fields
  pub dr_chain : List Text
  pub tool_server : Text
  pub iat : ℤ
  pub jti : Text
  pub result_hash : Option Text
  pub policy_evaluation : Option Text
  pub correlation_id : Option Text

pub record ChainBundle : Type 0 where
  pub bundle_version : Text
  pub invocation : Text
  pub receipts : List Text

pub record VerificationContext : Type 0 where
  pub root_principal : Text
  pub root_type : Option Text
  pub consent_record : Option ConsentRecord
  pub regulatory : Option RegulatoryMetadata
  pub leaf_policy : Policy
  pub chain_depth : ℕ
  pub session_id : Option Text
  pub correlation_id : Option Text

-- The machine-readable codes that the verifier returns.
pub data Code : Type 0 where
  empty_chain chain_too_deep missing_invocation malformed_receipt malformed_invocation : Code
  wrong_type version_mismatch invalid_jti chain_structure missing_consent invalid_consent : Code
  chain_break issuer_mismatch invoker_mismatch chain_reference_mismatch : Code
  signature_malleability unresolvable_did invalid_signature invalid_invocation_signature : Code
  invalid_root_cmd command_mismatch subject_mismatch invocation_subject_mismatch : Code
  tool_server_mismatch policy_escalation temporal_bounds_violation policy_violation : Code
  invocation_not_yet_valid invocation_stale not_yet_valid expired : Code
  revocation_check_failed revoked : Code

-- `Invalid` also carries a message and a suggestion for people, which are not modelled; the index
-- is that of the receipt that the message names.
pub record VerificationError : Type 0 where
  pub code : Code
  pub index : Option ℕ

-- `time` is the outcome on success: the token's time, or why it does not verify.
pub record TimestampResult : Type 0 where
  pub index : ℕ
  pub valid : Bool
  pub time : Option ℤ

pub record VerificationResult : Type 0 where
  pub valid : Bool
  pub context : Option VerificationContext
  pub error : Option VerificationError
  pub timestamps : List TimestampResult
  pub store_warnings : List Text
  pub binding : Text

-- types.Valid
unfoldable pub valid_result : VerificationContext → VerificationResult
valid_result ctx = record {
  valid = true;
  context = some ctx;
  error = none;
  timestamps = [];
  store_warnings = [];
  binding = [];
}

-- types.Invalid
unfoldable pub invalid_result : VerificationError → VerificationResult
invalid_result e = record {
  valid = false;
  context = none;
  error = some e;
  timestamps = [];
  store_warnings = [];
  binding = [];
}
