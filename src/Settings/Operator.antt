-- ===== src/Settings/Operator.antt =====
-- Validate, LoadFromFile and LoadFromEnv of drs-verify/pkg/operator/config.go.
use drs.Prelude.{
  Bool, false, not, ◌&&◌, ◌||◌, List, [], ◌∷◌, Option, none, some, eqb, if◌then◌else◌, Result, err,
  ok, fail_if, ◌>>=◌, ◌>>◌, any_of,
}
use drs.Prelude.Int.{ℤ, pos, negsuc, ltb_ℤ}
use drs.Prelude.Text.{Text, codes, ◌==◌, is_empty}
use drs.Types.{Policy}
use drs.Settings.Parse.{Environment}

-- RenewalRules
pub record RenewalRules : Type 0 where
  pub auto_renew : Bool
  pub session_ttl_hours : ℤ
  pub max_renewal_count : ℤ

-- Escalation
pub record Escalation : Type 0 where
  pub target_type : Text
  pub supervisor_did : Text
  pub fallback : Text

-- OperatorConfig
pub record OperatorConfig : Type 0 where
  pub drs_root_type : Text
  pub operator_did : Text
  pub operator_key_path : Text
  pub operator_key_management : Text
  pub standing_policy : Policy
  pub renewal_rules : RenewalRules
  pub escalation : Escalation
  pub storage_tier : ℤ

pub data Problem : Type 0 where
  invalid_root_type human_root missing_did missing_key_management : Problem
  unknown_key_management missing_key_path negative_ttl unknown_tier : Problem
  unreadable unparsed : Problem

abbrev pub root_types : List Text
root_types = codes "human" ∷ codes "organisation" ∷ codes "automated-system" ∷ []

abbrev pub key_managements : List Text
key_managements = codes "file" ∷ codes "env" ∷ []

unfoldable pub listed : Text → List Text → Bool
listed s names = any_of (λ n. s == n) names

abbrev pub is_tier : ℤ → Bool
is_tier (pos n) = eqb n 0 || eqb n 1 || eqb n 3 || eqb n 4
is_tier (negsuc n) = false

-- Validate
unfoldable pub validate : OperatorConfig → Result Problem (Unit {0})
validate c =
    fail_if (not (listed c.drs_root_type root_types)) invalid_root_type
    >> fail_if (c.drs_root_type == codes "human") human_root
    >> fail_if (is_empty c.operator_did) missing_did
    >> fail_if (is_empty c.operator_key_management) missing_key_management
    >> fail_if (not (listed c.operator_key_management key_managements)) unknown_key_management
    >> fail_if (c.operator_key_management == codes "file" && is_empty c.operator_key_path)
        missing_key_path
    >> fail_if (ltb_ℤ c.renewal_rules.session_ttl_hours (pos 0)) negative_ttl
    >> fail_if (not (is_tier c.storage_tier)) unknown_tier

abbrev pub parsed : Option OperatorConfig → Result Problem OperatorConfig
parsed none = err unparsed
parsed (some c) = validate c >> ok c

abbrev pub of_file : (Text → Option OperatorConfig) → Option Text → Result Problem OperatorConfig
of_file unmarshal none = err unreadable
of_file unmarshal (some content) = parsed (unmarshal content)

-- LoadFromFile over os.ReadFile and encoding/json
unfoldable pub load_from_file :
    (Text → Option Text) → (Text → Option OperatorConfig) → Text → Result Problem OperatorConfig
load_from_file read unmarshal path = of_file unmarshal (read path)

-- LoadFromEnv: nothing where the variable is not set
unfoldable pub load_from_env :
    (Text → Option Text)
    → (Text → Option OperatorConfig)
    → Environment
    → Result Problem (Option OperatorConfig)
load_from_env read unmarshal env =
    if is_empty (env (codes "DRS_OPERATOR_CONFIG"))
    then ok none
    else load_from_file read unmarshal (env (codes "DRS_OPERATOR_CONFIG")) >>= λ c. ok (some c)
