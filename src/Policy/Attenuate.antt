-- ===== src/Policy/Attenuate.antt =====
-- CheckAttenuation of drs-verify/pkg/policy/evaluate.go: one function for each block, in order.
use drs.Prelude.{
  Bool, true, false, not, List, [], ◌∷◌, Option, none, some, ltb, if◌then◌else◌, ok, err, Checked,
  fail_if, ◌>>◌,
}
use drs.Prelude.Int.{fgt}
use drs.Prelude.Text.{Text, ◌==◌}
use drs.Types.{Policy}
use drs.Policy.Uri.{wildcard}
use drs.Policy.Evaluate.{contains, restricts}

-- One constructor for each error that CheckAttenuation returns.
pub data Escalation : Type 0 where
  cost_omitted cost_loosened pii_relaxed write_relaxed calls_omitted calls_loosened : Escalation
  tools_omitted tools_wildcard tools_added : Escalation
  resources_omitted resources_wildcard resources_added : Escalation
  classes_omitted classes_added : Escalation

-- A limit of the parent must be stated by the child, and not raised.
abbrev pub keep_limit :
    {A : Type 0}
    → (A → A → Bool)
    → Escalation
    → Escalation
    → Option A
    → Option A
    → Checked Escalation
keep_limit gt omitted loosened none child = ok tt
keep_limit gt omitted loosened (some p) none = err omitted
keep_limit gt omitted loosened (some p) (some c) = fail_if (gt c p) loosened

-- Only an explicit grant below a denial is refused.
abbrev pub keep_denial : Escalation → Option Bool → Option Bool → Checked Escalation
keep_denial relaxed (some false) (some true) = err relaxed
keep_denial relaxed _ _ = ok tt

unfoldable pub keep_cost : Policy → Policy → Checked Escalation
keep_cost parent child =
    keep_limit fgt cost_omitted cost_loosened parent.max_cost_usd child.max_cost_usd

unfoldable pub keep_pii : Policy → Policy → Checked Escalation
keep_pii parent child = keep_denial pii_relaxed parent.pii_access child.pii_access

unfoldable pub keep_write : Policy → Policy → Checked Escalation
keep_write parent child = keep_denial write_relaxed parent.write_access child.write_access

unfoldable pub keep_calls : Policy → Policy → Checked Escalation
keep_calls parent child =
    keep_limit (λ c p. ltb p c) calls_omitted calls_loosened parent.max_calls child.max_calls

-- the loop over the child's list
unfoldable pub each_listed : Escalation → Escalation → List Text → List Text → Checked Escalation
each_listed wild added parent [] = ok tt
each_listed wild added parent (x ∷ xs) =
    fail_if (x == wildcard) wild
    >> fail_if (not (contains parent x)) added
    >> each_listed wild added parent xs

unfoldable pub keep_list :
    Escalation → Escalation → Escalation → List Text → List Text → Checked Escalation
keep_list omitted wild added parent [] = if restricts parent then err omitted else ok tt
keep_list omitted wild added parent (x ∷ xs) =
    if restricts parent then each_listed wild added parent (x ∷ xs) else ok tt

unfoldable pub keep_tools : Policy → Policy → Checked Escalation
keep_tools parent child =
    keep_list tools_omitted tools_wildcard tools_added parent.allowed_tools child.allowed_tools

unfoldable pub keep_resources : Policy → Policy → Checked Escalation
keep_resources parent child =
    keep_list resources_omitted resources_wildcard resources_added parent.allowed_resources
      child.allowed_resources

-- A wildcard among the classes is reported as an added class.
unfoldable pub keep_classes : Policy → Policy → Checked Escalation
keep_classes parent child =
    keep_list classes_omitted classes_added classes_added parent.allowed_data_classes
      child.allowed_data_classes

unfoldable pub check_attenuation : Policy → Policy → Checked Escalation
check_attenuation parent child = do
  keep_cost parent child
  keep_pii parent child
  keep_write parent child
  keep_calls parent child
  keep_tools parent child
  keep_resources parent child
  keep_classes parent child
