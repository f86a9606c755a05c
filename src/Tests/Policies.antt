-- ===== src/Tests/Policies.antt =====
-- The policies of Fixture through drs-verify/pkg/policy/evaluate.go.
use mathlib.Core.Option.{some-injective}
use drs.Prelude.{◌≡◌, ◌↔◌, refl, true, none, ok, any_of}
use drs.Prelude.Text.{◌==◌}
use drs.Types.{lookup}
use drs.Policy.Lists.{restricts_iff}
use drs.Policy.Evaluate.{
  has_wildcard, contains, tool_covered, class_covered, float_of_int, to_float64, check_cost,
  check_pii, check_write, restricts, check_tool, check_resource, check_class, evaluate,
}
use drs.Policy.Attenuate.{
  keep_cost, keep_pii, keep_write, keep_calls, each_listed, keep_list, keep_tools, keep_resources,
  keep_classes, check_attenuation,
}
use drs.Policy.Permits.{Permits, Restricts, evaluate-eq-ok_iff}
use drs.Policy.Narrowing.{IsExplicit, check_attenuation_sound, check_attenuation_omits}
use drs.Tests.Fixture.{parent_policy, child_policy, args}

attenuation_run : check_attenuation parent_policy child_policy ≡ ok tt
unfolding ◌==◌ any_of keep_cost keep_pii keep_write keep_calls each_listed keep_list keep_tools
    keep_resources keep_classes check_attenuation has_wildcard contains tool_covered restricts
    class_covered
attenuation_run = refl

evaluate_run : evaluate child_policy args ≡ ok tt
unfolding ◌==◌ any_of lookup has_wildcard contains tool_covered class_covered float_of_int
    to_float64 check_cost check_pii check_write restricts check_tool check_resource check_class
    evaluate
evaluate_run = refl

explicit : IsExplicit parent_policy child_policy
explicit = record {
  pii = λ h e. cc;
  write = λ h e. cc;
  limit = λ m h. rw (← some-injective _ _ h) refl;
}

restricts_run : restricts parent_policy.allowed_tools ≡ true
unfolding restricts has_wildcard any_of ◌==◌
restricts_run = refl

restricted : Restricts parent_policy.allowed_tools
restricted = (restricts_iff parent_policy.allowed_tools).0 restricts_run

evaluate-eq-ok_iff_example : (evaluate parent_policy args ≡ ok tt) ↔ Permits parent_policy args
evaluate-eq-ok_iff_example = evaluate-eq-ok_iff parent_policy args

check_attenuation_sound_example : evaluate parent_policy args ≡ ok tt
check_attenuation_sound_example =
    check_attenuation_sound parent_policy child_policy args explicit attenuation_run evaluate_run

-- The parent denies access to personal data; the child leaves the field out.
check_attenuation_omits_example :
    (check_attenuation parent_policy
        (record parent_policy { pii_access = none; write_access = none })
      ≡ ok tt)
    × (check_pii (record parent_policy { pii_access = none; write_access = none }) args ≡ ok tt)
    × (check_write (record parent_policy { pii_access = none; write_access = none }) args ≡ ok tt)
check_attenuation_omits_example = check_attenuation_omits parent_policy args
