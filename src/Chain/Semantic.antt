-- ===== src/Chain/Semantic.antt =====
-- Blocks D and E of Chain in drs-verify/pkg/verify/chain.go, in the order of execution: D3, D4,
-- D4b, D4c, D2, D1, then the times.
use drs.Prelude.{
  ℕ, suc, Bool, true, false, not, ◌&&◌, ◌||◌, List, [], ◌∷◌, Option, none, some, if◌then◌else◌,
  Result, ok, err, fail_if, ◌>>◌,
}
use drs.Prelude.Int.{ℤ, pos, ltb_ℤ, add64, sub64}
use drs.Prelude.Text.{Text, codes, ◌==◌, is_empty, strip_prefix, has_prefix}
use drs.Types.{
  Fields, invalid_root_cmd, command_mismatch, subject_mismatch, invocation_subject_mismatch,
  tool_server_mismatch, policy_escalation, temporal_bounds_violation, policy_violation,
  invocation_not_yet_valid, invocation_stale, not_yet_valid, expired,
}
use drs.Policy.Evaluate.{evaluate}
use drs.Policy.Attenuate.{check_attenuation}
use drs.Chain.Structure.{Verdict, Link, Decoded, all_links, leaf, fault, fault_at}

-- cmdIsSubpath
unfoldable pub cmd_is_subpath : Text → Text → Bool
cmd_is_subpath root_cmd cmd =
    if cmd == root_cmd
    then true
    else elim (strip_prefix root_cmd cmd) [ none ↦ false | some rest ↦ has_prefix rest (codes "/") ]

-- D3
unfoldable pub check_root_cmd : Text → Verdict
check_root_cmd cmd =
    fail_if (is_empty cmd || not (has_prefix cmd (codes "/"))) (fault invalid_root_cmd)

unfoldable pub check_cmds : ℕ → Link → List Link → Verdict
check_cmds i parent [] = ok tt
check_cmds i parent (l ∷ ls) =
    fail_if (not (cmd_is_subpath parent.cmd l.cmd)) (fault_at command_mismatch i)
    >> check_cmds (suc i) l ls

-- D4
unfoldable pub check_subjects : ℕ → Text → List Link → Verdict
check_subjects i root_sub [] = ok tt
check_subjects i root_sub (l ∷ ls) =
    fail_if (not (l.sub == root_sub)) (fault_at subject_mismatch i)
    >> check_subjects (suc i) root_sub ls

-- D4c: an unconfigured verifier takes only invocations that name no server
unfoldable pub check_tool_server : Text → Text → Verdict
check_tool_server identity tool_server =
    if not (is_empty identity)
    then fail_if (not (tool_server == identity)) (fault tool_server_mismatch)
    else fail_if (not (is_empty tool_server)) (fault tool_server_mismatch)

-- the expiry part of D2
abbrev pub exp_bounded : Option ℤ → Option ℤ → Bool
exp_bounded none child = true
exp_bounded (some p) none = false
exp_bounded (some p) (some c) = not (ltb_ℤ p c)

abbrev pub escalates {ℓ} : {E A : Type ℓ} → Result E A → Bool
escalates (ok a) = false
escalates (err e) = true

-- D2
unfoldable pub check_narrowing : ℕ → Link → List Link → Verdict
check_narrowing i parent [] = ok tt
check_narrowing i parent (l ∷ ls) =
    fail_if (escalates (check_attenuation parent.policy l.policy)) (fault_at policy_escalation i)
    >> fail_if (ltb_ℤ l.nbf parent.nbf) (fault_at temporal_bounds_violation i)
    >> fail_if (not (exp_bounded parent.exp l.exp)) (fault_at temporal_bounds_violation i)
    >> check_narrowing (suc i) l ls

-- D1
unfoldable pub check_policies : ℕ → Fields → List Link → Verdict
check_policies i args [] = ok tt
check_policies i args (l ∷ ls) =
    fail_if (escalates (evaluate l.policy args)) (fault_at policy_violation i)
    >> check_policies (suc i) args ls

unfoldable pub block_d : Text → Decoded → Verdict
block_d identity d = do
  check_root_cmd d.root.cmd
  check_cmds 1 d.root d.rest
  fail_if (not (cmd_is_subpath (leaf d).cmd d.invocation.cmd)) (fault command_mismatch)
  check_subjects 1 d.root.sub d.rest
  fail_if (not (d.invocation.sub == d.root.sub)) (fault invocation_subject_mismatch)
  check_tool_server identity d.invocation.tool_server
  check_narrowing 1 d.root d.rest
  check_policies 0 d.invocation.args (all_links d)

-- invocationClockSkew, in seconds
abbrev pub clock_skew : ℤ
clock_skew = pos 300

-- The sum and the difference are int64 arithmetic, which wraps.
unfoldable pub check_freshness : ℤ → ℤ → ℤ → Verdict
check_freshness max_age now iat =
    fail_if (ltb_ℤ (add64 now clock_skew) iat) (fault invocation_not_yet_valid)
    >> fail_if (ltb_ℤ (pos 0) max_age && ltb_ℤ max_age (sub64 now iat)) (fault invocation_stale)

abbrev pub has_expired : Option ℤ → ℤ → Bool
has_expired none now = false
has_expired (some e) now = ltb_ℤ e now

unfoldable pub check_times : ℕ → ℤ → List Link → Verdict
check_times i now [] = ok tt
check_times i now (l ∷ ls) =
    fail_if (ltb_ℤ now l.nbf) (fault_at not_yet_valid i)
    >> fail_if (has_expired l.exp now) (fault_at expired i)
    >> check_times (suc i) now ls

unfoldable pub block_e : ℤ → ℤ → Decoded → Verdict
block_e max_age now d =
    check_freshness max_age now d.invocation.iat >> check_times 0 now (all_links d)
