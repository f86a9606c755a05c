-- ===== src/Chain/Authorised.antt =====
-- What Block D of drs-verify/pkg/verify/chain.go establishes, stated without its loops.
use drs.Prelude.{
  ℕ, suc, ◌≡◌, ◌↔◌, refl, true, false, not, List, [], ◌∷◌, Option, none, some, arith, All, Result,
  ok, err, >>=-eq-ok,
}
use drs.Prelude.Int.{ℤ, ◌≤ℤ◌, ltb_ℤ}
use drs.Prelude.Text.{Text, codes, is_empty, has_prefix}
use drs.Types.{Fields}
use drs.Policy.Evaluate.{evaluate}
use drs.Policy.Attenuate.{check_attenuation}
use drs.Chain.Structure.{Link, Decoded, all_links, leaf}
use drs.Chain.Semantic.{
  check_root_cmd, check_cmds, check_subjects, check_tool_server, exp_bounded, escalates,
  check_narrowing, check_policies, block_d,
}
use drs.Chain.Links.{
  Linked, Linked-All, passed, passed_last, passed_three, not-eq-false, same_text, same_text_passes,
}
use drs.Chain.Commands.{Subpath, Subpath-trans, cmd_is_subpath_iff}

-- A bounded parent has a bounded child, which ends no later.
abbrev pub ExpBounded : Option ℤ → Option ℤ → Type 0
ExpBounded none child = Unit
ExpBounded (some p) none = ⊥
ExpBounded (some p) (some c) = c ≤ℤ p

pub record Narrows (p l : Link) : Type 0 where
  pub policy : check_attenuation p.policy l.policy ≡ ok tt
  pub nbf : p.nbf ≤ℤ l.nbf
  pub exp : ExpBounded p.exp l.exp

abbrev pub Cmd : Link → Link → Type 0
Cmd p l = Subpath p.cmd l.cmd

pub record Authorised (identity : Text) (d : Decoded) : Type 0 where
  pub root_cmd : has_prefix d.root.cmd (codes "/") ≡ true
  pub cmds : Linked Cmd d.root d.rest
  pub leaf_cmd : Subpath (leaf d).cmd d.invocation.cmd
  pub subjects : All (λ l. l.sub ≡ d.root.sub) d.rest
  pub invocation_subject : d.invocation.sub ≡ d.root.sub
  pub server : d.invocation.tool_server ≡ identity
  pub narrowing : Linked Narrows d.root d.rest
  pub policies : All (λ l. evaluate l.policy d.invocation.args ≡ ok tt) (all_links d)

-- An absolute path is not empty.
check_root_cmd_iff :
    (cmd : Text) → (check_root_cmd cmd ≡ ok tt) ↔ (has_prefix cmd (codes "/") ≡ true)
unfolding check_root_cmd has_prefix
check_root_cmd_iff [] = (λ h. cc, λ h. ground arith)
check_root_cmd_iff (c ∷ s) = (λ h. not-eq-false _ (passed_last _ _ h), λ h. rw h)

check_cmds_iff : (i : ℕ) (p : Link) (ls : List Link) → (check_cmds i p ls ≡ ok tt) ↔ Linked Cmd p ls
unfolding check_cmds
check_cmds_iff i p [] = (λ h. tt, λ h. refl)
check_cmds_iff i p (l ∷ ls) = (
  λ h.
      let (a, h1) = passed _ _ _ h in
      ((cmd_is_subpath_iff _ _).0 (not-eq-false _ a), (check_cmds_iff (suc i) l ls).0 h1),
  λ h. rw ((cmd_is_subpath_iff _ _).1 h.0) ((check_cmds_iff (suc i) l ls).1 h.1),
)

check_subjects_iff :
    (i : ℕ) (s : Text) (ls : List Link) → (check_subjects i s ls ≡ ok tt) ↔ All (λ l. l.sub ≡ s) ls
unfolding check_subjects
check_subjects_iff i s [] = (λ h. tt, λ h. refl)
check_subjects_iff i s (l ∷ ls) = (
  λ h. let (a, h1) = passed _ _ _ h in (same_text _ _ a, (check_subjects_iff (suc i) s ls).0 h1),
  λ h. rw (same_text_passes _ _ h.0) ((check_subjects_iff (suc i) s ls).1 h.1),
)

empty_iff : (s : Text) → (is_empty s ≡ true) ↔ (s ≡ [])
empty_iff [] = (λ h. refl, λ h. refl)
empty_iff (a ∷ s) = (λ h. cc, λ h. cc)

-- D4c accepts an invocation exactly where its tool_server is the configured identity; where none
-- is configured both are empty.
pub check_tool_server-eq-ok_iff :
    (identity server : Text) → (check_tool_server identity server ≡ ok tt) ↔ (server ≡ identity)
unfolding check_tool_server
check_tool_server-eq-ok_iff [] server = (
  λ h. (empty_iff server).0 (not-eq-false _ (passed_last _ _ h)),
  λ h. rw ((empty_iff server).1 h),
)
check_tool_server-eq-ok_iff (a ∷ s) server =
    (λ h. same_text _ _ (passed_last _ _ h), λ h. rw (same_text_passes _ _ h))

escalates_iff : {E : Type 0} (r : Result E (Unit {0})) → (escalates r ≡ false) ↔ (r ≡ ok tt)
escalates_iff (ok u) = (λ h. refl, λ h. refl)
escalates_iff (err e) = (λ h. cc, λ h. cc)

exp_bounded_iff : (p c : Option ℤ) → (not (exp_bounded p c) ≡ false) ↔ ExpBounded p c
exp_bounded_iff none c = (λ h. tt, λ h. refl)
exp_bounded_iff (some p) none = (λ h. cc, λ h. absurd h)
exp_bounded_iff (some p) (some c) = (λ h. ground arith, λ h. ground arith)

not_before_iff : (a b : ℤ) → (ltb_ℤ b a ≡ false) ↔ (a ≤ℤ b)
not_before_iff a b = (λ h. ground arith, λ h. ground arith)

check_narrowing_iff :
    (i : ℕ) (p : Link) (ls : List Link) → (check_narrowing i p ls ≡ ok tt) ↔ Linked Narrows p ls
unfolding check_narrowing
check_narrowing_iff i p [] = (λ h. tt, λ h. refl)
check_narrowing_iff i p (l ∷ ls) = (
  λ h.
      let (a, b, c, h1) = passed_three _ _ _ _ _ _ _ h in
      (
        record {
          policy = (escalates_iff _).0 a;
          nbf = (not_before_iff p.nbf l.nbf).0 b;
          exp = (exp_bounded_iff p.exp l.exp).0 c;
        },
        (check_narrowing_iff (suc i) l ls).0 h1,
      ),
  λ h.
      rw
        (
          h.0.policy,
          (not_before_iff p.nbf l.nbf).1 h.0.nbf,
          (exp_bounded_iff p.exp l.exp).1 h.0.exp,
        )
        ((check_narrowing_iff (suc i) l ls).1 h.1),
)

check_policies_iff :
    (i : ℕ) (args : Fields) (ls : List Link)
    → (check_policies i args ls ≡ ok tt) ↔ All (λ l. evaluate l.policy args ≡ ok tt) ls
unfolding check_policies
check_policies_iff i args [] = (λ h. tt, λ h. refl)
check_policies_iff i args (l ∷ ls) = (
  λ h.
      let (a, h1) = passed _ _ _ h in
      ((escalates_iff _).0 a, (check_policies_iff (suc i) args ls).0 h1),
  λ h. rw h.0 ((check_policies_iff (suc i) args ls).1 h.1),
)

block_d_sound : (identity : Text) (d : Decoded) → block_d identity d ≡ ok tt → Authorised identity d
unfolding block_d
block_d_sound identity d h =
    let (_, a, h1) = >>=-eq-ok _ _ h in
    let (_, b, h2) = >>=-eq-ok _ _ h1 in
    let (c, h3) = passed _ _ _ h2 in
    let (_, e, h4) = >>=-eq-ok _ _ h3 in
    let (f, h5) = passed _ _ _ h4 in
    let (_, g, h6) = >>=-eq-ok _ _ h5 in
    let (_, k, m) = >>=-eq-ok _ _ h6 in
    record {
      root_cmd = (check_root_cmd_iff _).0 a;
      cmds = (check_cmds_iff 1 d.root d.rest).0 b;
      leaf_cmd = (cmd_is_subpath_iff _ _).0 (not-eq-false _ c);
      subjects = (check_subjects_iff 1 d.root.sub d.rest).0 e;
      invocation_subject = same_text _ _ f;
      server = (check_tool_server-eq-ok_iff _ _).0 g;
      narrowing = (check_narrowing_iff 1 d.root d.rest).0 k;
      policies = (check_policies_iff 0 d.invocation.args (all_links d)).0 m;
    }

block_d_complete :
    (identity : Text) (d : Decoded) → Authorised identity d → block_d identity d ≡ ok tt
unfolding block_d
block_d_complete identity d w = rw (
  (check_root_cmd_iff _).1 w.root_cmd,
  (check_cmds_iff 1 d.root d.rest).1 w.cmds,
  (cmd_is_subpath_iff _ _).1 w.leaf_cmd,
  (check_subjects_iff 1 d.root.sub d.rest).1 w.subjects,
  same_text_passes _ _ w.invocation_subject,
  (check_tool_server-eq-ok_iff _ _).1 w.server,
  (check_narrowing_iff 1 d.root d.rest).1 w.narrowing,
  (check_policies_iff 0 d.invocation.args (all_links d)).1 w.policies,
)

-- Block D accepts a decoded bundle exactly where it is authorised: the root's command is an
-- absolute path, each command is a sub-path of the one before it and the invocation's of the
-- leaf's, all subjects agree, the tool server is the configured one, every receipt attenuates its
-- parent in policy, activation and expiry, and every policy accepts the invocation's arguments.
pub block_d-eq-ok_iff :
    (identity : Text) (d : Decoded) → (block_d identity d ≡ ok tt) ↔ Authorised identity d
block_d-eq-ok_iff identity d = (block_d_sound identity d, block_d_complete identity d)

-- Where Block D passes, the invocation's command lies below the command of every receipt, not only of the leaf.
pub block_d-Subpath :
    (identity : Text) (d : Decoded)
    → block_d identity d ≡ ok tt
    → All (λ l. Subpath l.cmd d.invocation.cmd) (all_links d)
block_d-Subpath identity d h =
    let w = block_d_sound identity d h in
    Linked-All Cmd (λ l. Subpath l.cmd d.invocation.cmd)
      (λ a b r s. Subpath-trans a.cmd b.cmd d.invocation.cmd r s) d.root d.rest w.cmds w.leaf_cmd
