-- ===== src/Settings/Validated.antt =====
-- What an operator configuration that drs-verify/pkg/operator/config.go loads is sure of.
use drs.Prelude.{
  Bool, true, false, not, ◌&&◌, Option, none, some, ok, fail_if, ◌>>◌, >>=-eq-ok, ok-injective,
  any_of, arith, ◌≡◌, ◌⊎◌, inl, inr, refl, sym, subst, Bool-cases,
}
use drs.Prelude.Int.{pos, ◌≤ℤ◌}
use drs.Prelude.Text.{Text, codes, ◌==◌, ==_iff, is_empty}
use drs.Settings.Parse.{Environment}
use drs.Settings.Operator.{
  OperatorConfig, listed, is_tier, root_types, key_managements, validate, parsed, of_file,
  load_from_file, load_from_env,
}

passed_all :
    {E : Type 0} (a b c d f g h i : Bool) (e1 e2 e3 e4 e5 e6 e7 e8 : E)
    → (fail_if a e1
        >> fail_if b e2
        >> fail_if c e3
        >> fail_if d e4
        >> fail_if f e5
        >> fail_if g e6
        >> fail_if h e7
        >> fail_if i e8)
      ≡ ok tt
    → (a ≡ false)
      × (b ≡ false)
      × (c ≡ false)
      × (d ≡ false)
      × (f ≡ false)
      × (g ≡ false)
      × (h ≡ false)
      × (i ≡ false)
passed_all true b c d f g h i e1 e2 e3 e4 e5 e6 e7 e8 p = cc
passed_all false true c d f g h i e1 e2 e3 e4 e5 e6 e7 e8 p = cc
passed_all false false true d f g h i e1 e2 e3 e4 e5 e6 e7 e8 p = cc
passed_all false false false true f g h i e1 e2 e3 e4 e5 e6 e7 e8 p = cc
passed_all false false false false true g h i e1 e2 e3 e4 e5 e6 e7 e8 p = cc
passed_all false false false false false true h i e1 e2 e3 e4 e5 e6 e7 e8 p = cc
passed_all false false false false false false true i e1 e2 e3 e4 e5 e6 e7 e8 p = cc
passed_all false false false false false false false true e1 e2 e3 e4 e5 e6 e7 e8 p = cc
passed_all false false false false false false false false e1 e2 e3 e4 e5 e6 e7 e8 p =
    (refl, refl, refl, refl, refl, refl, refl, refl)

-- A root that is no human, with a DID, a key that can be loaded, and a tier that exists.
abbrev pub IsValid : OperatorConfig → Type 0
IsValid c =
    ((c.drs_root_type ≡ codes "organisation") ⊎ (c.drs_root_type ≡ codes "automated-system"))
    × (is_empty c.operator_did ≡ false)
    × (((c.operator_key_management ≡ codes "file") × (is_empty c.operator_key_path ≡ false))
        ⊎ (c.operator_key_management ≡ codes "env"))
    × (pos 0 ≤ℤ c.renewal_rules.session_ttl_hours)
    × (is_tier c.storage_tier ≡ true)

not-false : (b : Bool) → not b ≡ false → b ≡ true
not-false true h = refl
not-false false h = cc

root_cases :
    (s : Text)
    → listed s root_types ≡ true
    → (s == codes "human") ≡ false
    → (s ≡ codes "organisation") ⊎ (s ≡ codes "automated-system")
unfolding listed any_of
root_cases s h human = elim (Bool-cases (s == codes "organisation")) [
  | inl org ↦ inl ((==_iff s (codes "organisation")).0 org)
  | inr other ↦ elim (Bool-cases (s == codes "automated-system")) [
    | inl auto ↦ inr ((==_iff s (codes "automated-system")).0 auto)
    | inr neither ↦ cc (rw (human, other, neither, listed, any_of) at h)
  ]
]

key_cases :
    (s path : Text)
    → listed s key_managements ≡ true
    → (s == codes "file" && is_empty path) ≡ false
    → ((s ≡ codes "file") × (is_empty path ≡ false)) ⊎ (s ≡ codes "env")
unfolding listed any_of
key_cases s path h given = elim (Bool-cases (s == codes "file")) [
  | inl file ↦ inl ((==_iff s (codes "file")).0 file, rw file at given)
  | inr other ↦ elim (Bool-cases (s == codes "env")) [
    | inl env ↦ inr ((==_iff s (codes "env")).0 env)
    | inr neither ↦ cc (rw (other, neither, listed, any_of) at h)
  ]
]

validate_sound : (c : OperatorConfig) → validate c ≡ ok tt → IsValid c
unfolding validate
validate_sound c h =
    let (root, human, did, key, known, path, ttl, tier) =
      passed_all _ _ _ _ _ _ _ _ _ _ _ _ _ _ _ _ h in
    (
      root_cases c.drs_root_type (not-false _ root) human,
      did,
      key_cases c.operator_key_management c.operator_key_path (not-false _ known) path,
      ground (arith, ttl),
      not-false _ tier,
    )

parsed_sound : (o : Option OperatorConfig) (c : OperatorConfig) → parsed o ≡ ok c → IsValid c
parsed_sound none c h = cc
parsed_sound (some d) c h =
    let (unit, passed, same) = >>=-eq-ok (validate d) (λ u. ok d) h in
    subst IsValid (ok-injective same) (validate_sound d passed)

of_file_sound :
    (unmarshal : Text → Option OperatorConfig) (o : Option Text) (c : OperatorConfig)
    → of_file unmarshal o ≡ ok c
    → IsValid c
of_file_sound unmarshal none c h = cc
of_file_sound unmarshal (some content) c h = parsed_sound (unmarshal content) c h

-- A configuration that LoadFromEnv returns is valid; it returns none only where the variable is not
-- set.
pub load_from_env_sound :
    (read : Text → Option Text) (unmarshal : Text → Option OperatorConfig) (env : Environment)
    (o : Option OperatorConfig)
    → load_from_env read unmarshal env ≡ ok o
    → ((o ≡ none) × (is_empty (env (codes "DRS_OPERATOR_CONFIG")) ≡ true))
      ⊎ ((c : OperatorConfig) × (o ≡ some c) × IsValid c)
unfolding load_from_env load_from_file
load_from_env_sound read unmarshal env o h =
    elim (Bool-cases (is_empty (env (codes "DRS_OPERATOR_CONFIG")))) [
      | inl unset ↦ inl (sym (ok-injective (rw (unset, load_from_env) at h)), unset)
      | inr set ↦
          let (c, loaded, same) =
            >>=-eq-ok (load_from_file read unmarshal (env (codes "DRS_OPERATOR_CONFIG")))
              (λ c. ok (some c)) (rw (set, load_from_env) at h) in
          let valid : IsValid c = unfold load_from_file in of_file_sound unmarshal _ c loaded in
          inr (c, sym (ok-injective same), valid)
    ]
