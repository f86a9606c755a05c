-- ===== src/Policy/Permits.antt =====
-- What a policy permits, stated without the code's order of tests, and Evaluate against it.
use drs.Prelude.{
  ◌≡◌, ◌≢◌, ◌↔◌, refl, Bool, true, false, ◌||◌, List, [], ◌∷◌, inl, inr, Option, none, some, arith,
  any_of, Some, Some-mono, any_of-Some, Some-any_of, Bool-cases, Option-cases, ok, >>=-eq-ok,
}
use drs.Prelude.Int.{Float64, fgt, fzero}
use drs.Prelude.Text.{Text, codes, ◌==◌, ==_iff}
use drs.Types.{Value, bool, string, Fields, lookup, Policy}
use drs.Policy.Uri.{wildcard, resource_covered}
use drs.Policy.Evaluate.{
  Violation, to_float64, restricts, check_cost, check_pii, check_write, check_tool, check_resource,
  check_class, evaluate, tool_covered, class_covered, cost_within, text_covered, flag_denied,
  check_flag, check_list,
}
use drs.Policy.Lists.{Listed, restricts_iff}

-- The list has entries and no wildcard.
abbrev pub Restricts : List Text → Type 0
Restricts xs = (xs ≢ []) × (¬ Listed wildcard xs)

-- The invocation claims a cost that is a finite number between zero and the limit.
abbrev pub CostWithin : Policy → Fields → Type 0
CostWithin pol args =
    (limit : Float64)
    → pol.max_cost_usd ≡ some limit
    → (raw : Value) × (cost : Float64) × (lookup (codes "estimated_cost_usd") args ≡ some raw)
      × (to_float64 raw ≡ some cost)
      × (fgt fzero cost ≡ false)
      × (fgt cost limit ≡ false)

-- The argument is there, is a string, and has the property.
abbrev pub TextArg : Text → Fields → (Text → Type 0) → Type 0
TextArg key args P = (s : Text) × (lookup key args ≡ some (string s)) × P s

pub record Permits (pol : Policy) (args : Fields) : Type 0 where
  pub cost : CostWithin pol args
  pub pii : pol.pii_access ≡ some false → lookup (codes "pii_access") args ≡ some (bool false)
  pub write : pol.write_access ≡ some false → lookup (codes "write_access") args ≡ some (bool false)
  pub tool :
      Restricts pol.allowed_tools → TextArg (codes "tool") args (λ s. Listed s pol.allowed_tools)
  pub resource :
      Restricts pol.allowed_resources
      → TextArg (codes "resource_uri") args (λ s. resource_covered s pol.allowed_resources ≡ true)
  pub data_class :
      Restricts pol.allowed_data_classes
      → TextArg (codes "data_class") args (λ s. Listed s pol.allowed_data_classes)

module _ (limit : Float64) where
  cost_within_sound :
      (found : Option Value)
      → cost_within limit found ≡ ok tt
      → (raw : Value) × (cost : Float64) × (found ≡ some raw)
        × (to_float64 raw ≡ some cost)
        × (fgt fzero cost ≡ false)
        × (fgt cost limit ≡ false)
  cost_within_sound none h = cc
  cost_within_sound (some raw) h = elim (Option-cases (to_float64 raw)) [
    | inl bad ↦ cc (rw bad at h)
    | inr (cost, e) ↦ (raw, cost, refl, e, ground arith, ground arith)
  ]

check_cost_iff :
    (pol : Policy) (args : Fields) → (check_cost pol args ≡ ok tt) ↔ CostWithin pol args
unfolding check_cost
check_cost_iff pol args = (
  λ h limit e. cost_within_sound limit _ (rw e at h),
  λ c. elim (Option-cases pol.max_cost_usd) [
    | inl e ↦ rw e
    | inr (limit, e) ↦
        let (raw, cost, found, number, low, high) = c limit e in rw (e, found, number, low, high)
  ],
)

module _ (missing ill_typed denied : Violation) where
  flag_denied_iff :
      (found : Option Value)
      → (flag_denied missing ill_typed denied found ≡ ok tt) ↔ (found ≡ some (bool false))
  flag_denied_iff none = (λ h. cc, λ h. cc)
  flag_denied_iff (some (bool claimed)) = (λ h. ground arith, λ h. ground arith)
  flag_denied_iff (some _) = (λ h. cc, λ h. cc)

  text_covered_sound :
      (covered : Text → Bool) (found : Option Value)
      → text_covered missing ill_typed denied covered found ≡ ok tt
      → (s : Text) × (found ≡ some (string s)) × (covered s ≡ true)
  text_covered_sound covered none h = cc
  text_covered_sound covered (some (string s)) h = (s, refl, ground arith)
  text_covered_sound covered (some _) h = cc

  check_flag_iff :
      (flag : Option Bool) (found : Option Value)
      → (check_flag missing ill_typed denied flag found ≡ ok tt)
        ↔ (flag ≡ some false → found ≡ some (bool false))
  check_flag_iff none found = (λ h e. cc, λ h. refl)
  check_flag_iff (some true) found = (λ h e. cc, λ h. refl)
  check_flag_iff (some false) found =
      (λ h e. (flag_denied_iff found).0 h, λ h. (flag_denied_iff found).1 (h refl))

  check_list_iff :
      (xs : List Text) (covered : Text → Bool) (found : Option Value)
      → (check_list missing ill_typed denied xs covered found ≡ ok tt)
        ↔ (Restricts xs → (s : Text) × (found ≡ some (string s)) × (covered s ≡ true))
  check_list_iff xs covered found = (
    λ h r. text_covered_sound covered found (rw ((restricts_iff xs).1 r) at h),
    λ h. elim (Bool-cases (restricts xs)) [
      | inl r ↦ let (s, e, c) = h ((restricts_iff xs).0 r) in rw (r, e, c)
      | inr open_list ↦ rw open_list
    ],
  )

-- Where no entry is the wildcard, to be covered is to be listed.
covered-Listed :
    (xs : List Text) (s : Text)
    → (¬ Listed wildcard xs)
    → Some (λ t. (t == wildcard || t == s) ≡ true) xs
    → Listed s xs
covered-Listed [] s plain h = absurd h
covered-Listed (x ∷ xs) s plain (inl e) = elim (Bool-cases (x == wildcard)) [
  | inl wild ↦ absurd (plain (inl ((==_iff x wildcard).0 wild)))
  | inr other ↦ inl ((==_iff x s).0 (rw other at e))
]
covered-Listed (x ∷ xs) s plain (inr h) = inr (covered-Listed xs s (λ l. plain (inr l)) h)

covered_iff :
    (xs : List Text) (s : Text)
    → (¬ Listed wildcard xs)
    → (any_of (λ t. t == wildcard || t == s) xs ≡ true) ↔ Listed s xs
covered_iff xs s plain = (
  λ h. covered-Listed xs s plain (any_of-Some _ xs h),
  λ h. Some-any_of _ xs (Some-mono (λ t e. ground (arith, (==_iff t s).1 e)) xs h),
)

-- The form of the lists' blocks, for a test that agrees with `P` on restricting lists.
list_arg_iff :
    (xs : List Text) (covered : Text → Bool) (P : Text → Type 0) (found : Option Value)
    → ((¬ Listed wildcard xs) → (s : Text) → (covered s ≡ true) ↔ P s)
    → (missing ill_typed denied : Violation)
    → (check_list missing ill_typed denied xs covered found ≡ ok tt)
      ↔ (Restricts xs → (s : Text) × (found ≡ some (string s)) × P s)
list_arg_iff xs covered P found agree missing ill_typed denied =
    let both = check_list_iff missing ill_typed denied xs covered found in
    (
      λ h r. let (s, e, c) = both.0 h r in (s, e, (agree r.1 s).0 c),
      λ h. both.1 (λ r. let (s, e, p) = h r in (s, e, (agree r.1 s).1 p)),
    )

module _ (pol : Policy) (args : Fields) where
  blocks_ok :
      evaluate pol args ≡ ok tt
      → (check_cost pol args ≡ ok tt)
        × (check_pii pol args ≡ ok tt)
        × (check_write pol args ≡ ok tt)
        × (check_tool pol args ≡ ok tt)
        × (check_resource pol args ≡ ok tt)
        × (check_class pol args ≡ ok tt)
  unfolding evaluate
  blocks_ok h =
      let (_, a, h1) = >>=-eq-ok _ _ h in
      let (_, b, h2) = >>=-eq-ok _ _ h1 in
      let (_, c, h3) = >>=-eq-ok _ _ h2 in
      let (_, d, h4) = >>=-eq-ok _ _ h3 in let (_, e, f) = >>=-eq-ok _ _ h4 in (a, b, c, d, e, f)

  pii_iff :
      (check_pii pol args ≡ ok tt)
      ↔ (pol.pii_access ≡ some false → lookup (codes "pii_access") args ≡ some (bool false))
  unfolding check_pii
  pii_iff = check_flag_iff _ _ _ pol.pii_access _

  write_iff :
      (check_write pol args ≡ ok tt)
      ↔ (pol.write_access ≡ some false → lookup (codes "write_access") args ≡ some (bool false))
  unfolding check_write
  write_iff = check_flag_iff _ _ _ pol.write_access _

  tool_iff : (check_tool pol args ≡ ok tt) ↔ (
      Restricts pol.allowed_tools → TextArg (codes "tool") args (λ s. Listed s pol.allowed_tools))
  unfolding check_tool tool_covered
  tool_iff = list_arg_iff pol.allowed_tools _ _ _ (λ p s. covered_iff _ s p) _ _ _

  resource_iff : (check_resource pol args ≡ ok tt) ↔ (
      Restricts pol.allowed_resources
      → TextArg (codes "resource_uri") args (λ s. resource_covered s pol.allowed_resources ≡ true))
  unfolding check_resource
  resource_iff = check_list_iff _ _ _ pol.allowed_resources _ _

  class_iff : (check_class pol args ≡ ok tt) ↔ (
      Restricts pol.allowed_data_classes
      → TextArg (codes "data_class") args (λ s. Listed s pol.allowed_data_classes))
  unfolding check_class class_covered
  class_iff = list_arg_iff pol.allowed_data_classes _ _ _ (λ p s. covered_iff _ s p) _ _ _

  evaluate_sound : evaluate pol args ≡ ok tt → Permits pol args
  evaluate_sound h =
      let (cost, pii, write, tool, resource, cls) = blocks_ok h in
      record {
        cost = (check_cost_iff pol args).0 cost;
        pii = pii_iff.0 pii;
        write = write_iff.0 write;
        tool = tool_iff.0 tool;
        resource = resource_iff.0 resource;
        data_class = class_iff.0 cls;
      }

  evaluate_complete : Permits pol args → evaluate pol args ≡ ok tt
  unfolding evaluate
  evaluate_complete p = rw (
    (check_cost_iff pol args).1 p.cost,
    pii_iff.1 p.pii,
    write_iff.1 p.write,
    tool_iff.1 p.tool,
    resource_iff.1 p.resource,
    class_iff.1 p.data_class,
  )

-- Evaluate returns nil exactly where the policy permits the arguments: a stated cost limit bounds
-- a finite, non-negative claimed cost; a denied flag is claimed false; and of each list that has
-- entries and no wildcard the named argument is a covered string.
pub evaluate-eq-ok_iff :
    (pol : Policy) (args : Fields) → (evaluate pol args ≡ ok tt) ↔ Permits pol args
evaluate-eq-ok_iff pol args = (evaluate_sound pol args, evaluate_complete pol args)
