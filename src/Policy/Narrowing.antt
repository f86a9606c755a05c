-- ===== src/Policy/Narrowing.antt =====
-- What CheckAttenuation promises to Evaluate.
use drs.Prelude.{
  ◌≡◌, ◌≢◌, refl, Bool, true, false, List, [], ◌∷◌, inl, inr, Option, none, some, arith, All,
  Bool-cases, ltb, ok, >>=-eq-ok,
}
use drs.Prelude.Int.{Float64, fgt, fgt_irrefl, is_nan, fgt_trans}
use drs.Prelude.Text.{Text, codes, ◌==◌, ==_iff}
use drs.Types.{Fields, Policy}
use drs.Policy.Uri.{wildcard, resource_covered}
use drs.Policy.Evaluate.{restricts, contains, check_pii, check_write, evaluate}
use drs.Policy.Attenuate.{
  Escalation, cost_omitted, cost_loosened, pii_relaxed, write_relaxed, calls_omitted,
  calls_loosened, tools_omitted, tools_wildcard, tools_added, resources_omitted, resources_wildcard,
  resources_added, classes_omitted, classes_added, each_listed, keep_limit, keep_denial, keep_cost,
  keep_pii, keep_write, keep_calls, keep_tools, keep_resources, keep_classes, keep_list,
  check_attenuation,
}
use drs.Policy.Permits.{Permits, CostWithin, TextArg, Restricts, evaluate-eq-ok_iff}
use drs.Policy.Lists.{Listed, Kept, contains_iff, restricts_iff, keep_list-ok, any_of-Kept}

-- The child repeats each denial of its parent, and its cost limit is no NaN. JSON has no NaN.
pub record IsExplicit (parent child : Policy) : Type 0 where
  pub pii : parent.pii_access ≡ some false → child.pii_access ≢ none
  pub write : parent.write_access ≡ some false → child.write_access ≢ none
  pub limit : (m : Float64) → child.max_cost_usd ≡ some m → is_nan m ≡ false

-- A limit that was kept: the child states one, and it is not greater.
keep_limit-ok :
    {A : Type 0} (gt : A → A → Bool) (omitted loosened : Escalation) (parent child : Option A)
    (p : A)
    → keep_limit gt omitted loosened parent child ≡ ok tt
    → parent ≡ some p
    → (c : A) × (child ≡ some c) × (gt c p ≡ false)
keep_limit-ok gt o l none child p h e = cc
keep_limit-ok gt o l (some q) none p h e = cc
keep_limit-ok gt o l (some q) (some c) p h e = (c, refl, ground arith)

keep_denial-ok :
    (relaxed : Escalation) (parent child : Option Bool)
    → keep_denial relaxed parent child ≡ ok tt
    → parent ≡ some false
    → child ≢ none
    → child ≡ some false
keep_denial-ok r none child h e n = cc
keep_denial-ok r (some true) child h e n = cc
keep_denial-ok r (some false) none h e n = absurd (n refl)
keep_denial-ok r (some false) (some true) h e n = cc
keep_denial-ok r (some false) (some false) h e n = refl

module _ (parent child : Policy) where
  kept_blocks :
      check_attenuation parent child ≡ ok tt
      → (keep_cost parent child ≡ ok tt)
        × (keep_pii parent child ≡ ok tt)
        × (keep_write parent child ≡ ok tt)
        × (keep_calls parent child ≡ ok tt)
        × (keep_tools parent child ≡ ok tt)
        × (keep_resources parent child ≡ ok tt)
        × (keep_classes parent child ≡ ok tt)
  unfolding check_attenuation
  kept_blocks h =
      let (_, a, h1) = >>=-eq-ok _ _ h in
      let (_, b, h2) = >>=-eq-ok _ _ h1 in
      let (_, c, h3) = >>=-eq-ok _ _ h2 in
      let (_, d, h4) = >>=-eq-ok _ _ h3 in
      let (_, e, h5) = >>=-eq-ok _ _ h4 in let (_, f, g) = >>=-eq-ok _ _ h5 in (a, b, c, d, e, f, g)

-- A list that was kept restricts below a restricting one, and its entries are the parent's.
list_narrows :
    (omitted wild added : Escalation) (parent child : List Text)
    → keep_list omitted wild added parent child ≡ ok tt
    → Restricts parent
    → Restricts child × All (Kept parent) child
list_narrows o w a parent child h r =
    let (r', kept) = keep_list-ok o w a parent child ((restricts_iff parent).1 r) h in
    ((restricts_iff child).0 r', kept)

Kept-Listed :
    (parent child : List Text) (s : Text)
    → All (Kept parent) child
    → Listed s child
    → Listed s parent
unfolding contains
Kept-Listed parent child s kept l =
    (contains_iff parent s).0
      (any_of-Kept (λ t. t == s) parent child kept ((contains_iff child s).1 l))

module _ (parent child : Policy) (args : Fields) (explicit : IsExplicit parent child)
    (p : Permits child args) where
  cost_narrows : keep_cost parent child ≡ ok tt → CostWithin parent args
  unfolding keep_cost
  cost_narrows h limit e =
      let (m, stated, below) =
        keep_limit-ok fgt _ _ parent.max_cost_usd child.max_cost_usd limit h e in
      let (raw, cost, found, number, low, high) = p.cost m stated in
      (raw, cost, found, number, low, fgt_trans cost m limit (explicit.limit m stated) high below)

  resource_narrows :
      keep_resources parent child ≡ ok tt
      → Restricts parent.allowed_resources
      → TextArg
          (codes "resource_uri")
          args
          (λ s. resource_covered s parent.allowed_resources ≡ true)
  unfolding keep_resources resource_covered
  resource_narrows h r =
      let (r', kept) = list_narrows _ _ _ _ child.allowed_resources h r in
      let (s, found, covered) = p.resource r' in
      (s, found, any_of-Kept _ _ child.allowed_resources kept covered)

  kept-Permits : check_attenuation parent child ≡ ok tt → Permits parent args
  unfolding keep_pii keep_write keep_tools keep_classes
  kept-Permits h =
      let (cost, pii, write, _, tools, resources, classes) = kept_blocks parent child h in
      record {
        cost = cost_narrows cost;
        pii =
            λ e. p.pii (keep_denial-ok _ parent.pii_access child.pii_access pii e (explicit.pii e));
        write = λ e.
            p.write
              (keep_denial-ok _ parent.write_access child.write_access write e (explicit.write e));
        tool = λ r.
            let (r', kept) = list_narrows _ _ _ _ child.allowed_tools tools r in
            let (s, found, l) = p.tool r' in (s, found, Kept-Listed _ _ s kept l);
        resource = resource_narrows resources;
        data_class = λ r.
            let (r', kept) = list_narrows _ _ _ _ child.allowed_data_classes classes r in
            let (s, found, l) = p.data_class r' in (s, found, Kept-Listed _ _ s kept l);
      }

-- Where CheckAttenuation accepts a child that repeats its parent's denials and whose cost limit is
-- no NaN, arguments that Evaluate accepts for the child it accepts for the parent.
pub check_attenuation_sound :
    (parent child : Policy) (args : Fields)
    → IsExplicit parent child
    → check_attenuation parent child ≡ ok tt
    → evaluate child args ≡ ok tt
    → evaluate parent args ≡ ok tt
check_attenuation_sound parent child args explicit h e =
    (evaluate-eq-ok_iff parent args).1
      (kept-Permits parent child args explicit ((evaluate-eq-ok_iff child args).0 e) h)

-- Under an accepted attenuation, below a parent that restricts the tools: every
-- tool of the child is the parent's, and the child restricts its tools too.
pub tools_narrow :
    (parent child : Policy)
    → check_attenuation parent child ≡ ok tt
    → Restricts parent.allowed_tools
    → Restricts child.allowed_tools
      × ((s : Text) → Listed s child.allowed_tools → Listed s parent.allowed_tools)
unfolding keep_tools
tools_narrow parent child h r =
    let (_, _, _, _, tools, _, _) = kept_blocks parent child h in
    let (r', kept) = list_narrows _ _ _ _ child.allowed_tools tools r in
    (r', λ s l. Kept-Listed _ _ s kept l)

each_listed_self :
    (wild added : Escalation) (all xs : List Text)
    → (¬ Listed wildcard xs)
    → ((s : Text) → Listed s xs → Listed s all)
    → each_listed wild added all xs ≡ ok tt
unfolding each_listed
each_listed_self w a all [] plain sub = refl
each_listed_self w a all (x ∷ xs) plain sub = elim (Bool-cases (x == wildcard)) [
  | inl wild ↦ absurd (plain (inl ((==_iff x wildcard).0 wild)))
  | inr other ↦ rw (
    other,
    (contains_iff all x).1 (sub x (inl refl)),
    each_listed_self w a all xs (λ l. plain (inr l)) (λ s l. sub s (inr l)),
  )
]

keep_list_self :
    (omitted wild added : Escalation) (xs : List Text) → keep_list omitted wild added xs xs ≡ ok tt
unfolding keep_list
keep_list_self o w a [] = unfold restricts in refl
keep_list_self o w a (x ∷ xs) = elim (Bool-cases (restricts (x ∷ xs))) [
  | inl r ↦
      rw r (each_listed_self w a (x ∷ xs) (x ∷ xs) ((restricts_iff (x ∷ xs)).0 r).1 (λ s l. l))
  | inr open_list ↦ rw open_list
]

keep_limit_self :
    {A : Type 0} (gt : A → A → Bool) (omitted loosened : Escalation) (o : Option A)
    → ((a : A) → gt a a ≡ false)
    → keep_limit gt omitted loosened o o ≡ ok tt
keep_limit_self gt o l none irrefl = refl
keep_limit_self gt o l (some a) irrefl = rw irrefl

keep_denial_omitted : (relaxed : Escalation) (o : Option Bool) → keep_denial relaxed o none ≡ ok tt
keep_denial_omitted r none = refl
keep_denial_omitted r (some true) = refl
keep_denial_omitted r (some false) = refl

-- Whatever the parent denies, a child that repeats its parent but omits pii_access and
-- write_access is accepted, and Evaluate then tests neither claim for the child.
pub check_attenuation_omits :
    (parent : Policy) (args : Fields)
    → (check_attenuation parent (record parent { pii_access = none; write_access = none }) ≡ ok tt)
      × (check_pii (record parent { pii_access = none; write_access = none }) args ≡ ok tt)
      × (check_write (record parent { pii_access = none; write_access = none }) args ≡ ok tt)
unfolding check_attenuation keep_cost keep_pii keep_write keep_calls keep_tools keep_resources
    keep_classes check_pii check_write
check_attenuation_omits parent args = (
  rw (
    keep_limit_self fgt cost_omitted cost_loosened parent.max_cost_usd fgt_irrefl,
    keep_denial_omitted pii_relaxed parent.pii_access,
    keep_denial_omitted write_relaxed parent.write_access,
    keep_limit_self (λ c p. ltb p c) calls_omitted calls_loosened parent.max_calls
        (λ a. ground arith),
    keep_list_self tools_omitted tools_wildcard tools_added parent.allowed_tools,
    keep_list_self resources_omitted resources_wildcard resources_added parent.allowed_resources,
    keep_list_self classes_omitted classes_added classes_added parent.allowed_data_classes,
  ),
  refl,
  refl,
)
