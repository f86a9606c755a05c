-- ===== src/Policy/Evaluate.antt =====
-- Evaluate of drs-verify/pkg/policy/evaluate.go: one function for each block of tests, in order.
use drs.Prelude.{
  ℕ, zero, suc, ◌+◌, ◌-◌, ◌*◌, ◌/◌, ◌%◌, ◌^◌, Bool, false, ◌&&◌, ◌||◌, not, List, [], ◌∷◌, Option,
  none, some, eqb, ltb, if◌then◌else◌, any_of, ok, err, Checked, fail_if, ◌>>◌,
}
use drs.Prelude.Int.{ℤ, pos, negsuc, Float64, finite, fgt, fzero}
use drs.Prelude.Text.{Text, codes, ◌==◌}
use drs.Types.{Value, bool, float64, float32, int, int64, string, Fields, lookup, Policy}
use drs.Policy.Uri.{wildcard, resource_covered}

-- One constructor for each error that Evaluate returns.
pub data Violation : Type 0 where
  cost_required cost_not_finite cost_negative cost_exceeded : Violation
  pii_required pii_not_boolean pii_not_permitted : Violation
  write_required write_not_boolean write_not_permitted : Violation
  tool_required tool_not_string tool_not_permitted : Violation
  resource_required resource_not_string resource_not_permitted : Violation
  class_required class_not_string class_not_permitted : Violation

unfoldable pub has_wildcard : List Text → Bool
has_wildcard list = any_of (λ v. v == wildcard) list

unfoldable pub contains : List Text → Text → Bool
contains list x = any_of (λ v. v == x) list

unfoldable pub tool_covered : Text → List Text → Bool
tool_covered tool allowed = any_of (λ t. t == wildcard || t == tool) allowed

unfoldable pub class_covered : Text → List Text → Bool
class_covered cls allowed = any_of (λ c. c == wildcard || c == cls) allowed

-- The quotient n / 2 ^ k, rounded to the nearest, ties to even.
round_shift : ℕ → ℕ → ℕ
round_shift n k =
    let q = n / 2 ^ k in
    let twice = 2 * (n % 2 ^ k) in
    if ltb (2 ^ k) twice || (eqb twice (2 ^ k) && eqb (q % 2) 1) then q + 1 else q

-- float64(n) keeps 53 bits: `k` is how many low bits of a 64-bit magnitude are rounded away.
round53_from : ℕ → ℕ → ℕ → ℕ
unfolding round_shift
round53_from zero k n = n
round53_from (suc rounds) k n =
    let more = round53_from rounds (k + 1) n in
    if ltb n (2 ^ (53 + k)) then round_shift n k * 2 ^ k else more

-- the conversion from int and int64, in units of 2 ^ -1074
unfoldable pub float_of_int : ℤ → Float64
unfolding round53_from
float_of_int (pos n) = finite (pos (round53_from 12 0 n * 2 ^ 1074))
float_of_int (negsuc n) = finite (negsuc (round53_from 12 0 (n + 1) * 2 ^ 1074 - 1))

-- the type switch of toFloat64; a float32 is carried at its exact value as a float64
abbrev number_of : Value → Option Float64
number_of (float64 f) = some f
number_of (float32 f) = some f
number_of (int n) = some (float_of_int n)
number_of (int64 n) = some (float_of_int n)
number_of _ = none

-- math.IsNaN and math.IsInf are refused
abbrev finite_only : Float64 → Option Float64
finite_only (finite k) = some (finite k)
finite_only _ = none

unfoldable pub to_float64 : Value → Option Float64
to_float64 v = elim (number_of v) [ none ↦ none | some f ↦ finite_only f ]

abbrev pub check_limit : Float64 → Option Float64 → Checked Violation
check_limit limit none = err cost_not_finite
check_limit limit (some cost) =
    fail_if (fgt fzero cost) cost_negative >> fail_if (fgt cost limit) cost_exceeded

abbrev pub cost_within : Float64 → Option Value → Checked Violation
cost_within limit none = err cost_required
cost_within limit (some raw) = check_limit limit (to_float64 raw)

unfoldable pub check_cost : Policy → Fields → Checked Violation
check_cost pol args = elim pol.max_cost_usd [
  | none ↦ ok tt
  | some limit ↦ cost_within limit (lookup (codes "estimated_cost_usd") args)
]

-- The claim must be there, be a boolean and be false; the errors come in that order.
abbrev pub flag_denied : Violation → Violation → Violation → Option Value → Checked Violation
flag_denied missing ill_typed denied none = err missing
flag_denied missing ill_typed denied (some (bool claimed)) = fail_if claimed denied
flag_denied missing ill_typed denied (some _) = err ill_typed

-- Only a flag that is set to false is enforced.
abbrev pub check_flag :
    Violation → Violation → Violation → Option Bool → Option Value → Checked Violation
check_flag missing ill_typed denied (some false) found = flag_denied missing ill_typed denied found
check_flag missing ill_typed denied _ found = ok tt

unfoldable pub check_pii : Policy → Fields → Checked Violation
check_pii pol args =
    check_flag pii_required pii_not_boolean pii_not_permitted pol.pii_access
      (lookup (codes "pii_access") args)

unfoldable pub check_write : Policy → Fields → Checked Violation
check_write pol args =
    check_flag write_required write_not_boolean write_not_permitted pol.write_access
      (lookup (codes "write_access") args)

-- The argument must be there, be a string and be covered.
abbrev pub text_covered :
    Violation → Violation → Violation → (Text → Bool) → Option Value → Checked Violation
text_covered missing ill_typed denied covered none = err missing
text_covered missing ill_typed denied covered (some (string s)) = fail_if (not (covered s)) denied
text_covered missing ill_typed denied covered (some _) = err ill_typed

-- `len(list) > 0 && !hasWildcard(list)`
unfoldable pub restricts : List Text → Bool
restricts [] = false
restricts (x ∷ xs) = not (has_wildcard (x ∷ xs))

-- A list without entries, or with the wildcard, asks for no argument.
abbrev pub check_list :
    Violation → Violation → Violation → List Text → (Text → Bool) → Option Value → Checked Violation
check_list missing ill_typed denied list covered found =
    if restricts list then text_covered missing ill_typed denied covered found else ok tt

unfoldable pub check_tool : Policy → Fields → Checked Violation
check_tool pol args =
    check_list tool_required tool_not_string tool_not_permitted pol.allowed_tools
      (λ t. tool_covered t pol.allowed_tools) (lookup (codes "tool") args)

unfoldable pub check_resource : Policy → Fields → Checked Violation
check_resource pol args =
    check_list resource_required resource_not_string resource_not_permitted pol.allowed_resources
      (λ u. resource_covered u pol.allowed_resources) (lookup (codes "resource_uri") args)

unfoldable pub check_class : Policy → Fields → Checked Violation
check_class pol args =
    check_list class_required class_not_string class_not_permitted pol.allowed_data_classes
      (λ c. class_covered c pol.allowed_data_classes) (lookup (codes "data_class") args)

-- max_calls is not evaluated.
unfoldable pub evaluate : Policy → Fields → Checked Violation
evaluate pol args = do
  check_cost pol args
  check_pii pol args
  check_write pol args
  check_tool pol args
  check_resource pol args
  check_class pol args
