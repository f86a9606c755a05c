-- ===== src/Settings/Parse.antt =====
-- How drs-verify/pkg/config/config.go reads one variable of the environment, with strconv's integers.
use drs.Prelude.{
  ℕ, ◌+◌, ◌*◌, ◌-◌, ◌^◌, ◌&&◌, [], ◌∷◌, Option, none, some, Result, ok, err, eqb, leb,
  if◌then◌else◌, ◌≡◌, refl,
}
use drs.Prelude.Int.{ℤ, pos, negsuc, Float64}
use drs.Prelude.Text.{Text, codes, is_empty}

-- os.Getenv, which is empty for a variable that is not set
abbrev pub Environment : Type 0
Environment = Text → Text

-- getEnvOrDefault
unfoldable pub get_env_or_default : Environment → Text → Text → Text
get_env_or_default env name default = if is_empty (env name) then default else env name

-- The digits after `n`, while the number is at most `limit`.
unfoldable pub digits_from : ℕ → ℕ → Text → Option ℕ
digits_from limit n [] = some n
digits_from limit n (c ∷ s) =
    let rest = digits_from limit (10 * n + (c - b'0')) s in
    if leb b'0' c && leb c b'9' && leb (10 * n + (c - b'0')) limit then rest else none

-- one digit at least
abbrev pub number : ℕ → Text → Option ℕ
number limit [] = none
number limit (c ∷ s) = digits_from limit 0 (c ∷ s)

abbrev pub negated : Option ℕ → Option ℤ
negated none = none
negated (some ℕ.zero) = some (pos 0)
negated (some (ℕ.suc n)) = some (negsuc n)

abbrev pub positive : Option ℕ → Option ℤ
positive none = none
positive (some n) = some (pos n)

-- strconv.ParseInt(v, 10, 64), and strconv.Atoi where int has 64 bits
unfoldable pub parse_int : Text → Option ℤ
parse_int [] = none
parse_int (c ∷ s) =
    if eqb c b'-'
    then negated (number (2 ^ 63) s)
    else if eqb c b'+'
    then positive (number (2 ^ 63 - 1) s)
    else positive (number (2 ^ 63 - 1) (c ∷ s))

-- Why Load refuses: a variable that is no number, or a combination that it does not allow.
pub data LoadError : Type 0 where
  malformed : Text → LoadError
  redis_without_url memory_behind_proxy : LoadError
  unknown_backend : Text → LoadError

abbrev pub or_error : {A : Type 0} → Text → Option A → Result LoadError A
or_error name none = err (malformed name)
or_error name (some v) = ok v

-- getEnvInt and getEnvInt64
unfoldable pub get_env_int : Environment → Text → ℤ → Result LoadError ℤ
get_env_int env name default =
    if is_empty (env name) then ok default else or_error name (parse_int (env name))

-- getEnvFloat64, over strconv.ParseFloat
unfoldable pub get_env_float :
    (Text → Option Float64) → Environment → Text → Float64 → Result LoadError Float64
get_env_float parse_float env name default =
    if is_empty (env name) then ok default else or_error name (parse_float (env name))

parse_int_runs :
    (parse_int (codes "-12") ≡ some (negsuc 11))
    × (parse_int (codes "9223372036854775808") ≡ none)
    × (parse_int (codes "+7") ≡ some (pos 7))
    × (parse_int (codes "1_0") ≡ none)
unfolding parse_int digits_from
parse_int_runs = (refl, refl, refl, refl)
