-- ===== src/Middleware/Binding.antt =====
-- drs-verify/pkg/binding/binding.go, and checkRequestBinding of drs-verify/pkg/middleware/binding.go.
-- jcs.Transform and json.Marshal are arguments.
use drs.Prelude.{Bool, true, false, not, ◌&&◌, Option, none, some, if◌then◌else◌}
use drs.Prelude.Text.{Text, ◌==◌, is_blank}
use drs.Types.{Value, null, array, object, nil, end}
use drs.Chain.Jwt.{Env}
use drs.Middleware.Decode.{
  Refusal, body_too_large, body_read_error, invalid_invocation, binding_mismatch,
  decode_invocation_args,
}

-- jcs.Transform and json.Marshal, with `none` for an error
pub record Canon : Type 0 where
  pub transform : Text → Option Text
  pub marshal : Value → Option Text

-- IsEmptyArgs
unfoldable pub is_empty_args : Value → Bool
is_empty_args null = true
is_empty_args (object end) = true
is_empty_args (array nil) = true
is_empty_args _ = false

module _ (canon : Canon) where
  -- the canonical form of the args
  unfoldable pub canonical_args : Value → Option Text
  canonical_args args = elim (canon.marshal args) [ none ↦ none | some json ↦ canon.transform json ]

  abbrev pub same_form : Option Text → Option Text → Bool
  same_form none b = false
  same_form (some a) none = false
  same_form (some a) (some b) = a == b

  -- binding.Check: whether it returns nil
  unfoldable pub check : Text → Value → Bool
  check body args =
      if is_blank body && is_empty_args args
      then true
      else if is_blank body
      then false
      else same_form (canon.transform body) (canonical_args args)

-- The modes of which the code tells off and enforced apart; every other string is `lenient`.
pub data Mode : Type 0 where
  off lenient enforced : Mode

-- What io.ReadAll gives of the body behind MaxBytesReader.
pub data Body : Type 0 where
  too_large unreadable : Body
  bytes : Text → Body

abbrev pub is_enforced : Mode → Bool
is_enforced off = false
is_enforced lenient = false
is_enforced enforced = true

module _ (env : Env) (canon : Canon) where
  -- the comparison with the args
  abbrev pub compare_args : Mode → Text → Option Value → Option Refusal
  compare_args mode body none = if is_enforced mode then some invalid_invocation else none
  compare_args mode body (some args) =
      if not (check canon body args) && is_enforced mode then some binding_mismatch else none

  abbrev pub check_body : Mode → Body → Text → Option Refusal
  check_body mode too_large jwt = some body_too_large
  check_body mode unreadable jwt = some body_read_error
  check_body mode (bytes body) jwt = compare_args mode body (decode_invocation_args env jwt)

  -- checkRequestBinding: the answer that aborts the request, if any
  unfoldable pub check_request_binding : Mode → Body → Text → Option Refusal
  check_request_binding off body jwt = none
  check_request_binding lenient body jwt = check_body lenient body jwt
  check_request_binding enforced body jwt = check_body enforced body jwt
