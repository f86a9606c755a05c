-- ===== src/Middleware/Decode.antt =====
-- drs-verify/pkg/middleware/decode.go and decodeBundle of mcp.go: what the middleware reads of a
-- request before and after the chain is verified.
use drs.Prelude.{ℕ, Option, none, some, ltb, if◌then◌else◌, length}
use mathlib.Core.Option
use drs.Prelude.Text.{Text, is_empty}
use drs.Types.{Value, ChainBundle}
use drs.Nonce.{Outcome, accepted, replay_detected, store_exhausted}
use drs.Chain.Jwt.{Env, base64_decode, jwt_payload}

abbrev pub max_bundle_header_bytes : ℕ
max_bundle_header_bytes = 87381

-- nonce.Checker: Check with an outcome; every error that is not ErrReplayDetected is
-- `store_exhausted` here, as the middleware answers it.
pub record Checker (S : Type 0) : Type 0 where
  pub check : Text → S → Outcome × S

-- The answers that stop a request.
pub data Refusal : Type 0 where
  multiple_headers missing_header bad_bundle invalid_chain : Refusal
  nonce_unavailable bad_jti replay exhausted : Refusal
  body_too_large body_read_error invalid_invocation binding_mismatch : Refusal

module _ (env : Env) where
  -- decodeBundle
  unfoldable pub decode_bundle : Text → Option ChainBundle
  decode_bundle encoded =
      if ltb max_bundle_header_bytes (length encoded)
      then none
      else Option.bind (base64_decode encoded) env.unmarshal_bundle

  -- decodeInvocationJTI
  unfoldable pub decode_invocation_jti : Text → Option Text
  decode_invocation_jti jwt = Option.bind (jwt_payload env jwt) env.unmarshal_jti

  -- DecodeInvocationArgs
  unfoldable pub decode_invocation_args : Text → Option Value
  decode_invocation_args jwt = Option.bind (jwt_payload env jwt) env.unmarshal_args

abbrev pub claim_answer : Outcome → Option Refusal
claim_answer accepted = none
claim_answer replay_detected = some replay
claim_answer store_exhausted = some exhausted

module _ {S : Type 0} where
  -- the tests of the JTI, and the claim
  abbrev pub claim_jti : Checker S → Option Text → S → Option Refusal × S
  claim_jti ns none s = (some bad_jti, s)
  claim_jti ns (some jti) s =
      let (outcome, s') = ns.check jti s in
      if is_empty jti then (some bad_jti, s) else (claim_answer outcome, s')

  -- CheckNonceReplay: the answer that aborts the request, if any
  unfoldable pub check_nonce_replay : Env → Text → Option (Checker S) → S → Option Refusal × S
  check_nonce_replay env jwt none s = (some nonce_unavailable, s)
  check_nonce_replay env jwt (some ns) s = claim_jti ns (decode_invocation_jti env jwt) s
