-- ===== src/Server.antt =====
-- POST /verify of drs-verify/cmd/server/main.go: verifyHandler and computeBindingResult.
pub mod Answers
pub mod Replays
pub mod Start
pub mod Started
pub mod AnyTtl
pub mod Unlimited
pub mod Health
use drs.Prelude.{ℕ, Bool, true, false, not, List, [], ◌∷◌, Option, none, some, if◌then◌else◌}
use drs.Prelude.Text.{Text, codes, ◌==◌, is_empty}
use drs.Types.{Value, ChainBundle, VerificationResult}
use drs.Chain.Jwt.{Env}
use drs.Chain.Signature.{Schedule}
use drs.Chain.Verify.{Deps, chain}
use drs.Middleware.Decode.{Refusal, Checker, check_nonce_replay, decode_invocation_args}
use drs.Middleware.Binding.{Canon, check}

-- The body that encoding/json decodes; `body` is empty where the field is left out.
pub record VerifyRequest : Type 0 where
  pub bundle : ChainBundle
  pub include_timestamps : Bool
  pub body : Text

-- What the decoder gives: the body is over the limit, it is no such JSON, or a request.
pub data Decoding : Type 0 where
  oversized malformed : Decoding
  decoded : VerifyRequest → Decoding

pub data Answer : Type 0 where
  method_not_allowed body_too_large bad_json : Answer
  refused : Refusal → Answer
  answered : VerificationResult → Answer

-- What the handler is made with; `is_json` is json.Unmarshal into any value.
pub record Service (S : Type 0) : Type 0 where
  pub env : Env
  pub canon : Canon
  pub is_json : Text → Bool
  pub deps : Deps S
  pub sched : Schedule
  pub nonce_store : Option (Checker S)

module _ {S : Type 0} (service : Service S) where
  abbrev pub binding_label : Text → Option Value → Text
  binding_label body none = codes "invalid_body"
  binding_label body (some args) =
      if not (service.is_json body)
      then codes "invalid_body"
      else if check service.canon body args
      then codes "match"
      else codes "mismatch"

  -- computeBindingResult
  unfoldable pub compute_binding_result : Text → Text → Text
  compute_binding_result body jwt = binding_label body (decode_invocation_args service.env jwt)

  -- the result with its binding, where a body was sent
  abbrev pub with_binding : VerifyRequest → VerificationResult → VerificationResult
  with_binding req result =
      if is_empty req.body
      then result
      else record result { binding = compute_binding_result req.body req.bundle.invocation }

  abbrev pub after_claim : VerificationResult → Option Refusal × S → Answer × S
  after_claim result (some r, s) = (refused r, s)
  after_claim result (none, s) = (answered result, s)

  abbrev pub after_verify : VerifyRequest → VerificationResult → S → Answer × S
  after_verify req result s =
      if result.valid
      then after_claim (with_binding req result)
          (check_nonce_replay service.env req.bundle.invocation service.nonce_store s)
      else (answered result, s)

  -- the dependencies of one request
  abbrev pub request_deps : VerifyRequest → Deps S
  request_deps req = record service.deps { include_timestamps = req.include_timestamps }

  abbrev pub run_chain : VerifyRequest → S → VerificationResult × S
  run_chain req s = chain service.env (request_deps req) service.sched req.bundle s

  abbrev pub after_decoding : Decoding → S → Answer × S
  after_decoding oversized s = (body_too_large, s)
  after_decoding malformed s = (bad_json, s)
  after_decoding (decoded req) s = after_verify req (run_chain req s).0 (run_chain req s).1

  -- verifyHandler
  unfoldable pub verify_handler : Text → Decoding → S → Answer × S
  verify_handler method body s =
      if not (method == codes "POST") then (method_not_allowed, s) else after_decoding body s
