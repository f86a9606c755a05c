-- ===== src/Middleware/Mcp.antt =====
-- mcpMiddleware of drs-verify/pkg/middleware/mcp.go, and a2aMiddleware of a2a.go, whose handler
-- makes the same calls in the same order.
use drs.Prelude.{ℕ, Bool, List, [], ◌∷◌, Option, none, some, if◌then◌else◌}
use drs.Prelude.Text.{Text, is_empty}
use drs.Types.{ChainBundle, VerificationContext, VerificationResult}
use drs.Chain.Jwt.{Env}
use drs.Chain.Signature.{Schedule}
use drs.Chain.Verify.{Deps, chain}
use drs.Middleware.Decode.{
  Refusal, multiple_headers, missing_header, bad_bundle, invalid_chain, nonce_unavailable, bad_jti,
  replay, exhausted, body_too_large, body_read_error, invalid_invocation, binding_mismatch, Checker,
  decode_bundle, check_nonce_replay,
}
use drs.Middleware.Binding.{Mode, Body, Canon, check_request_binding}

-- What the middleware does: it answers itself, or it calls the next handler, with the verification
-- context or, where a header is not required, without.
pub data Action : Type 0 where
  refuse : Refusal → Action
  pass : Action
  serve : Option VerificationContext → Action

abbrev pub status : Refusal → ℕ
status multiple_headers = 400
status missing_header = 401
status bad_bundle = 400
status invalid_chain = 403
status nonce_unavailable = 503
status bad_jti = 400
status replay = 409
status exhausted = 503
status body_too_large = 413
status body_read_error = 400
status invalid_invocation = 400
status binding_mismatch = 403

-- The values of X-DRS-Bundle, and the body.
pub record Request : Type 0 where
  pub bundle_headers : List Text
  pub body : Body

-- How the middleware is configured: the verifier, the nonce store, the mode, and whether a request
-- without the header passes.
pub record Config (S : Type 0) : Type 0 where
  pub env : Env
  pub canon : Canon
  pub deps : Deps S
  pub sched : Schedule
  pub nonce_store : Option (Checker S)
  pub mode : Mode
  pub allow_missing : Bool

module _ {S : Type 0} (cfg : Config S) where
  abbrev pub after_binding : Option VerificationContext → Option Refusal → Action
  after_binding context none = serve context
  after_binding context (some r) = refuse r

  -- the binding check, where the nonce was claimed
  abbrev pub after_nonce :
      Body → ChainBundle → Option VerificationContext → Option Refusal × S → Action × S
  after_nonce body bundle context (some r, s) = (refuse r, s)
  after_nonce body bundle context (none, s) = (
    after_binding context (check_request_binding cfg.env cfg.canon cfg.mode body bundle.invocation),
    s,
  )

  -- the nonce, where the chain is valid
  abbrev pub after_chain : Body → ChainBundle → VerificationResult → S → Action × S
  after_chain body bundle result s =
      let claimed = check_nonce_replay cfg.env bundle.invocation cfg.nonce_store s in
      if result.valid
      then after_nonce body bundle result.context claimed
      else (refuse invalid_chain, s)

  abbrev pub after_decode : Body → Option ChainBundle → S → Action × S
  after_decode body none s = (refuse bad_bundle, s)
  after_decode body (some bundle) s =
      let (result, s') = chain cfg.env cfg.deps cfg.sched bundle s in
      after_chain body bundle result s'

  -- the handler where there is no header value that is not empty
  abbrev pub without_bundle : S → Action × S
  without_bundle s = if cfg.allow_missing then (pass, s) else (refuse missing_header, s)

  abbrev pub with_headers : List Text → Body → S → Action × S
  with_headers [] body s = without_bundle s
  with_headers (h ∷ []) body s =
      let decoded = after_decode body (decode_bundle cfg.env h) s in
      if is_empty h then without_bundle s else decoded
  with_headers (h ∷ k ∷ hs) body s = (refuse multiple_headers, s)

  -- mcpMiddleware
  unfoldable pub handle : Request → S → Action × S
  handle req s = with_headers req.bundle_headers req.body s
