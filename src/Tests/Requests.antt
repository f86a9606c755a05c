-- ===== src/Tests/Requests.antt =====
-- Requests with the bundle of Fixture through the middleware of drs-verify/pkg/middleware.
use mathlib.Core.Option
use drs.Prelude.{true, false, ◌≡◌, refl, [], ◌∷◌, some}
use drs.Prelude.Text.{
  codes, ◌==◌, is_blank, blank_from, space_step, split, split_from, strip_prefix,
}
use drs.Types.{valid_result}
use drs.Chain.Jwt.{b64_value, base64_decode, jwt_parts, jwt_payload}
use drs.Chain.Verify.{context_of}
use drs.Middleware.Decode.{
  decode_bundle, decode_invocation_jti, decode_invocation_args, check_nonce_replay,
}
use drs.Middleware.Binding.{is_empty_args, check, check_request_binding}
use drs.Middleware.Mcp.{serve, handle}
use drs.Middleware.Guarded.{Guarded, handle-serve}
use drs.Tests.Fixture.{
  checker, World, env, deps, sched, bundle, decoded as decoded_chain, fresh, config, canon, request,
}
use drs.Server.{Service, VerifyRequest, decoded, answered, verify_handler}
use drs.Server.Answers.{Vouched, verify_handler-Vouched}
use drs.Tests.Chains.{chain_run}

abbrev claimed : World
claimed = record fresh { claimed = codes "inv:0" ∷ [] }

bundle_run : decode_bundle env (codes "YjA") ≡ some bundle
unfolding decode_bundle base64_decode b64_value ◌==◌ Option.bind
bundle_run = refl

handle_run : handle config request fresh ≡ (serve (some (context_of decoded_chain)), claimed)
unfolding handle check_nonce_replay decode_invocation_jti decode_invocation_args
    check_request_binding check is_empty_args jwt_payload jwt_parts split split_from strip_prefix
    base64_decode b64_value ◌==◌ Option.bind is_blank blank_from space_step valid_result
handle_run = rw (bundle_run, chain_run) refl

handle-serve_example : Guarded config request fresh (some (context_of decoded_chain)) claimed
handle-serve_example =
    handle-serve config request fresh claimed (some (context_of decoded_chain)) handle_run

abbrev service : Service World
service = record {
  env = env;
  canon = canon;
  is_json = λ t. true;
  deps = deps;
  sched = sched;
  nonce_store = some checker;
}

abbrev verify_request : VerifyRequest
verify_request = record { bundle = bundle; include_timestamps = false; body = [] }

posted_run : verify_handler service (codes "POST") (decoded verify_request) fresh ≡ (
  answered
      (record (valid_result (context_of decoded_chain)) { timestamps = []; store_warnings = [] }),
  claimed,
)
unfolding verify_handler check_nonce_replay decode_invocation_jti jwt_payload jwt_parts split
    split_from strip_prefix base64_decode b64_value ◌==◌ Option.bind valid_result
posted_run = rw chain_run refl

posted_valid :
    (record (valid_result (context_of decoded_chain)) {
      timestamps = [];
      store_warnings = [];
    }).valid
    ≡ true
unfolding valid_result
posted_valid = refl

verify_handler-Vouched_example :
    Vouched service
      (codes "POST")
      (decoded verify_request)
      fresh
      (record (valid_result (context_of decoded_chain)) { timestamps = []; store_warnings = [] })
      claimed
verify_handler-Vouched_example =
    verify_handler-Vouched service (codes "POST") (decoded verify_request) fresh claimed
      (record (valid_result (context_of decoded_chain)) { timestamps = []; store_warnings = [] })
      posted_run posted_valid
