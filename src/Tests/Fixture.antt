-- ===== src/Tests/Fixture.antt =====
-- A two-receipt chain for drs-verify/pkg/verify/chain.go, with the libraries and services that the
-- verifier calls instantiated by small functions.
use drs.Prelude.{
  ℕ, Bool, true, false, List, [], ◌∷◌, ◌++◌, none, some, eqb, if◌then◌else◌, length, get_elem?, ok,
  err, ◌%◌,
}
use drs.Prelude.Int.{pos, finite}
use drs.Prelude.Text.{Text, codes, ◌==◌}
use drs.Types.{
  float64, bool, string, array, nil, Fields, end, field, Policy, DelegationReceipt,
  InvocationReceipt, ChainBundle,
}
use drs.Chain.Jwt.{Env}
use drs.Chain.Structure.{Link, Decoded}
use drs.Chain.Signature.{Schedule}
use drs.Chain.Verify.{Deps}
use drs.Nonce.{accepted, replay_detected}
use drs.Middleware.Decode.{Checker}
use drs.Middleware.Binding.{Canon, bytes, enforced}
use drs.Middleware.Mcp.{Config, Request}

-- 64 bytes of zero in base64
abbrev zeros : Text
zeros =
    codes "AAAAAAAAAAAAAAAAAAAAAAAAAAAAAAAAAAAAAAAAAAAAAAAAAAAAAAAAAAAAAAAAAAAAAAAAAAAAAAAAAAAAAA"

-- The payloads are "r0", "r1" and "i0" in base64.
abbrev pub root_jwt : Text
root_jwt = codes "aGRy.cjA." ++ zeros

abbrev pub child_jwt : Text
child_jwt = codes "aGRy.cjE." ++ zeros

abbrev pub invocation_jwt : Text
invocation_jwt = codes "aGRy.aTA." ++ zeros

-- A digest that tells these JWTs apart: a byte of the payload, and the length.
abbrev digest : Text → Text
digest t = elim (get_elem? t 7) [ none ↦ [] | some b ↦ b ∷ length t % 256 ∷ [] ]

abbrev pub parent_policy : Policy
parent_policy = record {
  max_cost_usd = some (finite (pos 10));
  pii_access = some false;
  write_access = none;
  max_calls = some 4;
  allowed_tools = codes "search" ∷ codes "fetch" ∷ [];
  allowed_resources = [];
  allowed_data_classes = [];
}

abbrev pub child_policy : Policy
child_policy = record parent_policy {
  max_cost_usd = some (finite (pos 5));
  max_calls = some 2;
  allowed_tools = codes "search" ∷ [];
}

abbrev pub args : Fields
args = field (codes "tool") (string (codes "search")) (
    field (codes "estimated_cost_usd") (float64 (finite (pos 3)))
      (field (codes "pii_access") (bool false) end))

abbrev pub root_receipt : DelegationReceipt
root_receipt = record {
  iss = codes "did:key:alice";
  sub = codes "did:key:alice";
  aud = codes "did:key:bob";
  drs_v = codes "4.0";
  drs_type = codes "delegation-receipt";
  cmd = codes "/mcp/tools";
  policy = parent_policy;
  nbf = pos 100;
  exp = some (pos 900);
  iat = pos 100;
  jti = codes "dr:0";
  prev_dr_hash = none;
  drs_consent = some (record {
    method = codes "click";
    timestamp = codes "now";
    session_id = codes "s";
    policy_hash = codes "h";
    locale = codes "en";
  });
  drs_root_type = some (codes "human");
  drs_regulatory = none;
  drs_status_list_index = some 7;
  correlation_id = none;
  budget = [];
}

abbrev pub child_receipt : DelegationReceipt
child_receipt = record root_receipt {
  iss = codes "did:key:bob";
  aud = codes "did:key:carol";
  cmd = codes "/mcp/tools/call";
  policy = child_policy;
  nbf = pos 200;
  exp = some (pos 800);
  jti = codes "dr:1";
  prev_dr_hash = some (codes "sha256:415f");
  drs_consent = none;
  drs_root_type = none;
  drs_status_list_index = none;
}

abbrev pub invocation : InvocationReceipt
invocation = record {
  iss = codes "did:key:carol";
  sub = codes "did:key:alice";
  drs_v = codes "4.0";
  drs_type = codes "invocation-receipt";
  cmd = codes "/mcp/tools/call";
  args = args;
  dr_chain = codes "sha256:415f" ∷ codes "sha256:455f" ∷ [];
  tool_server = codes "did:key:server";
  iat = pos 390;
  jti = codes "inv:0";
  result_hash = none;
  policy_evaluation = none;
  correlation_id = none;
}

abbrev pub bundle : ChainBundle
bundle = record {
  bundle_version = codes "4.0";
  invocation = invocation_jwt;
  receipts = root_jwt ∷ child_jwt ∷ [];
}

abbrev pub root_link : Link
root_link = record { jwt = root_jwt; receipt = root_receipt }

abbrev pub child_link : Link
child_link = record { jwt = child_jwt; receipt = child_receipt }

abbrev pub decoded : Decoded
decoded = record {
  root = root_link;
  rest = child_link ∷ [];
  invocation_jwt = invocation_jwt;
  invocation = invocation;
}

abbrev pub env : Env
env = record {
  sha256 = digest;
  ed25519_verify = λ key message sig. eqb (length key) 1;
  unmarshal_header = λ t. if t == codes "hdr" then ok (codes "EdDSA") else err (codes "header");
  unmarshal_receipt = λ t.
      if t == codes "r0"
      then some root_receipt
      else if t == codes "r1"
      then some child_receipt
      else none;
  unmarshal_invocation = λ t. if t == codes "i0" then some invocation else none;
  unmarshal_bundle = λ t. if t == codes "b0" then some bundle else none;
  unmarshal_jti = λ t. if t == codes "i0" then some (codes "inv:0") else none;
  unmarshal_args = λ t. if t == codes "i0" then some (array nil) else none;
  base64_message = λ t. codes "illegal base64 data";
  quote = λ t. t;
  decimal = λ n. n ∷ [];
}

-- The state: the indices that are revoked, and the JTIs that were claimed.
pub record World : Type 0 where
  pub revoked : List ℕ
  pub claimed : List Text

abbrev has : List ℕ → ℕ → Bool
has [] i = false
has (j ∷ js) i = let rest = has js i in if eqb i j then true else rest

abbrev has_text : List Text → Text → Bool
has_text [] t = false
has_text (u ∷ us) t = let rest = has_text us t in if u == t then true else rest

abbrev pub deps : Deps World
deps = record {
  resolve = λ did w. (ok (codes "k"), w);
  revocation = some (λ i w. (ok (has w.revoked i), w));
  local_revocation = some (λ i w. has w.revoked i);
  store = none;
  server_identity = codes "did:key:server";
  include_timestamps = false;
  max_invocation_age = pos 60;
  clock = λ w. pos 400;
  verify_timestamp = λ token hash w. none;
}

abbrev pub sched : Schedule
sched = record { start = λ dids. dids; arrive = λ outcomes. outcomes }

abbrev pub fresh : World
fresh = record { revoked = 3 ∷ []; claimed = [] }

-- The root's index is revoked here.
abbrev pub stopped : World
stopped = record { revoked = 7 ∷ []; claimed = [] }

abbrev pub checker : Checker World
checker = record {
  check = λ jti w.
      if has_text w.claimed jti
      then (replay_detected, w)
      else (accepted, record w { claimed = jti ∷ w.claimed });
}

abbrev pub canon : Canon
canon = record { transform = λ t. some t; marshal = λ v. none }

abbrev pub config : Config World
config = record {
  env = env;
  canon = canon;
  deps = deps;
  sched = sched;
  nonce_store = some checker;
  mode = enforced;
  allow_missing = false;
}

-- "b0" in base64, with no body
abbrev pub request : Request
request = record { bundle_headers = codes "YjA" ∷ []; body = bytes [] }
