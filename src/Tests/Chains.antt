-- ===== src/Tests/Chains.antt =====
-- The chain of Fixture through drs-verify/pkg/verify/chain.go.
use drs.Prelude.{
  ℕ, zero, suc, ◌^◌, ◌≡◌, ◌↔◌, ◌<◌, refl, true, false, [], ◌∷◌, some, ok, err, All, arith, length,
}
use mathlib.Core.Option
use drs.Prelude.Int.{pos, negsuc, IsInt64, ◌≤ℤ◌}
use drs.Prelude.Text.{Text, codes}
use drs.Types.{revoked}
use drs.Chain.Structure.{Decoded, fault_at}
use drs.Chain.Signature.{Keys}
use drs.Chain.WellFormed.{WellFormed, block_b-eq-ok_iff}
use drs.Chain.Authorised.{Authorised, block_d-eq-ok_iff}
use drs.Chain.InForce.{check_freshness_wraps}
use drs.Chain.Scalar.{strict_verify_ed25519-eq-ok_iff, value, scalar_byte, group_order}
use drs.Chain.Signed.{Signed, verify_jwt_signature-eq-ok_iff}
use drs.Chain.Context.{IsContext}
use drs.Chain.Accepted.{Accepted, check_chain-eq-ok_iff, chain-valid}
use drs.Chain.Resolved.{IsFair, IsAnswer, resolve_issuers-IsAnswer}
use drs.Tests.Fixture.{World, env, deps, sched, bundle, decoded, fresh, stopped, root_jwt}
use drs.Prelude.Text.{
  ◌==◌, strip_prefix, has_prefix, split_from, split, space_step, blank_from, is_blank,
}
use drs.Prelude.{last_of, any_of}
use drs.Prelude.Int.{◌+ℤ◌, ◌-ℤ◌, signed64, wrap64, add64, sub64}
use drs.Chain.Jwt.{
  b64_value, base64_decode, jwt_parts, hex_digit, hex_encode, compute_chain_hash, jwt_payload,
  decode_receipt, decode_invocation, decode_header,
}
use drs.Chain.Structure.{
  block_a, check_types, check_invocation_type, check_jtis, check_invocation_jti,
  validate_consent_record, check_root, decode_links, decode_all, check_hashes, check_references,
  check_issuers, check_dr_chain, block_b,
}
use drs.Chain.Semantic.{
  clock_skew, cmd_is_subpath, check_root_cmd, check_cmds, check_subjects, check_tool_server,
  check_narrowing, check_policies, block_d, check_freshness, check_times, block_e,
}
use drs.Chain.Verify.{
  prepare, context_of, check_remote, check_local, block_f, record_receipts, check_with_keys,
  check_chain, chain,
}
use drs.Chain.Signature.{
  byte_at, scan_scalar, strict_verify_ed25519, key_of, check_signature, verify_parts,
  verify_jwt_signature, check_receipt_signatures, check_invocation_signature, unique_from,
  run_workers, drain, resolve_issuers,
}
use drs.Types.{VerificationContext, lookup, valid_result, invalid_result}
use drs.Policy.Evaluate.{
  has_wildcard, contains, tool_covered, class_covered, float_of_int, to_float64, check_cost,
  check_pii, check_write, restricts, check_tool, check_resource, check_class, evaluate,
}
use drs.Policy.Attenuate.{
  keep_cost, keep_pii, keep_write, keep_calls, each_listed, keep_list, keep_tools, keep_resources,
  keep_classes, check_attenuation,
}

accepted_run : check_chain env deps sched bundle fresh ≡ (ok decoded, fresh)
unfolding ◌==◌ strip_prefix has_prefix split_from split space_step blank_from is_blank last_of
    any_of ◌+ℤ◌ ◌-ℤ◌ signed64 wrap64 add64 sub64 b64_value base64_decode jwt_parts hex_digit
    hex_encode compute_chain_hash jwt_payload decode_receipt decode_invocation decode_header block_a
    check_types check_invocation_type check_jtis check_invocation_jti validate_consent_record
    check_root decode_links decode_all check_hashes check_references check_issuers check_dr_chain
    block_b cmd_is_subpath check_root_cmd check_cmds check_subjects check_tool_server
    check_narrowing check_policies block_d check_freshness check_times block_e prepare context_of
    check_remote check_local block_f record_receipts check_with_keys check_chain chain byte_at
    scan_scalar strict_verify_ed25519 key_of check_signature verify_parts verify_jwt_signature
    check_receipt_signatures check_invocation_signature unique_from run_workers drain
    resolve_issuers lookup valid_result invalid_result has_wildcard contains tool_covered
    class_covered float_of_int to_float64 check_cost check_pii check_write restricts check_tool
    check_resource check_class evaluate keep_cost keep_pii keep_write keep_calls each_listed
    keep_list keep_tools keep_resources keep_classes check_attenuation Option.bind
accepted_run = refl

revoked_run : check_chain env deps sched bundle stopped ≡ (err (fault_at revoked 0), stopped)
unfolding ◌==◌ strip_prefix has_prefix split_from split space_step blank_from is_blank last_of
    any_of ◌+ℤ◌ ◌-ℤ◌ signed64 wrap64 add64 sub64 b64_value base64_decode jwt_parts hex_digit
    hex_encode compute_chain_hash jwt_payload decode_receipt decode_invocation decode_header block_a
    check_types check_invocation_type check_jtis check_invocation_jti validate_consent_record
    check_root decode_links decode_all check_hashes check_references check_issuers check_dr_chain
    block_b cmd_is_subpath check_root_cmd check_cmds check_subjects check_tool_server
    check_narrowing check_policies block_d check_freshness check_times block_e prepare context_of
    check_remote check_local block_f record_receipts check_with_keys check_chain chain byte_at
    scan_scalar strict_verify_ed25519 key_of check_signature verify_parts verify_jwt_signature
    check_receipt_signatures check_invocation_signature unique_from run_workers drain
    resolve_issuers lookup valid_result invalid_result has_wildcard contains tool_covered
    class_covered float_of_int to_float64 check_cost check_pii check_write restricts check_tool
    check_resource check_class evaluate keep_cost keep_pii keep_write keep_calls each_listed
    keep_list keep_tools keep_resources keep_classes check_attenuation Option.bind
revoked_run = refl

block_b_run : block_b env decoded ≡ ok tt
unfolding ◌==◌ strip_prefix has_prefix split_from split space_step blank_from is_blank last_of
    any_of hex_digit hex_encode compute_chain_hash check_types check_invocation_type check_jtis
    check_invocation_jti validate_consent_record check_root check_hashes check_references
    check_issuers check_dr_chain block_b
block_b_run = refl

block_d_run : block_d (codes "did:key:server") decoded ≡ ok tt
unfolding ◌==◌ strip_prefix has_prefix split_from split space_step blank_from is_blank last_of
    any_of cmd_is_subpath check_root_cmd check_cmds check_subjects check_tool_server check_narrowing
    check_policies block_d lookup has_wildcard contains tool_covered class_covered float_of_int
    to_float64 check_cost check_pii check_write restricts check_tool check_resource check_class
    evaluate keep_cost keep_pii keep_write keep_calls each_listed keep_list keep_tools
    keep_resources keep_classes check_attenuation ◌+ℤ◌ ◌-ℤ◌ signed64 wrap64 add64 sub64
block_d_run = refl

abbrev keys : Keys
keys = (codes "did:key:alice", codes "k") ∷ []

signature_run : verify_jwt_signature env root_jwt (codes "did:key:alice") keys ≡ ok tt
unfolding b64_value base64_decode jwt_parts hex_digit hex_encode compute_chain_hash jwt_payload
    decode_receipt decode_invocation decode_header byte_at scan_scalar strict_verify_ed25519 key_of
    check_signature verify_parts verify_jwt_signature ◌==◌ strip_prefix has_prefix split_from split
    space_step blank_from is_blank last_of any_of
signature_run = refl

run-Accepted : Accepted env deps sched bundle fresh decoded fresh
run-Accepted = (check_chain-eq-ok_iff env deps sched bundle fresh fresh decoded).0 accepted_run

valid_run : (chain env deps sched bundle fresh).0.valid ≡ true
unfolding chain record_receipts valid_result
valid_run = rw accepted_run refl

pub chain_run :
    chain env deps sched bundle fresh
    ≡ (record (valid_result (context_of decoded)) { timestamps = []; store_warnings = [] }, fresh)
unfolding chain record_receipts valid_result
chain_run = rw accepted_run refl

pub invalid_run : (chain env deps sched bundle stopped).0.valid ≡ false
unfolding chain invalid_result
invalid_run = rw revoked_run refl

check_chain-eq-ok_iff_example :
    (check_chain env deps sched bundle fresh ≡ (ok decoded, fresh))
    ↔ Accepted env deps sched bundle fresh decoded fresh
check_chain-eq-ok_iff_example = check_chain-eq-ok_iff env deps sched bundle fresh fresh decoded

chain-valid_example :
    (d : Decoded) × (t : World) × Accepted env deps sched bundle fresh d t
    × (c : VerificationContext) × ((chain env deps sched bundle fresh).0.context ≡ some c)
    × IsContext d c
chain-valid_example = chain-valid env deps sched bundle fresh valid_run

block_b-eq-ok_iff_example : (block_b env decoded ≡ ok tt) ↔ WellFormed env decoded
block_b-eq-ok_iff_example = block_b-eq-ok_iff env decoded

block_d-eq-ok_iff_example :
    (block_d (codes "did:key:server") decoded ≡ ok tt) ↔ Authorised (codes "did:key:server") decoded
block_d-eq-ok_iff_example = block_d-eq-ok_iff (codes "did:key:server") decoded

verify_jwt_signature-eq-ok_iff_example :
    (verify_jwt_signature env root_jwt (codes "did:key:alice") keys ≡ ok tt)
    ↔ Signed env keys root_jwt (codes "did:key:alice")
verify_jwt_signature-eq-ok_iff_example =
    verify_jwt_signature-eq-ok_iff env keys root_jwt (codes "did:key:alice")

abbrev zeros : ℕ → Text
zeros zero = []
zeros (suc n) = 0 ∷ zeros n

zeros-small : (n : ℕ) → All (λ b. b < 256) (zeros n)
zeros-small zero = tt
zeros-small (suc n) = (omega arith, zeros-small n)

strict_verify_ed25519-eq-ok_iff_example :
    (strict_verify_ed25519 env (zeros 64) ≡ ok tt)
    ↔ ((length (zeros 64) ≡ 64) × (value (scalar_byte (zeros 64)) 32 < group_order))
strict_verify_ed25519-eq-ok_iff_example =
    strict_verify_ed25519-eq-ok_iff env (zeros 64) (zeros-small 64)

soon : IsInt64 (pos 400 +ℤ clock_skew)
unfolding ◌+ℤ◌
soon = (omega arith, omega arith)

recent : IsInt64 (pos 400 -ℤ pos 390)
unfolding ◌-ℤ◌
recent = (omega arith, omega arith)

oldest : IsInt64 (negsuc 9223372036854775807)
oldest = (omega arith, omega arith)

long_ago : pos (2 ^ 63) ≤ℤ pos 400 -ℤ negsuc 9223372036854775807
unfolding ◌-ℤ◌
long_ago = omega arith

check_freshness_wraps_example :
    check_freshness (pos 60) (pos 400) (negsuc 9223372036854775807) ≡ ok tt
check_freshness_wraps_example =
    check_freshness_wraps (pos 60) (pos 400) (negsuc 9223372036854775807) (omega arith)
      (omega arith) soon oldest long_ago

fair : IsFair sched
fair = record { starts = λ dids d m. m; arrives = λ rs r m. m; sent = λ rs r m. m }

abbrev bob : Text
bob = codes "did:key:bob"

resolved_run :
    (resolve_issuers deps.resolve sched (bob ∷ bob ∷ []) fresh).0 ≡ ok ((bob, codes "k") ∷ [])
unfolding ◌==◌ any_of unique_from run_workers drain resolve_issuers
resolved_run = refl

known_run : key_of bob ((bob, codes "k") ∷ []) ≡ some (codes "k")
unfolding key_of ◌==◌
known_run = refl

resolve_issuers-IsAnswer_example : IsAnswer deps.resolve (bob, ok (codes "k"))
resolve_issuers-IsAnswer_example =
    resolve_issuers-IsAnswer deps.resolve sched fair (bob ∷ bob ∷ []) fresh ((bob, codes "k") ∷ [])
      bob (codes "k") resolved_run known_run
