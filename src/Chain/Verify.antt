-- ===== src/Chain/Verify.antt =====
-- Chain of drs-verify/pkg/verify/chain.go: the dependencies, Block F, the store, the timestamps, and
-- the blocks in order. The state `S` is what the dependencies keep.
use drs.Prelude.{
  ℕ, suc, Bool, true, false, List, [], ◌∷◌, ◌++◌, Option, none, some, if◌then◌else◌, length, Result,
  ok, err, fail_if, ◌>>=◌, ◌>>◌,
}
use mathlib.Core.Option
use drs.Prelude.Int.{ℤ}
use drs.Prelude.Text.{Text, codes}
use drs.Types.{
  ConsentRecord, ChainBundle, VerificationContext, VerificationError, VerificationResult,
  TimestampResult, revocation_check_failed, revoked, valid_result, invalid_result,
}
use drs.Chain.Jwt.{Env, compute_chain_hash}
use drs.Chain.Structure.{
  Verdict, Link, Decoded, all_links, leaf, fault, fault_at, block_a, decode_all, block_b,
}
use drs.Chain.Signature.{
  Keys, Schedule, SignatureError, resolve_issuers, issuer_dids, classify_signature_error,
  check_receipt_signatures, check_invocation_signature,
}
use drs.Chain.Semantic.{block_d, block_e}

-- store.Store, the calls that Chain makes: `put` gives an error's text, `get` the stored text.
pub record Store (S : Type 0) : Type 0 where
  pub put : Text → Text → S → Option Text × S
  pub get : Text → S → Option Text × S

-- verify.Deps, with the clock and anchor.VerifyTimestampTrusted over the configured roots.
pub record Deps (S : Type 0) : Type 0 where
  pub resolve : Text → S → Result Text Text × S
  pub revocation : Option (ℕ → S → Result (Unit {0}) Bool × S)
  pub local_revocation : Option (ℕ → S → Bool)
  pub store : Option (Store S)
  pub server_identity : Text
  pub include_timestamps : Bool
  -- whole seconds, as the server configures it
  pub max_invocation_age : ℤ
  pub clock : S → ℤ
  pub verify_timestamp : Text → Text → S → Option ℤ

-- A stage that may return early, and keeps the state that it reached.
abbrev pub Stage : Type 0 → Type 0 → Type 0
Stage S A = S → Result VerificationError A × S

abbrev pub then_stage : {S : Type 0} → Verdict → Stage S (Unit {0}) → Stage S (Unit {0})
then_stage (ok _) next s = next s
then_stage (err e) next s = (err e, s)

-- Blocks A and B, with the decoding between them
unfoldable pub prepare : Env → ChainBundle → Result VerificationError Decoded
prepare env bundle = do block_a bundle; d ← decode_all env bundle; block_b env d; ok d

abbrev pub remote_verdict : ℕ → Result (Unit {0}) Bool → Verdict
remote_verdict i (err _) = err (fault_at revocation_check_failed i)
remote_verdict i (ok true) = err (fault_at revoked i)
remote_verdict i (ok false) = ok tt

unfoldable pub context_of : Decoded → VerificationContext
context_of d = record {
  root_principal = d.root.iss;
  root_type = d.root.drs_root_type;
  consent_record = d.root.drs_consent;
  regulatory = d.root.drs_regulatory;
  leaf_policy = (leaf d).policy;
  chain_depth = length (all_links d);
  session_id = Option.map (λ (c : ConsentRecord). c.session_id) d.root.drs_consent;
  correlation_id = d.root.correlation_id;
}

module _ {S : Type 0} where
  module _ (is_revoked : ℕ → S → Result (Unit {0}) Bool × S) where
    abbrev pub ask_remote : ℕ → Option ℕ → Stage S (Unit {0})
    ask_remote i none s = (ok tt, s)
    ask_remote i (some index) s = let (r, s') = is_revoked index s in (remote_verdict i r, s')

    unfoldable pub check_remote : ℕ → List Link → Stage S (Unit {0})
    check_remote i [] s = (ok tt, s)
    check_remote i (l ∷ ls) s =
        let (r, s') = ask_remote i l.drs_status_list_index s in
        then_stage r (check_remote (suc i) ls) s'

  module _ (is_revoked : ℕ → S → Bool) where
    abbrev pub ask_local : ℕ → Option ℕ → S → Verdict
    ask_local i none s = ok tt
    ask_local i (some index) s = fail_if (is_revoked index s) (fault_at revoked i)

    unfoldable pub check_local : ℕ → List Link → S → Verdict
    check_local i [] s = ok tt
    check_local i (l ∷ ls) s = ask_local i l.drs_status_list_index s >> check_local (suc i) ls s

  -- A store that is not configured is skipped.
  abbrev pub remote_stage :
      Option (ℕ → S → Result (Unit {0}) Bool × S) → List Link → Stage S (Unit {0})
  remote_stage none ls s = (ok tt, s)
  remote_stage (some ask) ls s = check_remote ask 0 ls s

  abbrev pub local_verdict : Option (ℕ → S → Bool) → List Link → S → Verdict
  local_verdict none ls s = ok tt
  local_verdict (some ask) ls s = check_local ask 0 ls s

  unfoldable pub block_f : Deps S → Decoded → Stage S (Unit {0})
  block_f deps d s =
      let (r, s') = remote_stage deps.revocation (all_links d) s in
      then_stage r (λ t. (local_verdict deps.local_revocation (all_links d) t, t)) s'

  module _ (env : Env) where
    -- The receipts that could not be stored, by their hashes; the warnings' wording is left out.
    unfoldable pub put_all : Store S → List Link → S → List Text × S
    put_all store [] s = ([], s)
    put_all store (l ∷ ls) s =
        let hash = compute_chain_hash env l.jwt in
        let (failed, s1) = store.put hash l.jwt s in
        let (warnings, s2) = put_all store ls s1 in
        (elim failed [ none ↦ warnings | some message ↦ hash ∷ warnings ], s2)

    abbrev pub timestamp_result : Deps S → ℕ → Link → S → Option Text → TimestampResult
    timestamp_result deps i l s none = record { index = i; valid = false; time = none }
    timestamp_result deps i l s (some token) =
        elim (deps.verify_timestamp token (env.sha256 l.jwt) s) [
          | none ↦ record { index = i; valid = false; time = none }
          | some t ↦ record { index = i; valid = true; time = some t }
        ]

    unfoldable pub verify_timestamps :
        Deps S → Store S → ℕ → List Link → S → List TimestampResult × S
    verify_timestamps deps store i [] s = ([], s)
    verify_timestamps deps store i (l ∷ ls) s =
        let (token, s1) = store.get (compute_chain_hash env l.jwt ++ codes ".tst") s in
        let (rs, s2) = verify_timestamps deps store (suc i) ls s1 in
        (timestamp_result deps i l s1 token ∷ rs, s2)

    -- The store after verification: neither part can fail it.
    unfoldable pub record_receipts :
        Deps S
        → Decoded
        → S
        → record { warnings : List Text; timestamps : List TimestampResult } × S
    record_receipts deps d s = elim deps.store [
      | none ↦ (record { warnings = []; timestamps = [] }, s)
      | some store ↦
          let (ws, s1) = put_all store (all_links d) s in
          let (ts, s2) = verify_timestamps deps store 0 (all_links d) s1 in
          if deps.include_timestamps
          then (record { warnings = ws; timestamps = ts }, s2)
          else (record { warnings = ws; timestamps = [] }, s1)
    ]

  module _ (env : Env) (deps : Deps S) (sched : Schedule) where
    -- Block C once the keys are there, and Blocks D and E, at the time `now`
    unfoldable pub check_with_keys : Decoded → Keys → ℤ → Verdict
    check_with_keys d keys now = do
      check_receipt_signatures env 0 (all_links d) keys
      check_invocation_signature env d keys
      block_d deps.server_identity d
      block_e deps.max_invocation_age now d

    -- Block F, where the blocks before it found no fault
    abbrev pub check_live : Decoded → Verdict → Stage S Decoded
    check_live d (err e) s = (err e, s)
    check_live d (ok _) s = let (r, s') = block_f deps d s in ((r >> ok d), s')

    -- the blocks after the resolution of the issuers' keys
    abbrev pub check_resolved : Decoded → Result SignatureError Keys → Stage S Decoded
    check_resolved d (err e) s = (err (fault (classify_signature_error e)), s)
    check_resolved d (ok keys) s = check_live d (check_with_keys d keys (deps.clock s)) s

    abbrev pub check_prepared : Result VerificationError Decoded → Stage S Decoded
    check_prepared (err e) s = (err e, s)
    check_prepared (ok d) s =
        let (r, s') = resolve_issuers deps.resolve sched (issuer_dids d) s in check_resolved d r s'

    -- Blocks A to F: the decoded bundle, or the first fault.
    unfoldable pub check_chain : ChainBundle → Stage S Decoded
    check_chain bundle s = check_prepared (prepare env bundle) s

    abbrev pub report : Result VerificationError Decoded → S → VerificationResult × S
    report (err e) s = (invalid_result e, s)
    report (ok d) s =
        let (kept, s') = record_receipts env deps d s in
        (
          record (valid_result (context_of d)) {
            timestamps = kept.timestamps;
            store_warnings = kept.warnings;
          },
          s',
        )

    unfoldable pub chain : ChainBundle → S → VerificationResult × S
    chain bundle s = let (r, s') = check_chain bundle s in report r s'
