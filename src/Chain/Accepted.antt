-- ===== src/Chain/Accepted.antt =====
-- Chain of drs-verify/pkg/verify/chain.go as a whole: when a bundle is valid, and what its result says.
use drs.Prelude.{
  ◌≤◌, ◌<◌, ◌≡◌, ◌≢◌, ◌↔◌, refl, ap, subst, true, false, [], none, some, arith, length, All, Result,
  ok, err, ◌>>◌, >>=-eq-ok, ok-injective,
}
use drs.Prelude.Int.{ℤ}
use drs.Types.{ChainBundle, VerificationContext, VerificationError, valid_result, invalid_result}
use drs.Chain.Jwt.{Env}
use drs.Chain.Structure.{Verdict, Decoded, all_links, block_a, decode_all, block_b}
use drs.Chain.Signature.{Keys, Schedule, SignatureError, resolve_issuers, issuer_dids}
use drs.Chain.Semantic.{block_e, check_freshness}
use drs.Chain.Verify.{
  Deps, prepare, check_with_keys, check_live, check_resolved, check_prepared, block_f, context_of,
  check_chain, report, chain,
}
use drs.Chain.Context.{IsContext, context_of-IsContext}
use drs.Chain.WellFormed.{WellFormed, block_b-eq-ok_iff}
use drs.Chain.InForce.{IsActive, check_times-eq-ok_iff}
use drs.Chain.Authorised.{Authorised, block_d-eq-ok_iff}
use drs.Chain.Signed.{
  Signed, SignedLink, check_receipt_signatures_sound, check_receipt_signatures_complete,
  check_invocation_signature_iff,
}

-- The state after the issuers' keys were resolved.
abbrev pub after_keys : {S : Type 0} → Deps S → Schedule → Decoded → S → S
after_keys deps sched d s = (resolve_issuers deps.resolve sched (issuer_dids d) s).1

-- What Chain has established where it goes on to store the receipts.
pub record Accepted {S : Type 0} (env : Env) (deps : Deps S) (sched : Schedule)
    (bundle : ChainBundle) (s : S) (d : Decoded) (t : S) : Type 0 where
  pub some_receipt : 0 < length bundle.receipts
  pub depth : length bundle.receipts ≤ 16
  pub has_invocation : bundle.invocation ≢ []
  pub decoded : decode_all env bundle ≡ ok d
  pub well_formed : WellFormed env d
  pub keys : Keys
  pub issuers : (resolve_issuers deps.resolve sched (issuer_dids d) s).0 ≡ ok keys
  pub signed : All (SignedLink env keys) (all_links d)
  pub invoked : Signed env keys d.invocation_jwt d.invocation.iss
  pub authorised : Authorised deps.server_identity d
  pub fresh :
      check_freshness deps.max_invocation_age
        (deps.clock (after_keys deps sched d s))
        d.invocation.iat
      ≡ ok tt
  pub active : All (IsActive (deps.clock (after_keys deps sched d s))) (all_links d)
  pub live : block_f deps d (after_keys deps sched d s) ≡ (ok tt, t)

block_a_iff :
    (bundle : ChainBundle)
    → (block_a bundle ≡ ok tt)
      ↔ ((0 < length bundle.receipts) × (length bundle.receipts ≤ 16) × (bundle.invocation ≢ []))
unfolding block_a
block_a_iff bundle = (λ h. (ground arith, ground arith, λ e. ground arith), λ h. ground arith)

prepare-eq-ok :
    (env : Env) (bundle : ChainBundle) (d : Decoded)
    → prepare env bundle ≡ ok d
    → (block_a bundle ≡ ok tt) × (decode_all env bundle ≡ ok d) × (block_b env d ≡ ok tt)
unfolding prepare
prepare-eq-ok env bundle d h =
    let (_, a, h1) = >>=-eq-ok _ _ h in
    let (d', b, h2) = >>=-eq-ok _ _ h1 in
    let (_, c, e) = >>=-eq-ok _ _ h2 in
    let same : d' ≡ d = ok-injective e in (a, rw (← same) b, rw (← same) c)

stage_pair :
    {S : Type 0} (d e : Decoded) (p : Result VerificationError Unit × S) (t : S)
    → ◌≡◌ {A = Result VerificationError Decoded × S} ((p.0 >> ok d), p.1) (ok e, t)
    → (p ≡ (ok tt, t)) × (d ≡ e)
stage_pair {S} d e (ok u, s) t h = (
  ap (λ (q : Result VerificationError Decoded × S). (ok tt, q.1)) h,
  ok-injective (ap (λ (q : Result VerificationError Decoded × S). q.0) h),
)
stage_pair {S} d e (err m, s) t h = cc (ap (λ (q : Result VerificationError Decoded × S). q.0) h)

module _ {S : Type 0} (env : Env) (deps : Deps S) (sched : Schedule) where
  live-eq-ok :
      (d e : Decoded) (v : Verdict) (s t : S)
      → check_live env deps sched d v s ≡ (ok e, t)
      → (v ≡ ok tt) × (block_f deps d s ≡ (ok tt, t)) × (d ≡ e)
  live-eq-ok d e (err m) s t h = cc (ap (λ (p : Result VerificationError Decoded × S). p.0) h)
  live-eq-ok d e (ok u) s t h =
      let (run, same) = stage_pair d e (block_f deps d s) t h in (refl, run, same)

  resolved-eq-ok :
      (d e : Decoded) (r : Result SignatureError Keys) (s t : S)
      → check_resolved env deps sched d r s ≡ (ok e, t)
      → (keys : Keys) × (r ≡ ok keys)
        × (check_with_keys env deps sched d keys (deps.clock s) ≡ ok tt)
        × (block_f deps d s ≡ (ok tt, t))
        × (d ≡ e)
  resolved-eq-ok d e (err m) s t h = cc (ap (λ (p : Result VerificationError Decoded × S). p.0) h)
  resolved-eq-ok d e (ok keys) s t h =
      let (checked, run, same) = live-eq-ok d e _ s t h in (keys, refl, checked, run, same)

  with_keys-eq-ok :
      (d : Decoded) (keys : Keys) (now : ℤ)
      → check_with_keys env deps sched d keys now ≡ ok tt
      → All (SignedLink env keys) (all_links d)
        × Signed env keys d.invocation_jwt d.invocation.iss
        × Authorised deps.server_identity d
        × (check_freshness deps.max_invocation_age now d.invocation.iat ≡ ok tt)
        × All (IsActive now) (all_links d)
  unfolding check_with_keys block_e
  with_keys-eq-ok d keys now h =
      let (_, a, h1) = >>=-eq-ok _ _ h in
      let (_, b, h2) = >>=-eq-ok _ _ h1 in
      let (_, c, h3) = >>=-eq-ok _ _ h2 in
      let (_, e, f) = >>=-eq-ok _ _ h3 in
      (
        check_receipt_signatures_sound env keys 0 (all_links d) a,
        (check_invocation_signature_iff env keys d).0 b,
        (block_d-eq-ok_iff _ d).0 c,
        e,
        (check_times-eq-ok_iff 0 now (all_links d)).0 f,
      )

  prepared-eq-ok :
      (r : Result VerificationError Decoded) (s t : S) (d : Decoded)
      → check_prepared env deps sched r s ≡ (ok d, t)
      → (r ≡ ok d)
        × (keys : Keys) × ((resolve_issuers deps.resolve sched (issuer_dids d) s).0 ≡ ok keys)
        × (check_with_keys env deps sched d keys (deps.clock (after_keys deps sched d s)) ≡ ok tt)
        × (block_f deps d (after_keys deps sched d s) ≡ (ok tt, t))
  prepared-eq-ok (err m) s t d h = cc (ap (λ (p : Result VerificationError Decoded × S). p.0) h)
  prepared-eq-ok (ok d') s t d h =
      let (keys, r, checked, run, same) = resolved-eq-ok d' d _ _ t h in
      let moved : (keys : Keys) × ((resolve_issuers deps.resolve sched (issuer_dids d) s).0
            ≡ ok keys)
          × (check_with_keys env deps sched d keys (deps.clock (after_keys deps sched d s)) ≡ ok tt)
          × (block_f deps d (after_keys deps sched d s) ≡ (ok tt, t)) =
        subst
          (λ (x : Decoded).
            (keys : Keys) × ((resolve_issuers deps.resolve sched (issuer_dids x) s).0 ≡ ok keys)
            × (check_with_keys env deps sched x keys (deps.clock (after_keys deps sched x s))
                ≡ ok tt)
            × (block_f deps x (after_keys deps sched x s) ≡ (ok tt, t)))
          same (keys, r, checked, run) in
      (ap ok same, moved.0, moved.1, moved.2, moved.3)

  check_chain_sound :
      (bundle : ChainBundle) (s t : S) (d : Decoded)
      → check_chain env deps sched bundle s ≡ (ok d, t)
      → Accepted env deps sched bundle s d t
  unfolding check_chain
  check_chain_sound bundle s t d h =
      let (r, keys, issuers, checked, live) = prepared-eq-ok (prepare env bundle) s t d h in
      let (a, decoded, b) = prepare-eq-ok env bundle d r in
      let (least, most, inv) = (block_a_iff bundle).0 a in
      let (signed, invoked, authorised, fresh, active) = with_keys-eq-ok d keys _ checked in
      record {
        some_receipt = least;
        depth = most;
        has_invocation = inv;
        decoded = decoded;
        well_formed = (block_b-eq-ok_iff env d).0 b;
        keys = keys;
        issuers = issuers;
        signed = signed;
        invoked = invoked;
        authorised = authorised;
        fresh = fresh;
        active = active;
        live = live;
      }

  check_chain_complete :
      (bundle : ChainBundle) (s t : S) (d : Decoded)
      → Accepted env deps sched bundle s d t
      → check_chain env deps sched bundle s ≡ (ok d, t)
  unfolding check_chain prepare check_with_keys block_e
  check_chain_complete bundle s t d a = rw (
    (block_a_iff bundle).1 (a.some_receipt, a.depth, a.has_invocation),
    a.decoded,
    (block_b-eq-ok_iff env d).1 a.well_formed,
    a.issuers,
    check_receipt_signatures_complete env a.keys 0 (all_links d) a.signed,
    (check_invocation_signature_iff env a.keys d).1 a.invoked,
    (block_d-eq-ok_iff deps.server_identity d).1 a.authorised,
    a.fresh,
    (check_times-eq-ok_iff 0 _ (all_links d)).1 a.active,
    a.live,
  )

  -- Blocks A to F let a bundle through, decoded as d and with the state t, exactly where all their
  -- conditions hold: the sizes, the decoding, the well-formed chain, the signatures under the
  -- resolved keys, the authorisation, the freshness test and the windows at the time read after the
  -- resolution, and the revocation checks.
  pub check_chain-eq-ok_iff :
      (bundle : ChainBundle) (s t : S) (d : Decoded)
      → (check_chain env deps sched bundle s ≡ (ok d, t)) ↔ Accepted env deps sched bundle s d t
  check_chain-eq-ok_iff bundle s t d =
      (check_chain_sound bundle s t d, check_chain_complete bundle s t d)

  report-valid :
      (r : Result VerificationError Decoded) (s : S)
      → (report env deps sched r s).0.valid ≡ true
      → (d : Decoded) × (r ≡ ok d) × ((report env deps sched r s).0.context ≡ some (context_of d))
  unfolding valid_result invalid_result
  report-valid (ok d) s h = (d, refl, refl)
  report-valid (err e) s h = cc

  pub chain-reported :
      (bundle : ChainBundle) (s : S)
      → (chain env deps sched bundle s).0.valid ≡ true
      → (d : Decoded) × (t : S) × Accepted env deps sched bundle s d t
        × ((chain env deps sched bundle s).0.context ≡ some (context_of d))
  unfolding chain
  chain-reported bundle s h =
      let (d, through, context) =
        report-valid (check_chain env deps sched bundle s).0 (check_chain env deps sched bundle s).1
          h in
      let t = (check_chain env deps sched bundle s).1 in
      let whole : check_chain env deps sched bundle s ≡ (ok d, t) =
        ap (λ (r : Result VerificationError Decoded). (r, t)) through in
      (d, t, check_chain_sound bundle s t d whole, context)

  -- Where Chain answers valid, the bundle was accepted, and the context that it hands on has the
  -- root's issuer, root type, consent with its session, regulatory data and correlation id, the
  -- policy of the last receipt, and the number of the receipts.
  pub chain-valid :
      (bundle : ChainBundle) (s : S)
      → (chain env deps sched bundle s).0.valid ≡ true
      → (d : Decoded) × (t : S) × Accepted env deps sched bundle s d t
        × (c : VerificationContext) × ((chain env deps sched bundle s).0.context ≡ some c)
        × IsContext d c
  chain-valid bundle s h =
      let (d, t, accepted, context) = chain-reported bundle s h in
      (d, t, accepted, context_of d, context, context_of-IsContext d)

  -- An accepted bundle is answered valid, whatever the store and the timestamp service do then.
  pub chain_accepts :
      (bundle : ChainBundle) (s t : S) (d : Decoded)
      → Accepted env deps sched bundle s d t
      → ((chain env deps sched bundle s).0.valid ≡ true)
        × ((chain env deps sched bundle s).0.error ≡ none)
  unfolding chain valid_result
  chain_accepts bundle s t d a = rw (check_chain_complete bundle s t d a) (refl, refl)

  report_exclusive :
      (r : Result VerificationError Decoded) (s : S)
      → ((report env deps sched r s).0.valid ≡ false)
      → ((report env deps sched r s).0.context ≡ none)
        × (e : VerificationError) × (r ≡ err e)
        × ((report env deps sched r s).0.error ≡ some e)
        × ((report env deps sched r s).1 ≡ s)
  unfolding valid_result invalid_result
  report_exclusive (ok d) s h = cc
  report_exclusive (err e) s h = (refl, e, refl, refl, refl)

  -- A bundle that is answered invalid has an error and no context, and nothing of it is stored:
  -- the state is the one that the failing block left.
  pub chain-invalid :
      (bundle : ChainBundle) (s : S)
      → (chain env deps sched bundle s).0.valid ≡ false
      → ((chain env deps sched bundle s).0.context ≡ none)
        × (e : VerificationError) × ((check_chain env deps sched bundle s).0 ≡ err e)
        × ((chain env deps sched bundle s).0.error ≡ some e)
        × ((chain env deps sched bundle s).1 ≡ (check_chain env deps sched bundle s).1)
  unfolding chain
  chain-invalid bundle s h =
      report_exclusive (check_chain env deps sched bundle s).0
        (check_chain env deps sched bundle s).1 h
