-- ===== src/Server/Answers.antt =====
-- What an answer of verifyHandler in drs-verify/cmd/server/main.go means.
use drs.Prelude.{
  ◌≡◌, refl, ap, sym, Bool, true, false, Option, none, some, Bool-cases, inl, inr, if◌then◌else◌,
}
use drs.Prelude.Text.{Text, codes, ◌==◌, ==_iff}
use drs.Types.{VerificationResult}
use drs.Chain.Structure.{Decoded}
use drs.Chain.Accepted.{Accepted, chain-reported}
use drs.Middleware.Decode.{Refusal}
use drs.Middleware.Claimed.{Claimed, check_nonce_replay-Claimed}
use drs.Server.{
  VerifyRequest, Decoding, oversized, malformed, decoded, Answer, answered, Service, with_binding,
  after_claim, after_verify, request_deps, run_chain, after_decoding, verify_handler,
}

abbrev result_or : VerificationResult → Answer → VerificationResult
result_or d (answered r) = r
result_or d _ = d

answered_result : {a b : VerificationResult} → ◌≡◌ {A = Answer} (answered a) (answered b) → a ≡ b
answered_result {a} h = ap (result_or a) h

module _ {S : Type 0} (service : Service S) where
  -- What holds of a request that is answered as valid.
  pub record Vouched (method : Text) (body : Decoding) (s : S) (result : VerificationResult) (t : S)
      : Type 0 where
    pub post : method ≡ codes "POST"
    pub request : VerifyRequest
    pub read : body ≡ decoded request
    pub receipts : Decoded
    pub verified : S
    pub accepted :
        Accepted service.env
          (request_deps service request)
          service.sched
          request.bundle
          s
          receipts
          verified
    pub claimed :
        Claimed service.env service.nonce_store request.bundle (run_chain service request s).1 t
    pub shown : result ≡ with_binding service request (run_chain service request s).0

  chosen :
      (b : Bool) (x y : Answer × S) {z : Answer × S} → b ≡ true → (if b then x else y) ≡ z → x ≡ z
  chosen true x y e h = h
  chosen false x y e h = cc

  claim-answered :
      (p : Option Refusal × S) (result r : VerificationResult) (t : S)
      → after_claim service result p ≡ (answered r, t)
      → (p ≡ (none, t)) × (r ≡ result)
  claim-answered (some x, s) result r t h = cc (ap (λ (q : Answer × S). q.0) h)
  claim-answered (none, s) result r t h = (
    ap (λ (q : Answer × S). (none, q.1)) h,
    sym (answered_result (ap (λ (q : Answer × S). q.0) h)),
  )

  verify-answered :
      (method : Text) (req : VerifyRequest) (s t : S) (r : VerificationResult)
      → method ≡ codes "POST"
      → r.valid ≡ true
      → after_verify service req (run_chain service req s).0 (run_chain service req s).1
        ≡ (answered r, t)
      → Vouched method (decoded req) s r t
  verify-answered method req s t r post valid h =
      let run = run_chain service req s in
      elim (Bool-cases run.0.valid) [
        | inr invalid ↦
            let same : run.0 ≡ r =
              answered_result (ap (λ (q : Answer × S). q.0) (rw (after_verify, invalid) at h)) in
            cc (invalid, ap (λ (x : VerificationResult). x.valid) same, valid)
        | inl passed ↦
            let (nonce, shown) =
              claim-answered _ (with_binding service req run.0) r t
                (chosen run.0.valid _ _ passed h) in
            let (d, u, accepted, context) =
              chain-reported service.env (request_deps service req) service.sched req.bundle s
                passed in
            record {
              post = post;
              request = req;
              read = refl;
              receipts = d;
              verified = u;
              accepted = accepted;
              claimed =
                  check_nonce_replay-Claimed service.env req.bundle service.nonce_store run.1 t
                    nonce;
              shown = shown;
            }
      ]

  decoding-answered :
      (method : Text) (body : Decoding) (s t : S) (r : VerificationResult)
      → method ≡ codes "POST"
      → r.valid ≡ true
      → after_decoding service body s ≡ (answered r, t)
      → Vouched method body s r t
  decoding-answered method oversized s t r post valid h = cc (ap (λ (q : Answer × S). q.0) h)
  decoding-answered method malformed s t r post valid h = cc (ap (λ (q : Answer × S). q.0) h)
  decoding-answered method (decoded req) s t r post valid h =
      verify-answered method req s t r post valid h

  -- A request that /verify answers with a valid result is a POST whose bundle was accepted and
  -- whose JTI was then claimed fresh; the result is the verifier's, with the binding of the body.
  pub verify_handler-Vouched :
      (method : Text) (body : Decoding) (s t : S) (r : VerificationResult)
      → verify_handler service method body s ≡ (answered r, t)
      → r.valid ≡ true
      → Vouched method body s r t
  unfolding verify_handler
  verify_handler-Vouched method body s t r h valid = elim (Bool-cases (method == codes "POST")) [
    | inr other ↦ cc (ap (λ (q : Answer × S). q.0) (rw (other, verify_handler) at h))
    | inl post ↦
        decoding-answered method body s t r ((==_iff _ _).0 post) valid
          (rw (post, verify_handler) at h)
  ]

  -- A posted bundle that is not valid is answered with the verifier's result, and the state is the one
  -- that the verifier left: no nonce is claimed.
  pub verify_handler_invalid :
      (req : VerifyRequest) (s : S)
      → (run_chain service req s).0.valid ≡ false
      → verify_handler service (codes "POST") (decoded req) s
        ≡ (answered (run_chain service req s).0, (run_chain service req s).1)
  unfolding verify_handler ◌==◌
  verify_handler_invalid req s invalid = rw (after_verify, invalid) refl
