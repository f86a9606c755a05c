-- ===== src/Middleware/Claimed.antt =====
-- What CheckNonceReplay of drs-verify/pkg/middleware/decode.go has done where it lets a request pass.
use drs.Prelude.{◌≡◌, refl, ap, false, Option, none, some, Bool-cases, inl, inr}
use drs.Prelude.Text.{Text, is_empty}
use drs.Types.{ChainBundle}
use drs.Nonce.{Outcome, accepted, replay_detected, store_exhausted}
use drs.Chain.Jwt.{Env}
use drs.Middleware.Decode.{
  Refusal, Checker, claim_jti, check_nonce_replay, decode_invocation_jti, claim_answer,
}

module _ {S : Type 0} where
  -- The invocation's JTI was fresh in the state `s`, and its claim leaves the state `t`.
  abbrev pub Claimed : Env → Option (Checker S) → ChainBundle → S → S → Type 0
  Claimed env store bundle s t =
      (ns : Checker S) × (store ≡ some ns)
      × (jti : Text) × (decode_invocation_jti env bundle.invocation ≡ some jti)
      × (is_empty jti ≡ false)
      × (ns.check jti s ≡ (accepted, t))

  claim-accepted :
      (o : Outcome) (s t : S)
      → ◌≡◌ {A = Option Refusal × S} (claim_answer o, s) (none, t)
      → ◌≡◌ {A = Outcome × S} (o, s) (accepted, t)
  claim-accepted accepted s t h = ap (λ (p : Option Refusal × S). (accepted, p.1)) h
  claim-accepted replay_detected s t h = cc (ap (λ (p : Option Refusal × S). p.0) h)
  claim-accepted store_exhausted s t h = cc (ap (λ (p : Option Refusal × S). p.0) h)

  claim_jti-none :
      (ns : Checker S) (o : Option Text) (s t : S)
      → claim_jti ns o s ≡ (none, t)
      → (jti : Text) × (o ≡ some jti) × (is_empty jti ≡ false) × (ns.check jti s ≡ (accepted, t))
  claim_jti-none ns none s t h = cc (ap (λ (p : Option Refusal × S). p.0) h)
  claim_jti-none ns (some jti) s t h = elim (Bool-cases (is_empty jti)) [
    | inl blank ↦ cc (ap (λ (p : Option Refusal × S). p.0) (rw (blank, claim_jti) at h))
    | inr set ↦ (
      jti,
      refl,
      set,
      claim-accepted (ns.check jti s).0 (ns.check jti s).1 t (rw (set, claim_jti) at h),
    )
  ]

  -- Where CheckNonceReplay lets a request through, its JTI was claimed.
  pub check_nonce_replay-Claimed :
      (env : Env) (bundle : ChainBundle) (o : Option (Checker S)) (s t : S)
      → check_nonce_replay env bundle.invocation o s ≡ (none, t)
      → Claimed env o bundle s t
  unfolding check_nonce_replay
  check_nonce_replay-Claimed env bundle none s t h = cc (ap (λ (p : Option Refusal × S). p.0) h)
  check_nonce_replay-Claimed env bundle (some ns) s t h =
      let (jti, found, set, fresh) = claim_jti-none ns _ s t h in (ns, refl, jti, found, set, fresh)
