-- ===== src/Middleware/Guarded.antt =====
-- When the middleware of drs-verify/pkg/middleware calls the tool server's handler.
use drs.Prelude.{
  ◌≡◌, ◌≢◌, inl, inr, refl, ap, sym, ◌∙◌, ◌↔◌, true, false, List, [], ◌∷◌, Option, none, some,
  Bool-cases, arith,
}
use drs.Prelude.Text.{Text, is_empty}
use drs.Types.{Value, ChainBundle, VerificationContext, VerificationResult}
use drs.Chain.Jwt.{Env}
use drs.Chain.Structure.{Decoded}
use drs.Chain.Verify.{chain, context_of}
use drs.Chain.Accepted.{Accepted, chain-reported}
use drs.Middleware.Decode.{
  Refusal, decode_bundle, check_nonce_replay, decode_invocation_args, invalid_chain,
}
use drs.Middleware.Claimed.{Claimed, check_nonce_replay-Claimed}
use drs.Middleware.Binding.{
  enforced, Body, bytes, too_large, unreadable, Canon, check, compare_args, check_body,
  check_request_binding,
}
use drs.Middleware.Mcp.{
  Action, refuse, serve, Request, Config, after_binding, after_nonce, after_chain, after_decode,
  without_bundle, with_headers, handle,
}

module _ {S : Type 0} where
  binding-serve :
      (cfg : Config S) (c ctx : Option VerificationContext) (r : Option Refusal)
      → after_binding cfg c r ≡ serve ctx
      → (r ≡ none) × (c ≡ ctx)
  binding-serve cfg c ctx none h = (refl, ground arith)
  binding-serve cfg c ctx (some r) h = cc

  nonce-serve :
      (cfg : Config S) (body : Body) (bundle : ChainBundle) (c ctx : Option VerificationContext)
      (p : Option Refusal × S) (t : S)
      → after_nonce cfg body bundle c p ≡ (serve ctx, t)
      → (p ≡ (none, t))
        × (check_request_binding cfg.env cfg.canon cfg.mode body bundle.invocation ≡ none)
        × (c ≡ ctx)
  nonce-serve cfg body bundle c ctx (some r, s) t h = cc (ap (λ (p : Action × S). p.0) h)
  nonce-serve cfg body bundle c ctx (none, s) t h =
      let (bound, same) = binding-serve cfg c ctx _ (ap (λ (p : Action × S). p.0) h) in
      (ap (λ (p : Action × S). (none, p.1)) h, bound, same)

  chain-serve :
      (cfg : Config S) (body : Body) (bundle : ChainBundle) (result : VerificationResult)
      (ctx : Option VerificationContext) (s t : S)
      → after_chain cfg body bundle result s ≡ (serve ctx, t)
      → (result.valid ≡ true)
        × (check_nonce_replay cfg.env bundle.invocation cfg.nonce_store s ≡ (none, t))
        × (check_request_binding cfg.env cfg.canon cfg.mode body bundle.invocation ≡ none)
        × (result.context ≡ ctx)
  chain-serve cfg body bundle result ctx s t h = elim (Bool-cases result.valid) [
    | inr invalid ↦ cc (ap (λ (p : Action × S). p.0) (rw (invalid, after_chain) at h))
    | inl valid ↦
        let (nonce, bound, same) =
          nonce-serve cfg body bundle result.context ctx _ t (rw (valid, after_chain) at h) in
        (valid, nonce, bound, same)
  ]

  -- All that holds where the handler is called with the context `ctx` and the state `t`.
  pub record Guarded (cfg : Config S) (req : Request) (s : S) (ctx : Option VerificationContext)
      (t : S) : Type 0 where
    pub header : Text
    pub alone : req.bundle_headers ≡ header ∷ []
    pub bundle : ChainBundle
    pub decoded : decode_bundle cfg.env header ≡ some bundle
    pub receipts : Decoded
    pub verified : S
    pub accepted_chain : Accepted cfg.env cfg.deps cfg.sched bundle s receipts verified
    pub context : ctx ≡ some (context_of receipts)
    pub claimed :
        Claimed cfg.env cfg.nonce_store bundle (chain cfg.env cfg.deps cfg.sched bundle s).1 t
    pub bound : check_request_binding cfg.env cfg.canon cfg.mode req.body bundle.invocation ≡ none

  run-Guarded :
      (cfg : Config S) (req : Request) (h : Text) (o : Option ChainBundle) (s t : S)
      (ctx : Option VerificationContext)
      → req.bundle_headers ≡ h ∷ []
      → decode_bundle cfg.env h ≡ o
      → after_decode cfg req.body o s ≡ (serve ctx, t)
      → Guarded cfg req s ctx t
  run-Guarded cfg req h none s t ctx alone dec e = cc (ap (λ (p : Action × S). p.0) e)
  run-Guarded cfg req h (some bundle) s t ctx alone dec e =
      let run = chain cfg.env cfg.deps cfg.sched bundle s in
      let (valid, nonce, bound, same) = chain-serve cfg req.body bundle run.0 ctx run.1 t e in
      let (d, t', ok_chain, context) = chain-reported cfg.env cfg.deps cfg.sched bundle s valid in
      record {
        header = h;
        alone = alone;
        bundle = bundle;
        decoded = dec;
        receipts = d;
        verified = t';
        accepted_chain = ok_chain;
        context = sym same ∙ context;
        claimed = check_nonce_replay-Claimed cfg.env bundle cfg.nonce_store run.1 t nonce;
        bound = bound;
      }

  without-serve :
      (cfg : Config S) (s t : S) (ctx : Option VerificationContext)
      → without_bundle cfg s ≢ (serve ctx, t)
  without-serve cfg s t ctx h = elim (Bool-cases cfg.allow_missing) [
    | inl allowed ↦ cc (ap (λ (p : Action × S). p.0) (rw (allowed, without_bundle) at h))
    | inr required ↦ cc (ap (λ (p : Action × S). p.0) (rw (required, without_bundle) at h))
  ]

  served_with :
      (cfg : Config S) (req : Request) (hs : List Text) (s t : S) (ctx : Option VerificationContext)
      → req.bundle_headers ≡ hs
      → with_headers cfg hs req.body s ≡ (serve ctx, t)
      → Guarded cfg req s ctx t
  served_with cfg req [] s t ctx e h = absurd (without-serve cfg s t ctx h)
  served_with cfg req (x ∷ y ∷ xs) s t ctx e h = cc (ap (λ (p : Action × S). p.0) h)
  served_with cfg req (x ∷ []) s t ctx e h = elim (Bool-cases (is_empty x)) [
    | inl blank ↦ absurd (without-serve cfg s t ctx (rw (blank, with_headers) at h))
    | inr set ↦ run-Guarded cfg req x _ s t ctx e refl (rw (set, with_headers) at h)
  ]

  -- Where the middleware calls the handler with a context, the request had exactly one header, its
  -- bundle was accepted by the verifier in the state of the request, the context is that of its
  -- receipts, its JTI was claimed fresh after the verification, and the binding check passed.
  pub handle-serve :
      (cfg : Config S) (req : Request) (s t : S) (ctx : Option VerificationContext)
      → handle cfg req s ≡ (serve ctx, t)
      → Guarded cfg req s ctx t
  unfolding handle
  handle-serve cfg req s t ctx h = served_with cfg req req.bundle_headers s t ctx refl h

  -- A request with one header that is not empty, whose bundle decodes and is not valid, is refused
  -- with 403, and the state is the one that the verifier left: no nonce is claimed.
  pub handle_invalid :
      (cfg : Config S) (req : Request) (header : Text) (bundle : ChainBundle) (s : S)
      → req.bundle_headers ≡ header ∷ []
      → is_empty header ≡ false
      → decode_bundle cfg.env header ≡ some bundle
      → (chain cfg.env cfg.deps cfg.sched bundle s).0.valid ≡ false
      → handle cfg req s ≡ (refuse invalid_chain, (chain cfg.env cfg.deps cfg.sched bundle s).1)
  unfolding handle
  handle_invalid cfg req header bundle s one set dec invalid =
      rw (one, with_headers, set, dec, invalid)

-- The body was read, the args decode, and binding.Check accepts the two.
abbrev pub IsBound : Env → Canon → Text → Body → Type 0
IsBound env canon jwt body =
    (text : Text) × (body ≡ bytes text)
    × (args : Value) × (decode_invocation_args env jwt ≡ some args)
    × (check canon text args ≡ true)

module _ (env : Env) (canon : Canon) (jwt : Text) where
  compare_sound :
      (text : Text) (o : Option Value)
      → decode_invocation_args env jwt ≡ o
      → compare_args env canon enforced text o ≡ none
      → IsBound env canon jwt (bytes text)
  compare_sound text none e h = cc
  compare_sound text (some args) e h = elim (Bool-cases (check canon text args)) [
    | inl same ↦ (text, refl, args, e, same)
    | inr differ ↦ cc (rw (differ, compare_args) at h)
  ]

  body_sound :
      (body : Body) → check_body env canon enforced body jwt ≡ none → IsBound env canon jwt body
  body_sound too_large h = cc
  body_sound unreadable h = cc
  body_sound (bytes text) h = compare_sound text _ refl h

  -- In the enforced mode the binding check passes exactly where the body could be read within the
  -- limit, the invocation's args decode, and binding.Check accepts the two.
  pub check_request_binding-none_iff :
      (body : Body)
      → (check_request_binding env canon enforced body jwt ≡ none) ↔ IsBound env canon jwt body
  unfolding check_request_binding
  check_request_binding-none_iff body = (
    body_sound body,
    λ (text, read, args, dec, same). rw (read, check_body, dec, compare_args, same),
  )
