-- ===== src/Chain/Context.antt =====
-- The context of a valid result in drs-verify/pkg/verify/chain.go.
use drs.Prelude.{◌≡◌, refl, ap, List, [], ◌∷◌, ◌++◌, last_of, length}
use mathlib.Core.Option
use drs.Types.{ConsentRecord, VerificationContext}
use drs.Chain.Structure.{Link, Decoded, all_links, leaf}
use drs.Chain.Verify.{context_of}

-- What a context says of the accepted receipts.
pub record IsContext (d : Decoded) (c : VerificationContext) : Type 0 where
  pub principal : c.root_principal ≡ d.root.iss
  pub kind : c.root_type ≡ d.root.drs_root_type
  pub consent : c.consent_record ≡ d.root.drs_consent
  pub rules : c.regulatory ≡ d.root.drs_regulatory
  pub policy_of_last :
      (before : List Link) × (last : Link) × (all_links d ≡ before ++ last ∷ [])
      × (c.leaf_policy ≡ last.policy)
  pub depth : c.chain_depth ≡ length (all_links d)
  pub session : c.session_id ≡ Option.map (λ (r : ConsentRecord). r.session_id) d.root.drs_consent
  pub correlation : c.correlation_id ≡ d.root.correlation_id

last_of_split :
    (x : Link) (xs : List Link) → (before : List Link) × (x ∷ xs ≡ before ++ last_of x xs ∷ [])
unfolding last_of
last_of_split x [] = ([], refl)
last_of_split x (y ∷ ys) =
    let (before, e) = last_of_split y ys in (x ∷ before, ap (λ (l : List Link). x ∷ l) e)

pub context_of-IsContext : (d : Decoded) → IsContext d (context_of d)
unfolding context_of
context_of-IsContext d = record {
  principal = refl;
  kind = refl;
  consent = refl;
  rules = refl;
  policy_of_last = let (before, e) = last_of_split d.root d.rest in (before, leaf d, e, refl);
  depth = refl;
  session = refl;
  correlation = refl;
}
