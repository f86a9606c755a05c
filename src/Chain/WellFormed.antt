-- ===== src/Chain/WellFormed.antt =====
-- What Block B of drs-verify/pkg/verify/chain.go establishes, stated without its loops.
use drs.Prelude.{
  ℕ, suc, ◌≡◌, ◌↔◌, inl, inr, refl, ap, ap₂, true, false, not, List, [], ◌∷◌, map, Option, none,
  some, eqb_iff, arith, length, All, ok, >>=-eq-ok, Bool-cases,
}
use mathlib.Core.Option.{some-injective}
use drs.Prelude.Text.{Text, codes, ==_iff, ==-refl, has_prefix, is_blank}
use drs.Types.{DelegationReceipt, ConsentRecord}
use drs.Chain.Jwt.{Env, compute_chain_hash}
use drs.Chain.Structure.{
  Link, Decoded, all_links, leaf, expected_drs_version, expected_dr_type, expected_inv_type,
  check_types, check_invocation_type, check_jtis, check_invocation_jti, validate_consent_record,
  check_root, check_hashes, check_references, check_issuers, check_dr_chain, block_b, hash_is,
  check_consent, is_human, is_set,
}
use drs.Chain.Links.{
  Linked, passed, passed_both, passed_last, not-eq-false, same_text, same_text_passes,
}

abbrev pub IsDelegation : Link → Type 0
IsDelegation l = (l.drs_type ≡ expected_dr_type) × (l.drs_v ≡ expected_drs_version)

abbrev pub HasJti : Link → Type 0
HasJti l = has_prefix l.jti (codes "dr:") ≡ true

-- The evidence of consent is there, and none of its four required fields is blank.
abbrev pub IsComplete : ConsentRecord → Type 0
IsComplete c =
    (is_blank c.method ≡ false)
    × (is_blank c.timestamp ≡ false)
    × (is_blank c.session_id ≡ false)
    × (is_blank c.policy_hash ≡ false)

abbrev pub HasConsent : DelegationReceipt → Type 0
HasConsent r = (c : ConsentRecord) × (r.drs_consent ≡ some c) × IsComplete c

module _ (env : Env) where
  -- The child names the hash of its parent's JWT.
  abbrev pub NamesHash : Link → Link → Type 0
  NamesHash p l = l.prev_dr_hash ≡ some (compute_chain_hash env p.jwt)

  abbrev pub hashes_of : List Link → List Text
  hashes_of ls = map (λ (l : Link). compute_chain_hash env l.jwt) ls

abbrev pub Issues : Link → Link → Type 0
Issues p l = l.iss ≡ p.aud

pub record WellFormed (env : Env) (d : Decoded) : Type 0 where
  pub types : All IsDelegation (all_links d)
  pub invocation_type : d.invocation.drs_type ≡ expected_inv_type
  pub invocation_version : d.invocation.drs_v ≡ expected_drs_version
  pub jtis : All HasJti (all_links d)
  pub invocation_jti : has_prefix d.invocation.jti (codes "inv:") ≡ true
  pub root : d.root.prev_dr_hash ≡ none
  pub consent : d.root.drs_root_type ≡ some (codes "human") → HasConsent d.root.receipt
  pub hashes : Linked (NamesHash env) d.root d.rest
  pub issuers : Linked Issues d.root d.rest
  pub invoker : d.invocation.iss ≡ (leaf d).aud
  pub references : d.invocation.dr_chain ≡ hashes_of env (all_links d)

check_types_iff : (i : ℕ) (ls : List Link) → (check_types i ls ≡ ok tt) ↔ All IsDelegation ls
unfolding check_types
check_types_iff i [] = (λ h. tt, λ h. refl)
check_types_iff i (l ∷ ls) = (
  λ h.
      let (a, b, h2) = passed_both _ _ _ _ _ h in
      ((same_text _ _ a, same_text _ _ b), (check_types_iff (suc i) ls).0 h2),
  λ h.
      rw (same_text_passes _ _ h.0.0, same_text_passes _ _ h.0.1)
        ((check_types_iff (suc i) ls).1 h.1),
)

check_jtis_iff : (i : ℕ) (ls : List Link) → (check_jtis i ls ≡ ok tt) ↔ All HasJti ls
unfolding check_jtis
check_jtis_iff i [] = (λ h. tt, λ h. refl)
check_jtis_iff i (l ∷ ls) = (
  λ h. let (a, h1) = passed _ _ _ h in (not-eq-false _ a, (check_jtis_iff (suc i) ls).0 h1),
  λ h. rw h.0 ((check_jtis_iff (suc i) ls).1 h.1),
)

check_issuers_iff :
    (i : ℕ) (p : Link) (ls : List Link) → (check_issuers i p ls ≡ ok tt) ↔ Linked Issues p ls
unfolding check_issuers
check_issuers_iff i p [] = (λ h. tt, λ h. refl)
check_issuers_iff i p (l ∷ ls) = (
  λ h. let (a, h1) = passed _ _ _ h in (same_text _ _ a, (check_issuers_iff (suc i) l ls).0 h1),
  λ h. rw (same_text_passes _ _ h.0) ((check_issuers_iff (suc i) l ls).1 h.1),
)

hash_is_iff : (o : Option Text) (t : Text) → (not (hash_is o t) ≡ false) ↔ (o ≡ some t)
hash_is_iff none t = (λ h. cc, λ h. cc)
hash_is_iff (some c) t =
    (λ h. ap some (same_text c t h), λ h. same_text_passes c t (some-injective _ _ h))

module _ (env : Env) where
  check_hashes_iff :
      (i : ℕ) (p : Link) (ls : List Link)
      → (check_hashes env i p ls ≡ ok tt) ↔ Linked (NamesHash env) p ls
  unfolding check_hashes
  check_hashes_iff i p [] = (λ h. tt, λ h. refl)
  check_hashes_iff i p (l ∷ ls) = (
    λ h.
        let (a, h1) = passed _ _ _ h in
        ((hash_is_iff _ _).0 a, (check_hashes_iff (suc i) l ls).0 h1),
    λ h. rw ((hash_is_iff _ _).1 h.0) ((check_hashes_iff (suc i) l ls).1 h.1),
  )

  check_references_sound :
      (i : ℕ) (hs : List Text) (ls : List Link)
      → check_references env i hs ls ≡ ok tt
      → length hs ≡ length ls
      → hs ≡ hashes_of env ls
  unfolding check_references
  check_references_sound i [] [] h e = refl
  check_references_sound i (x ∷ hs) [] h e = absurd (omega arith)
  check_references_sound i [] (l ∷ ls) h e = cc
  check_references_sound i (x ∷ hs) (l ∷ ls) h e =
      let (a, h1) = passed _ _ _ h in
      ap₂ (λ y ys. y ∷ ys) (same_text _ _ a) (check_references_sound (suc i) hs ls h1 (omega arith))

  check_references_complete :
      (i : ℕ) (ls : List Link) → check_references env i (hashes_of env ls) ls ≡ ok tt
  unfolding check_references
  check_references_complete i [] = refl
  check_references_complete i (l ∷ ls) =
      rw (==-refl (compute_chain_hash env l.jwt)) (check_references_complete (suc i) ls)

  length-hashes_of : (ls : List Link) → length (hashes_of env ls) ≡ length ls
  length-hashes_of [] = refl
  length-hashes_of (l ∷ ls) = omega (arith, length-hashes_of ls)

  check_dr_chain_iff :
      (d : Decoded)
      → (check_dr_chain env d ≡ ok tt) ↔ (d.invocation.dr_chain ≡ hashes_of env (all_links d))
  unfolding check_dr_chain
  check_dr_chain_iff d = (
    λ h.
        let (a, h1) = passed _ _ _ h in
        check_references_sound 0 _ (all_links d) h1 ((eqb_iff _ _).0 (not-eq-false _ a)),
    λ h.
        rw (h, (eqb_iff _ _).1 (length-hashes_of (all_links d)))
          (check_references_complete 0 (all_links d)),
  )

consent_field_iff : (c : ConsentRecord) → (validate_consent_record c ≡ none) ↔ IsComplete c
unfolding validate_consent_record
consent_field_iff c = (λ h. ground arith, λ h. ground arith)

check_consent_iff :
    (o : Option ConsentRecord)
    → (check_consent o ≡ ok tt) ↔ ((c : ConsentRecord) × (o ≡ some c) × IsComplete c)
check_consent_iff none = (λ h. cc, λ h. cc)
check_consent_iff (some c) = (
  λ h. (c, refl, (consent_field_iff c).0 (ground arith)),
  λ h. let complete = (consent_field_iff c).1 (rw (some-injective _ _ h.1) h.2) in rw complete,
)

human_iff : (o : Option Text) → (is_human o ≡ true) ↔ (o ≡ some (codes "human"))
human_iff none = (λ h. cc, λ h. cc)
human_iff (some t) = (λ h. ap some ((==_iff t _).0 h), λ h. (==_iff t _).1 (some-injective _ _ h))

unset_iff : {A : Type 0} (o : Option A) → (is_set o ≡ false) ↔ (o ≡ none)
unset_iff none = (λ h. refl, λ h. refl)
unset_iff (some a) = (λ h. cc, λ h. cc)

check_root_iff :
    (r : DelegationReceipt)
    → (check_root r ≡ ok tt)
      ↔ ((r.prev_dr_hash ≡ none) × (r.drs_root_type ≡ some (codes "human") → HasConsent r))
unfolding check_root
check_root_iff r = (
  λ h.
      let (a, h1) = passed _ _ _ h in
      ((unset_iff _).0 a, λ e. (check_consent_iff r.drs_consent).0 (rw ((human_iff _).1 e) at h1)),
  λ h. elim (Bool-cases (is_human r.drs_root_type)) [
    | inl human ↦ rw (
      (unset_iff _).1 h.0,
      human,
      (check_consent_iff r.drs_consent).1 (h.1 ((human_iff _).0 human)),
    )
    | inr other ↦ rw ((unset_iff _).1 h.0, other)
  ],
)

block_b_sound : (env : Env) (d : Decoded) → block_b env d ≡ ok tt → WellFormed env d
unfolding block_b check_invocation_type check_invocation_jti
block_b_sound env d h =
    let (_, a, h1) = >>=-eq-ok _ _ h in
    let (_, b, h2) = >>=-eq-ok _ _ h1 in
    let (_, c, h3) = >>=-eq-ok _ _ h2 in
    let (_, e, h4) = >>=-eq-ok _ _ h3 in
    let (_, f, h5) = >>=-eq-ok _ _ h4 in
    let (_, g, h6) = >>=-eq-ok _ _ h5 in
    let (_, k, h7) = >>=-eq-ok _ _ h6 in
    let (m, n) = passed _ _ _ h7 in
    let (ty, ver) = passed _ _ _ b in
    let (top, consent) = (check_root_iff _).0 f in
    record {
      types = (check_types_iff 0 (all_links d)).0 a;
      invocation_type = same_text _ _ ty;
      invocation_version = same_text _ _ (passed_last _ _ ver);
      jtis = (check_jtis_iff 0 (all_links d)).0 c;
      invocation_jti = not-eq-false _ (passed_last _ _ e);
      root = top;
      consent = consent;
      hashes = (check_hashes_iff env 1 d.root d.rest).0 g;
      issuers = (check_issuers_iff 1 d.root d.rest).0 k;
      invoker = same_text _ _ m;
      references = (check_dr_chain_iff env d).0 n;
    }

block_b_complete : (env : Env) (d : Decoded) → WellFormed env d → block_b env d ≡ ok tt
unfolding block_b check_invocation_type check_invocation_jti
block_b_complete env d w = rw (
  (check_types_iff 0 (all_links d)).1 w.types,
  same_text_passes _ _ w.invocation_type,
  same_text_passes _ _ w.invocation_version,
  (check_jtis_iff 0 (all_links d)).1 w.jtis,
  w.invocation_jti,
  (check_root_iff d.root.receipt).1 (w.root, w.consent),
  (check_hashes_iff env 1 d.root d.rest).1 w.hashes,
  (check_issuers_iff 1 d.root d.rest).1 w.issuers,
  same_text_passes _ _ w.invoker,
  (check_dr_chain_iff env d).1 w.references,
)

-- Block B accepts a decoded bundle exactly where it is well formed: types, versions and JTI
-- prefixes are right, the root has no parent and, if human, complete consent, every receipt names
-- its parent's hash and is issued by its parent's audience, the invocation is issued by the
-- leaf's audience, and its dr_chain lists the hashes of all receipts in order.
pub block_b-eq-ok_iff : (env : Env) (d : Decoded) → (block_b env d ≡ ok tt) ↔ WellFormed env d
block_b-eq-ok_iff env d = (block_b_sound env d, block_b_complete env d)
