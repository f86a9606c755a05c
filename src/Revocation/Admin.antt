-- ===== src/Revocation/Admin.antt =====
-- drs-verify/pkg/revocation/admin_handler.go: POST /admin/revoke.
use drs.Prelude.{
  ℕ, Bool, true, false, not, ◌++◌, Option, none, some, ◌≡◌, ◌≢◌, ◌⊎◌, inl, inr, refl, ap, subst,
  ◌∙◌, if◌then◌else◌, arith, Bool-cases,
}
use drs.Prelude.Text.{Text, codes, ◌==◌, ==_iff, is_empty}
use drs.Revocation.Local.{LocalStore, IsCumulative}

-- What the handler reads of a request: `index` is the status_list_index that encoding/json decodes
-- from the first 1024 bytes of the body, `none` where it reports an error.
pub record Request : Type 0 where
  pub method : Text
  pub authorization : Text
  pub index : Option ℕ

pub data Response : Type 0 where
  method_not_allowed not_configured unauthorized bad_request : Response
  not_persisted : Text → Response
  revoked : ℕ → Response

abbrev pub status : Response → ℕ
status method_not_allowed = 405
status not_configured = 503
status unauthorized = 401
status bad_request = 400
status (not_persisted m) = 500
status (revoked i) = 200

-- subtle.ConstantTimeCompare of two SHA-256 digests
abbrev same_digest : (Text → Text) → Text → Text → Bool
same_digest sha256 a b = sha256 a == sha256 b

module _ {S : Type 0} (sha256 : Text → Text) (store : LocalStore S) (token : Text) where
  abbrev pub persisted : ℕ → Option Text × S → Response × S
  persisted i (none, s) = (revoked i, s)
  persisted i (some m, s) = (not_persisted m, s)

  abbrev pub apply_request : Option ℕ → S → Response × S
  apply_request none s = (bad_request, s)
  apply_request (some i) s = persisted i (store.revoke i s)

  -- AdminRevokeHandler
  unfoldable pub handle : Request → S → Response × S
  handle req s =
      if not (req.method == codes "POST")
      then (method_not_allowed, s)
      else if is_empty token
      then (not_configured, s)
      else if not (same_digest sha256 (codes "Bearer " ++ token) req.authorization)
      then (unauthorized, s)
      else apply_request req.index s

  persisted-revoked :
      (j i : ℕ) (p : Option Text × S)
      → (persisted j p).0 ≡ revoked i
      → (p.0 ≡ none) × (j ≡ i) × ((persisted j p).1 ≡ p.1)
  persisted-revoked j i (none, s) h = (refl, ground arith, refl)
  persisted-revoked j i (some m, s) h = cc

  apply-revoked :
      (o : Option ℕ) (i : ℕ) (s : S)
      → (apply_request o s).0 ≡ revoked i
      → ((store.revoke i s).0 ≡ none)
        × ((apply_request o s).1 ≡ (store.revoke i s).1)
        × (o ≡ some i)
  apply-revoked none i s h = cc
  apply-revoked (some j) i s h =
      let (done, same, state) = persisted-revoked j i (store.revoke j s) h in
      (
        subst (λ (k : ℕ). (store.revoke k s).0 ≡ none) same done,
        state ∙ ap (λ (k : ℕ). (store.revoke k s).1) same,
        ap some same,
      )

  -- A request that passed the guards: a POST, to a configured endpoint, with a header whose digest
  -- is that of "Bearer " and the token.
  pub record Admitted (req : Request) : Type 0 where
    pub post : req.method ≡ codes "POST"
    pub configured : is_empty token ≡ false
    pub bearer : sha256 (codes "Bearer " ++ token) ≡ sha256 req.authorization

  handle-Admitted :
      (req : Request) (i : ℕ) (s : S)
      → (handle req s).0 ≡ revoked i
      → Admitted req
        × ((apply_request req.index s).0 ≡ revoked i)
        × (handle req s ≡ apply_request req.index s)
  unfolding handle
  handle-Admitted req i s h = elim (Bool-cases (req.method == codes "POST")) [
    | inr other ↦ cc (rw (other, handle) at h)
    | inl post ↦ elim (Bool-cases (is_empty token)) [
      | inl unset ↦ cc (rw (post, unset, handle) at h)
      | inr set ↦
          elim (Bool-cases (sha256 (codes "Bearer " ++ token) == sha256 req.authorization)) [
            | inr wrong ↦ cc (rw (post, set, wrong, handle) at h)
            | inl right ↦ (
              record {
                post = (==_iff _ _).0 post;
                configured = set;
                bearer = (==_iff _ _).0 right;
              },
              rw (post, set, right, handle) at h,
              rw (post, set, right),
            )
          ]
    ]
  ]

  -- An answer 200 for an index is given only to an admitted request that names the index, and over
  -- a store that meets the interface's laws the index is revoked then.
  pub handle-revoked :
      (laws : IsCumulative store) (req : Request) (i : ℕ) (s : S)
      → (handle req s).0 ≡ revoked i
      → Admitted req × (req.index ≡ some i) × (store.is_revoked i (handle req s).1 ≡ true)
  handle-revoked laws req i s h =
      let (admitted, answer, run) = handle-Admitted req i s h in
      let (done, state, named) = apply-revoked req.index i s answer in
      (admitted, named, rw (run, state) (laws.effective i s done))

  persisted-status :
      (j : ℕ) (p : Option Text × S)
      → (status (persisted j p).0 ≡ 200) ⊎ (status (persisted j p).0 ≡ 500)
  persisted-status j (none, s) = inl refl
  persisted-status j (some m, s) = inr refl

  apply_refused :
      (o : Option ℕ) (s : S)
      → status (apply_request o s).0 ≢ 200
      → status (apply_request o s).0 ≢ 500
      → (apply_request o s).1 ≡ s
  apply_refused none s a b = refl
  apply_refused (some j) s a b = elim (persisted-status j (store.revoke j s)) [
    | inl e ↦ absurd (a e)
    | inr e ↦ absurd (b e)
  ]

  -- A request that is answered neither 200 nor 500 leaves the store as it was.
  pub handle_refused :
      (req : Request) (s : S)
      → status (handle req s).0 ≢ 200
      → status (handle req s).0 ≢ 500
      → (handle req s).1 ≡ s
  unfolding handle
  handle_refused req s a b = elim (Bool-cases (req.method == codes "POST")) [
    | inr other ↦ rw other
    | inl post ↦ elim (Bool-cases (is_empty token)) [
      | inl unset ↦ rw (post, unset)
      | inr set ↦
          elim (Bool-cases (sha256 (codes "Bearer " ++ token) == sha256 req.authorization)) [
            | inr wrong ↦ rw (post, set, wrong)
            | inl right ↦
                rw (post, set, right)
                  (apply_refused req.index s (rw (post, set, right, handle) at a)
                    (rw (post, set, right, handle) at b))
          ]
    ]
  ]
