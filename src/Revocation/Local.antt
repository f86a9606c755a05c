-- ===== src/Revocation/Local.antt =====
-- drs-verify/pkg/revocation/local.go: the set of locally revoked indices, and the interface of
-- interface.go, which the admin endpoint and the verifier use.
use drs.Prelude.{
  ℕ, Bool, true, List, [], ◌∷◌, ◌≡◌, ◌↔◌, ◌⊎◌, refl, Option, none, eqb, any_of, arith,
}
use drs.Prelude.Text.{Text}

-- LocalStore: `revoke` gives the error's text where the change was not persisted.
pub record LocalStore (S : Type 0) : Type 0 where
  pub revoke : ℕ → S → Option Text × S
  pub is_revoked : ℕ → S → Bool

-- What the verifier relies on while the process runs: an index whose revocation was reported as done is revoked, and no
-- revocation is undone by another call.
pub record IsCumulative {S : Type 0} (store : LocalStore S) : Type 0 where
  pub effective :
      (i : ℕ) (s : S) → (store.revoke i s).0 ≡ none → store.is_revoked i (store.revoke i s).1 ≡ true
  pub kept :
      (i j : ℕ) (s : S)
      → store.is_revoked j s ≡ true
      → store.is_revoked j (store.revoke i s).1 ≡ true

-- LocalRevocationStore
abbrev pub Revoked : Type 0
Revoked = List ℕ

abbrev pub empty : Revoked
empty = []

unfoldable pub revoke : ℕ → Revoked → Option Text × Revoked
revoke index s = (none, index ∷ s)

unfoldable pub is_revoked : ℕ → Revoked → Bool
is_revoked index s = any_of (λ i. eqb i index) s

abbrev pub memory_store : LocalStore Revoked
memory_store = record { revoke = revoke; is_revoked = is_revoked }

-- After Revoke an index is revoked exactly if it is the new one or was revoked before; Revoke
-- reports no error.
pub is_revoked-revoke :
    (i j : ℕ) (s : Revoked)
    → ((revoke i s).0 ≡ none)
      × ((is_revoked j (revoke i s).1 ≡ true) ↔ ((i ≡ j) ⊎ (is_revoked j s ≡ true)))
unfolding revoke is_revoked any_of
is_revoked-revoke i j s = (refl, (λ h. ground arith, λ h. ground arith))

-- The in-memory store meets these laws.
pub memory_store-IsCumulative : IsCumulative memory_store
unfolding revoke is_revoked any_of
memory_store-IsCumulative = record {
  effective = λ i s h. ground arith;
  kept = λ i j s h. ground arith;
}
