-- ===== src/Storage/Tier3.antt =====
-- Tier3Store of drs-verify/pkg/anchor/tier3store.go, over a store as an interface. SHA-256, its
-- hexadecimal form, strings.EqualFold and the request to the time stamping authority are parameters.
use drs.Prelude.{
  Bool, true, false, ◌++◌, Option, none, some, Result, if◌then◌else◌, ◌≡◌, ◌⊎◌, inl, inr, refl,
  Bool-cases,
}
use drs.Prelude.Text.{Text, codes}

-- store.Store: `put` and `delete` give the error, where there is one.
pub record Store (E S : Type 0) : Type 0 where
  pub put : Text → Text → S → Option E × S
  pub get : Text → S → Result E Text × S
  pub delete : Text → S → Option E × S

pub record Anchor : Type 0 where
  -- the digest of a JWT, and its hexadecimal form
  pub sha256 : Text → Text
  pub hex : Text → Text
  pub equal_fold : Text → Text → Bool
  -- the token, or `none` where the authority fails
  pub timestamp : Text → Option Text

pub data Fault (E : Type 0) : Type 0 where
  mismatched_key : Fault E
  inner : E → Fault E
  token_not_stored : E → Fault E

abbrev pub token_key : Text → Text
token_key hash = hash ++ codes ".tst"

-- assertHashBinding
unfoldable pub is_bound : Anchor → Text → Text → Bool
is_bound anchor hash digest = anchor.equal_fold hash (codes "sha256:" ++ anchor.hex digest)

module _ {E S : Type 0} (anchor : Anchor) (store : Store E S) where
  abbrev pub token_stored : Option E × S → Option (Fault E) × S
  token_stored (none, s) = (none, s)
  token_stored (some e, s) = (some (token_not_stored e), s)

  abbrev pub with_token : Text → Option Text → S → Option (Fault E) × S
  with_token hash none s = (none, s)
  with_token hash (some token) s = token_stored (store.put (token_key hash) token s)

  abbrev pub after_put : Text → Text → Option E × S → Option (Fault E) × S
  after_put hash digest (some e, s) = (some (inner e), s)
  after_put hash digest (none, s) = with_token hash (anchor.timestamp digest) s

  -- Put
  unfoldable pub put : Text → Text → S → Option (Fault E) × S
  put hash jwt s =
      if is_bound anchor hash (anchor.sha256 jwt)
      then after_put hash (anchor.sha256 jwt) (store.put hash jwt s)
      else (some mismatched_key, s)

  -- Get
  unfoldable pub get : Text → S → Result E Text × S
  get hash s = store.get hash s

  abbrev pub after_delete : Text → Option E × S → Option E × S
  after_delete hash (some e, s) = (some e, s)
  after_delete hash (none, s) = (none, (store.delete (token_key hash) s).1)

  -- Delete
  unfoldable pub delete : Text → S → Option E × S
  delete hash s = after_delete hash (store.delete hash s)

  with_token-kept :
      (hash : Text) (o : Option Text) (s : S)
      → (with_token hash o s).0 ≡ none
      → (o ≡ none)
        ⊎ ((token : Text) × (o ≡ some token) × ((store.put (token_key hash) token s).0 ≡ none))
  with_token-kept hash none s h = inl refl
  with_token-kept hash (some token) s h =
      inr (token, refl, stored (store.put (token_key hash) token s) h)
    where
      stored : (p : Option E × S) → (token_stored p).0 ≡ none → p.0 ≡ none
      stored (none, s') e = refl
      stored (some x, s') e = cc

  after_put-kept :
      (hash digest : Text) (p : Option E × S)
      → (after_put hash digest p).0 ≡ none
      → (p.0 ≡ none) × ((with_token hash (anchor.timestamp digest) p.1).0 ≡ none)
  after_put-kept hash digest (none, s) h = (refl, h)
  after_put-kept hash digest (some e, s) h = cc

  -- A Put without an error had a key bound to the JWT's digest, stored the JWT, and, unless the
  -- authority gave no token, stored the token of that digest beside it; and a key that is not bound
  -- is refused, with nothing stored.
  pub put_bound :
      (hash jwt : Text) (s : S)
      → ((put hash jwt s).0 ≡ none
          → (is_bound anchor hash (anchor.sha256 jwt) ≡ true)
            × ((store.put hash jwt s).0 ≡ none)
            × ((anchor.timestamp (anchor.sha256 jwt) ≡ none)
                ⊎ ((token : Text) × (anchor.timestamp (anchor.sha256 jwt) ≡ some token)
                    × ((store.put (token_key hash) token (store.put hash jwt s).1).0 ≡ none))))
        × (is_bound anchor hash (anchor.sha256 jwt) ≡ false
            → put hash jwt s ≡ (some mismatched_key, s))
  unfolding put
  put_bound hash jwt s = (
    λ h. elim (Bool-cases (is_bound anchor hash (anchor.sha256 jwt))) [
      | inr other ↦ cc (rw (other, put) at h)
      | inl bound ↦
          let (stored, token) = after_put-kept hash (anchor.sha256 jwt) _ (rw (bound, put) at h) in
          (bound, stored, with_token-kept hash _ _ token)
    ],
    λ other. rw other refl,
  )
