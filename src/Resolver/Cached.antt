-- ===== src/Resolver/Cached.antt =====
-- The cache of keys in drs-verify/pkg/resolver/did.go: it changes no answer for a did:key.
use drs.Prelude.{
  ◌+◌, ℕ, Option, none, some, ltb, ◌≡◌, inl, inr, arith, refl, sym, ap, subst, ◌∙◌, Bool-cases,
}
use mathlib.Core.Option.{some-injective}
use drs.Prelude.Text.{Text, strip_prefix, ◌==◌, ==_iff}
use drs.Resolver.Circuit.{Circuit}
use drs.Resolver.DidKey.{Resolved, key, failed, crashed, did_key_prefix, resolve_did_key}
use drs.Resolver.DidWeb.{Network, Config}
use drs.Prelude.Lru.{Lru, IsLru, entry}
use drs.Resolver.Resolve.{
  Entry, Clock, Resolver, resolve_uncached, keep_key, miss, looked_up, resolve,
}

-- The DID is a did:key in base58btc.
abbrev pub IsDidKey : Text → Type 0
IsDidKey did = (encoded : Text) × (strip_prefix did_key_prefix did ≡ some encoded)

module _ {C S : Type 0} (keys : Lru Entry C) (states : Lru Circuit S) where
  -- The cached key of a did:key is the one that it encodes.
  abbrev pub IsTrue : C → Type 0
  IsTrue cache =
      (did : Text) (e : Entry)
      → IsDidKey did
      → entry keys did cache ≡ some e
      → resolve_did_key did ≡ key e.public_key

  module _ (laws : IsLru keys) (ttl : ℕ) (config : Config) (net : Network) (clock : Clock) where
    uncached-did_key :
        (did : Text) (s : S)
        → IsDidKey did
        → resolve_uncached keys states config net clock did s ≡ (resolve_did_key did, s)
    unfolding resolve_uncached
    uncached-did_key did s (encoded, e) = rw (e, resolve_uncached) refl

    get-IsTrue : (did : Text) (cache : C) → IsTrue cache → IsTrue (keys.get did cache).1
    get-IsTrue did cache h did' e is_key found =
        h did' e is_key (sym (laws.get_keeps did' did cache) ∙ found)

    remove-IsTrue : (did : Text) (cache : C) → IsTrue cache → IsTrue (keys.remove did cache)
    remove-IsTrue did cache h did' e is_key found =
        h did' e is_key (laws.remove_keeps did' did e cache found)

    -- Adding the key that a call has found.
    keep-IsTrue :
        (did : Text) (cache : C) (r : Resolved × S)
        → (IsDidKey did → resolve_did_key did ≡ r.0)
        → IsTrue cache
        → IsTrue (keep_key keys states ttl clock.finished did cache r).1.cache
    keep-IsTrue did cache (failed e, s) answer h did' e' is_key found = h did' e' is_key found
    keep-IsTrue did cache (crashed, s) answer h did' e' is_key found = h did' e' is_key found
    keep-IsTrue did cache (key k, s) answer h did' e' is_key found =
        elim (Bool-cases (did' == did)) [
          | inl hit ↦
              let same : did' ≡ did = (==_iff did' did).0 hit in
              let new : Entry = record { public_key = k; expiry = clock.finished + ttl } in
              let found_new : entry keys did (keys.add did new cache) ≡ some e' =
                subst (λ d. entry keys d (keys.add did new cache) ≡ some e') same found in
              let it : new ≡ e' = some-injective _ _ (sym (laws.added did new cache) ∙ found_new) in
              ap resolve_did_key same
              ∙ answer (subst IsDidKey same is_key)
              ∙ ap (λ (e : Entry). key e.public_key) it
          | inr other ↦ h did' e' is_key (
              laws.add_keeps did' did _ e' cache
                (λ same. absurd (ground (arith, other, (==_iff did' did).1 same))) found)
        ]

    keep-same :
        (did : Text) (cache : C) (r : Resolved × S)
        → (keep_key keys states ttl clock.finished did cache r).0 ≡ r.0
    keep-same did cache (failed e, s) = refl
    keep-same did cache (crashed, s) = refl
    keep-same did cache (key k, s) = refl

    miss-IsTrue :
        (did : Text) (cache : C) (circuits : S)
        → IsTrue cache
        → IsTrue (miss keys states ttl config net clock did cache circuits).1.cache
    miss-IsTrue did cache circuits h =
        keep-IsTrue did cache (resolve_uncached keys states config net clock did circuits)
          (λ is_key. sym (ap (λ (r : Resolved × S). r.0) (uncached-did_key did circuits is_key))) h

    miss-did_key :
        (did : Text) (cache : C) (circuits : S)
        → IsDidKey did
        → (miss keys states ttl config net clock did cache circuits).0 ≡ resolve_did_key did
    miss-did_key did cache circuits is_key =
        keep-same did cache (resolve_uncached keys states config net clock did circuits)
        ∙ ap (λ (r : Resolved × S). r.0) (uncached-did_key did circuits is_key)

    -- What Resolve does with the answer of Get.
    looked_up_sound :
        (did : Text) (found : Option Entry) (cache : C) (circuits : S)
        → IsTrue cache
        → ((e : Entry) → found ≡ some e → IsDidKey did → resolve_did_key did ≡ key e.public_key)
        → IsTrue (looked_up keys states ttl config net clock did (found, cache) circuits).1.cache
          × (IsDidKey did
              → (looked_up keys states ttl config net clock did (found, cache) circuits).0
                ≡ resolve_did_key did)
    looked_up_sound did none cache circuits h right =
        (miss-IsTrue did cache circuits h, miss-did_key did cache circuits)
    looked_up_sound did (some e) cache circuits h right =
        elim (Bool-cases (ltb clock.started e.expiry)) [
          | inl valid ↦ rw valid (h, λ is_key. sym (right e refl is_key))
          | inr old ↦
              let rest = remove-IsTrue did cache h in
              rw old (
                miss-IsTrue did (keys.remove did cache) circuits rest,
                miss-did_key did (keys.remove did cache) circuits,
              )
        ]

    -- Whatever was resolved before, a did:key resolves to the key that it encodes, or fails as its
    -- decoding does, whether or not its entry is cached, expired or evicted; and every call, of any
    -- DID, with any answers of the network, leaves a cache whose did:key entries are such keys.
    pub resolve_sound :
        (did : Text) (r : Resolver C S)
        → IsTrue r.cache
        → IsTrue (resolve keys states ttl config net clock did r).1.cache
          × (IsDidKey did
              → (resolve keys states ttl config net clock did r).0 ≡ resolve_did_key did)
    unfolding resolve
    resolve_sound did r h =
        looked_up_sound did (keys.get did r.cache).0 (keys.get did r.cache).1 r.circuits
          (get-IsTrue did r.cache h) (λ e found is_key. h did e is_key found)
