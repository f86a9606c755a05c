-- ===== src/Resolver/Resolve.antt =====
-- Resolve of drs-verify/pkg/resolver/did.go, with its two caches, as a call that is alone. Flight has
-- the steps of concurrent calls, with the waiting on another call for the same DID.
use drs.Prelude.{◌+◌, ℕ, Option, none, some, ltb, if◌then◌else◌}
use drs.Prelude.Text.{Text, codes, strip_prefix}
use drs.Resolver.Circuit.{Circuit, closed}
use drs.Resolver.DidKey.{
  Resolved, key, failed, crashed, unsupported_method, bad_url, did_key_prefix, method_of,
  resolve_did_key,
}
use drs.Resolver.DidWeb.{Network, Config, resolve_url}
use drs.Prelude.Lru.{Lru}
use drs.Resolver.WebUrl.{did_web_document_url}

-- cacheEntry
pub record Entry : Type 0 where
  pub public_key : Text
  pub expiry : ℕ

-- The times at which the clock is read in a call, in their order.
pub record Clock : Type 0 where
  pub started : ℕ
  pub tested : ℕ
  pub faulted : ℕ
  pub finished : ℕ

pub record Resolver (C S : Type 0) : Type 0 where
  pub cache : C
  pub circuits : S

abbrev pub did_web_prefix : Text
did_web_prefix = codes "did:web:"

module _ {C S : Type 0} (keys : Lru Entry C) (states : Lru Circuit S) where
  abbrev pub found_or_new : Text → Option Circuit × S → Circuit × S
  found_or_new did (some c, s) = (c, s)
  found_or_new did (none, s) = (closed, states.add did closed s)

  -- getCircuitState
  unfoldable pub get_circuit_state : Text → S → Circuit × S
  get_circuit_state did s = found_or_new did (states.get did s)

  -- What the calls through the circuit's pointer leave is the value of its entry, which is the one
  -- used last.
  abbrev pub store_circuit : Text → Resolved × Circuit → S → Resolved × S
  store_circuit did (r, c) s = (r, states.add did c s)

  abbrev pub through_circuit : Config → Network → Clock → Text → Text → Circuit × S → Resolved × S
  through_circuit config net clock did url (c, s) =
      store_circuit did (resolve_url config net clock.tested clock.faulted url c) s

  -- resolveDidWeb, on what follows "did:web:"
  unfoldable pub resolve_did_web : Config → Network → Clock → Text → Text → S → Resolved × S
  resolve_did_web config net clock did rest s = elim (did_web_document_url rest) [
    | none ↦ (failed bad_url, s)
    | some url ↦ through_circuit config net clock did url (get_circuit_state did s)
  ]

  -- resolveUncached
  unfoldable pub resolve_uncached : Config → Network → Clock → Text → S → Resolved × S
  resolve_uncached config net clock did s = elim (strip_prefix did_key_prefix did) [
    | some encoded ↦ (resolve_did_key did, s)
    | none ↦ elim (strip_prefix did_web_prefix did) [
      | some rest ↦ resolve_did_web config net clock did rest s
      | none ↦ (failed (unsupported_method (method_of did)), s)
    ]
  ]

  -- `if err == nil { r.cache.Add … }`
  abbrev pub keep_key : ℕ → ℕ → Text → C → Resolved × S → Resolved × Resolver C S
  keep_key ttl finished did cache (key k, s) = (
    key k,
    record {
      cache = keys.add did (record { public_key = k; expiry = finished + ttl }) cache;
      circuits = s;
    },
  )
  keep_key ttl finished did cache (failed e, s) = (failed e, record { cache = cache; circuits = s })
  keep_key ttl finished did cache (crashed, s) = (crashed, record { cache = cache; circuits = s })

  module _ (ttl : ℕ) (config : Config) (net : Network) (clock : Clock) where
    abbrev pub miss : Text → C → S → Resolved × Resolver C S
    miss did cache circuits =
        keep_key ttl clock.finished did cache (resolve_uncached config net clock did circuits)

    abbrev pub looked_up : Text → Option Entry × C → S → Resolved × Resolver C S
    looked_up did (none, cache) circuits = miss did cache circuits
    looked_up did (some e, cache) circuits =
        if ltb clock.started e.expiry
        then (key e.public_key, record { cache = cache; circuits = circuits })
        else miss did (keys.remove did cache) circuits

    -- (*Resolver).Resolve
    unfoldable pub resolve : Text → Resolver C S → Resolved × Resolver C S
    resolve did r = looked_up did (keys.get did r.cache) r.circuits
