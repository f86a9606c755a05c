-- ===== src/Resolver/DidWebKeys.antt =====
-- The keys that resolveDidWeb of drs-verify/pkg/resolver/did.go gives, and what it asks the network.
use drs.Prelude.{
  ℕ, Bool, true, false, Option, none, some, ◌≡◌, ◌↔◌, inl, inr, refl, ap, ◌∙◌, Bool-cases,
}
use mathlib.Core.Option.{some-injective}
use drs.Prelude.Text.{Text}
use drs.Resolver.Circuit.{Circuit, is_open, is_open-blocked}
use drs.Resolver.DidKey.{circuit_open, key, failed}
use drs.Resolver.Hosts.{IsPublic, is_private_host_iff}
use drs.Resolver.Replies.{Serves, fetch_iff}
use drs.Resolver.DidWeb.{
  Network, Config, is_private_host, fetch_unless, guarded_fetch, attempt, resolve_url,
}

-- The URL's host is known and public, and the document there names the key.
abbrev pub IsAnswered : Network → Text → Text → Type 0
IsAnswered net url k =
    (host : Text) × (net.hostname url ≡ some host) × IsPublic net host × Serves net url k

fetch_unless_iff :
    (net : Network) (url : Text) (o : Option Bool) (k : Text)
    → ((fetch_unless net url o).0 ≡ key k) ↔ ((o ≡ some false) × Serves net url k)
fetch_unless_iff net url none k = (λ h. cc, λ h. cc (h.0))
fetch_unless_iff net url (some true) k = (λ h. cc, λ h. cc (h.0))
fetch_unless_iff net url (some false) k =
    (λ h. (refl, (fetch_iff net url k).0 h), λ h. (fetch_iff net url k).1 h.1)

guarded_fetch_iff :
    (net : Network) (url : Text) (o : Option Text) (k : Text)
    → ((guarded_fetch net url o).0 ≡ key k)
      ↔ ((host : Text) × (o ≡ some host) × IsPublic net host × Serves net url k)
guarded_fetch_iff net url none k = (λ h. cc, λ h. cc (h.1))
guarded_fetch_iff net url (some host) k = (
  λ h.
      let (public, served) = (fetch_unless_iff net url (is_private_host net host) k).0 h in
      (host, refl, (is_private_host_iff net host).0 public, served),
  λ (host', e, public, served).
      let same : host ≡ host' = some-injective _ _ e in
      (fetch_unless_iff net url (is_private_host net host) k).1
        (ap (is_private_host net) same ∙ (is_private_host_iff net host').1 public, served),
)

attempt_iff :
    (net : Network) (url k : Text) → ((attempt net false url).0 ≡ key k) ↔ IsAnswered net url k
unfolding attempt
attempt_iff net url k = guarded_fetch_iff net url (net.hostname url) k

-- Where private hosts are not allowed, resolveDidWeb gives a key for a document's URL exactly if
-- the circuit lets the call through, the URL has a host, the host resolves, none of its addresses
-- is in a blocked range, and a GET of that URL answers 200 with a document of at most 2 ^ 20 bytes
-- that names the key.
pub resolve_url_iff :
    (config : Config) (net : Network) (now later : ℕ) (url : Text) (c : Circuit) (k : Text)
    → config.allow_private_hosts ≡ false
    → ((resolve_url config net now later url c).0 ≡ key k)
      ↔ (((is_open now c).0 ≡ false) × IsAnswered net url k)
unfolding resolve_url
resolve_url_iff config net now later url c k guarded = elim (Bool-cases (is_open now c).0) [
  | inl blocked ↦ rw blocked (λ h. cc, λ h. cc (h.0))
  | inr through ↦
      rw (through, guarded)
        (λ h. (refl, (attempt_iff net url k).0 h), λ h. (attempt_iff net url k).1 h.1)
]

-- While a circuit is open the network is not asked: whatever it would answer, the call fails, and
-- the circuit is as it was.
pub resolve_url-open :
    (config : Config) (net : Network) (now later : ℕ) (url : Text) (c : Circuit)
    → (is_open now c).0 ≡ true
    → resolve_url config net now later url c ≡ (failed circuit_open, c)
unfolding resolve_url
resolve_url-open config net now later url c blocked =
    rw (blocked, is_open-blocked now c blocked) refl
