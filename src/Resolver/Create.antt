-- ===== src/Resolver/Create.antt =====
-- New and NewWithCircuitBreaker of drs-verify/pkg/resolver/did.go. The HTTP client that New makes
-- dials as Dial has it; its time-outs are left out. A TTL is not negative here.
use drs.Prelude.{
  ℕ, ◌^◌, ◌*◌, ◌≡◌, refl, sym, ap, ◌∙◌, false, List, [], ◌∷◌, Option, none, some, Result, ok, err,
  ok-injective, ◌>>=◌, >>=-eq-ok, subst,
}
use drs.Prelude.Int.{ℤ, pos}
use drs.Prelude.Text.{Text}
use drs.Prelude.Lru.{Lru, IsLru, entry}
use drs.Resolver.Circuit.{Circuit}
use drs.Resolver.DidKey.{resolve_did_key}
use drs.Resolver.DidWeb.{Network, Config}
use drs.Resolver.Resolve.{Entry, Clock, Resolver, resolve}
use drs.Resolver.Cached.{IsDidKey, IsTrue, resolve_sound}

-- lru.New of the two caches, which refuses some sizes.
pub record Caches (C S : Type 0) : Type 0 where
  pub new_cache : ℤ → Option C
  pub new_states : ℤ → Option S

pub data InitError : Type 0 where
  no_cache no_circuit_states : InitError

-- The fields of a Resolver: what its calls change, and what they only read.
pub record Created (C S : Type 0) : Type 0 where
  pub state : Resolver C S
  pub ttl : ℕ
  pub config : Config

abbrev pub circuit_state_cache_size : ℤ
circuit_state_cache_size = pos 10000

abbrev pub created : {A : Type 0} → InitError → Option A → Result InitError A
created e none = err e
created e (some a) = ok a

created-eq-ok :
    {A : Type 0} (e : InitError) (o : Option A) (a : A) → created e o ≡ ok a → o ≡ some a
created-eq-ok e none a h = absurd (let t = h in cc)
created-eq-ok e (some b) a h = ap some (ok-injective h)

module _ {C S : Type 0} (lru : Caches C S) where
  -- New
  unfoldable pub new : ℤ → ℕ → Result InitError (Created C S)
  new cache_size ttl = do
    c ← created no_cache (lru.new_cache cache_size)
    cs ← created no_circuit_states (lru.new_states circuit_state_cache_size)
    ok (record {
      state = record { cache = c; circuits = cs };
      ttl = ttl;
      config = record { threshold = 5; cooldown = 60 * 10 ^ 9; allow_private_hosts = false };
    })

  new-eq-ok :
      (cache_size : ℤ) (ttl : ℕ) (r : Created C S)
      → new cache_size ttl ≡ ok r
      → (c : C) × (cs : S) × (lru.new_cache cache_size ≡ some c)
        × (r ≡ record {
          state = record { cache = c; circuits = cs };
          ttl = ttl;
          config = record { threshold = 5; cooldown = 60 * 10 ^ 9; allow_private_hosts = false };
        })
  unfolding new
  new-eq-ok cache_size ttl r made =
      let (c, hc, h) = >>=-eq-ok (created no_cache (lru.new_cache cache_size)) _ made in
      let (cs, _, built) =
        >>=-eq-ok (created no_circuit_states (lru.new_states circuit_state_cache_size)) _ h in
      (c, cs, created-eq-ok no_cache (lru.new_cache cache_size) c hc, sym (ok-injective built))

  -- NewWithCircuitBreaker
  unfoldable pub new_with_circuit_breaker : ℤ → ℕ → ℕ → ℕ → Result InitError (Created C S)
  unfolding new
  new_with_circuit_breaker cache_size ttl threshold cooldown = do
    r ← new cache_size ttl
    ok (record r {
      config = record {
        threshold = threshold;
        cooldown = cooldown;
        allow_private_hosts = r.config.allow_private_hosts;
      };
    })

  module _ (keys : Lru Entry C) (states : Lru Circuit S) where
    -- The state after calls of Resolve, the last first, each with its DID and what the network and
    -- the clock give it.
    unfoldable pub resolve_all :
        ℕ → Config → List (Text × Network × Clock) → Resolver C S → Resolver C S
    unfolding resolve
    resolve_all ttl config [] r = r
    resolve_all ttl config ((did, net, clock) ∷ calls) r =
        (resolve keys states ttl config net clock did (resolve_all ttl config calls r)).1

    module _ (laws : IsLru keys) where
      resolve_all-IsTrue :
          (ttl : ℕ) (config : Config) (calls : List (Text × Network × Clock)) (r : Resolver C S)
          → IsTrue keys states r.cache
          → IsTrue keys states (resolve_all ttl config calls r).cache
      unfolding resolve_all
      resolve_all-IsTrue ttl config [] r h = h
      resolve_all-IsTrue ttl config ((did, net, clock) ∷ calls) r h =
          (resolve_sound keys states laws ttl config net clock did (resolve_all ttl config calls r)
            (resolve_all-IsTrue ttl config calls r h)).0

      -- Where lru.New gives caches without entries, a resolver that NewWithCircuitBreaker made has the
      -- given limits and refuses private hosts; after any calls, it resolves a did:key as its decoding
      -- does.
      pub created_sound :
          ((size : ℤ) (c : C) (k : Text) → lru.new_cache size ≡ some c → entry keys k c ≡ none)
          → (cache_size : ℤ) (ttl threshold cooldown : ℕ) (r : Created C S)
          → new_with_circuit_breaker cache_size ttl threshold cooldown ≡ ok r
          → (r.ttl ≡ ttl)
            × (r.config ≡ record {
              threshold = threshold;
              cooldown = cooldown;
              allow_private_hosts = false;
            })
            × ((calls : List (Text × Network × Clock)) (net : Network) (clock : Clock) (did : Text)
                → IsDidKey did
                → (resolve keys states r.ttl r.config net clock did
                    (resolve_all r.ttl r.config calls r.state)).0
                  ≡ resolve_did_key did)
      unfolding new_with_circuit_breaker
      created_sound fresh cache_size ttl threshold cooldown r made =
          let (base, based, h) = >>=-eq-ok (new cache_size ttl) _ made in
          let (c, cs, got, it) = new-eq-ok cache_size ttl base based in
          let same = ok-injective h in
          let empty : IsTrue keys states r.state.cache =
            subst (λ (x : C). IsTrue keys states x) (ap (λ (x : Created C S). x.state.cache) same)
              (rw it (λ did e is_key found. let none_there = fresh cache_size c did got in cc)) in
          (
            sym (ap (λ (x : Created C S). x.ttl) same) ∙ ap (λ (x : Created C S). x.ttl) it,
            sym (ap (λ (x : Created C S). x.config) same) ∙ rw it refl,
            λ calls net clock did is_key.
                (resolve_sound keys states laws r.ttl r.config net clock did
                    (resolve_all r.ttl r.config calls r.state)
                    (resolve_all-IsTrue r.ttl r.config calls r.state empty)).1
                  is_key,
          )
