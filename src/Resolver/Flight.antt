-- ===== src/Resolver/Flight.antt =====
-- Concurrent calls of Resolve in drs-verify/pkg/resolver/did.go: the cache, the map of resolutions in
-- flight, and the steps between the locks. Each step holds one lock, or none.
use drs.Prelude.{ℕ, suc, ◌+◌, ◌≡◌, true, false, Option, none, some, eqb, ltb, if◌then◌else◌}
use drs.Prelude.Text.{Text, ◌==◌}
use drs.Prelude.Lru.{Lru}
use drs.Resolver.DidKey.{Resolved, Error, key, failed}
use drs.Resolver.Resolve.{Entry}

-- What the calls share. An inflightEntry is a number, and `results` has what its leader stored in it
-- before closing its channel.
pub record Shared (C : Type 0) : Type 0 where
  pub cache : C
  pub inflight : Text → Option ℕ
  pub results : Text → ℕ → Option Resolved
  pub next : ℕ

-- Where a call stands, with its DID and the local variables that are live there.
pub data Pc : Type 0 where
  idle : Pc
  called : Text → Pc  -- before the lookup in the cache
  missed : Text → Pc  -- before the lookup in `inflight`
  waiting : Text → ℕ → Pc  -- in the `select`
  leading : Text → ℕ → Pc  -- in resolveUncached
  resolved : Text → ℕ → Resolved → Pc  -- before `close(e.done)`
  published : Text → ℕ → Resolved → Pc  -- before the deletion from `inflight`
  removed : Text → Resolved → Pc  -- before `r.cache.Add`
  returned : Text → Resolved → Pc
  cancelled : Text → Pc

-- A map with one entry changed.
abbrev pub put {ℓ} : {V : Type ℓ} → Text → V → (Text → V) → Text → V
put k v f j = if j == k then v else f j

abbrev pub set_pc : ℕ → Pc → (ℕ → Pc) → ℕ → Pc
set_pc i p f j = if eqb j i then p else f j

abbrev pub store_result :
    Text → ℕ → Resolved → (Text → ℕ → Option Resolved) → Text → ℕ → Option Resolved
store_result did e r f j i = if j == did then (if eqb i e then some r else f j i) else f j i

module _ {C : Type 0} (keys : Lru Entry C) (ttl : ℕ) (Answer : Text → Resolved → Type 0) where
  -- One step of one call. `Answer` says what resolveUncached may return; a call that panics ends the
  -- process.
  pub data Move (m : Shared C) : Pc → Shared C → Pc → Type 0 where
    call : {did : Text} → Move m idle m (called did)
    hit :
        {did : Text} (entry : Entry) (now : ℕ)
        → (keys.get did m.cache).0 ≡ some entry
        → ltb now entry.expiry ≡ true
        → Move m
            (called did)
            (record m { cache = (keys.get did m.cache).1 })
            (returned did (key entry.public_key))
    expired :
        {did : Text} (entry : Entry) (now : ℕ)
        → (keys.get did m.cache).0 ≡ some entry
        → ltb now entry.expiry ≡ false
        → Move m
            (called did)
            (record m { cache = keys.remove did (keys.get did m.cache).1 })
            (missed did)
    absent :
        {did : Text}
        → (keys.get did m.cache).0 ≡ none
        → Move m (called did) (record m { cache = (keys.get did m.cache).1 }) (missed did)
    join : {did : Text} {e : ℕ} → m.inflight did ≡ some e → Move m (missed did) m (waiting did e)
    lead :
        {did : Text} {e : ℕ}
        → m.inflight did ≡ none
        → e ≡ m.next
        → Move m
            (missed did)
            (record m { inflight = put did (some e) m.inflight; next = suc m.next })
            (leading did e)
    resolve :
        {did : Text} {e : ℕ} (r : Resolved)
        → Answer did r
        → Move m (leading did e) m (resolved did e r)
    publish :
        {did : Text} {e : ℕ} {r : Resolved}
        → Move m
            (resolved did e r)
            (record m { results = store_result did e r m.results })
            (published did e r)
    remove :
        {did : Text} {e : ℕ} {r : Resolved}
        → Move m
            (published did e r)
            (record m { inflight = put did none m.inflight })
            (removed did r)
    keep :
        {did k : Text} (now : ℕ)
        → Move m
            (removed did (key k))
            (record m {
              cache = keys.add did (record { public_key = k; expiry = now + ttl }) m.cache;
            })
            (returned did (key k))
    give_up : {did : Text} {x : Error} → Move m (removed did (failed x)) m (returned did (failed x))
    wake :
        {did : Text} {e : ℕ} (r : Resolved)
        → m.results did e ≡ some r
        → Move m (waiting did e) m (returned did r)
    cancel : {did : Text} {e : ℕ} → Move m (waiting did e) m (cancelled did)
    again : {did : Text} {r : Resolved} → Move m (returned did r) m idle

  -- The calls by number, each in a goroutine of its own.
  pub record System : Type 0 where
    pub shared : Shared C
    pub pc : ℕ → Pc

  pub data Step (s : System) : System → Type 0 where
    pick :
        (i : ℕ) {m : Shared C} {p : Pc}
        → Move s.shared (s.pc i) m p
        → Step s (record { shared = m; pc = set_pc i p s.pc })

  abbrev pub start : C → System
  start cache = record {
    shared = record { cache = cache; inflight = λ did. none; results = λ did e. none; next = 0 };
    pc = λ i. idle;
  }

  pub data Reach (cache : C) : System → Type 0 where
    begin : Reach cache (start cache)
    later : {s t : System} → Reach cache s → Step s t → Reach cache t
