-- ===== src/Nonce.antt =====
-- drs-verify/pkg/nonce/store.go: the bounded in-memory store of consumed JTIs. The mutex makes each
-- Check one step; the map is an association list, whose order the code does not see. Times are
-- seconds in int64, and the TTL is the whole seconds that the server configures.
pub mod Claims
pub mod Redis
use drs.Prelude.{
  ℕ, Bool, true, false, not, List, [], ◌∷◌, Option, none, some, leb, if◌then◌else◌, length,
}
use drs.Prelude.Int.{ℤ, ltb_ℤ, sub64}
use drs.Prelude.Text.{Text, ◌==◌}

-- jti → time of insertion
abbrev pub Seen : Type 0
Seen = List (Text × ℤ)

pub record Store : Type 0 where
  pub seen : Seen
  -- an int that is negative has the effect of 0
  pub max_entries : ℕ
  pub ttl : ℤ

pub data Outcome : Type 0 where
  accepted replay_detected store_exhausted : Outcome

-- New
abbrev pub new : ℕ → ℤ → Store
new max_entries ttl = record { seen = []; max_entries = max_entries; ttl = ttl }

unfoldable pub lookup : Text → Seen → Option ℤ
lookup jti [] = none
lookup jti ((k, at) ∷ m) = if k == jti then some at else lookup jti m

unfoldable pub delete : Text → Seen → Seen
delete jti [] = []
delete jti ((k, at) ∷ m) = let rest = delete jti m in if k == jti then rest else (k, at) ∷ rest

-- `now-insertedAt < ttlSecs`
abbrev pub is_live : ℤ → ℤ → ℤ → Bool
is_live ttl now at = ltb_ℤ (sub64 now at) ttl

-- the loop that evicts: `now-v >= ttlSecs` goes
unfoldable pub evict : ℤ → ℤ → Seen → Seen
evict ttl now [] = []
evict ttl now ((k, at) ∷ m) =
    let rest = evict ttl now m in if is_live ttl now at then (k, at) ∷ rest else rest

unfoldable pub make_room : Store → ℤ → Seen → Seen
make_room s now seen = if leb s.max_entries (length seen) then evict s.ttl now seen else seen

-- the tests after the eviction
unfoldable pub insert_if_room : Store → Text → ℤ → Seen → Outcome × Store
insert_if_room s jti now seen =
    if leb s.max_entries (length seen)
    then (store_exhausted, record s { seen = seen })
    else (accepted, record s { seen = (jti, now) ∷ seen })

abbrev pub check_found : Store → Text → ℤ → Option ℤ → Outcome × Store
check_found s jti now none = insert_if_room s jti now (make_room s now s.seen)
check_found s jti now (some at) =
    if is_live s.ttl now at
    then (replay_detected, s)
    else insert_if_room s jti now (make_room s now (delete jti s.seen))

-- (*Store).Check at the time `now`
unfoldable pub check : Store → Text → ℤ → Outcome × Store
check s jti now = check_found s jti now (lookup jti s.seen)

-- the calls of Check that a process makes, each with its time
unfoldable pub check_all : Store → List (Text × ℤ) → Store
check_all s [] = s
check_all s ((jti, now) ∷ calls) = check_all (check s jti now).1 calls
