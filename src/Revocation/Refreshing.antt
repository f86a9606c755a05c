-- ===== src/Revocation/Refreshing.antt =====
-- Concurrent calls of IsRevoked in drs-verify/pkg/revocation/status.go: the steps between the locks.
-- The cache is read and written under its own lock, so each read and each publication is one step.
use drs.Prelude.{ℕ, ◌≡◌, Bool, true, false, Option, none, some, eqb, if◌then◌else◌, Result, err}
use drs.Revocation.Status.{
  StatusCache, Fetch, Error, cancelled, no_snapshot, refresh, is_expired, read_bit,
}

-- The cache, and the calls that hold initMu and refreshMu.
pub record Shared : Type 0 where
  pub cache : StatusCache
  pub init_mu : Option ℕ
  pub refresh_mu : Option ℕ

-- Where a call of IsRevoked stands, with its index.
pub data Pc : Type 0 where
  idle : Pc
  asked : ℕ → Pc
  wants_init : ℕ → Pc  -- before `initMu.Lock`
  in_init : ℕ → Pc
  fetching_first : ℕ → Pc
  has_list : ℕ → Pc  -- before the first test of the expiry
  wants_refresh : ℕ → Pc  -- before `refreshMu.Lock`
  in_refresh : ℕ → Pc
  fetching_again : ℕ → Pc
  reading : ℕ → Pc  -- before the bit is read
  answered : ℕ → Result Error Bool → Pc

-- One step of the call `i`. What a fetch gives and the times are the environment's.
pub data Move (i : ℕ) (m : Shared) : Pc → Shared → Pc → Type 0 where
  ask : (index : ℕ) → Move i m idle m (asked index)
  give_up : {index : ℕ} → Move i m (asked index) m (answered index (err cancelled))
  published : {index : ℕ} → m.cache.has_snapshot ≡ true → Move i m (asked index) m (has_list index)
  unpublished :
      {index : ℕ} → m.cache.has_snapshot ≡ false → Move i m (asked index) m (wants_init index)
  lock_init :
      {index : ℕ}
      → m.init_mu ≡ none
      → Move i m (wants_init index) (record m { init_mu = some i }) (in_init index)
  overtaken :
      {index : ℕ}
      → m.cache.has_snapshot ≡ true
      → Move i m (in_init index) (record m { init_mu = none }) (has_list index)
  fetch_first :
      {index : ℕ} → m.cache.has_snapshot ≡ false → Move i m (in_init index) m (fetching_first index)
  first_list :
      {index : ℕ} (f : Fetch) (at : ℕ)
      → (refresh m.cache f at).0 ≡ none
      → Move i m
          (fetching_first index)
          (record m { cache = (refresh m.cache f at).1; init_mu = none })
          (has_list index)
  no_list :
      {index : ℕ} (f : Fetch) (at : ℕ) (e : Error)
      → (refresh m.cache f at).0 ≡ some e
      → Move i m
          (fetching_first index)
          (record m { cache = (refresh m.cache f at).1; init_mu = none })
          (answered index (err no_snapshot))
  fresh :
      {index : ℕ} (now : ℕ)
      → is_expired m.cache now ≡ false
      → Move i m (has_list index) m (reading index)
  old :
      {index : ℕ} (now : ℕ)
      → is_expired m.cache now ≡ true
      → Move i m (has_list index) m (wants_refresh index)
  lock_refresh :
      {index : ℕ}
      → m.refresh_mu ≡ none
      → Move i m (wants_refresh index) (record m { refresh_mu = some i }) (in_refresh index)
  refreshed :
      {index : ℕ} (now : ℕ)
      → is_expired m.cache now ≡ false
      → Move i m (in_refresh index) (record m { refresh_mu = none }) (reading index)
  fetch_again :
      {index : ℕ} (now : ℕ)
      → is_expired m.cache now ≡ true
      → Move i m (in_refresh index) m (fetching_again index)
  -- an error of this fetch is only logged
  refetched :
      {index : ℕ} (f : Fetch) (at : ℕ)
      → Move i m
          (fetching_again index)
          (record m { cache = (refresh m.cache f at).1; refresh_mu = none })
          (reading index)
  read : {index : ℕ} → Move i m (reading index) m (answered index (read_bit m.cache index))
  return : {index : ℕ} {r : Result Error Bool} → Move i m (answered index r) m idle

abbrev pub set_pc : ℕ → Pc → (ℕ → Pc) → ℕ → Pc
set_pc i p f j = if eqb j i then p else f j

pub record System : Type 0 where
  pub shared : Shared
  pub pc : ℕ → Pc

pub data Step (s : System) : System → Type 0 where
  pick :
      (i : ℕ) {m : Shared} {p : Pc}
      → Move i s.shared (s.pc i) m p
      → Step s (record { shared = m; pc = set_pc i p s.pc })

abbrev pub start : StatusCache → System
start cache = record {
  shared = record { cache = cache; init_mu = none; refresh_mu = none };
  pc = λ i. idle;
}

pub data Reach (cache : StatusCache) : System → Type 0 where
  begin : Reach cache (start cache)
  later : {s t : System} → Reach cache s → Step s t → Reach cache t
