-- ===== src/Revocation/Interleaved.antt =====
-- What a step of concurrent calls of IsRevoked in drs-verify/pkg/revocation/status.go does to the
-- cache and to the locks.
use drs.Prelude.{
  arith, ◌≤◌, ℕ, ◌≡◌, ◌≢◌, inl, inr, refl, sym, ◌∙◌, Bool, true, false, none, some, err, Bool-cases,
  Result-cases,
}
use mathlib.Core.Option.{some-injective}
use drs.Prelude.Text.{is_empty}
use drs.Revocation.Status.{StatusCache, Fetch, Error, fetched, refresh, is_expired}
use drs.Revocation.Refreshing.{
  Shared, Pc, in_init, fetching_first, has_list, wants_refresh, in_refresh, fetching_again, reading,
  Move, ask, give_up, published, unpublished, lock_init, overtaken, fetch_first, first_list,
  no_list, fresh, old, lock_refresh, refreshed, fetch_again, refetched, read, return,
}

-- The lock that a call holds, and whether it fetches or has seen a list.
abbrev pub initiates : Pc → Bool
initiates (in_init index) = true
initiates (fetching_first index) = true
initiates _ = false

abbrev pub refreshes : Pc → Bool
refreshes (in_refresh index) = true
refreshes (fetching_again index) = true
refreshes _ = false

abbrev pub fetches_first : Pc → Bool
fetches_first (fetching_first index) = true
fetches_first _ = false

abbrev pub fetches : Pc → Bool
fetches (fetching_first index) = true
fetches (fetching_again index) = true
fetches _ = false

abbrev pub has_seen : Pc → Bool
has_seen (has_list index) = true
has_seen (wants_refresh index) = true
has_seen (in_refresh index) = true
has_seen (fetching_again index) = true
has_seen (reading index) = true
has_seen _ = false

pub refresh-keeps :
    (c : StatusCache) (f : Fetch) (at : ℕ)
    → c.has_snapshot ≡ true
    → (refresh c f at).1.has_snapshot ≡ true
unfolding refresh
refresh-keeps c f at h = elim (Bool-cases (is_empty c.base_url)) [
  | inl unset ↦ rw unset refl
  | inr set ↦ elim (Result-cases (fetched f)) [
    | inl (buf, got) ↦ rw (set, got) refl
    | inr (e, lost) ↦ rw (set, lost) h
  ]
]

refresh-publishes :
    (c : StatusCache) (f : Fetch) (at : ℕ)
    → (refresh c f at).0 ≡ none
    → (refresh c f at).1.has_snapshot ≡ true
unfolding refresh
refresh-publishes c f at h = elim (Bool-cases (is_empty c.base_url)) [
  | inl unset ↦ rw unset refl
  | inr set ↦ elim (Result-cases (fetched f)) [
    | inl (buf, got) ↦ rw (set, got) refl
    | inr (e, lost) ↦ cc (rw (set, lost, refresh) at h)
  ]
]

-- What a step does to the cache: nothing, or it publishes what a fetch gave.
pub data Change (m : Shared) (p : Pc) (m' : Shared) : Type 0 where
  unchanged : m'.cache ≡ m.cache → Change m p m'
  fetched_by :
      (f : Fetch) (at : ℕ) → fetches p ≡ true → m'.cache ≡ (refresh m.cache f at).1 → Change m p m'

pub change : {i : ℕ} {m m' : Shared} {p p' : Pc} → Move i m p m' p' → Change m p m'
change (ask _) = unchanged refl
change give_up = unchanged refl
change (published _) = unchanged refl
change (unpublished _) = unchanged refl
change (lock_init _) = unchanged refl
change (overtaken _) = unchanged refl
change (fetch_first _) = unchanged refl
change (first_list f at _) = fetched_by f at refl refl
change (no_list f at _ _) = fetched_by f at refl refl
change (fresh _ _) = unchanged refl
change (old _ _) = unchanged refl
change (lock_refresh _) = unchanged refl
change (refreshed _ _) = unchanged refl
change (fetch_again _ _) = unchanged refl
change (refetched f at) = fetched_by f at refl refl
change read = unchanged refl
change return = unchanged refl

-- What the step's call itself knows afterwards.
pub record Own (i : ℕ) (m : Shared) (p : Pc) (m' : Shared) (p' : Pc) : Type 0 where
  pub initiating : initiates p' ≡ true → m'.init_mu ≡ some i
  pub refreshing : refreshes p' ≡ true → m'.refresh_mu ≡ some i
  pub unread : fetches_first p' ≡ true → m'.cache.has_snapshot ≡ false
  pub seen : has_seen p' ≡ true → m'.cache.has_snapshot ≡ true

module _ (i : ℕ) (m : Shared) (p : Pc) (m' : Shared) (p' : Pc) where
  -- A call that holds no lock, with what it has seen.
  free :
      initiates p' ≡ false
      → refreshes p' ≡ false
      → fetches_first p' ≡ false
      → (has_seen p' ≡ true → m'.cache.has_snapshot ≡ true)
      → Own i m p m' p'
  free a b c known = record {
    initiating = λ h. cc;
    refreshing = λ h. cc;
    unread = λ h. cc;
    seen = known;
  }

pub own :
    {i : ℕ} {m m' : Shared} {p p' : Pc}
    → Move i m p m' p'
    → (initiates p ≡ true → m.init_mu ≡ some i)
    → (refreshes p ≡ true → m.refresh_mu ≡ some i)
    → (has_seen p ≡ true → m.cache.has_snapshot ≡ true)
    → Own i m p m' p'
own (ask _) a b c = free _ _ _ _ _ refl refl refl (λ h. cc)
own give_up a b c = free _ _ _ _ _ refl refl refl (λ h. cc)
own (published has) a b c = free _ _ _ _ _ refl refl refl (λ h. has)
own (unpublished _) a b c = free _ _ _ _ _ refl refl refl (λ h. cc)
own (lock_init _) a b c = record {
  initiating = λ h. refl;
  refreshing = λ h. cc;
  unread = λ h. cc;
  seen = λ h. cc;
}
own (overtaken has) a b c = free _ _ _ _ _ refl refl refl (λ h. has)
own (fetch_first has) a b c = record {
  initiating = a;
  refreshing = λ h. cc;
  unread = λ h. has;
  seen = λ h. cc;
}
own {m} (first_list f at done) a b c =
    free _ _ _ _ _ refl refl refl (λ h. refresh-publishes m.cache f at done)
own (no_list _ _ _ _) a b c = free _ _ _ _ _ refl refl refl (λ h. cc)
own (fresh _ _) a b c = free _ _ _ _ _ refl refl refl c
own (old _ _) a b c = free _ _ _ _ _ refl refl refl c
own (lock_refresh _) a b c = record {
  initiating = λ h. cc;
  refreshing = λ h. refl;
  unread = λ h. cc;
  seen = c;
}
own (refreshed _ _) a b c = free _ _ _ _ _ refl refl refl c
own (fetch_again _ _) a b c = record {
  initiating = λ h. cc;
  refreshing = b;
  unread = λ h. cc;
  seen = c;
}
own {m} (refetched f at) a b c =
    free _ _ _ _ _ refl refl refl (λ h. refresh-keeps m.cache f at (c refl))
own read a b c = free _ _ _ _ _ refl refl refl (λ h. cc)
own return a b c = free _ _ _ _ _ refl refl refl (λ h. cc)

-- What the step leaves to the other calls: a lock is taken where it is free, and released by its holder.
pub record Others (i : ℕ) (m : Shared) (m' : Shared) : Type 0 where
  pub init_kept : (j : ℕ) → j ≢ i → m.init_mu ≡ some j → m'.init_mu ≡ some j
  pub refresh_kept : (j : ℕ) → j ≢ i → m.refresh_mu ≡ some j → m'.refresh_mu ≡ some j

untouched : {i : ℕ} {m : Shared} → Others i m m
untouched = record { init_kept = λ j d h. h; refresh_kept = λ j d h. h }

pub others :
    {i : ℕ} {m m' : Shared} {p p' : Pc}
    → Move i m p m' p'
    → (initiates p ≡ true → m.init_mu ≡ some i)
    → (refreshes p ≡ true → m.refresh_mu ≡ some i)
    → Others i m m'
others (ask _) a b = untouched
others give_up a b = untouched
others (published _) a b = untouched
others (unpublished _) a b = untouched
others (lock_init open_now) a b = record { init_kept = λ j d h. cc; refresh_kept = λ j d h. h }
others (overtaken _) a b = record {
  init_kept = λ j d h. absurd (d (some-injective _ _ (sym h ∙ a refl)));
  refresh_kept = λ j d h. h;
}
others (fetch_first _) a b = untouched
others (first_list _ _ _) a b = record {
  init_kept = λ j d h. absurd (d (some-injective _ _ (sym h ∙ a refl)));
  refresh_kept = λ j d h. h;
}
others (no_list _ _ _ _) a b = record {
  init_kept = λ j d h. absurd (d (some-injective _ _ (sym h ∙ a refl)));
  refresh_kept = λ j d h. h;
}
others (fresh _ _) a b = untouched
others (old _ _) a b = untouched
others (lock_refresh open_now) a b = record { init_kept = λ j d h. h; refresh_kept = λ j d h. cc }
others (refreshed _ _) a b = record {
  init_kept = λ j d h. h;
  refresh_kept = λ j d h. absurd (d (some-injective _ _ (sym h ∙ b refl)));
}
others (fetch_again _ _) a b = untouched
others (refetched _ _) a b = record {
  init_kept = λ j d h. h;
  refresh_kept = λ j d h. absurd (d (some-injective _ _ (sym h ∙ b refl)));
}
others read a b = untouched
others return a b = untouched

-- A fetch that fails leaves the list expired, at that time and at every later one: each call that
-- waits for refreshMu then finds it expired, and fetches in its turn.
pub failed_refresh-expired :
    (c : StatusCache) (f : Fetch) (at now now' : ℕ) (e : Error)
    → is_empty c.base_url ≡ false
    → fetched f ≡ err e
    → is_expired c now ≡ true
    → now ≤ now'
    → is_expired (refresh c f at).1 now' ≡ true
unfolding refresh
failed_refresh-expired c f at now now' e set lost gone after = rw (set, lost) (ground arith)
