-- ===== src/Revocation/FailClosed.antt =====
-- IsRevoked of drs-verify/pkg/revocation/status.go: what an answer is read from, and failed fetches.
use drs.Prelude.{
  ℕ, ◌/◌, ◌≤◌, ◌<◌, ◌≡◌, inl, inr, refl, sym, Bool, true, false, not, ◌&&◌, Option, none, some,
  arith, length, Bool-cases, Option-cases, Result-cases, eqb, ltb, leb, ok, err, if◌then◌else◌,
  ok-injective,
}
use drs.Prelude.Text.{Text, is_empty}
use drs.Revocation.Status.{
  StatusCache, Fetch, bad_request, failed, response, Error, cancelled, no_snapshot, Moment,
  max_status_list_bytes, accept_body, limited, fetched, publish_fetched, refresh,
  ensure_initial_snapshot, is_expired, get_bit, refresh_expired, read_bit, after_first, is_revoked,
}

-- A list that may be published: neither empty nor over the limit.
abbrev pub IsListed : Text → Type 0
IsListed bits = (0 < length bits) × (length bits ≤ max_status_list_bytes)

-- A cache with a snapshot has such a list, unless no list is configured.
abbrev pub IsSound : StatusCache → Type 0
IsSound c = c.has_snapshot ≡ true → is_empty c.base_url ≡ false → IsListed c.bitstring

accept_body-IsListed :
    (cl : Option ℕ) (body buf : Text) → accept_body cl body ≡ ok buf → IsListed buf
unfolding accept_body
accept_body-IsListed cl body buf h =
    let same : body ≡ buf = ground arith in rw (← same) (ground arith, ground arith)

fetched-IsListed : (f : Fetch) (buf : Text) → fetched f ≡ ok buf → IsListed buf
unfolding fetched
fetched-IsListed bad_request buf h = cc
fetched-IsListed failed buf h = cc
fetched-IsListed (response r) buf h = elim (Bool-cases (not (eqb r.status 200))) [
  | inl bad ↦ cc (rw (bad, fetched) at h)
  | inr good ↦ elim (Option-cases r.body) [
    | inl lost ↦ cc (rw (good, lost, fetched) at h)
    | inr (body, read) ↦
        accept_body-IsListed r.content_length (limited body) buf (rw (good, read, fetched) at h)
  ]
]

publish_fetched-IsSound :
    (c : StatusCache) (at : ℕ) (f : Fetch)
    → IsSound c
    → IsSound (publish_fetched c at (fetched f)).1
publish_fetched-IsSound c at f sound = elim (Result-cases (fetched f)) [
  | inl (buf, h) ↦ rw h (λ _ _. fetched-IsListed f buf h)
  | inr (e, h) ↦ rw h sound
]

publish_fetched-base_url :
    (c : StatusCache) (at : ℕ) (f : Fetch)
    → (publish_fetched c at (fetched f)).1.base_url ≡ c.base_url
publish_fetched-base_url c at f = elim (Result-cases (fetched f)) [
  | inl (buf, h) ↦ rw h refl
  | inr (e, h) ↦ rw h refl
]

pub refresh-IsSound :
    (c : StatusCache) (f : Fetch) (at : ℕ)
    → IsSound c
    → IsSound (refresh c f at).1 × ((refresh c f at).1.base_url ≡ c.base_url)
unfolding refresh
refresh-IsSound c f at sound = elim (Bool-cases (is_empty c.base_url)) [
  | inl unset ↦ rw unset ((λ _ set. cc), refl)
  | inr set ↦ rw set (publish_fetched-IsSound c at f sound, publish_fetched-base_url c at f)
]

refresh_expired-IsSound :
    (c : StatusCache) (m : Moment)
    → IsSound c
    → IsSound (refresh_expired c m) × ((refresh_expired c m).base_url ≡ c.base_url)
unfolding refresh_expired
refresh_expired-IsSound c m sound =
    elim (Bool-cases (is_expired c m.now && is_expired c m.recheck_at)) [
      | inl old ↦ rw old (refresh-IsSound c m.again m.again_at sound)
      | inr fresh ↦ rw fresh (sound, refl)
    ]

pub first-snapshot :
    (c : StatusCache) (f : Fetch) (at : ℕ)
    → (ensure_initial_snapshot c f at).0 ≡ none
    → (ensure_initial_snapshot c f at).1.has_snapshot ≡ true
unfolding ensure_initial_snapshot refresh
first-snapshot c f at h = elim (Bool-cases c.has_snapshot) [
  | inl held ↦ simp held refl
  | inr unread ↦ elim (Bool-cases (is_empty c.base_url)) [
    | inl unset ↦ rw (unread, unset) refl
    | inr set ↦ elim (Result-cases (fetched f)) [
      | inl (buf, read) ↦ rw (unread, set, read) refl
      | inr (e, lost) ↦ cc (rw (unread, set, lost, ensure_initial_snapshot, refresh) at h)
    ]
  ]
]

ensure-IsSound :
    (c : StatusCache) (f : Fetch) (at : ℕ)
    → IsSound c
    → IsSound (ensure_initial_snapshot c f at).1
      × ((ensure_initial_snapshot c f at).1.base_url ≡ c.base_url)
unfolding ensure_initial_snapshot
ensure-IsSound c f at sound = elim (Bool-cases c.has_snapshot) [
  | inl held ↦ simp held ((λ _. sound held), refl)
  | inr unread ↦ simp unread (refresh-IsSound c f at sound)
]

refresh_expired-has_snapshot :
    (c : StatusCache) (m : Moment)
    → c.has_snapshot ≡ true
    → (refresh_expired c m).has_snapshot ≡ true
unfolding refresh_expired refresh
refresh_expired-has_snapshot c m h =
    elim (Bool-cases (is_expired c m.now && is_expired c m.recheck_at)) [
      | inr fresh ↦ rw fresh h
      | inl old ↦ elim (Bool-cases (is_empty c.base_url)) [
        | inl unset ↦ rw (old, unset) refl
        | inr set ↦ elim (Result-cases (fetched m.again)) [
          | inl (buf, read) ↦ rw (old, set, read) refl
          | inr (e, lost) ↦ rw (old, set, lost) h
        ]
      ]
    ]

pub read_bit-ok :
    (c : StatusCache) (index : ℕ) (answer : Bool)
    → IsListed c.bitstring
    → read_bit c index ≡ ok answer
    → (index / 8 < length c.bitstring) × (answer ≡ get_bit c.bitstring index)
unfolding read_bit
read_bit-ok c index answer listed h =
    elim (Bool-cases (ltb 0 (length c.bitstring) && leb (length c.bitstring) (index / 8))) [
      | inl out ↦ cc (rw (out, read_bit) at h)
      | inr within ↦ (ground (arith, listed), sym (ok-injective (rw (within, read_bit) at h)))
    ]

-- What an answer is read from.
abbrev pub IsAnswer : StatusCache → ℕ → Bool → Type 0
IsAnswer c index answer =
    IsSound c
    × (c.has_snapshot ≡ true)
    × (index / 8 < length c.bitstring)
    × (length c.bitstring ≤ max_status_list_bytes)
    × (answer ≡ get_bit c.bitstring index)

after_first-answers :
    (p : Option Error × StatusCache) (index : ℕ) (m : Moment) (answer : Bool)
    → IsSound p.1
    → (p.0 ≡ none → p.1.has_snapshot ≡ true)
    → is_empty p.1.base_url ≡ false
    → (after_first p index m).0 ≡ ok answer
    → IsAnswer (after_first p index m).1 index answer
after_first-answers (some e, c) index m answer sound held set h = cc
after_first-answers (none, c) index m answer sound held set h =
    let (sound', same) = refresh_expired-IsSound c m sound in
    let held' = refresh_expired-has_snapshot c m (held refl) in
    let listed = sound' held' (rw same set) in
    let (within, bit) = read_bit-ok (refresh_expired c m) index answer listed h in
    (sound', held', within, listed.1, bit)

-- From a sound cache, an answer for an index of a configured list is read from a list that was fetched and accepted,
-- has at least the index's byte and no more than the limit's bytes, and is the bit at the index;
-- the cache stays sound.
pub is_revoked-answers :
    (c : StatusCache) (index : ℕ) (m : Moment) (answer : Bool)
    → IsSound c
    → is_empty c.base_url ≡ false
    → (is_revoked c index m).0 ≡ ok answer
    → IsAnswer (is_revoked c index m).1 index answer
unfolding is_revoked
is_revoked-answers c index m answer sound set h = elim (Bool-cases m.is_done) [
  | inl done ↦ cc (rw (done, is_revoked) at h)
  | inr going ↦
      let (sound', same) = ensure-IsSound c m.first m.first_at sound in
      simp going (
        after_first-answers (ensure_initial_snapshot c m.first m.first_at) index m answer sound'
          (first-snapshot c m.first m.first_at) (rw same set) (simp (going, is_revoked) at h))
]

-- While no list was fetched from a configured URL, a check whose first fetch fails is an error, and
-- leaves the cache as it was.
pub is_revoked_fails_closed :
    (c : StatusCache) (index : ℕ) (m : Moment) (e : Error)
    → c.has_snapshot ≡ false
    → is_empty c.base_url ≡ false
    → fetched m.first ≡ err e
    → is_revoked c index m ≡ ((if m.is_done then err cancelled else err no_snapshot), c)
unfolding is_revoked ensure_initial_snapshot refresh
is_revoked_fails_closed c index m e unread set lost = elim (Bool-cases m.is_done) [
  | inl done ↦ rw done refl
  | inr going ↦ rw going (rw (ensure_initial_snapshot, unread, refresh, set, lost) refl)
]
