-- ===== src/Revocation/Restart.antt =====
-- drs-verify/pkg/revocation/file.go across a restart: the revocations that the log keeps.
use drs.Prelude.{
  take-append, ℕ, suc, ◌^◌, ◌<◌, true, List, [], ◌∷◌, ◌++◌, ◌≡◌, ◌≢◌, refl, none, some, ok,
  ok-injective, subst, length, All, ++-nil, any_of, arith, Bool-cases, Option-cases, inl, inr,
}
use drs.Prelude.Text.{Text}
use drs.Revocation.Local.{Revoked, is_revoked}
use drs.Revocation.Log.{format_uint, load, read_lines, lines_from}
use drs.Revocation.Reload.{IsTerminated, line_of-IsTerminated, load-line_of, load-joined}
use drs.Revocation.File.{
  file_store-IsCumulative, Weather, FileStore, Existing, missing, unreadable, content, bytes_of,
  open_store, line_of, revoke, is_revoked_file,
}

-- Every index of the first set is in the second.
abbrev pub Within : Revoked → Revoked → Type 0
Within small large = (j : ℕ) → is_revoked j small ≡ true → is_revoked j large ≡ true

Within-cons : (i : ℕ) (small large : Revoked) → Within small large → Within (i ∷ small) (i ∷ large)
unfolding is_revoked any_of
Within-cons i small large h j = ground (arith, h j)

Within-later : (i : ℕ) (small large : Revoked) → Within small large → Within small (i ∷ large)
unfolding is_revoked any_of
Within-later i small large h j = ground (arith, h j)

-- The log can be read back, and holds what the set in memory holds.
pub record IsRecorded (s : FileStore) : Type 0 where
  pub on_disk : Revoked
  pub readable : load s.log ≡ some on_disk
  pub ends : IsTerminated s.log
  pub covers : Within s.revoked on_disk

-- A write that fails leaves nothing of the line in the file.
abbrev pub IsWhole : Weather → Type 0
IsWhole w = w.write_error ≢ none → w.written ≡ 0

module _ (weather : ℕ → Weather) where
  -- the calls of Revoke that a process makes
  unfoldable pub revoke_all : List ℕ → FileStore → FileStore
  revoke_all [] s = s
  revoke_all (i ∷ is) s = revoke_all is (revoke weather i s).1

  module _ (whole : (n : ℕ) → IsWhole (weather n)) where
    revoke-IsRecorded :
        (i : ℕ) (s : FileStore) → i < 2 ^ 64 → IsRecorded s → IsRecorded (revoke weather i s).1
    unfolding revoke
    revoke-IsRecorded i s small r = elim (Bool-cases s.is_open) [
      | inr shut ↦
          rw shut (record {
            on_disk = r.on_disk;
            readable = r.readable;
            ends = r.ends;
            covers = r.covers;
          })
      | inl usable ↦ elim (Option-cases (weather s.calls).write_error) [
        | inr (e, torn) ↦
            let nothing = whole s.calls (λ absent. cc) in
            rw (usable, torn, nothing, ++-nil s.log)
              (record {
                on_disk = r.on_disk;
                readable = r.readable;
                ends = r.ends;
                covers = r.covers;
              })
        | inl written ↦ elim (Option-cases (weather s.calls).sync_error) [
          | inr (e, lost) ↦
              rw (usable, written, lost)
                (record {
                  on_disk = i ∷ r.on_disk;
                  readable = load-line_of s.log r.on_disk i r.ends r.readable small;
                  ends = line_of-IsTerminated s.log i;
                  covers = Within-later i s.revoked r.on_disk r.covers;
                })
          | inl synced ↦
              rw (usable, written, synced)
                (record {
                  on_disk = i ∷ r.on_disk;
                  readable = load-line_of s.log r.on_disk i r.ends r.readable small;
                  ends = line_of-IsTerminated s.log i;
                  covers = Within-cons i s.revoked r.on_disk r.covers;
                })
        ]
      ]
    ]

    revoke_all-IsRecorded :
        (is : List ℕ) (s : FileStore)
        → All (λ i. i < 2 ^ 64) is
        → IsRecorded s
        → IsRecorded (revoke_all is s)
    unfolding revoke_all
    revoke_all-IsRecorded [] s small r = r
    revoke_all-IsRecorded (i ∷ is) s (fits, small) r =
        revoke_all-IsRecorded is _ small (revoke-IsRecorded i s fits r)

pub reload :
    (log : Text) (set : Revoked)
    → load log ≡ some set
    → open_store none (content log) none
      ≡ ok (record { revoked = set; log = log; is_open = true; calls = 0 })
unfolding open_store
reload log set h = rw h refl

opened-IsRecorded :
    (existing : Existing) (s : FileStore)
    → open_store none existing none ≡ ok s
    → IsTerminated (bytes_of existing)
    → IsRecorded s
unfolding open_store
opened-IsRecorded missing s h ends = subst IsRecorded (ok-injective h) (record {
  on_disk = [];
  readable = unfold load read_lines lines_from in refl;
  ends = ends;
  covers = λ j revoked. revoked;
})
opened-IsRecorded (unreadable e) s h ends = cc
opened-IsRecorded (content log) s h ends = elim (Option-cases (load log)) [
  | inl broken ↦ cc (rw (broken, open_store) at h)
  | inr (set, read) ↦
      subst IsRecorded (ok-injective (rw (read, open_store) at h))
        (record { on_disk = set; readable = read; ends = ends; covers = λ j revoked. revoked })
]

module _ (weather : ℕ → Weather) where
  revoke_all-kept :
      (is : List ℕ) (s : FileStore) → Within s.revoked (revoke_all weather is s).revoked
  unfolding revoke_all
  revoke_all-kept [] s j h = h
  revoke_all-kept (i ∷ is) s j h =
      revoke_all-kept is _ j ((file_store-IsCumulative weather).kept i j s h)

  -- Let the store be opened on a missing file or on one that is empty or ends with a newline, and
  -- let no failing write leave part of a line. An index of 64 bits whose revocation was reported as
  -- done is revoked after a restart, whatever revocations, done or failed, came before and after.
  pub restart_keeps :
      (whole : (n : ℕ) → IsWhole (weather n)) (existing : Existing) (s : FileStore)
      (before : List ℕ) (i : ℕ) (after : List ℕ)
      → IsTerminated (bytes_of existing)
      → open_store none existing none ≡ ok s
      → All (λ j. j < 2 ^ 64) before
      → i < 2 ^ 64
      → All (λ j. j < 2 ^ 64) after
      → (revoke weather i (revoke_all weather before s)).0 ≡ none
      → (t : FileStore) × (open_store none
            (content
              (revoke_all weather after (revoke weather i (revoke_all weather before s)).1).log)
            none
          ≡ ok t)
        × (is_revoked_file weather i t ≡ true)
  restart_keeps whole existing s before i after ends opened small fits later done =
      let r0 =
        revoke_all-IsRecorded weather whole before s small
          (opened-IsRecorded existing s opened ends) in
      let r1 = revoke-IsRecorded weather whole i _ fits r0 in
      let r2 = revoke_all-IsRecorded weather whole after _ later r1 in
      let laws = file_store-IsCumulative weather in
      let final = revoke_all weather after (revoke weather i (revoke_all weather before s)).1 in
      let in_memory = revoke_all-kept after _ i (laws.effective i _ done) in
      (_, reload final.log r2.on_disk r2.readable, r2.covers i in_memory)

-- The store after a write that stopped before the newline.
abbrev torn_store : ℕ → FileStore → FileStore
torn_store j s = record {
  revoked = s.revoked;
  log = s.log ++ format_uint j;
  is_open = true;
  calls = suc s.calls;
}

revoke-torn :
    (weather : ℕ → Weather) (s : FileStore) (j : ℕ) (e : Text)
    → s.is_open ≡ true
    → weather s.calls
      ≡ record { written = length (format_uint j); write_error = some e; sync_error = none }
    → (revoke weather j s).1 ≡ torn_store j s
unfolding revoke line_of
revoke-torn weather s j e usable torn =
    rw (usable, torn, take-append (format_uint j) (b'\n' ∷ [])) refl

revoke-done :
    (weather : ℕ → Weather) (s : FileStore) (i : ℕ)
    → s.is_open ≡ true
    → (weather s.calls).write_error ≡ none
    → (weather s.calls).sync_error ≡ none
    → revoke weather i s ≡ (
      none,
      record {
        revoked = i ∷ s.revoked;
        log = s.log ++ line_of i;
        is_open = true;
        calls = suc s.calls;
      },
    )
unfolding revoke
revoke-done weather s i usable written synced = rw (usable, written, synced) refl

is_revoked-cons : (i : ℕ) (set : Revoked) → is_revoked i (i ∷ set) ≡ true
unfolding is_revoked any_of
is_revoked-cons i set = ground arith

-- A revocation that was reported as done can be lost at a restart. Let a write of `j`, not 0, fail
-- with everything but its newline in the file. Then the next Revoke reports its index `i` as done,
-- and `i` is revoked in memory, but the two are one line: a store that is opened on the log holds
-- `i` only where it did before.
pub restart_loses :
    (weather : ℕ → Weather) (s : FileStore) (set : Revoked) (j i : ℕ) (e : Text)
    → IsTerminated s.log
    → load s.log ≡ some set
    → s.is_open ≡ true
    → 0 < j
    → j < 2 ^ 64
    → i < 2 ^ 64
    → weather s.calls
      ≡ record { written = length (format_uint j); write_error = some e; sync_error = none }
    → (weather (suc s.calls)).write_error ≡ none
    → (weather (suc s.calls)).sync_error ≡ none
    → ((revoke weather i (revoke weather j s).1).0 ≡ none)
      × (is_revoked_file weather i (revoke weather i (revoke weather j s).1).1 ≡ true)
      × (t : FileStore) × (open_store none
            (content (revoke weather i (revoke weather j s).1).1.log)
            none
          ≡ ok t)
      × (is_revoked_file weather i t ≡ is_revoked i set)
restart_loses weather s set j i e ends h usable positive fits small torn written synced =
    let (read, loads, lost) = load-joined s.log set j i ends h positive fits small in
    let first = revoke-torn weather s j e usable torn in
    let second = revoke-done weather (torn_store j s) i refl written synced in
    rw first (
      rw second (
        refl,
        is_revoked-cons i s.revoked,
        _,
        reload ((s.log ++ format_uint j) ++ line_of i) read loads,
        lost,
      ))
