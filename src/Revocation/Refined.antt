-- ===== src/Revocation/Refined.antt =====
-- drs-verify/pkg/revocation/file.go as an implementation of what interface.go and the comments of
-- file.go promise: a set in memory, and a set that a restart gives back.
use drs.Prelude.{
  ℕ, ◌^◌, ◌<◌, ◌≡◌, ◌≢◌, ◌⊎◌, inl, inr, refl, Bool, true, false, ◌∷◌, Option, none, some, ok,
  Bool-cases, Option-cases, ++-nil, sym, ap, ◌∙◌,
}
use drs.Prelude.Text.{Text}
use drs.Revocation.Local.{Revoked}
use drs.Revocation.Log.{load}
use drs.Revocation.Reload.{IsTerminated, line_of-IsTerminated, load-line_of}
use drs.Revocation.File.{Weather, FileStore, content, open_store, revoke}
use drs.Revocation.Restart.{IsWhole, reload}

-- What a client knows of a store: the indices that it reports as revoked, those that it has after a
-- restart, and whether it is open.
pub record Promise : Type 0 where
  pub live : Revoked
  pub kept : Revoked
  pub usable : Bool

-- Revoke of an index, with the error that it returns: it is done, in memory and on disk, where the
-- file system reports no error; without Sync it is on disk only; else nothing changes.
pub data Promised (i : ℕ) (w : Weather) (a : Promise) (r : Option Text) : Promise → Type 0 where
  done :
      a.usable ≡ true
      → w.write_error ≡ none
      → w.sync_error ≡ none
      → r ≡ none
      → Promised i w a r (record a { live = i ∷ a.live; kept = i ∷ a.kept })
  unsynced :
      a.usable ≡ true
      → w.write_error ≡ none
      → w.sync_error ≢ none
      → r ≢ none
      → Promised i w a r (record a { kept = i ∷ a.kept })
  refused : (a.usable ≡ false) ⊎ (w.write_error ≢ none) → r ≢ none → Promised i w a r a

-- The store holds what is promised: the set, and a log that reads as the set on disk.
pub record Implements (s : FileStore) (a : Promise) : Type 0 where
  pub live : s.revoked ≡ a.live
  pub kept : load s.log ≡ some a.kept
  pub ends : IsTerminated s.log
  pub usable : s.is_open ≡ a.usable

revoke-Implements :
    (weather : ℕ → Weather) (i : ℕ) (s : FileStore) (a : Promise)
    → ((n : ℕ) → IsWhole (weather n))
    → i < 2 ^ 64
    → Implements s a
    → (b : Promise) × Promised i (weather s.calls) a (revoke weather i s).0 b
      × Implements (revoke weather i s).1 b
unfolding revoke
revoke-Implements weather i s a whole fits h = elim (Bool-cases s.is_open) [
  | inr shut ↦ rw shut (
    a,
    refused (inl (sym h.usable ∙ shut)) (λ e. cc),
    record { live = h.live; kept = h.kept; ends = h.ends; usable = sym shut ∙ h.usable },
  )
  | inl alive ↦ elim (Option-cases (weather s.calls).write_error) [
    | inr (e, torn) ↦
        let nothing = whole s.calls (λ absent. cc) in
        rw (alive, torn, nothing, ++-nil s.log)
          (
            a,
            refused (inr (λ absent. cc)) (λ absent. cc),
            record { live = h.live; kept = h.kept; ends = h.ends; usable = sym alive ∙ h.usable },
          )
    | inl written ↦ elim (Option-cases (weather s.calls).sync_error) [
      | inr (e, lost) ↦
          rw (alive, written, lost)
            (
              record a { kept = i ∷ a.kept },
              unsynced (sym h.usable ∙ alive) refl (λ absent. cc) (λ absent. cc),
              record {
                live = h.live;
                kept = load-line_of s.log a.kept i h.ends h.kept fits;
                ends = line_of-IsTerminated s.log i;
                usable = sym alive ∙ h.usable;
              },
            )
      | inl synced ↦
          rw (alive, written, synced)
            (
              record a { live = i ∷ a.live; kept = i ∷ a.kept },
              done (sym h.usable ∙ alive) refl refl refl,
              record {
                live = ap (λ (l : Revoked). i ∷ l) h.live;
                kept = load-line_of s.log a.kept i h.ends h.kept fits;
                ends = line_of-IsTerminated s.log i;
                usable = sym alive ∙ h.usable;
              },
            )
    ]
  ]
]

-- Where no failing write leaves part of a line, the file-backed store implements the promise: Revoke
-- of an index of 64 bits changes what is in memory and on disk as promised, with an error where that
-- says so; and a store that is opened on the log that is left has exactly the set on disk.
pub file_store-Implements :
    (weather : ℕ → Weather) (i : ℕ) (s : FileStore) (a : Promise)
    → ((n : ℕ) → IsWhole (weather n))
    → i < 2 ^ 64
    → Implements s a
    → (b : Promise) × Promised i (weather s.calls) a (revoke weather i s).0 b
      × Implements (revoke weather i s).1 b
      × (t : FileStore) × (open_store none (content (revoke weather i s).1.log) none ≡ ok t)
      × Implements t (record { live = b.kept; kept = b.kept; usable = true })
file_store-Implements weather i s a whole fits h =
    let (b, promised, after) = revoke-Implements weather i s a whole fits h in
    (
      b,
      promised,
      after,
      _,
      reload (revoke weather i s).1.log b.kept after.kept,
      record { live = refl; kept = after.kept; ends = after.ends; usable = refl },
    )
