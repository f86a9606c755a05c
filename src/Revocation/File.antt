-- ===== src/Revocation/File.antt =====
-- drs-verify/pkg/revocation/file.go: the store that appends each revoked index to a log. The mutex
-- makes each method one step. What the file system does is a parameter.
use drs.Prelude.{
  take, ℕ, suc, Bool, true, false, [], ◌∷◌, ◌++◌, ◌≡◌, ◌≢◌, ◌⊎◌, refl, Option, none, some, Result,
  err, ok, ◌>>=◌, ◌>>◌, any_of, arith, Option-cases, Bool-cases, inl, inr, if◌then◌else◌,
}
use drs.Prelude.Text.{Text, codes}
use drs.Revocation.Local.{Revoked, LocalStore, IsCumulative, is_revoked}
use drs.Revocation.Log.{format_uint, load}

-- What one Revoke meets: how much of the line reaches the file where WriteString returns an error,
-- that error, and the error of Sync. Without an error the whole line is written.
pub record Weather : Type 0 where
  pub written : ℕ
  pub write_error : Option Text
  pub sync_error : Option Text

abbrev pub fair : Weather
fair = record { written = 0; write_error = none; sync_error = none }

-- FileBackedRevocationStore: the set, the bytes of the file, whether the handle is open, and the
-- number of calls of Revoke, which says which weather is next.
pub record FileStore : Type 0 where
  pub revoked : Revoked
  pub log : Text
  pub is_open : Bool
  pub calls : ℕ

-- What the path names when the store is opened.
pub data Existing : Type 0 where
  missing : Existing
  unreadable : Text → Existing
  content : Text → Existing

abbrev pub bytes_of : Existing → Text
bytes_of (content log) = log
bytes_of _ = []

pub data OpenError : Type 0 where
  create_dir open_existing open_append : Text → OpenError
  too_long : OpenError

abbrev loaded : Option Revoked → Result OpenError Revoked
loaded none = err too_long
loaded (some set) = ok set

-- loadExisting
abbrev pub load_existing : Existing → Result OpenError Revoked
load_existing missing = ok []
load_existing (unreadable e) = err (open_existing e)
load_existing (content log) = loaded (load log)

abbrev failed : (Text → OpenError) → Option Text → Result OpenError (Unit {0})
failed call none = ok tt
failed call (some e) = err (call e)

-- OpenFileBackedRevocationStore; the arguments are the error of MkdirAll, where it is called, what
-- the path names, and the error of OpenFile.
unfoldable pub open_store : Option Text → Existing → Option Text → Result OpenError FileStore
open_store mkdir existing append =
    failed create_dir mkdir
    >> (load_existing existing >>= λ set.
        failed open_append append
        >> ok (record { revoked = set; log = bytes_of existing; is_open = true; calls = 0 }))

-- The line of an index.
unfoldable pub line_of : ℕ → Text
line_of index = format_uint index ++ b'\n' ∷ []

abbrev pub after_write : ℕ → Weather → FileStore → Option Text × FileStore
after_write index w s = elim w.write_error [
  | some e ↦ (
    some (codes "revocation: write index " ++ format_uint index ++ codes ": " ++ e),
    record s { log = s.log ++ take w.written (line_of index); calls = suc s.calls },
  )
  | none ↦ elim w.sync_error [
    | some e ↦ (
      some (codes "revocation: fsync after index " ++ format_uint index ++ codes ": " ++ e),
      record s { log = s.log ++ line_of index; calls = suc s.calls },
    )
    | none ↦ (
      none,
      record s { revoked = index ∷ s.revoked; log = s.log ++ line_of index; calls = suc s.calls },
    )
  ]
]

module _ (weather : ℕ → Weather) where
  -- (*FileBackedRevocationStore).Revoke; after Close the write fails on the nil handle.
  unfoldable pub revoke : ℕ → FileStore → Option Text × FileStore
  revoke index s = if s.is_open then after_write index (weather s.calls) s else (
    some (codes "revocation: write index " ++ format_uint index ++ codes ": invalid argument"),
    record s { calls = suc s.calls },
  )

  -- (*FileBackedRevocationStore).IsRevoked
  abbrev pub is_revoked_file : ℕ → FileStore → Bool
  is_revoked_file index s = is_revoked index s.revoked

  abbrev pub file_store : LocalStore FileStore
  file_store = record { revoke = revoke; is_revoked = is_revoked_file }

-- Close, whose error is the file system's
unfoldable pub close : FileStore → FileStore
close s = record s { is_open = false }

revoke_cases :
    (weather : ℕ → Weather) (index : ℕ) (s : FileStore)
    → (((revoke weather index s).0 ≡ none)
        × ((revoke weather index s).1.revoked ≡ index ∷ s.revoked))
      ⊎ (((revoke weather index s).0 ≢ none) × ((revoke weather index s).1.revoked ≡ s.revoked))
unfolding revoke
revoke_cases weather index s = elim (Bool-cases s.is_open) [
  | inr shut ↦ rw shut (inr (λ h. cc, refl))
  | inl usable ↦ elim (Option-cases (weather s.calls).write_error) [
    | inr (e, torn) ↦ rw (usable, torn) (inr (λ h. cc, refl))
    | inl written ↦ elim (Option-cases (weather s.calls).sync_error) [
      | inr (e, lost) ↦ rw (usable, written, lost) (inr (λ h. cc, refl))
      | inl synced ↦ rw (usable, written, synced) (inl (refl, refl))
    ]
  ]
]

-- The set in memory meets these laws, whatever the file system does.
pub file_store-IsCumulative : (weather : ℕ → Weather) → IsCumulative (file_store weather)
unfolding is_revoked any_of
file_store-IsCumulative weather = record {
  effective = λ i s h. elim (revoke_cases weather i s) [
    | inl (done, added) ↦ rw added (ground arith)
    | inr (refused, same) ↦ absurd (refused h)
  ];
  kept = λ i j s h. elim (revoke_cases weather i s) [
    | inl (done, added) ↦ rw added (ground arith)
    | inr (refused, same) ↦ rw same h
  ];
}
