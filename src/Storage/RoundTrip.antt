-- ===== src/Storage/RoundTrip.antt =====
-- What FilesystemStore of drs-verify/pkg/store/filesystem.go gives back.
use drs.Prelude.{
  ℕ, ◌-◌, ◌+◌, ◌≤◌, ◌<◌, true, false, none, some, ok, err, ltb, arith, ◌≡◌, ◌≢◌, inl, inr, refl,
  sym, ap, ◌∙◌, Bool-cases, Option-cases,
}
use drs.Prelude.Text.{Text, ◌==◌, ==_iff, ==-refl}
use drs.Storage.Key.{hash_path}
use drs.Storage.Filesystem.{File, Disk, Faults, not_found, write_file, put, get}

write_file-same :
    (path : Text) (file : File) (disk : Disk) → write_file path file disk path ≡ some file
unfolding write_file
write_file-same path file disk = rw (==-refl path) refl

write_file-other :
    (path p : Text) (file : File) (disk : Disk) → p ≢ path → write_file path file disk p ≡ disk p
unfolding write_file
write_file-other path p file disk other = elim (Bool-cases (p == path)) [
  | inl same ↦ absurd (other ((==_iff p path).0 same))
  | inr different ↦ rw different refl
]

put_stores :
    (faults : Faults) (now : ℕ) (hash jwt : Text) (disk : Disk)
    → (put faults now hash jwt disk).0 ≡ none
    → (path : Text) × (hash_path hash ≡ some path)
      × ((put faults now hash jwt disk).1
          ≡ write_file path (record { content = jwt; modified = now }) disk)
unfolding put
put_stores faults now hash jwt disk h = elim (Option-cases (hash_path hash)) [
  | inl bad ↦ cc (rw (bad, put) at h)
  | inr (path, e) ↦ elim (Bool-cases faults.mkdir_fails) [
    | inl failed ↦ cc (rw (e, failed, put) at h)
    | inr made ↦ elim (Bool-cases faults.open_fails) [
      | inl failed ↦ cc (rw (e, made, failed, put) at h)
      | inr opened ↦ elim (Option-cases faults.write_fails) [
        | inr (partial, failed) ↦ cc (rw (e, made, opened, failed, put) at h)
        | inl written ↦ (path, e, rw (e, made, opened, written) refl)
      ]
    ]
  ]
]

-- What a Put that reported no error wrote, a Get of the same key gives back while the TTL is not
-- over, where its calls of Stat and ReadFile succeed; it leaves the disk as it is.
pub get-put :
    (faults later_faults : Faults) (ttl now later : ℕ) (hash jwt : Text) (disk : Disk)
    → (put faults now hash jwt disk).0 ≡ none
    → later ≤ now + ttl
    → later_faults.stat_fails ≡ false
    → later_faults.read_fails ≡ false
    → get later_faults ttl later hash (put faults now hash jwt disk).1
      ≡ (ok jwt, (put faults now hash jwt disk).1)
unfolding get
get-put faults later_faults ttl now later hash jwt disk stored young found readable =
    let (path, e, written) = put_stores faults now hash jwt disk stored in
    let new : File = record { content = jwt; modified = now } in
    let valid : ltb ttl (later - now) ≡ false = ground arith in
    rw (written, e, write_file-same path new disk, found, valid, readable) refl

-- After the TTL a Get finds nothing, and removes the file where it can.
pub get_expired :
    (faults later_faults : Faults) (ttl now later : ℕ) (hash jwt : Text) (disk : Disk)
    → (put faults now hash jwt disk).0 ≡ none
    → now + ttl < later
    → later_faults.stat_fails ≡ false
    → (get later_faults ttl later hash (put faults now hash jwt disk).1).0 ≡ err not_found
unfolding get
get_expired faults later_faults ttl now later hash jwt disk stored old found =
    let (path, e, written) = put_stores faults now hash jwt disk stored in
    let new : File = record { content = jwt; modified = now } in
    let expired : ltb ttl (later - now) ≡ true = ground arith in
    rw (written, e, write_file-same path new disk, found, expired) refl

-- A Put changes no other file.
pub put_other :
    (faults : Faults) (now : ℕ) (hash jwt p : Text) (disk : Disk)
    → hash_path hash ≢ some p
    → (put faults now hash jwt disk).1 p ≡ disk p
unfolding put
put_other faults now hash jwt p disk other = elim (Option-cases (hash_path hash)) [
  | inl bad ↦ rw bad refl
  | inr (path, e) ↦
      let apart : p ≢ path = λ same. other (e ∙ ap some (sym same)) in
      elim (Bool-cases faults.mkdir_fails) [
        | inl failed ↦ rw (e, failed) refl
        | inr made ↦ elim (Bool-cases faults.open_fails) [
          | inl failed ↦ rw (e, made, failed) refl
          | inr opened ↦ elim (Option-cases faults.write_fails) [
            | inr (partial, failed) ↦
                rw (e, made, opened, failed) (write_file-other path p _ disk apart)
            | inl written ↦ rw (e, made, opened, written) (write_file-other path p _ disk apart)
          ]
        ]
      ]
]
