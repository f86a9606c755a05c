-- ===== src/Storage/Filesystem.antt =====
-- FilesystemStore of drs-verify/pkg/store/filesystem.go. The disk is a map from paths below the base
-- directory; how its calls fail is a parameter, with the answers during the call.
use drs.Prelude.{ℕ, ◌-◌, ◌*◌, ◌^◌, Bool, Option, none, some, Result, ok, err, ltb, if◌then◌else◌}
use drs.Prelude.Text.{Text, ◌==◌}
use drs.Storage.Key.{hash_path}

pub record File : Type 0 where
  pub content : Text
  pub modified : ℕ

abbrev pub Disk : Type 0
Disk = Text → Option File

-- Times are nanoseconds, which the file system keeps as they are. Which calls fail: WriteFile leaves
-- the old file where its open fails, and what it had written where its write does.
pub record Faults : Type 0 where
  pub mkdir_fails : Bool
  pub open_fails : Bool
  pub write_fails : Option Text
  pub stat_fails : Bool
  pub read_fails : Bool
  pub remove_fails : Bool

pub data StoreError : Type 0 where
  invalid_key not_found failed_mkdir failed_write failed_stat failed_read failed_delete : StoreError

abbrev pub default_ttl : ℕ
default_ttl = 48 * 3600 * 10 ^ 9

-- The TTL of a new store: NewFilesystemStore has the default for 0.
abbrev pub ttl_or_default : ℕ → ℕ
ttl_or_default ttl = if ltb 0 ttl then ttl else default_ttl

unfoldable pub write_file : Text → File → Disk → Disk
write_file path file disk p = if p == path then some file else disk p

unfoldable pub remove_file : Text → Disk → Disk
remove_file path disk p = if p == path then none else disk p

abbrev pub put_at : Faults → ℕ → Text → Option Text → Disk → Option StoreError × Disk
put_at faults now jwt none disk = (some invalid_key, disk)
put_at faults now jwt (some path) disk =
    if faults.mkdir_fails
    then (some failed_mkdir, disk)
    else if faults.open_fails
    then (some failed_write, disk)
    else elim faults.write_fails [
      | some partial ↦
          (some failed_write, write_file path (record { content = partial; modified = now }) disk)
      | none ↦ (none, write_file path (record { content = jwt; modified = now }) disk)
    ]

-- Put, at the time `now`
unfoldable pub put : Faults → ℕ → Text → Text → Disk → Option StoreError × Disk
put faults now hash jwt disk = put_at faults now jwt (hash_path hash) disk

abbrev pub read_file : Faults → File → Result StoreError Text
read_file faults file = if faults.read_fails then err failed_read else ok file.content

-- what happens to a file that Stat has found
abbrev pub get_file : Faults → ℕ → ℕ → Text → File → Disk → Result StoreError Text × Disk
get_file faults ttl now path file disk =
    if ltb ttl (now - file.modified)
    then (err not_found, if faults.remove_fails then disk else remove_file path disk)
    else (read_file faults file, disk)

abbrev pub get_found : Faults → ℕ → ℕ → Text → Option File → Disk → Result StoreError Text × Disk
get_found faults ttl now path none disk = (err not_found, disk)
get_found faults ttl now path (some file) disk =
    if faults.stat_fails then (err failed_stat, disk) else get_file faults ttl now path file disk

abbrev pub get_at : Faults → ℕ → ℕ → Option Text → Disk → Result StoreError Text × Disk
get_at faults ttl now none disk = (err invalid_key, disk)
get_at faults ttl now (some path) disk = get_found faults ttl now path (disk path) disk

-- Get, at the time `now`
unfoldable pub get : Faults → ℕ → ℕ → Text → Disk → Result StoreError Text × Disk
get faults ttl now hash disk = get_at faults ttl now (hash_path hash) disk

abbrev pub delete_found : Faults → Text → Option File → Disk → Option StoreError × Disk
delete_found faults path none disk = (none, disk)
delete_found faults path (some file) disk =
    if faults.remove_fails then (some failed_delete, disk) else (none, remove_file path disk)

abbrev pub delete_at : Faults → Option Text → Disk → Option StoreError × Disk
delete_at faults none disk = (some invalid_key, disk)
delete_at faults (some path) disk = delete_found faults path (disk path) disk

-- Delete
unfoldable pub delete_key : Faults → Text → Disk → Option StoreError × Disk
delete_key faults hash disk = delete_at faults (hash_path hash) disk
