-- ===== src/Sync/Files.antt =====
-- crates/tethys-sync/src/atomic.rs: the files that the sync engine reads and writes, with their
-- backups. A path stands for the file that it leads to. The backups of a path are named by their
-- time stamps in milliseconds, which have the same number of digits until the year 2286, so that
-- the order of the names is that of the stamps. An operation of the file system fails as `Faults`
-- says; a write that fails leaves the file as it was, since the new text goes to a temporary file
-- that is renamed at the end.
pub mod Backups
use tethys.Prelude.{
  ℕ, ◌-◌, String, Bool, Option, none, some, List, [], ◌∷◌, ltb, nat_beq, if◌then◌else◌, length,
  drop, string_eq, unwrap_or, is_some,
}
use tethys.Prelude.Assoc.{Assoc, lookup, insert as put, remove}
use tethys.Sync.Error.{SyncError, SyncResult, ok, err}

pub record Disk : Type 0 where
  pub files : Assoc String String
  pub backups : Assoc String (List (ℕ × String))

-- The message of the error, where an operation on a path fails.
pub record Faults : Type 0 where
  pub read : String → Option String
  pub backup : String → Option String
  pub write : String → Option String
  pub remove : String → Option String

abbrev pub backup_retention : ℕ
backup_retention = 5

abbrev pub failing {ℓ} : {A : Type ℓ} → Option String → SyncResult A → SyncResult A
failing none result = result
failing (some message) result = err (SyncError.io message)

-- `read_text`, of projection.rs: an absent file is no error.
unfoldable pub read_text : Faults → Disk → String → SyncResult (Option String)
read_text faults disk path = elim (lookup path disk.files) [
  | none ↦ ok none
  | some text ↦ failing (faults.read path) (ok (some text))
]

unfoldable pub write_atomic : Faults → Disk → String → String → Disk × SyncResult (Unit {0})
write_atomic faults disk path contents = elim (faults.write path) [
  | some message ↦ (disk, err (SyncError.io message))
  | none ↦ (record disk { files = put path contents disk.files }, ok tt)
]

abbrev pub backups_of : Disk → String → List (ℕ × String)
backups_of disk path = unwrap_or [] (lookup path disk.backups)

-- The backups by stamp. A second one in the same millisecond replaces the first.
unfoldable pub add_backup : ℕ → String → List (ℕ × String) → List (ℕ × String)
add_backup stamp text [] = (stamp, text) ∷ []
add_backup stamp text ((t, old) ∷ rest) =
    let later = add_backup stamp text rest in
    if nat_beq stamp t
    then (stamp, text) ∷ rest
    else if ltb stamp t
    then (stamp, text) ∷ (t, old) ∷ rest
    else (t, old) ∷ later

-- `while backups.len() > BACKUP_RETENTION { backups.remove(0) }`
unfoldable pub prune_backups : List (ℕ × String) → List (ℕ × String)
prune_backups backups = drop (length backups - backup_retention) backups

unfoldable pub backup_file : Faults → Disk → ℕ → String → Disk × SyncResult (Unit {0})
backup_file faults disk now path = elim (lookup path disk.files) [
  | none ↦ (disk, ok tt)
  | some text ↦ elim (faults.backup path) [
    | some message ↦ (disk, err (SyncError.io message))
    | none ↦ (
      record disk {
        backups =
            put path (prune_backups (add_backup now text (backups_of disk path))) disk.backups;
      },
      ok tt,
    )
  ]
]

unfoldable pub last : List (ℕ × String) → Option String
last [] = none
last ((stamp, text) ∷ []) = some text
last (a ∷ b ∷ rest) = last (b ∷ rest)

unfoldable pub newest_backup : Disk → String → Option String
newest_backup disk path = last (backups_of disk path)

unfoldable pub remove_file : Faults → Disk → String → Disk × SyncResult (Unit {0})
remove_file faults disk path = elim (faults.remove path) [
  | some message ↦ (disk, err (SyncError.io message))
  | none ↦ (record disk { files = remove path disk.files }, ok tt)
]
