-- ===== src/Sync/SkillImport/Archives.antt =====
-- crates/tethys-sync/src/skill_import.rs: the extraction of archives. What the readers of zip and tar
-- archives find is an argument, and so is what comes of writing an entry to the disk.
use tethys.Prelude.{
  ℕ, ◌+◌, ◌*◌, ◌/◌, ◌%◌, ◌^◌, String, push_str, Bool, true, false, ◌||◌, Option, none, some, List,
  [], ◌∷◌, ltb, nat_eq, ◌==◌, if◌then◌else◌, length,
}
use tethys.Prelude.Text.{digits}
use tethys.Sync.Error.{SyncError, SyncResult, Result, ok, err}

abbrev pub max_archive_entries : ℕ
max_archive_entries = 5000

abbrev pub max_archive_bytes : ℕ
max_archive_bytes = 100 * 1024 * 1024

pub data Component : Type 0 where
  prefix root_dir cur_dir parent_dir : Component
  normal : String → Component

abbrev pub leaves : Component → Bool
leaves Component.prefix = true
leaves Component.parent_dir = true
leaves _ = false

abbrev pub any_leaves : List Component → Bool
any_leaves [] = false
any_leaves (c ∷ cs) = leaves c || any_leaves cs

pub record EntryPath : Type 0 where
  pub display : String
  pub has_root : Bool
  pub components : List Component

pub data EntryType : Type 0 where
  file dir other : EntryType

abbrev pub is_link : EntryType → Bool
is_link EntryType.other = true
is_link _ = false

pub record TarEntry : Type 0 where
  pub entry_type : EntryType
  pub path : Result String EntryPath
  pub size : Result String ℕ

abbrev pub refuse {ℓ} : {A : Type ℓ} → String → SyncResult A
refuse message = err (SyncError.unsafe_archive message)

abbrev pub escapes : EntryPath → Bool
escapes path = path.has_root || any_leaves path.components

-- The turn of the loop up to the unpacking: the count and the total, which are a `usize` and a `u64`,
-- or why the archive is refused.
unfoldable pub check_entry : ℕ → ℕ → TarEntry → SyncResult (ℕ × ℕ)
check_entry count total entry =
    if is_link entry.entry_type then refuse "archive contains a link" else elim entry.path [
      | err error ↦ refuse error
      | ok path ↦
          if escapes path then refuse (push_str "unsafe path " path.display) else elim entry.size [
            | err error ↦ refuse error
            | ok size ↦
                let count' = (count + 1) % 2 ^ 64 in
                let total' = (total + size) % 2 ^ 64 in
                if ltb max_archive_entries count' || ltb max_archive_bytes total'
                then refuse "archive exceeds entry or size cap"
                else ok (count', total')
          ]
    ]

-- The entries that are unpacked, in order, and how the loop ends.
unfoldable pub unpack_all :
    (TarEntry → Option String)
    → ℕ
    → ℕ
    → List (Result String TarEntry)
    → List TarEntry × SyncResult (Unit {0})
unfolding check_entry
unpack_all unpack_in count total [] = ([], ok tt)
unpack_all unpack_in count total (err error ∷ rest) = ([], refuse error)
unpack_all unpack_in count total (ok entry ∷ rest) = elim (check_entry count total entry) [
  | err error ↦ ([], err error)
  | ok (count', total') ↦
      let (later, end) = unpack_all unpack_in count' total' rest in
      elim (unpack_in entry) [ some error ↦ ([], refuse error) | none ↦ (entry ∷ later, end) ]
]

unfoldable pub extract_tar :
    (TarEntry → Option String)
    → Result String (List (Result String TarEntry))
    → List TarEntry × SyncResult (Unit {0})
unfolding unpack_all
extract_tar unpack_in (err error) = ([], refuse error)
extract_tar unpack_in (ok entries) = unpack_all unpack_in 0 0 entries

pub record ZipEntry : Type 0 where
  pub name : String
  pub enclosed_name : Option String
  pub is_dir : Bool
  pub unix_mode : Option ℕ
  pub size : ℕ

-- `mode & 0o170000 == 0o120000`
abbrev pub is_symlink : Option ℕ → Bool
is_symlink none = false
is_symlink (some mode) = mode / 4096 % 16 == 10

-- The turn of the loop up to the writing: where to, and the total, a `u64`.
unfoldable pub check_zip_entry : ℕ → ZipEntry → SyncResult (String × ℕ)
check_zip_entry total entry = elim entry.enclosed_name [
  | none ↦ refuse (push_str "unsafe path " entry.name)
  | some relative ↦
      let total' = (total + entry.size) % 2 ^ 64 in
      if entry.is_dir
      then ok (relative, total)
      else if is_symlink entry.unix_mode
      then refuse (push_str "symlink " relative)
      else if ltb max_archive_bytes total'
      then refuse "extracted size exceeds 104857600 bytes"
      else ok (relative, total')
]

unfoldable pub write_all :
    (String → ZipEntry → Option SyncError)
    → ℕ
    → List (Result String ZipEntry)
    → List ZipEntry × SyncResult (Unit {0})
unfolding check_zip_entry
write_all write total [] = ([], ok tt)
write_all write total (err error ∷ rest) = ([], refuse error)
write_all write total (ok entry ∷ rest) = elim (check_zip_entry total entry) [
  | err error ↦ ([], err error)
  | ok (relative, total') ↦
      let (later, end) = write_all write total' rest in
      elim (write relative entry) [ some error ↦ ([], err error) | none ↦ (entry ∷ later, end) ]
]

-- The number of entries has 20 digits at most.
unfoldable pub extract_zip :
    (String → ZipEntry → Option SyncError)
    → Result String (List (Result String ZipEntry))
    → List ZipEntry × SyncResult (Unit {0})
unfolding write_all digits
extract_zip write (err error) = ([], refuse error)
extract_zip write (ok entries) =
    if ltb max_archive_entries (length entries)
    then ([], refuse (push_str (digits 20 (length entries)) " entries exceeds the 5000 cap"))
    else write_all write 0 entries
