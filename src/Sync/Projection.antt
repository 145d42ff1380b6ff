-- ===== src/Sync/Projection.antt =====
-- crates/tethys-sync/src/projection.rs: plan, apply, verify and roll back over one target file.
-- `digest` and `entry_digest` are the hashes of a text and of an entry, `unified_diff` is the diff
-- that is shown.
pub mod Planned
pub mod Spared
pub mod Applying
pub mod Undone
pub mod Replanned
pub mod Twice
mod Examples
use tethys.Prelude.{
  ℕ, String, push_str, Bool, true, false, not, ◌&&◌, Option, none, some, List, [], ◌∷◌, ◌++◌,
  string_eq, ◌==◌, if◌then◌else◌, is_some, unwrap_or,
}
use tethys.Prelude.Assoc.{Assoc, lookup}
use tethys.Prelude.Text.{is_blank, join}
use tethys.Schema.Sync.{Scope, TargetId, TransportKind, RegistryValue, RegistryEntry, secret_ref}
use tethys.Schema.Meta.{target_eq}
use tethys.Schema.Projection.{EntryState, EntryProjection, ProjectionPlan, Applied, VerifyStatus}
use tethys.Sync.Error.{SyncError, SyncResult, ok, err, ◌>>=◌}
use tethys.Sync.Files.{
  Disk, Faults, read_text, write_atomic, backup_file, newest_backup, remove_file,
}
use tethys.Sync.Projectors.{Projector}

pub record PlanRequest : Type 0 where
  pub projector : Projector
  pub path : String
  pub scope : Scope
  pub original : Option String
  pub desired : List (String × RegistryEntry)
  pub owned : Assoc String String

abbrev pub is_conflict : EntryState → Bool
is_conflict EntryState.conflict = true
is_conflict _ = false

abbrev pub is_in_sync : EntryState → Bool
is_in_sync EntryState.in_sync = true
is_in_sync _ = false

abbrev pub is_sse : TransportKind → Bool
is_sse TransportKind.sse = true
is_sse _ = false

abbrev pub is_stdio : TransportKind → Bool
is_stdio TransportKind.stdio = true
is_stdio _ = false

unfoldable pub has_secret : Assoc String RegistryValue → Bool
has_secret [] = false
has_secret ((key, value) ∷ env) = if is_some (secret_ref value) then true else has_secret env

-- Codex takes no secrets in the environment of a process.
unfoldable pub omits_secrets : TargetId → RegistryEntry → Bool
unfolding has_secret
omits_secrets target entry =
    target == TargetId.codex && is_stdio entry.transport && has_secret entry.env

abbrev pub sse_projection : String → EntryProjection
sse_projection name = record {
  name = name;
  state = EntryState.unsupported;
  projected = false;
  notes = "sse transport is import-only" ∷ [];
}

-- Whether the entry of a row is written into the text.
abbrev pub injects : EntryProjection → Bool
injects row = row.projected && not (is_in_sync row.state)

unfoldable pub conflicts : List EntryProjection → List String
conflicts [] = []
conflicts (row ∷ rows) =
    let rest = conflicts rows in if is_conflict row.state then row.name ∷ rest else rest

-- What stood before the projection is put back.
unfoldable pub restore_backup : Faults → Disk → Applied → Disk × SyncResult (Unit {0})
restore_backup faults disk applied =
    if applied.created
    then remove_file faults disk applied.path
    else elim (newest_backup disk applied.path) [
      | none ↦ (disk, err (SyncError.not_found (push_str "backup for " applied.path)))
      | some contents ↦ write_atomic faults disk applied.path contents
    ]

module _ (entry_digest : RegistryEntry → String) where
  -- By the hash that was last written of a name, and the entry that the file holds.
  unfoldable pub match_state :
      Option String → Option RegistryEntry → RegistryEntry → EntryState × List String
  match_state (some hash) (some current) entry =
      if not (entry_digest current == hash)
      then (EntryState.conflict, "entry changed outside Tethys" ∷ [])
      else if entry_digest entry == hash
      then (EntryState.in_sync, [])
      else (EntryState.pending, [])
  match_state (some hash) none entry = (EntryState.pending, [])
  match_state none (some current) entry =
      (EntryState.conflict, "foreign entry with the same name" ∷ [])
  match_state none none entry = (EntryState.pending, [])

  unfoldable pub state_of :
      TargetId → Option String → Option RegistryEntry → RegistryEntry → EntryState × List String
  unfolding match_state omits_secrets
  state_of target hash current entry =
      let (state, notes) = match_state hash current entry in
      if omits_secrets target entry
      then (EntryState.unsupported, notes ++ "secret env values are omitted for codex stdio" ∷ [])
      else (state, notes)

  -- The row of an entry.
  unfoldable pub project :
      TargetId
      → Assoc String String
      → Assoc String RegistryEntry
      → String
      → RegistryEntry
      → EntryProjection
  unfolding state_of
  project target owned on_disk name entry =
      let (state, notes) = state_of target (lookup name owned) (lookup name on_disk) entry in
      if is_sse entry.transport
      then sse_projection name
      else record { name = name; state = state; projected = not (is_conflict state); notes = notes }

  -- The loop over the desired entries, with the text so far.
  unfoldable pub project_all :
      Projector
      → Assoc String String
      → Assoc String RegistryEntry
      → String
      → List (String × RegistryEntry)
      → SyncResult (String × List EntryProjection)
  project_all p owned on_disk content [] = ok (content, [])
  project_all p owned on_disk content ((name, entry) ∷ desired) =
      let row = project p.target owned on_disk name entry in
      let injected = if injects row then p.inject content name entry else ok content in
      injected >>= λ content'.
      project_all p owned on_disk content' desired >>= λ rest. ok (rest.0, row ∷ rest.1)

  -- The hashes of the entries that are in the file, as it reads.
  unfoldable pub written_hashes :
      List EntryProjection → Assoc String RegistryEntry → Assoc String String
  written_hashes [] read_back = []
  written_hashes (row ∷ rows) read_back =
      let rest = written_hashes rows read_back in
      if row.projected
      then elim (lookup row.name read_back) [
        | none ↦ rest
        | some e ↦ (row.name, entry_digest e) ∷ rest
      ]
      else rest

module _ (digest : String → String) where
  unfoldable pub verify : Faults → Disk → String → Applied → SyncResult VerifyStatus
  verify faults disk path applied = read_text faults disk path >>= λ found. elim found [
    | none ↦ ok VerifyStatus.missing
    | some text ↦
        ok (if digest text == applied.file_hash then VerifyStatus.in_sync else VerifyStatus.drifted)
  ]

  unfoldable pub rollback : Faults → Disk → Applied → Bool → Disk × SyncResult (Unit {0})
  rollback faults disk applied force = elim (read_text faults disk applied.path) [
    | err e ↦ (disk, err e)
    | ok none ↦ (disk, err (SyncError.not_found applied.path))
    | ok (some current) ↦
        if not (digest current == applied.file_hash) && not force
        then (disk, err (SyncError.conflict "file changed after the projection was applied"))
        else restore_backup faults disk applied
  ]

module _ (digest : String → String) (entry_digest : RegistryEntry → String) where
  unfoldable pub plan : (String → String → String) → PlanRequest → SyncResult ProjectionPlan
  unfolding is_blank
  plan unified_diff request =
      let original = unwrap_or "" request.original in
      let on_disk = if is_blank original then ok [] else request.projector.read_entries original in
      on_disk >>= λ entries.
      project_all entry_digest request.projector request.owned entries original request.desired
      >>= λ done. ok (record {
        target = request.projector.target;
        path = request.path;
        scope = request.scope;
        base_hash = digest original;
        created = is_blank original;
        diff = unified_diff original done.0;
        content = done.0;
        entries = done.1;
        providers = [];
      })

  -- What `apply` returns once the file is written.
  unfoldable pub finish : Projector → ProjectionPlan → SyncResult Applied
  unfolding written_hashes
  finish p plan = p.read_entries plan.content >>= λ read_back. ok (record {
    target = plan.target;
    path = plan.path;
    scope = plan.scope;
    file_hash = digest plan.content;
    created = plan.created;
    entries = written_hashes entry_digest plan.entries read_back;
  })

  -- The backup, the write, and the reading back.
  unfoldable pub write_plan :
      Faults → Disk → ℕ → Projector → ProjectionPlan → Disk × SyncResult Applied
  write_plan faults disk now p plan =
      let (disk₁, backed) = backup_file faults disk now plan.path in
      let (disk₂, done) = write_atomic faults disk₁ plan.path plan.content in
      elim backed [
        | err e ↦ (disk₁, err e)
        | ok _ ↦ elim done [ err e ↦ (disk₂, err e) | ok _ ↦ (disk₂, finish p plan) ]
      ]

  unfoldable pub apply : Faults → Disk → ℕ → Projector → ProjectionPlan → Disk × SyncResult Applied
  apply faults disk now p plan = elim (read_text faults disk plan.path) [
    | err e ↦ (disk, err e)
    | ok current ↦
        if not (digest (unwrap_or "" current) == plan.base_hash)
        then (disk, err (SyncError.stale_plan plan.path))
        else elim (conflicts plan.entries) [
          | [] ↦ write_plan faults disk now p plan
          | name ∷ names ↦ (
            disk,
            err (
                SyncError.conflict
                  (push_str "entries changed outside Tethys: " (join ", " (name ∷ names)))),
          )
        ]
  ]
