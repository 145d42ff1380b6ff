-- ===== src/Sync/Projection/Applying.antt =====
-- What `apply` does to the file, and what `rollback` undoes of it.
use tethys.Prelude.{
  ℕ, String, ◌≡◌, ◌≢◌, ◌⊎◌, inl, inr, Option, [], string_eq, ◌==◌, unwrap_or, arith, eq_iff, ap,
  sym, ◌∙◌, Bool-cases, Option-cases, List-cases,
}
use tethys.Prelude.Assoc.{lookup, insert as put}
use tethys.Schema.Sync.{RegistryEntry}
use tethys.Schema.Projection.{ProjectionPlan, Applied}
use tethys.Sync.Error.{SyncError, SyncResult, ok, err, Result-cases}
use tethys.Sync.Files.{Disk, Faults, read_text, write_atomic, backup_file}
use tethys.Sync.Projectors.{Projector}
use tethys.Sync.Projection.{conflicts, finish, write_plan, apply}

module _ (digest : String → String) (entry_digest : RegistryEntry → String) where
  backup_file-files :
      (faults : Faults) (disk : Disk) (now : ℕ) (path : String)
      → (backup_file faults disk now path).0.files ≡ disk.files
  unfolding backup_file
  backup_file-files faults disk now path = ground arith

  write_plan-cases :
      (faults : Faults) (disk : Disk) (now : ℕ) (p : Projector) (plan : ProjectionPlan)
      → let (disk', result) = write_plan digest entry_digest faults disk now p plan in
        ((disk'.files ≡ disk.files) × ((a : Applied) → result ≢ ok a))
        ⊎ ((disk'.files ≡ put plan.path plan.content disk.files)
            × (result ≡ finish digest entry_digest p plan)
            × (disk'.backups ≡ (backup_file faults disk now plan.path).0.backups)
            × ((backup_file faults disk now plan.path).1 ≡ ok tt))
  unfolding write_plan write_atomic
  write_plan-cases faults disk now p plan =
      elim (Result-cases (backup_file faults disk now plan.path).1) [
        | inl (e, failed) ↦ inl (ground (arith, failed, kept), λ a. ground (arith, failed))
        | inr (done, backed) ↦ elim (Option-cases (faults.write plan.path)) [
          | inl sound ↦ inr (
            ground (arith, backed, sound, kept),
            ground (arith, backed, sound),
            ground (arith, backed, sound),
            backed,
          )
          | inr (m, failed) ↦
              inl (ground (arith, backed, failed, kept), λ a. ground (arith, backed, failed))
        ]
      ]
    where
      kept : (backup_file faults disk now plan.path).0.files ≡ disk.files
      kept = backup_file-files faults disk now plan.path

  read_text-found :
      (faults : Faults) (disk : Disk) (path : String) (current : Option String)
      → read_text faults disk path ≡ ok current
      → current ≡ lookup path disk.files
  unfolding read_text
  read_text-found faults disk path current h = elim (Option-cases (lookup path disk.files)) [
    | inl gone ↦ ground (arith, gone, h)
    | inr (text, there) ↦ ground (arith, there, h)
  ]

  -- An `apply` refuses and leaves the disk alone, or it writes the plan.
  apply-cases :
      (faults : Faults) (disk : Disk) (now : ℕ) (p : Projector) (plan : ProjectionPlan)
      → let r = apply digest entry_digest faults disk now p plan in
        ((r.0 ≡ disk) × ((a : Applied) → r.1 ≢ ok a))
        ⊎ ((digest (unwrap_or "" (lookup plan.path disk.files)) ≡ plan.base_hash)
            × (conflicts plan.entries ≡ [])
            × (r ≡ write_plan digest entry_digest faults disk now p plan))
  unfolding apply
  apply-cases faults disk now p plan = elim (Result-cases (read_text faults disk plan.path)) [
    | inl (e, failed) ↦ inl (ground (arith, failed), λ a. ground (arith, failed))
    | inr (current, found) ↦ elim (Bool-cases (digest (unwrap_or "" current) == plan.base_hash)) [
      | inr stale ↦ inl (ground (arith, found, stale), λ a. ground (arith, found, stale))
      | inl fresh ↦ elim (List-cases (conflicts plan.entries)) [
        | inr (n, ns, some_left) ↦
            inl (
              ground (arith, found, fresh, some_left),
              λ a. ground (arith, found, fresh, some_left),
            )
        | inl none_left ↦ inr (
          rw (← read_text-found faults disk plan.path current found)
              ((eq_iff (digest (unwrap_or "" current)) plan.base_hash).0 fresh),
          none_left,
          ground (arith, found, fresh, none_left),
        )
      ]
    ]
  ]

  -- Whatever fails, an `apply` that returns an error leaves the files as they are, or it wrote a text
  -- that the projector does not read.
  pub apply-err :
      (faults : Faults) (disk disk' : Disk) (now : ℕ) (p : Projector) (plan : ProjectionPlan)
      (e : SyncError)
      → apply digest entry_digest faults disk now p plan ≡ (disk', err e)
      → (disk'.files ≡ disk.files) ⊎ (p.read_entries plan.content ≡ err e)
  unfolding finish
  apply-err faults disk disk' now p plan e h = elim (apply-cases faults disk now p plan) [
    | inl (same, refused) ↦ inl (ground (arith, h, same))
    | inr (fresh, free, wrote) ↦ elim (write_plan-cases faults disk now p plan) [
      | inl (same, failed) ↦ inl (ground (arith, h, wrote, same))
      | inr (files, result, backups, backed) ↦ elim (Result-cases (p.read_entries plan.content)) [
        | inl (e', unread) ↦ inr (ground (arith, h, wrote, result, unread))
        | inr (m, read) ↦ absurd (ground (arith, h, wrote, result, read))
      ]
    ]
  ]

  -- A successful `apply` found the text that the plan was made of and no conflict, and wrote the plan.
  pub apply-ok :
      (faults : Faults) (disk disk' : Disk) (now : ℕ) (p : Projector) (plan : ProjectionPlan)
      (applied : Applied)
      → apply digest entry_digest faults disk now p plan ≡ (disk', ok applied)
      → (digest (unwrap_or "" (lookup plan.path disk.files)) ≡ plan.base_hash)
        × (conflicts plan.entries ≡ [])
        × (disk'.files ≡ put plan.path plan.content disk.files)
        × (finish digest entry_digest p plan ≡ ok applied)
        × (disk'.backups ≡ (backup_file faults disk now plan.path).0.backups)
        × ((backup_file faults disk now plan.path).1 ≡ ok tt)
  apply-ok faults disk disk' now p plan applied h = elim (apply-cases faults disk now p plan) [
    | inl (same, refused) ↦ absurd (refused applied (ap (λ (r : Disk × SyncResult Applied). r.1) h))
    | inr (fresh, free, wrote) ↦ elim (write_plan-cases faults disk now p plan) [
      | inl (same, failed) ↦
          absurd (failed applied (ap (λ (r : Disk × SyncResult Applied). r.1) (sym wrote ∙ h)))
      | inr (files, result, backups, backed) ↦ (
        fresh,
        free,
        ground (arith, h, wrote, files),
        ground (arith, h, wrote, result),
        ground (arith, h, wrote, backups),
        backed,
      )
    ]
  ]
