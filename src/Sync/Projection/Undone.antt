-- ===== src/Sync/Projection/Undone.antt =====
-- A projection that was applied is verified, and rolled back.
use tethys.Prelude.{
  ℕ, String, Bool, false, ◌≡◌, sym, ◌∙◌, Option, unwrap_or, ap, [], inl, inr, none, some, string_eq,
  if◌then◌else◌, arith, eq_iff, Bool-cases, Option-cases,
}
use tethys.Prelude.Assoc.{lookup, lookup-insert, lookup-remove}
use tethys.Schema.Sync.{RegistryEntry}
use tethys.Schema.Projection.{ProjectionPlan, Applied, VerifyStatus}
use tethys.Sync.Error.{ok, Result-cases, ok_inj, >>=-eq-ok}
use tethys.Sync.Files.{
  Disk, Faults, read_text, write_atomic, backup_file, newest_backup, remove_file, backups_of,
  prune_backups, add_backup,
}
use tethys.Sync.Files.Backups.{Before, last-prune_backups}
use tethys.Sync.Projectors.{Projector}
use tethys.Sync.Projection.{
  PlanRequest, plan as make_plan, project_all, finish, apply, verify, rollback, restore_backup,
}
use tethys.Sync.Projection.Applying.{apply-ok}
use tethys.Prelude.Text.{is_blank}

module _ (digest : String → String) (entry_digest : RegistryEntry → String) where
  pub finish-fields :
      (p : Projector) (plan : ProjectionPlan) (applied : Applied)
      → finish digest entry_digest p plan ≡ ok applied
      → (applied.path ≡ plan.path)
        × (applied.file_hash ≡ digest plan.content)
        × (applied.created ≡ plan.created)
  unfolding finish
  finish-fields p plan applied h = elim (Result-cases (p.read_entries plan.content)) [
    | inl (e, unread) ↦ absurd (ground (arith, h, unread))
    | inr (m, read) ↦ (ground (arith, h, read), ground (arith, h, read), ground (arith, h, read))
  ]

  -- A plan that goes on from a blank text creates the file.
  created-plan :
      (unified_diff : String → String → String) (request : PlanRequest) (pl : ProjectionPlan)
      → make_plan digest entry_digest unified_diff request ≡ ok pl
      → pl.created ≡ is_blank (unwrap_or "" request.original)
  unfolding make_plan
  created-plan unified_diff request pl h =
      let original = unwrap_or "" request.original in
      let (on_disk, _, h₁) =
        >>=-eq-ok (if is_blank original then ok [] else request.projector.read_entries original) _
          h in
      let (done, _, h₂) =
        >>=-eq-ok
          (project_all entry_digest request.projector request.owned on_disk original
            request.desired)
          _ h₁ in
      sym (ap (λ (q : ProjectionPlan). q.created) (ok_inj h₂))

  module _ (faults : Faults) (disk disk' : Disk) (now : ℕ) (p : Projector) (plan : ProjectionPlan)
      (applied : Applied)
      (done : apply digest entry_digest faults disk now p plan ≡ (disk', ok applied)) where
    read_back :
        faults.read plan.path ≡ none → read_text faults disk' plan.path ≡ ok (some plan.content)
    unfolding read_text
    read_back sound =
        let (fresh, free, files, fields, backups, backed) =
          apply-ok digest entry_digest faults disk disk' now p plan applied done in
        ground (
          arith,
          sound,
          files,
          lookup-insert plan.path plan.path plan.content disk.files,
          eq_iff plan.path plan.path,
        )

    -- Right after an `apply`, where the file can be read, it verifies as in sync.
    pub verify-apply :
        faults.read plan.path ≡ none
        → verify digest faults disk' plan.path applied ≡ ok VerifyStatus.in_sync
    unfolding verify
    verify-apply sound =
        let (fresh, free, files, fields, backups, backed) =
          apply-ok digest entry_digest faults disk disk' now p plan applied done in
        let (path, hash, created) = finish-fields p plan applied fields in
        ground (arith, read_back sound, hash, eq_iff (digest plan.content) (digest plan.content))

    newest-apply :
        (text : String)
        → lookup plan.path disk.files ≡ some text
        → Before now (backups_of disk plan.path)
        → newest_backup disk' plan.path ≡ some text
    unfolding backup_file newest_backup
    newest-apply text there earlier =
        let (fresh, free, files, fields, backups, backed) =
          apply-ok digest entry_digest faults disk disk' now p plan applied done in
        elim (Option-cases (faults.backup plan.path)) [
          | inl sound ↦ ground (
            arith,
            there,
            sound,
            backups,
            lookup-insert plan.path plan.path
                (prune_backups (add_backup now text (backups_of disk plan.path))) disk.backups,
            eq_iff plan.path plan.path,
            last-prune_backups now text (backups_of disk plan.path) earlier,
          )
          | inr (m, failed) ↦ absurd (ground (arith, there, failed, backed))
        ]

    rollback-restores :
        (force : Bool)
        → faults.read plan.path ≡ none
        → rollback digest faults disk' applied force ≡ restore_backup faults disk' applied
    unfolding rollback
    rollback-restores force sound =
        let (fresh, free, files, fields, backups, backed) =
          apply-ok digest entry_digest faults disk disk' now p plan applied done in
        let (path, hash, created) = finish-fields p plan applied fields in
        ground
          (arith, path, hash, read_back sound, eq_iff (digest plan.content) (digest plan.content))

    -- What stood there is put back, or the file goes.
    restores :
        (text : String) (force : Bool)
        → (plan.created ≡ false → lookup plan.path disk.files ≡ some text)
        → Before now (backups_of disk plan.path)
        → faults.read plan.path ≡ none
        → faults.write plan.path ≡ none
        → faults.remove plan.path ≡ none
        → let (disk'', result) = rollback digest faults disk' applied force in
          (result ≡ ok tt)
          × (lookup plan.path disk''.files ≡ (if plan.created then none else some text))
    unfolding restore_backup write_atomic remove_file
    restores text force there earlier reads writes removes =
        let (fresh, free, files, fields, backups, backed) =
          apply-ok digest entry_digest faults disk disk' now p plan applied done in
        let (path, hash, created) = finish-fields p plan applied fields in
        rw (rollback-restores force reads) (elim (Bool-cases plan.created) [
          | inl blank ↦ ground (
            arith,
            path,
            created,
            blank,
            removes,
            lookup-remove plan.path plan.path disk'.files,
            eq_iff plan.path plan.path,
          )
          | inr visible ↦ ground (
            arith,
            path,
            created,
            visible,
            writes,
            newest-apply text (there visible) earlier,
            lookup-insert plan.path plan.path text disk'.files,
            eq_iff plan.path plan.path,
          )
        ])

    -- The same, by what stood there.
    stood :
        (stands : Option String)
        → lookup plan.path disk.files ≡ stands
        → plan.created ≡ is_blank (unwrap_or "" stands)
        → (force : Bool) → Before now (backups_of disk plan.path)
        → faults.read plan.path ≡ none
        → faults.write plan.path ≡ none
        → faults.remove plan.path ≡ none
        → let (disk'', result) = rollback digest faults disk' applied force in
          (result ≡ ok tt)
          × (lookup plan.path disk''.files
              ≡ (if is_blank (unwrap_or "" stands) then none else stands))
    unfolding is_blank
    stood none there blank force earlier reads writes removes =
        let (well, back) =
          restores "" force (λ visible. absurd (cc (blank, visible))) earlier reads writes
            removes in
        (well, back ∙ ap (λ b. if b then none else some "") blank)
    stood (some text) there blank force earlier reads writes removes =
        let (well, back) = restores text force (λ _. there) earlier reads writes removes in
        (well, back ∙ ap (λ b. if b then none else some text) blank)

    -- Of a plan for the file as it stands, where no operation on the file fails and all its backups
    -- are earlier: a rollback of its `apply` leaves no file where there was none or
    -- a blank one, and else puts back the text that stood there.
    pub rollback-apply :
        (unified_diff : String → String → String) (request : PlanRequest) (force : Bool)
        → make_plan digest entry_digest unified_diff request ≡ ok plan
        → lookup plan.path disk.files ≡ request.original
        → Before now (backups_of disk plan.path)
        → faults.read plan.path ≡ none
        → faults.write plan.path ≡ none
        → faults.remove plan.path ≡ none
        → let (disk'', result) = rollback digest faults disk' applied force in
          (result ≡ ok tt)
          × (lookup plan.path disk''.files
              ≡ (if is_blank (unwrap_or "" request.original) then none else request.original))
    rollback-apply unified_diff request force planned there earlier reads writes removes =
        stood request.original there (created-plan unified_diff request plan planned) force earlier
          reads writes removes
