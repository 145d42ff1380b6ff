-- ===== src/Sync/Skills/World.antt =====
-- The operations on the library as steps, with the log of what was trusted.
use tethys.Prelude.{
  ℕ, String, Bool, false, ◌≡◌, refl, ◌⊎◌, inl, inr, Option, none, List, [], ◌∷◌, arith,
  Option-cases,
}
use tethys.Prelude.Assoc.{Assoc}
use tethys.Schema.Sync.{Scope}
use tethys.Schema.Skills.{SkillSource, SkillInfo}
use tethys.Sync.Error.{SyncError, SyncResult, ok, err, Result-cases}
use tethys.Sync.SkillImport.{validate_name}
use tethys.Sync.SkillImport.Installing.{Staged, skill_name, installed, install_as, install}
use tethys.Sync.Skills.{
  Rows, Env, SkillHome, skill_id, skills_dir, skill_dir, recording, record_skill, load_or_record,
  load_required, change, trust, set_enabled, list_scope, list_dir, list,
}
use tethys.Sync.Skills.Updates.{fetch, updated, record_update, update_apply}
use tethys.Sync.Skills.Rows.{Log, AllRows}
use tethys.Sync.Skills.Loading.{load_or_record-IsSound}

-- What a successful `trust` adds to the log.
abbrev pub trusted_log : SyncResult SkillInfo → Log → Log
trusted_log (err e) log = log
trusted_log (ok info) log = (skill_id info.scope info.name, info.content_hash) ∷ log

module _ (source_text : SkillSource → String) (source_of : String → Option SkillSource) where
  -- The operations, with the files as each finds them.
  pub data Step : Rows × Log → Rows × Log → Type 0 where
    loading :
        (env : Env) (home : SkillHome) (scope : Scope) (name : String) (rows : Rows) (log : Log)
        → Step (rows, log) ((load_or_record source_text source_of env rows home scope name).0, log)
    listing :
        (env : Env) (home : SkillHome) (rows : Rows) (log : Log)
        → Step (rows, log) ((list source_text source_of env rows home).0, log)
    trusting :
        (env : Env) (home : SkillHome) (scope : Scope) (name : String) (rows : Rows) (log : Log)
        → Step
            (rows, log)
            (
              (trust source_text source_of env rows home scope name).0,
              trusted_log (trust source_text source_of env rows home scope name).1 log,
            )
    enabling :
        (enabled : Bool) (env : Env) (home : SkillHome) (scope : Scope) (name : String)
        (rows : Rows) (log : Log)
        → Step
            (rows, log)
            ((set_enabled source_text source_of enabled env rows home scope name).0, log)
    updating :
        (resolve : String → Option String → SyncResult String)
        (download : String → SyncResult (List ℕ))
        (install : List ℕ → Option String → String → SyncResult Env) (env : Env) (home : SkillHome)
        (scope : Scope) (name : String) (rows : Rows) (log : Log)
        → Step
            (rows, log)
            (
              (update_apply source_text source_of resolve download install env rows home scope
                  name).0,
              log,
            )
    installing :
        (env : Env) (home : SkillHome) (scope : Scope) (staged : Staged)
        (explicit_name : Option String) (source : SkillSource) (pinned_sha : Option String)
        (rows : Rows) (log : Log)
        → Step
            (rows, log)
            (
              (install source_text env rows home scope staged explicit_name source pinned_sha).0,
              log,
            )

  pub data Reach : Rows × Log → Type 0 where
    start : Reach ([], [])
    step : {a b : Rows × Log} → Reach a → Step a b → Reach b

  -- A change fails and leaves what was loaded, or it loads a skill and records it changed.
  pub change-cases :
      (f : SkillInfo → SkillInfo) (env : Env) (rows : Rows) (home : SkillHome) (scope : Scope)
      (name : String)
      → let loaded = load_required source_text source_of env rows home scope name in
        let changed = change source_text source_of f env rows home scope name in
        ((e : SyncError) × (changed ≡ (loaded.0, err e)))
        ⊎ ((info : SkillInfo) × (loaded.1 ≡ ok info)
            × (env.write_fails ≡ none)
            × (changed ≡ ((record_skill source_text env loaded.0 (f info)).0, ok (f info))))
  unfolding change recording record_skill
  change-cases f env rows home scope name =
      let loaded = load_required source_text source_of env rows home scope name in
      elim (Result-cases loaded.1) [
        | inl (e, failed) ↦ inl (e, ground (arith, failed))
        | inr (info, found) ↦ elim (Option-cases env.write_fails) [
          | inr (message, fails) ↦ inl (SyncError.store message, ground (arith, found, fails))
          | inl works ↦ inr (info, found, works, ground (arith, found, works))
        ]
      ]

  pub update_apply-cases :
      (resolve : String → Option String → SyncResult String)
      (download : String → SyncResult (List ℕ))
      (install : List ℕ → Option String → String → SyncResult Env) (env : Env) (rows : Rows)
      (home : SkillHome) (scope : Scope) (name : String)
      → let loaded = load_required source_text source_of env rows home scope name in
        let rows' =
          (update_apply source_text source_of resolve download install env rows home scope
            name).0 in
        (rows' ≡ loaded.0)
        ⊎ ((info : SkillInfo) × (new : SkillInfo) × (after : Env) × (loaded.1 ≡ ok info)
            × (rows' ≡ (record_skill source_text after loaded.0 new).0)
            × (new.scope ≡ info.scope)
            × (new.name ≡ info.name)
            × (new.trusted ≡ false))
  unfolding update_apply record_update
  update_apply-cases resolve download install env rows home scope name =
      let loaded = load_required source_text source_of env rows home scope name in
      elim (Result-cases loaded.1) [
        | inl (e, failed) ↦ inl (ground (arith, failed))
        | inr (info, found) ↦
            elim (Result-cases (fetch source_text source_of resolve download install info)) [
              | inl (e, failed) ↦ inl (ground (arith, found, failed))
              | inr ((sha, after), fetched) ↦ elim (Result-cases (after.inspect info.path)) [
                | inl (e, failed) ↦ inl (ground (arith, found, fetched, failed))
                | inr (facts, inspected) ↦ inr (
                  info,
                  updated source_text source_of resolve download install info sha facts,
                  after,
                  found,
                  ground (arith, found, fetched, inspected),
                  refl,
                  refl,
                  refl,
                )
              ]
            ]
      ]

  -- An installation records nothing, or a skill that is not trusted.
  pub install-cases :
      (env : Env) (rows : Rows) (home : SkillHome) (scope : Scope) (staged : Staged)
      (explicit_name : Option String) (source : SkillSource) (pinned_sha : Option String)
      → let rows' =
          (install source_text env rows home scope staged explicit_name source pinned_sha).0 in
        (rows' ≡ rows)
        ⊎ ((info : SkillInfo) × (rows' ≡ (record_skill source_text env rows info).0)
            × (info.trusted ≡ false))
  unfolding install install_as recording
  install-cases env rows home scope staged explicit_name source pinned_sha =
      elim (Result-cases staged.skill_root) [
        | inl (e, failed) ↦ inl (ground (arith, failed))
        | inr (root, rooted) ↦ elim (Option-cases (skill_name staged explicit_name root)) [
          | inl nameless ↦ inl (ground (arith, rooted, nameless))
          | inr (name, named) ↦
              let destination = skill_dir home scope name in
              elim (Result-cases (validate_name name)) [
                | inl (e, failed) ↦ inl (ground (arith, rooted, named, failed))
                | inr (_, valid) ↦ elim (Result-cases (staged.swap destination root)) [
                  | inl (e, failed) ↦ inl (ground (arith, rooted, named, valid, failed))
                  | inr (_, swapped) ↦ elim (Result-cases (env.inspect destination)) [
                    | inl (e, failed) ↦ inl (ground (arith, rooted, named, valid, swapped, failed))
                    | inr (facts, inspected) ↦ inr (
                      installed scope name destination source pinned_sha facts,
                      ground (arith, rooted, named, valid, swapped, inspected),
                      refl,
                    )
                  ]
                ]
              ]
        ]
      ]

  list_scope-AllRows :
      (log : Log) (env : Env) (home : SkillHome) (scope : Scope) (names : List String) (rows : Rows)
      (by_name : Assoc String SkillInfo)
      → AllRows log rows
      → AllRows log (list_scope source_text source_of env home scope names rows by_name).0
  unfolding list_scope
  list_scope-AllRows log env home scope [] rows by_name all = all
  list_scope-AllRows log env home scope (name ∷ names) rows by_name all =
      let sound = load_or_record-IsSound source_text source_of log env rows home scope name all in
      let loaded = load_or_record source_text source_of env rows home scope name in
      elim (Result-cases loaded.1) [
        | inl (e, failed) ↦ rw (failed, list_scope) sound.0
        | inr (info, found) ↦
            rw (found, list_scope) (list_scope-AllRows log env home scope names loaded.0 _ sound.0)
      ]

  list_dir-AllRows :
      (log : Log) (env : Env) (home : SkillHome) (scope : Scope) (rows : Rows)
      (by_name : Assoc String SkillInfo)
      → AllRows log rows
      → AllRows log (list_dir source_text source_of env home scope rows by_name).0
  list_dir-AllRows log env home scope rows by_name all =
      elim (Result-cases (env.discover (skills_dir home scope))) [
        | inl (e, failed) ↦ rw (failed, list_dir) all
        | inr (names, found) ↦
            rw (found, list_dir) (list_scope-AllRows log env home scope names rows by_name all)
      ]

  pub list-AllRows :
      (log : Log) (env : Env) (home : SkillHome) (rows : Rows)
      → AllRows log rows
      → AllRows log (list source_text source_of env rows home).0
  unfolding list
  list-AllRows log env home rows all =
      let first = list_dir source_text source_of env home Scope.workspace rows [] in
      let kept = list_dir-AllRows log env home Scope.workspace rows [] all in
      elim (Result-cases first.1) [
        | inl (e, failed) ↦ rw (failed, list) kept
        | inr (by_name, found) ↦
            rw (found, list) (list_dir-AllRows log env home Scope.global first.0 by_name kept)
      ]

  pub longer :
      (log : Log) (entry : String × String) (rows : Rows)
      → AllRows log rows
      → AllRows (entry ∷ log) rows
  longer log entry rows all id row h =
      let (kept, trusted) = all id row h in (kept, λ hash t. inr (trusted hash t))
