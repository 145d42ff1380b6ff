-- ===== src/Sync/Skills/Updates.antt =====
-- The updates of skills.rs. What git answers of a remote, what is downloaded, and the directory that
-- takes the place of the installed one (`stage_tarball`, `find_skill_root` and `swap_into_place`, of
-- skill_import.rs) are arguments; the last is how the files are found after the swap.
use tethys.Prelude.{
  ℕ, String, push_str, Bool, false, not, Option, none, some, List, string_eq, ◌==◌, unwrap_or,
}
use tethys.Prelude.Assoc.{first_some}
use tethys.Schema.Sync.{Scope}
use tethys.Schema.Skills.{SkillSource, SkillInfo, SkillUpdateCheck, SkillUpdateApplied}
use tethys.Sync.Error.{SyncError, SyncResult, ok, err, ◌>>=◌}
use tethys.Sync.Trust.{SkillFacts}
use tethys.Sync.Skills.{Rows, Env, SkillHome, load_required, record_skill}

unfoldable pub github_url : String → String
github_url repo = push_str "https://github.com/" (push_str repo ".git")

abbrev pub map_some {ℓ κ} : {A : Type ℓ} {B : Type κ} → (A → B) → Option A → Option B
map_some f none = none
map_some f (some a) = some (f a)

unfoldable pub remote_url : SkillInfo → Option String
unfolding github_url
remote_url info = first_some info.source.url (map_some github_url info.source.repo)

unfoldable pub codeload_url : String → String → String
codeload_url repo sha =
    push_str "https://codeload.github.com/" (push_str repo (push_str "/tar.gz/" sha))

abbrev pub same_sha : Option String → String → Bool
same_sha none sha = false
same_sha (some pinned) sha = pinned == sha

module _ (source_text : SkillSource → String) (source_of : String → Option SkillSource)
    (resolve_remote : String → Option String → SyncResult String) where
  -- `show` is the message of an error.
  unfoldable pub update_check :
      (SyncError → String)
      → Env
      → Rows
      → SkillHome
      → Scope
      → String
      → Rows × SyncResult SkillUpdateCheck
  unfolding load_required remote_url
  update_check show env rows home scope name =
      let (rows', loaded) = load_required source_text source_of env rows home scope name in
      elim loaded [
        | err e ↦ (rows', err e)
        | ok info ↦
            let unknown : String → SkillUpdateCheck = λ message. record {
              name = info.name;
              pinned_sha = info.pinned_sha;
              upstream_sha = none;
              update_available = false;
              error = some message;
            } in
            (
              rows',
              elim (remote_url info) [
                | none ↦ ok (unknown "skill has no upstream repository")
                | some remote ↦ elim (resolve_remote remote info.source.reference) [
                  | err e ↦ ok (unknown (show e))
                  | ok sha ↦ ok (record {
                    name = info.name;
                    pinned_sha = info.pinned_sha;
                    upstream_sha = some sha;
                    update_available = not (same_sha info.pinned_sha sha);
                    error = none;
                  })
                ]
              ],
            )
      ]

  module _ (download : String → SyncResult (List ℕ))
      (install : List ℕ → Option String → String → SyncResult Env) where
    -- The digest of the commit that is installed, and the files after the swap.
    unfoldable pub fetch : SkillInfo → SyncResult (String × Env)
    unfolding remote_url github_url codeload_url
    fetch info = elim info.source.repo [
      | none ↦ err (SyncError.registry "skill has no upstream repository")
      | some repo ↦ do
        sha ← resolve_remote (unwrap_or (github_url repo) (remote_url info)) info.source.reference
        bytes ← download (codeload_url repo sha)
        after ← install bytes info.source.subdir info.path
        ok (sha, after)
    ]

    abbrev pub updated : SkillInfo → String → SkillFacts → SkillInfo
    updated info sha facts = record info {
      content_hash = facts.content_hash;
      requires_trust = facts.requires_trust;
      trusted = false;
      pinned_sha = some sha;
    }

    -- The new facts are recorded.
    unfoldable pub record_update :
        Env → Rows → SkillInfo → String → SkillFacts → Rows × SyncResult SkillUpdateApplied
    unfolding record_skill
    record_update after rows info sha facts =
        let (rows', done) = record_skill source_text after rows (updated info sha facts) in
        (
          rows',
          done >>= λ _.
              ok (record { name = info.name; pinned_sha = sha; content_hash = facts.content_hash }),
        )

    unfoldable pub update_apply :
        Env → Rows → SkillHome → Scope → String → Rows × SyncResult SkillUpdateApplied
    unfolding load_required fetch record_update
    update_apply env rows home scope name =
        let (rows', loaded) = load_required source_text source_of env rows home scope name in
        elim loaded [
          | err e ↦ (rows', err e)
          | ok info ↦ elim (fetch info) [
            | err e ↦ (rows', err e)
            | ok (sha, after) ↦ elim (after.inspect info.path) [
              | err e ↦ (rows', err e)
              | ok facts ↦ record_update after rows' info sha facts
            ]
          ]
        ]
