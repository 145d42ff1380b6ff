-- ===== src/Sync/Skills.antt =====
-- crates/tethys-sync/src/skills.rs: the library of skills, with the trust in their contents, over the
-- rows of tethys-store's sync_state.rs by skill id. The texts of JSON stand for what they decode to:
-- `source_text` and `source_of` are serde_json's functions on a skill's source. The files change
-- between operations, and each operation is given how it finds them.
pub mod Rows
pub mod Updates
pub mod Loading
pub mod World
pub mod Trusted
pub mod Kept
pub mod Sample
mod Examples
use tethys.Prelude.{
  String, push_str, Bool, true, false, not, ◌||◌, Option, none, some, List, [], ◌∷◌, string_eq,
  ◌==◌, if◌then◌else◌, map,
}
use tethys.Prelude.Assoc.{Assoc, lookup, insert, or_insert, first_some}
use tethys.Schema.Sync.{Scope, scope_str, parse_scope}
use tethys.Schema.Skills.{SkillOrigin, SkillSource, SkillInfo, SkillUpdateCheck, SkillUpdateApplied}
use tethys.Sync.Error.{SyncError, SyncResult, ok, err, ◌>>=◌}
use tethys.Sync.Trust.{SkillFacts}

-- A row of `skills_state`.
pub record SkillRow : Type 0 where
  pub skill_id : String
  pub scope : String
  pub name : String
  pub source : String
  pub pinned_sha : Option String
  pub content_hash : String
  pub trusted_hash : Option String
  pub enabled : Bool
  pub requires_trust : Bool

abbrev pub Rows : Type 0
Rows = Assoc String SkillRow

pub record SkillHome : Type 0 where
  pub root : String
  pub home : String

-- How an operation finds the files and the store.
pub record Env : Type 0 where
  pub is_dir : String → Bool
  -- `trust::inspect`, of a directory.
  pub inspect : String → SyncResult SkillFacts
  -- The names that `discover` finds in a directory.
  pub discover : String → SyncResult (List String)
  -- The message, where the store cannot be read or written.
  pub read_fails : Option String
  pub write_fails : Option String

unfoldable pub skills_dir : SkillHome → Scope → String
skills_dir home Scope.global = push_str home.home "/.agents/skills"
skills_dir home Scope.workspace = push_str home.root "/.agents/skills"

unfoldable pub skill_dir : SkillHome → Scope → String → String
unfolding skills_dir
skill_dir home scope name = push_str (skills_dir home scope) (push_str "/" name)

unfoldable pub skill_id : Scope → String → String
unfolding scope_str
skill_id scope name = push_str (scope_str scope) (push_str ":" name)

abbrev pub upsert_skill : SkillRow → Rows → Rows
upsert_skill row rows = insert row.skill_id row rows

abbrev pub some_when {ℓ} : {A : Type ℓ} → Bool → A → Option A
some_when true a = some a
some_when false a = none

module _ (source_text : SkillSource → String) where
  unfoldable pub row_of : SkillInfo → SkillRow
  unfolding skill_id scope_str
  row_of info = record {
    skill_id = skill_id info.scope info.name;
    scope = scope_str info.scope;
    name = info.name;
    source = source_text info.source;
    pinned_sha = info.pinned_sha;
    content_hash = info.content_hash;
    trusted_hash = some_when info.trusted info.content_hash;
    enabled = info.enabled;
    requires_trust = info.requires_trust;
  }

  unfoldable pub record_skill : Env → Rows → SkillInfo → Rows × SyncResult (Unit {0})
  unfolding row_of insert
  record_skill env rows info = elim env.write_fails [
    | some message ↦ (rows, err (SyncError.store message))
    | none ↦ (upsert_skill (row_of info) rows, ok tt)
  ]

  -- What was recorded is returned.
  unfoldable pub recording : Env → Rows → SkillInfo → Rows × SyncResult SkillInfo
  unfolding record_skill
  recording env rows info =
      let (rows', done) = record_skill env rows info in (rows', done >>= λ _. ok info)

module _ (source_of : String → Option SkillSource) where
  unfoldable pub info_from_row : SkillRow → String → SyncResult SkillInfo
  unfolding parse_scope
  info_from_row row dir = elim (source_of row.source) [
    | none ↦ err (SyncError.json row.source)
    | some source ↦ elim (parse_scope row.scope) [
      | none ↦ err (SyncError.registry (push_str "unknown scope " row.scope))
      | some scope ↦ ok (record {
        name = row.name;
        scope = scope;
        path = dir;
        source = source;
        enabled = row.enabled;
        requires_trust = row.requires_trust;
        trusted = elim row.trusted_hash [ none ↦ false | some hash ↦ hash == row.content_hash ];
        content_hash = row.content_hash;
        pinned_sha = row.pinned_sha;
      })
    ]
  ]

  abbrev pub fresh : Scope → String → String → SkillFacts → SkillInfo
  fresh scope name dir facts = record {
    name = name;
    scope = scope;
    path = dir;
    source = record {
      origin = SkillOrigin.folder;
      repo = none;
      reference = none;
      subdir = none;
      lock_hash = none;
      url = none;
    };
    enabled = true;
    requires_trust = facts.requires_trust;
    trusted = false;
    content_hash = facts.content_hash;
    pinned_sha = none;
  }

  unfoldable pub existing : Env → Rows → Scope → String → String → SkillFacts → SyncResult SkillInfo
  unfolding lookup skill_id info_from_row
  existing env rows scope name dir facts = elim env.read_fails [
    | some message ↦ err (SyncError.store message)
    | none ↦ elim (lookup (skill_id scope name) rows) [
      | none ↦ ok (fresh scope name dir facts)
      | some row ↦ info_from_row row dir
    ]
  ]

abbrev pub bool_beq : Bool → Bool → Bool
bool_beq true b = b
bool_beq false b = not b

-- The facts are those that the info has.
abbrev pub is_current : SkillInfo → SkillFacts → Bool
is_current info facts =
    if info.content_hash == facts.content_hash
    then bool_beq info.requires_trust facts.requires_trust
    else false

module _ (source_text : SkillSource → String) (source_of : String → Option SkillSource) where
  -- An info whose facts have changed is recorded anew, untrusted.
  unfoldable pub refresh : Env → Rows → SkillInfo → SkillFacts → Rows × SyncResult SkillInfo
  unfolding recording
  refresh env rows info facts =
      if is_current info facts
      then (rows, ok info)
      else recording source_text env rows (record info {
        content_hash = facts.content_hash;
        requires_trust = facts.requires_trust;
        trusted = false;
      })

  unfoldable pub load_or_record :
      Env → Rows → SkillHome → Scope → String → Rows × SyncResult SkillInfo
  unfolding existing refresh
  load_or_record env rows home scope name =
      let dir = skill_dir home scope name in
      elim (env.inspect dir) [
        | err e ↦ (rows, err e)
        | ok facts ↦ elim (existing source_of env rows scope name dir facts) [
          | err e ↦ (rows, err e)
          | ok info ↦ refresh env rows info facts
        ]
      ]

  unfoldable pub load_required :
      Env → Rows → SkillHome → Scope → String → Rows × SyncResult SkillInfo
  unfolding load_or_record
  load_required env rows home scope name =
      if env.is_dir (skill_dir home scope name)
      then load_or_record env rows home scope name
      else (rows, err (SyncError.skill_not_found name))

  -- A skill that is loaded, changed and recorded.
  unfoldable pub change :
      (SkillInfo → SkillInfo)
      → Env
      → Rows
      → SkillHome
      → Scope
      → String
      → Rows × SyncResult SkillInfo
  unfolding load_required recording
  change f env rows home scope name =
      let (rows', loaded) = load_required env rows home scope name in
      elim loaded [ err e ↦ (rows', err e) | ok info ↦ recording source_text env rows' (f info) ]

  unfoldable pub trust : Env → Rows → SkillHome → Scope → String → Rows × SyncResult SkillInfo
  unfolding change
  trust = change (λ info. record info { trusted = true })

  unfoldable pub set_enabled :
      Bool → Env → Rows → SkillHome → Scope → String → Rows × SyncResult SkillInfo
  unfolding change
  set_enabled enabled = change (λ info. record info { enabled = enabled })

  -- The loop over the names of a scope, with the skills by name so far.
  unfoldable pub list_scope :
      Env
      → SkillHome
      → Scope
      → List String
      → Rows
      → Assoc String SkillInfo
      → Rows × SyncResult (Assoc String SkillInfo)
  unfolding or_insert
  list_scope env home scope [] rows by_name = (rows, ok by_name)
  list_scope env home scope (name ∷ names) rows by_name =
      let (rows', loaded) = load_or_record env rows home scope name in
      elim loaded [
        | err e ↦ (rows', err e)
        | ok info ↦ list_scope env home scope names rows' (or_insert name info by_name)
      ]

  abbrev pub list_dir :
      Env
      → SkillHome
      → Scope
      → Rows
      → Assoc String SkillInfo
      → Rows × SyncResult (Assoc String SkillInfo)
  list_dir env home scope rows by_name = elim (env.discover (skills_dir home scope)) [
    | err e ↦ (rows, err e)
    | ok names ↦ list_scope env home scope names rows by_name
  ]

  -- The skills by name.
  unfoldable pub list : Env → Rows → SkillHome → Rows × SyncResult (Assoc String SkillInfo)
  unfolding list_scope skills_dir
  list env rows home =
      let (rows', first) = list_dir env home Scope.workspace rows [] in
      elim first [
        | err e ↦ (rows', err e)
        | ok by_name ↦ list_dir env home Scope.global rows' by_name
      ]
