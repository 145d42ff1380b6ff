-- ===== src/Sync/SkillImport/Installing.antt =====
-- crates/tethys-sync/src/skill_import.rs: how a skill that was staged is named, put into place and
-- recorded. Where its root is and what comes of the swap of directories are arguments.
use tethys.Prelude.{
  ℕ, String, Bool, true, false, Option, none, some, List, [], ◌∷◌, string_eq, ◌==◌, if◌then◌else◌,
}
use tethys.Prelude.Assoc.{first_some}
use tethys.Prelude.Text.{char_beq, strip_prefix, trim, split}
use tethys.Schema.Sync.{Scope}
use tethys.Schema.Skills.{SkillSource, SkillInfo}
use tethys.Sync.Error.{SyncError, SyncResult, ok, err}
use tethys.Sync.Trust.{SkillFacts}
use tethys.Sync.SkillImport.{validate_name}
use tethys.Sync.Skills.{Rows, Env, SkillHome, skill_dir, recording}

unfoldable pub is_all : ℕ → String → Bool
is_all n String.[] = true
is_all n (String.◌∷◌ c s) = let rest = is_all n s in if char_beq c n then rest else false

unfoldable pub trim_start_of : ℕ → String → String
trim_start_of n String.[] = ""
trim_start_of n (String.◌∷◌ c s) =
    let rest = trim_start_of n s in if char_beq c n then rest else String.◌∷◌ c s

unfoldable pub trim_end_of : ℕ → String → String
unfolding is_all
trim_end_of n String.[] = ""
trim_end_of n (String.◌∷◌ c s) =
    let rest = trim_end_of n s in if is_all n (String.◌∷◌ c s) then "" else String.◌∷◌ c rest

-- `trim_matches`, of one character.
abbrev trim_matches : ℕ → String → String
trim_matches n s = trim_end_of n (trim_start_of n s)

abbrev name_value : String → Option String
name_value value =
    let bare = trim_matches 39 (trim_matches 34 (trim value)) in
    if bare == "" then none else some bare

-- The first line behind the opening one that has a name, up to the closing line.
unfoldable pub name_of_lines : List String → Option String
unfolding trim strip_prefix trim_start_of trim_end_of
name_of_lines [] = none
name_of_lines (line ∷ lines) =
    let rest = name_of_lines lines in
    if trim line == "---" then none else elim (strip_prefix "name:" (trim line)) [
      | none ↦ rest
      | some value ↦ first_some (name_value value) rest
    ]

-- Of the text of `SKILL.md`. The ends of lines are trimmed like the lines.
unfoldable pub frontmatter_name : String → Option String
unfolding split name_of_lines trim
frontmatter_name text = elim (split text 10) [
  | [] ↦ none
  | first ∷ lines ↦ let name = name_of_lines lines in if trim first == "---" then name else none
]

-- What `install` finds: the root below the staging directory, the text of `SKILL.md` there, the last
-- part of the root's path, and what comes of the swap of a destination and a root.
pub record Staged : Type 0 where
  pub skill_root : SyncResult String
  pub skill_text : String → Option String
  pub file_name : String → Option String
  pub swap : String → String → SyncResult (Unit {0})

unfoldable pub skill_name : Staged → Option String → String → Option String
unfolding frontmatter_name
skill_name staged explicit_name root = first_some explicit_name (
    first_some (elim (staged.skill_text root) [ none ↦ none | some text ↦ frontmatter_name text ])
      (staged.file_name root))

abbrev pub installed :
    Scope → String → String → SkillSource → Option String → SkillFacts → SkillInfo
installed scope name path source pinned_sha facts = record {
  name = name;
  scope = scope;
  path = path;
  source = source;
  enabled = true;
  requires_trust = facts.requires_trust;
  trusted = false;
  content_hash = facts.content_hash;
  pinned_sha = pinned_sha;
}

-- The part of `install` from the name on. `env` is how it finds the files once they are in place.
unfoldable pub install_as :
    (SkillSource → String)
    → Env
    → Rows
    → SkillHome
    → Scope
    → Staged
    → String
    → String
    → SkillSource
    → Option String
    → Rows × SyncResult SkillInfo
unfolding validate_name recording skill_dir
install_as source_text env rows home scope staged root name source pinned_sha =
    let destination = skill_dir home scope name in
    elim (validate_name name) [
      | err e ↦ (rows, err e)
      | ok _ ↦ elim (staged.swap destination root) [
        | err e ↦ (rows, err e)
        | ok _ ↦ elim (env.inspect destination) [
          | err e ↦ (rows, err e)
          | ok facts ↦
              recording source_text env rows
                (installed scope name destination source pinned_sha facts)
        ]
      ]
    ]

unfoldable pub install :
    (SkillSource → String)
    → Env
    → Rows
    → SkillHome
    → Scope
    → Staged
    → Option String
    → SkillSource
    → Option String
    → Rows × SyncResult SkillInfo
unfolding install_as skill_name
install source_text env rows home scope staged explicit_name source pinned_sha =
    elim staged.skill_root [
      | err e ↦ (rows, err e)
      | ok root ↦ elim (skill_name staged explicit_name root) [
        | none ↦ (rows, err (SyncError.registry "cannot determine skill name"))
        | some name ↦ install_as source_text env rows home scope staged root name source pinned_sha
      ]
    ]
