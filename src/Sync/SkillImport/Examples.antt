-- ===== src/Sync/SkillImport/Examples.antt =====
-- Tests of skill_import.rs.
use tethys.Prelude.{
  true, ◌≤◌, length, All, String, Option, none, some, List, [], ◌∷◌, ◌≡◌, refl, arith, false,
}
use tethys.Sync.Error.{SyncError, Result, ok, err}
use tethys.Sync.SkillImport.{parse_github_spec, codeload_url, validate_name}
use tethys.Sync.SkillImport.Archives.{
  Component, EntryType, TarEntry, ZipEntry, extract_tar, extract_zip, max_archive_entries,
  max_archive_bytes,
}
use tethys.Schema.Sync.{Scope}
use tethys.Schema.Skills.{SkillOrigin, SkillSource}
use tethys.Sync.Skills.{Env, SkillHome}
use tethys.Sync.SkillImport.Installing.{Staged, frontmatter_name, install, installed}
use tethys.Sync.SkillImport.Caps.{IsSafe, all_declared, extract_tar-Bounded}

shorthand_read :
    parse_github_spec " acme/skills/pdf/forms@v2 "
    ≡ ok (record {
      owner = "acme";
      repo = "skills";
      subdir = some "pdf/forms";
      reference = some "v2";
    })
unfolding parse_github_spec
shorthand_read = refl

tree_read :
    parse_github_spec "https://github.com/acme/skills.git/tree/main/pdf/forms"
    ≡ ok (record {
      owner = "acme";
      repo = "skills";
      subdir = some "pdf/forms";
      reference = some "main";
    })
unfolding parse_github_spec
tree_read = refl

other_hosts_refused :
    parse_github_spec "https://gitlab.com/acme/skills"
    ≡ err (SyncError.unsupported_source "https://gitlab.com/acme/skills")
unfolding parse_github_spec
other_hosts_refused = refl

owner_alone_refused :
    parse_github_spec "acme"
    ≡ err (SyncError.registry "github spec must be owner/repo[/subdir]@ref, got acme")
unfolding parse_github_spec
owner_alone_refused = refl

codeload : codeload_url "acme" "skills" "abc" ≡ "https://codeload.github.com/acme/skills/tar.gz/abc"
unfolding codeload_url
codeload = refl

parent_is_no_name : validate_name ".." ≡ err (SyncError.registry "invalid skill name ..")
unfolding validate_name
parent_is_no_name = refl

abbrev small_file : TarEntry
small_file = record {
  entry_type = EntryType.file;
  path = ok (record {
    display = "a/SKILL.md";
    has_root = false;
    components = Component.normal "a" ∷ Component.normal "SKILL.md" ∷ [];
  });
  size = ok 40;
}

abbrev upward : TarEntry
upward = record {
  entry_type = EntryType.file;
  path = ok (record {
    display = "../x";
    has_root = false;
    components = Component.parent_dir ∷ Component.normal "x" ∷ [];
  });
  size = ok 1;
}

abbrev archive : List (Result String TarEntry)
archive = ok small_file ∷ ok upward ∷ ok small_file ∷ []

abbrev unpacks : TarEntry → Option String
unpacks entry = none

upward_refused :
    extract_tar unpacks (ok archive)
    ≡ (small_file ∷ [], err (SyncError.unsafe_archive "unsafe path ../x"))
unfolding extract_tar
upward_refused = refl

extract_tar-Bounded_example :
    (length (extract_tar unpacks (ok archive)).0 ≤ max_archive_entries)
    × (all_declared (extract_tar unpacks (ok archive)).0 ≤ max_archive_bytes)
    × All IsSafe (extract_tar unpacks (ok archive)).0
extract_tar-Bounded_example =
    extract_tar-Bounded unpacks archive (omega arith, (omega arith, (omega arith, tt)))

abbrev zip_link : ZipEntry
zip_link = record {
  name = "l";
  enclosed_name = some "l";
  is_dir = false;
  unix_mode = some 41471;
  size = 3;
}

links_refused :
    extract_zip (λ path entry. none) (ok (ok zip_link ∷ []))
    ≡ ([], err (SyncError.unsafe_archive "symlink l"))
unfolding extract_zip
links_refused = refl

abbrev skill_text : String
skill_text = "---\nlicense: MIT\nname: 'pdf'\n---\nname: other\n"

name_read : frontmatter_name skill_text ≡ some "pdf"
unfolding frontmatter_name
name_read = refl

abbrev staged : Staged
staged = record {
  skill_root = ok "/staging/x";
  skill_text = λ root. some skill_text;
  file_name = λ root. some "x";
  swap = λ destination root. ok tt;
}

abbrev source : SkillSource
source = record {
  origin = SkillOrigin.archive;
  repo = none;
  reference = none;
  subdir = none;
  lock_hash = none;
  url = none;
}

abbrev env : Env
env = record {
  is_dir = λ dir. true;
  inspect = λ dir. ok (record { content_hash = "h1"; requires_trust = true });
  discover = λ dir. ok [];
  read_fails = none;
  write_fails = none;
}

abbrev home : SkillHome
home = record { root = "/work"; home = "/home" }

installs_untrusted :
    (install (λ s. "") env [] home Scope.global staged none source none).1
    ≡ ok (
        installed Scope.global "pdf" "/home/.agents/skills/pdf" source none
          (record { content_hash = "h1"; requires_trust = true }))
unfolding install
installs_untrusted = refl
