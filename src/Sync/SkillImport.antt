-- ===== src/Sync/SkillImport.antt =====
-- crates/tethys-sync/src/skill_import.rs: the specs of skills on GitHub, and the names of skills. Its
-- child Archives extracts archives, Caps is about what these put on the disk; Installing
-- puts a skill into place.
pub mod Archives
pub mod Caps
pub mod Installing
mod Examples
use tethys.Prelude.{
  String, push_str, Bool, true, false, not, ◌&&◌, ◌||◌, Option, none, some, List, [], ◌∷◌,
  string_eq, ◌==◌, if◌then◌else◌, unwrap_or, get_elem?,
}
use tethys.Prelude.Text.{
  strip_prefix, strip_suffix, trim, contains_char, contains_text, split_once, before, split, join,
}
use tethys.Prelude.Assoc.{first_some}
use tethys.Sync.Error.{SyncError, SyncResult, ok, err}

pub record GitHubSpec : Type 0 where
  pub owner : String
  pub repo : String
  pub subdir : Option String
  pub reference : Option String

abbrev pub malformed : String → SyncResult GitHubSpec
malformed spec =
    err (SyncError.registry (push_str "github spec must be owner/repo[/subdir]@ref, got " spec))

unfoldable pub non_empty : List String → List String
non_empty [] = []
non_empty (s ∷ ss) = let rest = non_empty ss in if s == "" then rest else s ∷ rest

abbrev pub tree_subdir : List String → Option String
tree_subdir [] = none
tree_subdir (s ∷ ss) = some (join "/" (s ∷ ss))

-- What follows the owner and the repository in the path of a URL.
unfoldable pub located : String → String → List String → GitHubSpec
unfolding join
located owner repo [] = record { owner = owner; repo = repo; subdir = none; reference = none }
located owner repo (s ∷ []) = record {
  owner = owner;
  repo = repo;
  subdir = if s == "tree" then none else some (join "/" (s ∷ []));
  reference = none;
}
located owner repo (s ∷ r ∷ rest) = record {
  owner = owner;
  repo = repo;
  subdir = if s == "tree" then tree_subdir rest else some (join "/" (s ∷ r ∷ rest));
  reference = if s == "tree" then some r else none;
}

unfoldable pub parse_segments : String → List String → SyncResult GitHubSpec
unfolding located strip_suffix
parse_segments spec (owner ∷ repo ∷ rest) =
    ok (located owner (unwrap_or repo (strip_suffix ".git" repo)) rest)
parse_segments spec _ = malformed spec

unfoldable pub parse_url : String → String → SyncResult GitHubSpec
unfolding split_once before split non_empty parse_segments
parse_url spec rest =
    let (address, path) = unwrap_or (rest, "") (split_once rest 47) in
    let host = before ":" address in
    if not (host == "github.com") && not (host == "www.github.com")
    then err (SyncError.unsupported_source spec)
    else parse_segments spec (non_empty (split path 47))

unfoldable pub split_repo : String → String × Option String
unfolding split_once
split_repo text = elim (split_once text 47) [
  | none ↦ (text, none)
  | some (repo, subdir) ↦ (repo, some subdir)
]

-- `splitn(3, '/')`, of which the first two have to be there.
unfoldable pub parse_shorthand : String → String → Option String → SyncResult GitHubSpec
unfolding split_once split_repo
parse_shorthand spec path reference = elim (split_once path 47) [
  | none ↦ malformed spec
  | some (owner, rest) ↦
      let (repo, subdir) = split_repo rest in
      if owner == "" || repo == ""
      then malformed spec
      else ok (record { owner = owner; repo = repo; subdir = subdir; reference = reference })
]

unfoldable pub parse_github_spec : String → SyncResult GitHubSpec
unfolding trim strip_prefix contains_text split_once parse_url parse_shorthand
parse_github_spec spec =
    let trimmed = trim spec in
    elim (first_some (strip_prefix "https://" trimmed) (strip_prefix "http://" trimmed)) [
      | some rest ↦ parse_url spec rest
      | none ↦
          if contains_text "://" trimmed
          then err (SyncError.unsupported_source spec)
          else elim (split_once trimmed 64) [
            | some (path, reference) ↦ parse_shorthand spec path (some reference)
            | none ↦ parse_shorthand spec trimmed none
          ]
    ]

unfoldable pub codeload_url : String → String → String → String
unfolding join
codeload_url owner repo sha =
    push_str "https://codeload.github.com/" (join "/" (owner ∷ repo ∷ "tar.gz" ∷ sha ∷ []))

unfoldable pub validate_name : String → SyncResult (Unit {0})
unfolding contains_char
validate_name name =
    if name == "" || name == "." || name == ".." || contains_char name 47 || contains_char name 92
    then err (SyncError.registry (push_str "invalid skill name " name))
    else ok tt
