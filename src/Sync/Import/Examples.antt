-- ===== src/Sync/Import/Examples.antt =====
-- Tests of import.rs.
use tethys.Prelude.{String, true, false, unwrap_or, none, some, [], ◌∷◌, map, ◌≡◌, refl}
use tethys.Schema.Sync.{Scope, TransportKind, RegistryEntry}
use tethys.Sync.Document.{Value, str, obj, end, field}
use tethys.Sync.Error.{ok}
use tethys.Sync.Projectors.{default_meta}
use tethys.Schema.Projection.{ImportCandidate}
use tethys.Sync.Import.{mark_conflicts, scan_claude_user_config, import_all}
use tethys.Sync.Registry.{empty_file}

abbrev server : String → RegistryEntry
server command = record {
  transport = TransportKind.stdio;
  command = some command;
  args = [];
  env = [];
  url = none;
  headers = [];
  meta = default_meta;
}

abbrev found : String → String → ImportCandidate
found name command = record {
  name = name;
  entry = server command;
  source_path = ".mcp.json";
  scope = Scope.workspace;
  conflict = false;
}

abbrev text : RegistryEntry → String
text entry = unwrap_or "" entry.command

conflicts_marked :
    map
      (λ c. c.conflict)
      (mark_conflicts text (found "a" "x" ∷ found "b" "x" ∷ found "a" "y" ∷ found "b" "x" ∷ []))
    ≡ true ∷ false ∷ true ∷ false ∷ []
unfolding mark_conflicts
conflicts_marked = refl

names_imported :
    (import_all Scope.global empty_file (found "a" "x" ∷ found "b" "x" ∷ [])).1 ≡ "a" ∷ "b" ∷ []
unfolding import_all
names_imported = refl

abbrev user_config : Value
user_config = obj (
    field "projects"
      (obj (
        field "/w"
          (obj (field "mcpServers" (obj (field "s" (obj (field "command" (str "x") end)) end)) end))
          end))
      end)

sources_named :
    map
      (λ c. c.source_path)
      (scan_claude_user_config
        (λ e. "")
        (λ path. ok (some ""))
        (λ t. ok user_config)
        "/h"
        "/w"
        "/v").candidates
    ≡ "/h/.claude.json#projects[/w]" ∷ []
unfolding scan_claude_user_config
sources_named = refl

-- A root that is its own resolution is looked up twice.
found_twice :
    map
      (λ c. c.name)
      (scan_claude_user_config
        (λ e. "")
        (λ path. ok (some ""))
        (λ t. ok user_config)
        "/h"
        "/w"
        "/w").candidates
    ≡ "s" ∷ "s" ∷ []
unfolding scan_claude_user_config
found_twice = refl
