-- ===== src/Sync/Import.antt =====
-- crates/tethys-sync/src/import.rs: the scan of the files of other tools, and the import of what it
-- finds. The path of a file is shown as it is; the text of an error, serde's text of an entry and its
-- reading of the user's file are arguments.
mod Examples
use tethys.Prelude.{
  String, push_str, Bool, true, false, not, ◌&&◌, ◌||◌, Option, none, some, List, [], ◌∷◌, ◌++◌,
  map, string_eq, ◌==◌, if◌then◌else◌,
}
use tethys.Prelude.Assoc.{Assoc, insert}
use tethys.Schema.Projection.{ImportCandidate, ImportFailure, ImportScan}
use tethys.Schema.Sync.{Scope, RegistryEntry}
use tethys.Sync.Error.{SyncError, SyncResult, Result, ok, err}
use tethys.Sync.Document.{Value, Fields, end, field, get, and_then, as_object}
use tethys.Sync.Projectors.{Projector, TargetFile, join_path}
use tethys.Sync.Projectors.ClaudeCode.{entry_from_value}
use tethys.Sync.Registry.{RegistryFile}

abbrev candidate : String → Scope → String × RegistryEntry → ImportCandidate
candidate source_path scope (name, entry) = record {
  name = name;
  entry = entry;
  source_path = source_path;
  scope = scope;
  conflict = false;
}

abbrev candidates_of : String → Scope → Assoc String RegistryEntry → ImportScan
candidates_of source_path scope entries = record {
  candidates = map (candidate source_path scope) entries;
  failures = [];
}

abbrev failure_of : String → String → ImportScan
failure_of source_path message = record {
  candidates = [];
  failures = record { source_path = source_path; message = message } ∷ [];
}

abbrev nothing : ImportScan
nothing = record { candidates = []; failures = [] }

-- The candidates and the failures of two scans, one after the other.
abbrev both : ImportScan → ImportScan → ImportScan
both a b = record { candidates = a.candidates ++ b.candidates; failures = a.failures ++ b.failures }

-- serde's map holds each name once.
unfoldable pub entries_from_map : Fields → Assoc String RegistryEntry
unfolding entry_from_value
entries_from_map end = []
entries_from_map (field name value fields) =
    let rest = entries_from_map fields in
    elim (entry_from_value value) [ none ↦ rest | some entry ↦ (name, entry) ∷ rest ]

module _ (shown : SyncError → String) (read_text : String → SyncResult (Option String)) where
  abbrev scan_target : Projector → TargetFile → ImportScan
  scan_target projector target = elim (read_text target.path) [
    | err error ↦ failure_of target.path (shown error)
    | ok none ↦ nothing
    | ok (some text) ↦ elim (projector.read_entries text) [
      | ok entries ↦ candidates_of target.path target.scope entries
      | err error ↦ failure_of target.path (shown error)
    ]
  ]

  unfoldable pub scan_file : Projector → List TargetFile → ImportScan
  scan_file projector [] = nothing
  scan_file projector (target ∷ targets) =
      both (scan_target projector target) (scan_file projector targets)

  unfoldable pub scan_projects : String → Fields → List String → ImportScan
  unfolding get entries_from_map
  scan_projects source projects [] = nothing
  scan_projects source projects (key ∷ keys) =
      let rest = scan_projects source projects keys in
      elim (and_then as_object
        (and_then (λ project. get project "mcpServers") (and_then as_object (get projects key)))) [
          | none ↦ rest
          | some servers ↦
              both
                (candidates_of (push_str source (push_str "#projects[" (push_str key "]")))
                  Scope.workspace (entries_from_map servers))
                rest
        ]

  -- `canonical` is the root once more, resolved where that succeeds.
  unfoldable pub scan_document : String → String → String → Fields → ImportScan
  unfolding get entries_from_map scan_projects
  scan_document source root canonical document =
      both
        (elim (and_then as_object (get document "mcpServers")) [
          | none ↦ nothing
          | some servers ↦ candidates_of source Scope.global (entries_from_map servers)
        ])
        (elim (and_then as_object (get document "projects")) [
          | none ↦ nothing
          | some projects ↦ scan_projects source projects (root ∷ canonical ∷ [])
        ])

  unfoldable pub scan_claude_user_config :
      (String → Result String Value) → String → String → String → ImportScan
  unfolding scan_document
  scan_claude_user_config from_str home root canonical =
      let source = join_path home ".claude.json" in
      elim (read_text source) [
        | err error ↦ failure_of source (shown error)
        | ok none ↦ nothing
        | ok (some text) ↦ elim (from_str text) [
          | err message ↦ failure_of source message
          | ok document ↦ elim (as_object document) [
            | none ↦ nothing
            | some fields ↦ scan_document source root canonical fields
          ]
        ]
      ]

-- A candidate is in conflict when the texts of the entries of its name are not all the same.
unfoldable pub differs : (RegistryEntry → String) → ImportCandidate → List ImportCandidate → Bool
differs text c [] = false
differs text c (d ∷ ds) =
    (d.name == c.name && not (text d.entry == text c.entry)) || differs text c ds

unfoldable marked :
    (RegistryEntry → String) → List ImportCandidate → ImportCandidate → ImportCandidate
unfolding differs
marked text candidates c = record c { conflict = differs text c candidates }

unfoldable pub mark_conflicts :
    (RegistryEntry → String) → List ImportCandidate → List ImportCandidate
unfolding marked
mark_conflicts text candidates = map (marked text candidates) candidates

-- The projectors are those of Claude Code, Codex and OpenCode.
unfoldable pub scan :
    (SyncError → String)
    → (String → SyncResult (Option String))
    → (String → Result String Value)
    → (RegistryEntry → String)
    → (String → Bool)
    → Projector × Projector × Projector
    → String
    → String
    → String
    → ImportScan
unfolding scan_file scan_claude_user_config mark_conflicts
scan shown read_text from_str text exists (claude_code, codex, open_code) root home canonical =
    let found : ImportScan =
      both (scan_file shown read_text claude_code (claude_code.detect exists root home)) (
        both (scan_file shown read_text codex (codex.detect exists root home)) (
          both (scan_file shown read_text open_code (open_code.detect exists root home))
            (scan_claude_user_config shown read_text from_str home root canonical))) in
    record found { candidates = mark_conflicts text found.candidates }

-- The registry file with the selection, and the names of the selection.
unfoldable pub import_all : Scope → RegistryFile → List ImportCandidate → RegistryFile × List String
unfolding insert
import_all scope file [] = (file, [])
import_all scope file (c ∷ selection) =
    let entry = record c.entry {
      meta = record c.entry.meta { scope = some scope; enabled = true };
    } in
    let (file', names) =
      import_all scope (record file { mcp_servers = insert c.name entry file.mcp_servers })
        selection in
    (file', c.name ∷ names)
