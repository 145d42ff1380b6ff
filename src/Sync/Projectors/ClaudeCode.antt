-- ===== src/Sync/Projectors/ClaudeCode.antt =====
-- crates/tethys-sync/src/projectors/claude_code.rs: the servers of a project's `.mcp.json`.
pub mod RoundTrip
use tethys.Prelude.{
  String, Bool, true, false, Option, none, some, List, [], ◌∷◌, string_eq, ◌==◌, if◌then◌else◌,
  is_some,
}
use tethys.Prelude.Assoc.{Assoc}
use tethys.Prelude.Text.{is_blank}
use tethys.Schema.Sync.{Scope, TargetId, TransportKind, RegistryEntry, transport_str}
use tethys.Sync.Error.{SyncError, SyncResult, ok, err, ◌>>=◌}
use tethys.Sync.Document.{
  Format, Value, str, arr, obj, Fields, end, field, get, set, remove, is_empty, and_then, as_str,
  as_object, root_object, object, object_or_set, of_strings,
}
use tethys.Sync.Projectors.{
  TargetFile, Projector, join_path, default_meta, claude_ref, infer_transport, string_list,
  string_map, refs, read_under,
}

unfoldable pub entry_from_value : Value → Option RegistryEntry
unfolding get infer_transport string_list string_map
entry_from_value value = elim (as_object value) [
  | none ↦ none
  | some map ↦
      let command = and_then as_str (get map "command") in
      let url = and_then as_str (get map "url") in
      some (record {
        transport =
            infer_transport (and_then as_str (get map "type")) (is_some url) (is_some command);
        command = command;
        args = string_list (get map "args");
        env = string_map (get map "env");
        url = url;
        headers = string_map (get map "headers");
        meta = default_meta;
      })
]

abbrev pub args_field : List String → Fields → Fields
args_field [] fs = fs
args_field (a ∷ rest) fs = field "args" (arr (of_strings (a ∷ rest))) fs

-- A field of references, where there are any.
abbrev pub refs_field : String → Fields → Fields → Fields
refs_field name end fs = fs
refs_field name (field k v more) fs = field name (obj (field k v more)) fs

unfoldable pub stdio_fields : RegistryEntry → String → Fields
unfolding refs claude_ref of_strings
stdio_fields entry command =
    field "command" (str command)
      (args_field entry.args (refs_field "env" (refs claude_ref entry.env) end))

unfoldable pub entry_value : RegistryEntry → SyncResult Value
unfolding stdio_fields refs claude_ref transport_str
entry_value entry =
    let kind = field "type" (str (transport_str entry.transport)) in
    elim entry.transport [
      | TransportKind.stdio ↦ elim entry.command [
        | none ↦ err (SyncError.registry "stdio entry requires a command")
        | some command ↦ ok (obj (kind (stdio_fields entry command)))
      ]
      | TransportKind.http ↦ elim entry.url [
        | none ↦ err (SyncError.registry "http entry requires a url")
        | some url ↦ ok (
            obj (
              kind
                (field "url" (str url) (refs_field "headers" (refs claude_ref entry.headers) end))))
      ]
      | TransportKind.sse ↦ err (SyncError.unsupported "claude-code:sse")
    ]

abbrev pub source_of : String → String
source_of original = if is_blank original then "{}" else original

abbrev pub detect : (String → Bool) → String → String → List TargetFile
detect exists root home = record { path = join_path root ".mcp.json"; scope = Scope.workspace } ∷ []

module _ (format : Format) where
  unfoldable pub inject_into : String → String → RegistryEntry → SyncResult String
  unfolding root_object object_or_set set entry_value is_blank
  inject_into original name entry = do
    root ← format.parse false (source_of original)
    object ← root_object root
    value ← entry_value entry
    ok (
        format.render (source_of original) (
          obj (set object "mcpServers" (obj (set (object_or_set object "mcpServers") name value)))))

  unfoldable pub inject : String → String → RegistryEntry → SyncResult String
  unfolding inject_into
  inject original name entry = elim entry.transport [
    | TransportKind.sse ↦ err (SyncError.unsupported "claude-code:sse")
    | _ ↦ inject_into original name entry
  ]

  unfoldable pub rollback : String → String → SyncResult String
  unfolding root_object object remove set
  rollback modified name = do
    root ← format.parse false modified
    document ← root_object root
    ok (
        format.render modified (
          obj (elim (object document "mcpServers") [
            | none ↦ document
            | some servers ↦
                let left = remove servers name in
                if is_empty left
                then remove document "mcpServers"
                else set document "mcpServers" (obj left)
          ])))

  unfoldable pub read_entries : String → SyncResult (Assoc String RegistryEntry)
  unfolding read_under entry_from_value is_blank
  read_entries original =
      if is_blank original
      then ok []
      else (format.parse false original >>= λ root.
          ok (read_under "mcpServers" entry_from_value root))

  abbrev pub claude_code : Projector
  claude_code = record {
    target = TargetId.claude_code;
    detect = detect;
    inject = inject;
    rollback = rollback;
    read_entries = read_entries;
  }
