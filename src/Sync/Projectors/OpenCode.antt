-- ===== src/Sync/Projectors/OpenCode.antt =====
-- crates/tethys-sync/src/projectors/opencode.rs: the servers of `opencode.json(c)`. It is written
-- as `mcp.servers.<name>`; the legacy `mcp.<name>` is only read.
use tethys.Prelude.{
  String, push_str, Bool, true, Option, none, some, List, [], ◌∷◌, string_eq, ◌==◌, if◌then◌else◌,
  is_some,
}
use tethys.Prelude.Assoc.{Assoc, insert}
use tethys.Prelude.Text.{is_blank}
use tethys.Schema.Sync.{Scope, TargetId, TransportKind, RegistryEntry}
use tethys.Sync.Error.{SyncError, SyncResult, ok, err, ◌>>=◌}
use tethys.Sync.Document.{
  Format, Value, str, arr, obj, cons, Fields, end, field, get, set, remove, is_empty, and_then,
  as_str, as_object, root_object, object, object_or_set, of_strings, strings,
}
use tethys.Sync.Projectors.{
  TargetFile, Projector, join_path, default_meta, opencode_ref, infer_transport, string_list,
  string_map, refs, entries_of,
}
use tethys.Sync.Projectors.ClaudeCode.{refs_field, source_of}

-- The command and its arguments: a text and `args`, or one list of both.
unfoldable pub argv_of : Option Value → List String → Option String × List String
unfolding strings
argv_of (some (str text)) args = (some text, args)
argv_of (some (arr items)) args = elim (strings items) [
  | [] ↦ (none, args)
  | command ∷ rest ↦ (some command, rest)
]
argv_of _ args = (none, args)

abbrev or_else {ℓ} : {A : Type ℓ} → Option A → Option A → Option A
or_else none b = b
or_else (some a) b = some a

unfoldable pub entry_from_value : Value → Option RegistryEntry
unfolding get infer_transport string_list string_map argv_of
entry_from_value value = elim (as_object value) [
  | none ↦ none
  | some map ↦
      let (command, args) = argv_of (get map "command") (string_list (get map "args")) in
      let url = and_then as_str (get map "url") in
      some (record {
        transport =
            infer_transport (and_then as_str (get map "type")) (is_some url) (is_some command);
        command = command;
        args = args;
        env = string_map (or_else (get map "environment") (get map "env"));
        url = url;
        headers = string_map (get map "headers");
        meta = default_meta;
      })
]

unfoldable pub entry_value : RegistryEntry → SyncResult Value
unfolding refs opencode_ref of_strings
entry_value entry = elim entry.transport [
  | TransportKind.stdio ↦ elim entry.command [
    | none ↦ err (SyncError.registry "stdio entry requires a command")
    | some command ↦ ok (
        obj (
          field "type" (str "local") (
            field "command" (arr (cons (str command) (of_strings entry.args)))
              (refs_field "environment" (refs opencode_ref entry.env) end))))
  ]
  | TransportKind.http ↦ elim entry.url [
    | none ↦ err (SyncError.registry "http entry requires a url")
    | some url ↦ ok (
        obj (
          field "type" (str "remote")
            (field "url" (str url) (refs_field "headers" (refs opencode_ref entry.headers) end))))
  ]
  | TransportKind.sse ↦ err (SyncError.unsupported "opencode:sse")
]

unfoldable pub pick_config : (String → Bool) → String → String → String
pick_config exists dir default_name =
    if exists (join_path dir default_name)
    then join_path dir default_name
    else if exists (join_path dir (push_str default_name "c"))
    then join_path dir (push_str default_name "c")
    else join_path dir default_name

unfoldable pub detect : (String → Bool) → String → String → List TargetFile
unfolding pick_config
detect exists root home =
    record { path = pick_config exists root "opencode.json"; scope = Scope.workspace }
    ∷ record {
      path = pick_config exists (join_path home ".config/opencode") "opencode.json";
      scope = Scope.global;
    }
    ∷ []

-- The legacy entries, which stand beside `servers`.
unfoldable pub legacy_of : Fields → Assoc String RegistryEntry → Assoc String RegistryEntry
unfolding entry_from_value insert
legacy_of end entries = entries
legacy_of (field name value fs) entries = legacy_of fs (
    if name == "servers" then entries else elim (entry_from_value value) [
      | none ↦ entries
      | some e ↦ insert name (record e { meta = record e.meta { legacy = true } }) entries
    ])

module _ (format : Format) where
  unfoldable pub inject_into : String → String → RegistryEntry → SyncResult String
  unfolding root_object object_or_set set entry_value is_blank
  inject_into original name entry = do
    root ← format.parse true (source_of original)
    document ← root_object root
    value ← entry_value entry
    let mcp = object_or_set document "mcp"
    let servers = object_or_set mcp "servers"
    ok (
        format.render (source_of original)
          (obj (set document "mcp" (obj (set mcp "servers" (obj (set servers name value)))))))

  unfoldable pub inject : String → String → RegistryEntry → SyncResult String
  unfolding inject_into
  inject original name entry = elim entry.transport [
    | TransportKind.sse ↦ err (SyncError.unsupported "opencode:sse")
    | _ ↦ inject_into original name entry
  ]

  -- `mcp` after the removal of one server: an empty `servers` goes too.
  abbrev without_server : Fields → String → Fields
  without_server mcp name = elim (object mcp "servers") [
    | none ↦ mcp
    | some servers ↦
        let left = remove servers name in
        if is_empty left then remove mcp "servers" else set mcp "servers" (obj left)
  ]

  unfoldable pub rollback : String → String → SyncResult String
  unfolding root_object object remove set
  rollback modified name = do
    root ← format.parse true modified
    document ← root_object root
    ok (
        format.render modified (
          obj (elim (object document "mcp") [
            | none ↦ document
            | some mcp ↦
                let left = without_server mcp name in
                if is_empty left then remove document "mcp" else set document "mcp" (obj left)
          ])))

  unfoldable pub read_document : Value → Assoc String RegistryEntry
  unfolding object entries_of entry_from_value legacy_of
  read_document root = elim (and_then (λ fs. object fs "mcp") (as_object root)) [
    | none ↦ []
    | some mcp ↦ legacy_of mcp (elim (object mcp "servers") [
      | none ↦ []
      | some servers ↦ entries_of entry_from_value servers []
    ])
  ]

  unfoldable pub read_entries : String → SyncResult (Assoc String RegistryEntry)
  unfolding read_document is_blank
  read_entries original =
      if is_blank original
      then ok []
      else (format.parse true original >>= λ root. ok (read_document root))

  abbrev pub open_code : Projector
  open_code = record {
    target = TargetId.open_code;
    detect = detect;
    inject = inject;
    rollback = rollback;
    read_entries = read_entries;
  }
