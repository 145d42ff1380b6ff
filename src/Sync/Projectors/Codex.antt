-- ===== src/Sync/Projectors/Codex.antt =====
-- crates/tethys-sync/src/projectors/codex.rs: the servers of `~/.codex/config.toml`.
pub mod RoundTrip
use tethys.Prelude.{
  String, Bool, true, false, Option, none, some, List, [], ◌∷◌, string_eq, ◌==◌, if◌then◌else◌,
  is_some, ◌++◌,
}
use tethys.Prelude.Assoc.{Assoc, insert}
use tethys.Prelude.Text.{is_blank}
use tethys.Schema.Sync.{Scope, TargetId, TransportKind, RegistryValue, RegistryEntry, as_plain}
use tethys.Sync.Error.{SyncError, SyncResult, ok, err, ◌>>=◌}
use tethys.Sync.Document.{
  Format, Value, str, arr, obj, Fields, end, field, get, set, remove, is_empty, and_then, as_str,
  as_object, root_object, object, table_or_insert, of_strings,
}
use tethys.Sync.Projectors.{
  TargetFile, Projector, join_path, default_meta, keychain, secret_env_key, string_list, read_under,
}
use tethys.Sync.Projectors.ClaudeCode.{args_field}

-- The plain values of an `env`, by key.
unfoldable pub plain_fields : Assoc String RegistryValue → Fields
plain_fields [] = end
plain_fields ((key, value) ∷ env) =
    let rest = plain_fields env in
    elim (as_plain value) [ none ↦ rest | some text ↦ field key (str text) rest ]

abbrev pub table_field : String → Fields → Fields
table_field name end = end
table_field name (field k v fs) = field name (obj (field k v fs)) end

abbrev pub bearer_field : Option String → Fields
bearer_field none = end
bearer_field (some key) = field "bearer_token_env_var" (str key) end

unfoldable pub entry_table : RegistryEntry → SyncResult Value
unfolding plain_fields secret_env_key of_strings
entry_table entry = elim entry.transport [
  | TransportKind.stdio ↦ elim entry.command [
    | none ↦ err (SyncError.registry "stdio entry requires a command")
    | some command ↦ ok (
        obj (
          field "command" (str command)
            (args_field entry.args (table_field "env" (plain_fields entry.env)))))
  ]
  | TransportKind.http ↦ elim entry.url [
    | none ↦ err (SyncError.registry "http entry requires a url")
    | some url ↦ ok (obj (field "url" (str url) (bearer_field (secret_env_key entry.env))))
  ]
  | TransportKind.sse ↦ err (SyncError.unsupported "codex:sse")
]

unfoldable pub plain_values : Fields → Assoc String RegistryValue
plain_values end = []
plain_values (field key item fs) =
    let rest = plain_values fs in
    elim (as_str item) [ none ↦ rest | some text ↦ (key, RegistryValue.plain text) ∷ rest ]

abbrev pub with_bearer : Option String → Assoc String RegistryValue → Assoc String RegistryValue
with_bearer none env = env
with_bearer (some key) env = insert key (keychain key) env

unfoldable pub entry_from_table : Fields → RegistryEntry
unfolding get string_list plain_values insert
entry_from_table table =
    let url = and_then as_str (get table "url") in
    let env : Assoc String RegistryValue = elim (and_then as_object (get table "env")) [
      | none ↦ []
      | some fs ↦ plain_values fs
    ] in
    record {
      transport = if is_some url then TransportKind.http else TransportKind.stdio;
      command = and_then as_str (get table "command");
      args = string_list (get table "args");
      env = with_bearer (and_then as_str (get table "bearer_token_env_var")) env;
      url = url;
      headers = [];
      meta = default_meta;
    }

-- An item that is no table is passed over.
abbrev pub entry_from_item : Value → Option RegistryEntry
entry_from_item item = elim (as_object item) [
  | none ↦ none
  | some table ↦ some (entry_from_table table)
]

abbrev pub source_of : String → String
source_of original = if is_blank original then "" else original

abbrev pub detect : (String → Bool) → String → String → List TargetFile
detect exists root home =
    record { path = join_path home ".codex/config.toml"; scope = Scope.global } ∷ []

module _ (format : Format) where
  unfoldable pub inject_into : String → String → RegistryEntry → SyncResult String
  unfolding root_object table_or_insert set entry_table is_blank
  inject_into original name entry = do
    root ← format.parse true (source_of original)
    document ← root_object root
    servers ← table_or_insert document "mcp_servers"
    table ← entry_table entry
    ok (
        format.render (source_of original)
          (obj (set document "mcp_servers" (obj (set servers name table)))))

  unfoldable pub inject : String → String → RegistryEntry → SyncResult String
  unfolding inject_into
  inject original name entry = elim entry.transport [
    | TransportKind.sse ↦ err (SyncError.unsupported "codex:sse")
    | _ ↦ inject_into original name entry
  ]

  unfoldable pub rollback : String → String → SyncResult String
  unfolding root_object object remove set
  rollback modified name = do
    root ← format.parse true modified
    document ← root_object root
    ok (
        format.render modified (
          obj (elim (object document "mcp_servers") [
            | none ↦ document
            | some servers ↦
                let left = remove servers name in
                if is_empty left
                then remove document "mcp_servers"
                else set document "mcp_servers" (obj left)
          ])))

  unfoldable pub read_entries : String → SyncResult (Assoc String RegistryEntry)
  unfolding read_under entry_from_table is_blank
  read_entries original =
      if is_blank original
      then ok []
      else (format.parse true original >>= λ root.
          ok (read_under "mcp_servers" entry_from_item root))

  abbrev pub codex : Projector
  codex = record {
    target = TargetId.codex;
    detect = detect;
    inject = inject;
    rollback = rollback;
    read_entries = read_entries;
  }
