-- ===== src/Sync/Projectors.antt =====
-- crates/tethys-sync/src/projectors/mod.rs: what a projector is, and the fields that they share.
pub mod ClaudeCode
pub mod Codex
pub mod OpenCode
pub mod Law
use tethys.Prelude.{
  String, push_str, Bool, true, false, not, ◌&&◌, ◌||◌, Option, none, some, List, [], ◌∷◌,
  string_eq, ◌==◌, if◌then◌else◌, is_some,
}
use tethys.Prelude.Assoc.{Assoc, insert}
use tethys.Prelude.Text.{strip_prefix, strip_suffix, before}
use tethys.Schema.Sync.{
  Scope, TargetId, TransportKind, RegistryValue, EntryMeta, RegistryEntry, secret_ref,
}
use tethys.Sync.Error.{SyncResult}
use tethys.Sync.Document.{
  Value, str, Fields, end, field, and_then, as_array, as_object, as_str, strings, object,
}

pub record TargetFile : Type 0 where
  pub path : String
  pub scope : Scope

-- `rollback` takes one entry out of a text. The paths that `detect` looks for are given by whether
-- a file is there, the root and the home.
pub record Projector : Type 0 where
  pub target : TargetId
  pub detect : (String → Bool) → String → String → List TargetFile
  pub inject : String → String → RegistryEntry → SyncResult String
  pub rollback : String → String → SyncResult String
  pub read_entries : String → SyncResult (Assoc String RegistryEntry)

-- `Path::join`, of a relative path.
abbrev pub join_path : String → String → String
join_path dir name = push_str dir (push_str "/" name)

abbrev pub default_meta : EntryMeta
default_meta = record {
  scope = none;
  providers = none;
  targets = none;
  enabled = true;
  legacy = false;
}

unfoldable pub claude_ref : String → RegistryValue → String
claude_ref key (RegistryValue.plain text) = text
claude_ref key (RegistryValue.secret reference) = push_str "${" (push_str key "}")

unfoldable pub opencode_ref : String → RegistryValue → String
opencode_ref key (RegistryValue.plain text) = text
opencode_ref key (RegistryValue.secret reference) = push_str "{env:" (push_str key "}")

-- The first secret-valued key.
unfoldable pub secret_env_key : Assoc String RegistryValue → Option String
secret_env_key [] = none
secret_env_key ((key, value) ∷ env) =
    let rest = secret_env_key env in if is_some (secret_ref value) then some key else rest

abbrev pub keychain : String → RegistryValue
keychain name = RegistryValue.secret (push_str "keychain:tethys/" name)

-- The text between a prefix and a suffix.
unfoldable pub between : String → String → String → Option String
unfolding strip_prefix strip_suffix
between start stop text = and_then (strip_suffix stop) (strip_prefix start text)

unfoldable pub import_value : String → RegistryValue
unfolding between before
import_value text = elim (between "${" "}" text) [
  | some inner ↦ keychain (before ":-" inner)
  | none ↦ elim (between "{env:" "}" text) [
    | some inner ↦ keychain inner
    | none ↦ RegistryValue.plain text
  ]
]

unfoldable pub infer_transport : Option String → Bool → Bool → TransportKind
infer_transport none has_url has_command =
    if has_url && not has_command then TransportKind.http else TransportKind.stdio
infer_transport (some explicit) has_url has_command =
    if explicit == "http" || explicit == "remote"
    then TransportKind.http
    else if explicit == "sse"
    then TransportKind.sse
    else if explicit == "stdio" || explicit == "local"
    then TransportKind.stdio
    else if has_url && not has_command
    then TransportKind.http
    else TransportKind.stdio

unfoldable pub string_list : Option Value → List String
unfolding strings
string_list value = elim (and_then as_array value) [ none ↦ [] | some items ↦ strings items ]

unfoldable pub values_of : Fields → Assoc String RegistryValue
unfolding import_value
values_of end = []
values_of (field key item fs) =
    let rest = values_of fs in
    elim (as_str item) [ none ↦ rest | some text ↦ (key, import_value text) ∷ rest ]

unfoldable pub string_map : Option Value → Assoc String RegistryValue
unfolding values_of
string_map value = elim (and_then as_object value) [ none ↦ [] | some fs ↦ values_of fs ]

-- The fields of a map of values, written by one of the two forms of a reference.
unfoldable pub refs : (String → RegistryValue → String) → Assoc String RegistryValue → Fields
refs ref [] = end
refs ref ((key, value) ∷ values) = field key (str (ref key value)) (refs ref values)

abbrev pub unless_empty : Assoc String RegistryValue → Fields → Fields → Fields
unless_empty [] fields none_left = none_left
unless_empty (v ∷ vs) fields none_left = fields

-- The entries of an object, by name: a later one of the same name replaces an earlier.
unfoldable pub entries_of :
    (Value → Option RegistryEntry)
    → Fields
    → Assoc String RegistryEntry
    → Assoc String RegistryEntry
unfolding insert
entries_of decode end entries = entries
entries_of decode (field name value fs) entries =
    entries_of decode fs (elim (decode value) [ none ↦ entries | some e ↦ insert name e entries ])

-- The entries under one key of a document, if an object is there.
unfoldable pub read_under :
    String → (Value → Option RegistryEntry) → Value → Assoc String RegistryEntry
unfolding object entries_of
read_under key decode root = elim (and_then (λ fs. object fs key) (as_object root)) [
  | none ↦ []
  | some servers ↦ entries_of decode servers []
]
