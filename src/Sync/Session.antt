-- ===== src/Sync/Session.antt =====
-- crates/tethys-sync/src/session.rs: the servers of one session, with their secrets from the
-- keychain. `store` is what `SecretStore::get` answers.
pub mod Secrets
use Prim.Native.String
use text.Mathlib.Text.{starts_with}
use tethys.Prelude.{
  ℕ, String, Bool, true, false, Option, none, some, List, [], ◌∷◌, ◌++◌, if◌then◌else◌,
}
use tethys.Prelude.Assoc.{Assoc}
use tethys.Sync.Error.{SyncResult, ok, err, SyncError}
use tethys.Schema.Sync.{TransportKind, RegistryValue, RegistryEntry, McpTransports, SessionServer}

abbrev pub carries : McpTransports → TransportKind → Bool
carries t TransportKind.stdio = t.stdio
carries t TransportKind.http = t.http
carries t TransportKind.sse = t.sse

abbrev pub server_of : String → RegistryEntry → SessionServer
server_of name entry = record {
  name = name;
  transport = entry.transport;
  command = entry.command;
  args = entry.args;
  env = entry.env;
  url = entry.url;
  headers = entry.headers;
}

unfoldable pub session_servers : Assoc String RegistryEntry → McpTransports → List SessionServer
session_servers [] transports = []
session_servers ((name, entry) ∷ entries) transports =
    let rest = session_servers entries transports in
    if carries transports entry.transport then server_of name entry ∷ rest else rest

-- `strip_prefix`, of the prefix of a secret's reference.
unfoldable pub parse_secret_ref : String → Option String
parse_secret_ref reference =
    let account = String.slice reference (String.len "keychain:tethys/") (String.len reference) in
    if starts_with reference "keychain:tethys/"
    then elim account [ String.[] ↦ none | String.◌∷◌ c s ↦ some (String.◌∷◌ c s) ]
    else none

-- One value: what stands in its place, or that its reference is missing.
unfoldable pub resolve_value :
    (String → SyncResult (Option String)) → RegistryValue → SyncResult (RegistryValue × Bool)
unfolding parse_secret_ref
resolve_value store (RegistryValue.plain v) = ok (RegistryValue.plain v, false)
resolve_value store (RegistryValue.secret reference) = elim (parse_secret_ref reference) [
  | none ↦ ok (RegistryValue.secret reference, true)
  | some account ↦ elim (store account) [
    | err e ↦ err e
    | ok found ↦ elim found [
      | none ↦ ok (RegistryValue.secret reference, true)
      | some secret ↦ ok (RegistryValue.plain secret, false)
    ]
  ]
]

abbrev pub reference_of : RegistryValue → String
reference_of (RegistryValue.plain v) = ""
reference_of (RegistryValue.secret reference) = reference

-- The loop over the values of one map, with the references that are missing so far.
unfoldable pub resolve_values :
    (String → SyncResult (Option String))
    → Assoc String RegistryValue
    → List String
    → SyncResult (Assoc String RegistryValue × List String)
unfolding resolve_value
resolve_values store [] missing = ok ([], missing)
resolve_values store ((k, v) ∷ values) missing = elim (resolve_value store v) [
  | err e ↦ err e
  | ok (v', lost) ↦
      elim (resolve_values store values
        (if lost then missing ++ reference_of v ∷ [] else missing)) [
          | err e ↦ err e
          | ok (values', missing') ↦ ok ((k, v') ∷ values', missing')
        ]
]

-- The loop over the servers.
unfoldable pub resolve_servers :
    (String → SyncResult (Option String))
    → List SessionServer
    → List String
    → SyncResult (List SessionServer × List String)
unfolding resolve_values
resolve_servers store [] missing = ok ([], missing)
resolve_servers store (server ∷ servers) missing = elim (resolve_values store server.env missing) [
  | err e ↦ err e
  | ok (env, missing₁) ↦ elim (resolve_values store server.headers missing₁) [
    | err e ↦ err e
    | ok (headers, missing₂) ↦ elim (resolve_servers store servers missing₂) [
      | err e ↦ err e
      | ok (rest, missing₃) ↦ ok (record server { env = env; headers = headers } ∷ rest, missing₃)
    ]
  ]
]

unfoldable pub resolve_secrets :
    List SessionServer → (String → SyncResult (Option String)) → SyncResult (List SessionServer)
unfolding resolve_servers
resolve_secrets servers store = elim (resolve_servers store servers []) [
  | err e ↦ err e
  | ok (resolved, missing) ↦ elim missing [
    | [] ↦ ok resolved
    | m ∷ ms ↦ err (SyncError.missing_secrets (m ∷ ms))
  ]
]
