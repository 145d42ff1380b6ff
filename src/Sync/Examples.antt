-- ===== src/Sync/Examples.antt =====
-- Tests of the registry and of sessions, and the theorems at concrete inputs.
use tethys.Prelude.{
  String, true, false, not, ◌&&◌, Option, none, some, List, [], ◌∷◌, ◌≡◌, refl, string_eq,
  if◌then◌else◌,
}
use tethys.Prelude.Assoc.{lookup, first_some, kept, contains}
use tethys.Schema.Connection.{NormalizedCapabilities}
use tethys.Schema.Sync.{TransportKind, RegistryValue, EntryMeta, RegistryEntry, SessionServer}
use tethys.Schema.Meta.{allows_provider}
use tethys.Sync.Registry.{Registry, allowed_for, effective_for_provider}
use tethys.Sync.Registry.Layers.{lookup-effective_for_provider}
use tethys.Sync.Error.{SyncError, ok, err}
use tethys.Sync.Session.{
  parse_secret_ref, resolve_value, resolve_values, resolve_servers, resolve_secrets, server_of,
  session_servers,
}
use tethys.Sync.Session.Secrets.{
  all_or_none, unknown_servers, revealed_servers, resolve_secrets-all_or_none,
}
use tethys.Sync.Attachments.{ProviderInput, cell_state}
use tethys.Sync.Attachments.Grid.{is_attached, cell_state-session_servers}

abbrev meta : EntryMeta
meta = record { scope = none; providers = none; targets = none; enabled = true; legacy = false }

abbrev linear : RegistryEntry
linear = record {
  transport = TransportKind.http;
  command = none;
  args = [];
  env = [];
  url = some "https://mcp.linear.app";
  headers = ("Authorization", RegistryValue.secret "keychain:tethys/linear") ∷ [];
  meta = meta;
}

abbrev off : RegistryEntry
off = record linear { meta = record meta { enabled = false } }

abbrev layers : Registry
layers = record {
  global = record { version = 2; mcp_servers = ("linear", linear) ∷ [] };
  workspace = record { version = 2; mcp_servers = ("linear", off) ∷ [] };
}

lookup-effective_for_provider_example :
    lookup "linear" (effective_for_provider layers none [])
    ≡ kept {K = String}
        (λ n e. e.meta.enabled && allowed_for none e && not (contains [] n))
        "linear"
        (first_some
          (lookup "linear" layers.workspace.mcp_servers)
          (lookup "linear" layers.global.mcp_servers))
unfolding lookup
lookup-effective_for_provider_example =
    lookup-effective_for_provider layers (refl, tt) (refl, tt) none [] "linear"

abbrev keychain : String → Option String
keychain account = some "token"

abbrev servers : List SessionServer
servers = server_of "linear" linear ∷ []

abbrev opened : List SessionServer
opened =
    record (server_of "linear" linear) {
      headers = ("Authorization", RegistryValue.plain "token") ∷ [];
    }
    ∷ []

resolve_secrets-all_or_none_example :
    resolve_secrets servers (λ account. ok (keychain account))
    ≡ all_or_none keychain (unknown_servers keychain servers) (revealed_servers keychain servers)
resolve_secrets-all_or_none_example = resolve_secrets-all_or_none keychain servers

missing_listed :
    resolve_secrets servers (λ account. ok none)
    ≡ err (SyncError.missing_secrets ("keychain:tethys/linear" ∷ []))
unfolding resolve_secrets resolve_servers resolve_values resolve_value parse_secret_ref
missing_listed = refl

abbrev caps : NormalizedCapabilities
caps = record {
  load_session = true;
  resume = true;
  mcp = record { stdio = true; http = true; sse = false };
  prompt_embedded_context = false;
}

abbrev codex : ProviderInput
codex = record {
  id = "codex";
  name = "Codex";
  connected = true;
  capabilities = some caps;
  projection_target = none;
  projection_states = [];
}

cell_state-session_servers_example : session_servers (("linear", linear) ∷ []) caps.mcp ≡ (
    if is_attached (cell_state "linear" linear codex) then server_of "linear" linear ∷ [] else [])
unfolding allows_provider
cell_state-session_servers_example =
    cell_state-session_servers "linear" linear codex caps refl refl refl
