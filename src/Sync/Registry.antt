-- ===== src/Sync/Registry.antt =====
-- crates/tethys-sync/src/registry.rs: the global registry, and the workspace's over it. The files
-- are read and written by `serde_json`; here are the entries once read. The order of a `BTreeMap`,
-- by name, is left out: an association list keeps the order of insertion.
pub mod Layers
use tethys.Prelude.{
  String, Bool, true, false, not, ◌&&◌, Option, none, some, List, [], ◌∷◌, string_eq, map, ℕ,
}
use tethys.Prelude.Assoc.{Assoc, lookup, insert, extend, retain, contains}
use tethys.Schema.Sync.{Scope, TargetId, RegistryEntry}
use tethys.Schema.Meta.{allows, allows_provider}

abbrev pub registry_version : ℕ
registry_version = 2

pub record RegistryFile : Type 0 where
  pub version : ℕ
  pub mcp_servers : Assoc String RegistryEntry

abbrev pub empty_file : RegistryFile
empty_file = record { version = registry_version; mcp_servers = [] }

pub record Registry : Type 0 where
  pub global : RegistryFile
  pub workspace : RegistryFile

unfoldable pub layered : Registry → Assoc String RegistryEntry
unfolding extend
layered r = extend r.global.mcp_servers r.workspace.mcp_servers

abbrev pub allowed_for : Option String → RegistryEntry → Bool
allowed_for none entry = true
allowed_for (some provider_id) entry = allows_provider entry.meta provider_id

unfoldable pub effective : Registry → TargetId → List String → Assoc String RegistryEntry
unfolding layered retain allows contains
effective r target disabled =
    retain
      (λ name entry. entry.meta.enabled && allows entry.meta target && not (contains disabled name))
      (layered r)

unfoldable pub effective_for_provider :
    Registry → Option String → List String → Assoc String RegistryEntry
unfolding layered retain allows_provider contains
effective_for_provider r provider_id disabled =
    retain
      (λ name entry.
        entry.meta.enabled && allowed_for provider_id entry && not (contains disabled name))
      (layered r)

abbrev scoped : Scope → Assoc String RegistryEntry → Assoc String (Scope × RegistryEntry)
scoped scope m = map (λ (p : String × RegistryEntry). (p.0, (scope, p.1))) m

unfoldable pub merged : Registry → Assoc String (Scope × RegistryEntry)
unfolding extend
merged r =
    extend (scoped Scope.global r.global.mcp_servers)
      (scoped Scope.workspace r.workspace.mcp_servers)
