-- ===== src/Sync/Registry/Layers.antt =====
-- Which entry of the two layers is visible under a name.
use tethys.Prelude.{String, Bool, not, ◌&&◌, Option, List, string_eq, ◌≡◌, ap, ◌∙◌}
use tethys.Prelude.Assoc.{
  lookup, DistinctKeys, first_some, kept, retain, contains, lookup-retain, lookup-extend,
  extend-DistinctKeys,
}
use tethys.Schema.Sync.{TargetId, RegistryEntry}
use tethys.Schema.Meta.{allows}
use tethys.Sync.Registry.{Registry, layered, effective, effective_for_provider, allowed_for}

module _ (r : Registry) (global : DistinctKeys r.global.mcp_servers)
    (workspace : DistinctKeys r.workspace.mcp_servers) where
  -- The workspace's entry of a name, else the global one.
  abbrev pub layer : String → Option RegistryEntry
  layer name = first_some (lookup name r.workspace.mcp_servers) (lookup name r.global.mcp_servers)

  visible :
      (p : String → RegistryEntry → Bool) (name : String)
      → lookup name (retain p (layered r)) ≡ kept p name (layer name)
  unfolding layered
  visible p name =
      lookup-retain p name (layered r)
        (extend-DistinctKeys r.global.mcp_servers r.workspace.mcp_servers global)
      ∙ ap (kept p name) (lookup-extend name r.global.mcp_servers r.workspace.mcp_servers workspace)

  -- Under a name a provider's session sees the workspace's entry, else the global one, if that entry
  -- is enabled, meant for the provider and not disabled by name, and else nothing: an entry of the
  -- workspace that is not visible hides the global entry of its name.
  pub lookup-effective_for_provider :
      (provider_id : Option String) (disabled : List String) (name : String)
      → lookup name (effective_for_provider r provider_id disabled)
        ≡ kept
            (λ n e. e.meta.enabled && allowed_for provider_id e && not (contains disabled n))
            name
            (first_some (lookup name r.workspace.mcp_servers) (lookup name r.global.mcp_servers))
  unfolding effective_for_provider layered
  lookup-effective_for_provider provider_id disabled name =
      visible (λ n e. e.meta.enabled && allowed_for provider_id e && not (contains disabled n)) name

  -- The same for a target whose file is written.
  pub lookup-effective :
      (target : TargetId) (disabled : List String) (name : String)
      → lookup name (effective r target disabled)
        ≡ kept
            (λ n e. e.meta.enabled && allows e.meta target && not (contains disabled n))
            name
            (first_some (lookup name r.workspace.mcp_servers) (lookup name r.global.mcp_servers))
  unfolding effective layered
  lookup-effective target disabled name =
      visible (λ n e. e.meta.enabled && allows e.meta target && not (contains disabled n)) name
