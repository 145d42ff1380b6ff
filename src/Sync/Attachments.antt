-- ===== src/Sync/Attachments.antt =====
-- crates/tethys-sync/src/attachments.rs: which server reaches which provider, and how.
pub mod Grid
use tethys.Prelude.{
  String, Bool, true, false, not, ◌||◌, Option, none, some, List, [], ◌∷◌, ◌++◌, map, string_eq,
  if◌then◌else◌, unwrap_or,
}
use tethys.Prelude.Assoc.{Assoc, lookup}
use tethys.Schema.Connection.{NormalizedCapabilities}
use tethys.Schema.Projection.{EntryState}
use tethys.Schema.Sync.{ProjectionTarget, TransportKind, Scope, RegistryEntry, McpTransports}
use tethys.Schema.Meta.{allows_provider}

pub data AttachmentState : Type 0 where
  attached : AttachmentState
  unsupported_transport : TransportKind → AttachmentState
  file_projection : ProjectionTarget → EntryState → AttachmentState
  excluded not_negotiated : AttachmentState

pub record ServerRow : Type 0 where
  pub name : String
  pub transport : TransportKind
  pub scope : Scope

pub record ProviderColumn : Type 0 where
  pub id : String
  pub name : String
  pub connected : Bool
  pub target : Option ProjectionTarget

pub record AttachmentCell : Type 0 where
  pub server_name : String
  pub provider_id : String
  pub state : AttachmentState

pub record AttachmentGrid : Type 0 where
  pub servers : List ServerRow
  pub providers : List ProviderColumn
  pub cells : List AttachmentCell

pub record ProviderInput : Type 0 where
  pub id : String
  pub name : String
  pub connected : Bool
  pub capabilities : Option NormalizedCapabilities
  pub projection_target : Option ProjectionTarget
  pub projection_states : Assoc String EntryState

abbrev pub supported : McpTransports → TransportKind → Bool
supported mcp TransportKind.stdio = mcp.stdio
supported mcp TransportKind.http = mcp.http
supported mcp TransportKind.sse = mcp.sse

unfoldable pub cell_state : String → RegistryEntry → ProviderInput → AttachmentState
unfolding allows_provider lookup
cell_state server_name server provider =
    if not (allows_provider server.meta provider.id)
    then AttachmentState.excluded
    else elim provider.capabilities [
      | none ↦ AttachmentState.not_negotiated
      | some caps ↦
          if not provider.connected
          then AttachmentState.not_negotiated
          else if not (caps.mcp.stdio || caps.mcp.http || caps.mcp.sse)
          then elim provider.projection_target [
            | some target ↦
                AttachmentState.file_projection target
                  (unwrap_or EntryState.pending (lookup server_name provider.projection_states))
            | none ↦ AttachmentState.unsupported_transport server.transport
          ]
          else if supported caps.mcp server.transport
          then AttachmentState.attached
          else AttachmentState.unsupported_transport server.transport
    ]

abbrev pub Server : Type 0
Server = String × RegistryEntry × Scope

unfoldable pub row_cells : Server → List ProviderInput → List AttachmentCell
unfolding cell_state
row_cells (name, entry, scope) [] = []
row_cells (name, entry, scope) (p ∷ ps) =
    record { server_name = name; provider_id = p.id; state = cell_state name entry p }
    ∷ row_cells (name, entry, scope) ps

unfoldable pub cells : List Server → List ProviderInput → List AttachmentCell
unfolding row_cells
cells [] providers = []
cells (s ∷ ss) providers = row_cells s providers ++ cells ss providers

abbrev server_row : Server → ServerRow
server_row (name, entry, scope) = record { name = name; transport = entry.transport; scope = scope }

abbrev provider_column : ProviderInput → ProviderColumn
provider_column p = record {
  id = p.id;
  name = p.name;
  connected = p.connected;
  target = p.projection_target;
}

unfoldable pub compute_attachment_grid : List Server → List ProviderInput → AttachmentGrid
unfolding cells
compute_attachment_grid servers providers = record {
  servers = map server_row servers;
  providers = map provider_column providers;
  cells = cells servers providers;
}
