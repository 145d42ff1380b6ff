-- ===== src/Sync/Attachments/Grid.antt =====
-- What the cells of the grid say of the sessions.
use tethys.Prelude.{
  ◌*◌, String, Bool, true, false, some, List, [], ◌∷◌, ◌≡◌, refl, arith, length, length-append,
  if◌then◌else◌, string_eq,
}
use tethys.Schema.Connection.{NormalizedCapabilities}
use tethys.Schema.Sync.{McpTransports, TransportKind, RegistryEntry}
use tethys.Schema.Meta.{allows_provider}
use tethys.Sync.Session.{carries, server_of, session_servers}
use tethys.Sync.Attachments.{
  AttachmentState, ProviderInput, Server, supported, cell_state, row_cells, cells,
  compute_attachment_grid,
}

abbrev pub is_attached : AttachmentState → Bool
is_attached AttachmentState.attached = true
is_attached _ = false

-- The grid and a session go by the same transports.
supported-carries : (t : McpTransports) (k : TransportKind) → supported t k ≡ carries t k
supported-carries t TransportKind.stdio = refl
supported-carries t TransportKind.http = refl
supported-carries t TransportKind.sse = refl

-- For a connected provider with capabilities, and an entry that is meant for it: the cell says
-- attached just when a session with the transports that the provider advertised gets the server.
pub cell_state-session_servers :
    (name : String) (entry : RegistryEntry) (provider : ProviderInput)
    (caps : NormalizedCapabilities)
    → provider.capabilities ≡ some caps
    → provider.connected ≡ true
    → allows_provider entry.meta provider.id ≡ true
    → session_servers ((name, entry) ∷ []) caps.mcp
      ≡ (if is_attached (cell_state name entry provider) then server_of name entry ∷ [] else [])
unfolding cell_state session_servers
cell_state-session_servers name entry provider caps known connected allowed =
    ground (arith, known, connected, allowed, supported-carries caps.mcp entry.transport)

row_cells-length : (s : Server) (ps : List ProviderInput) → length (row_cells s ps) ≡ length ps
unfolding row_cells
row_cells-length s [] = refl
row_cells-length s (p ∷ ps) = ground (arith, row_cells-length s ps)

-- The grid has a cell for each server and provider.
pub length-cells :
    (servers : List Server) (providers : List ProviderInput)
    → length (compute_attachment_grid servers providers).cells ≡ length servers * length providers
unfolding compute_attachment_grid cells
length-cells [] providers = ground arith
length-cells (s ∷ ss) providers = ground (
  arith,
  length-append (row_cells s providers) (cells ss providers),
  row_cells-length s providers,
  length-cells ss providers,
)
