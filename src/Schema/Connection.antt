-- ===== src/Schema/Connection.antt =====
-- crates/tethys-schema/src/connection.rs: the visible side of agent connections.
use tethys.Prelude.{
  ℕ, String, Bool, true, ◌&&◌, Option, Eq, ◌==◌, string_eq, ◌≡◌, ◌↔◌, arith, eq_iff,
}
use tethys.Schema.Sync.{McpTransports, ProjectionTarget}

pub data AcpProtocol : Type 0 where
  v1 v2 : AcpProtocol

pub data ConnectionState : Type 0 where
  connecting connected error draining : ConnectionState

pub record AgentInfo : Type 0 where
  pub name : String
  pub version : String
  pub title : Option String

pub record NormalizedCapabilities : Type 0 where
  pub load_session : Bool
  pub resume : Bool
  pub mcp : McpTransports
  pub prompt_embedded_context : Bool

pub record AgentCompat : Type 0 where
  pub preferred_protocol : Option AcpProtocol
  pub projection_target : Option ProjectionTarget

-- One connection per profile and host.
pub record ConnectionKey : Type 0 where
  pub profile_id : String
  pub host : String

abbrev pub key_beq : ConnectionKey → ConnectionKey → Bool
key_beq a b = a.profile_id == b.profile_id && a.host == b.host

pub key_beq_iff : (a b : ConnectionKey) → (key_beq a b ≡ true) ↔ (a ≡ b)
key_beq_iff a b = ground (arith, eq_iff a.profile_id b.profile_id, eq_iff a.host b.host)

instance abbrev pub key_eq : Eq ConnectionKey
key_eq = record { beq = key_beq; beq_iff = key_beq_iff }

pub record ConnectionEntry : Type 0 where
  pub key : ConnectionKey
  pub state : ConnectionState
  pub protocol : Option AcpProtocol
  pub info : Option AgentInfo
  pub capabilities : Option NormalizedCapabilities
  pub pid : Option ℕ
  pub restarts : ℕ
  pub stale : Bool
