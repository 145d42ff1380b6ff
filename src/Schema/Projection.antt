-- ===== src/Schema/Projection.antt =====
-- crates/tethys-schema/src/sync.rs: what the projections of the registry and the imports exchange.
use tethys.Prelude.{String, Bool, List}
use tethys.Prelude.Assoc.{Assoc}
use tethys.Schema.Sync.{Scope, TargetId, RegistryEntry}

pub data EntryState : Type 0 where
  pending in_sync drifted conflict unsupported : EntryState

pub record EntryProjection : Type 0 where
  pub name : String
  pub state : EntryState
  pub projected : Bool
  pub notes : List String

pub record ProjectionPlan : Type 0 where
  pub target : TargetId
  pub path : String
  pub scope : Scope
  pub base_hash : String
  pub created : Bool
  pub diff : String
  pub content : String
  pub entries : List EntryProjection
  pub providers : List String

pub record Applied : Type 0 where
  pub target : TargetId
  pub path : String
  pub scope : Scope
  pub file_hash : String
  pub created : Bool
  pub entries : Assoc String String

pub data VerifyStatus : Type 0 where
  in_sync drifted missing : VerifyStatus

pub record ImportCandidate : Type 0 where
  pub name : String
  pub entry : RegistryEntry
  pub source_path : String
  pub scope : Scope
  pub conflict : Bool

pub record ImportFailure : Type 0 where
  pub source_path : String
  pub message : String

pub record ImportScan : Type 0 where
  pub candidates : List ImportCandidate
  pub failures : List ImportFailure
