-- ===== src/Schema/Sync.antt =====
-- crates/tethys-schema/src/sync.rs: registry entries, targets and transports. A `BTreeMap` is an
-- association list.
use tethys.Prelude.{
  ◌≡◌, refl, String, Bool, Option, none, some, List, ◌==◌, ◌||◌, string_eq, if◌then◌else◌,
}
use tethys.Prelude.Assoc.{Assoc}

pub data ProjectionTarget : Type 0 where
  claude_code codex open_code : ProjectionTarget

pub data TargetId : Type 0 where
  session claude_code codex open_code : TargetId

unfoldable pub as_str : TargetId → String
as_str TargetId.session = "session"
as_str TargetId.claude_code = "claude-code"
as_str TargetId.codex = "codex"
as_str TargetId.open_code = "opencode"

unfoldable pub parse : String → Option TargetId
parse value =
    if value == "session"
    then some TargetId.session
    else if value == "claude-code"
    then some TargetId.claude_code
    else if value == "codex"
    then some TargetId.codex
    else if value == "opencode"
    then some TargetId.open_code
    else none

pub data TransportKind : Type 0 where
  stdio http sse : TransportKind

unfoldable pub transport_str : TransportKind → String
transport_str TransportKind.stdio = "stdio"
transport_str TransportKind.http = "http"
transport_str TransportKind.sse = "sse"

pub data Scope : Type 0 where
  global workspace : Scope

unfoldable pub scope_str : Scope → String
scope_str Scope.global = "global"
scope_str Scope.workspace = "workspace"

unfoldable pub parse_scope : String → Option Scope
parse_scope value =
    if value == "global"
    then some Scope.global
    else if value == "workspace" || value == "project"
    then some Scope.workspace
    else none

pub data RegistryValue : Type 0 where
  plain : String → RegistryValue
  secret : String → RegistryValue

abbrev pub as_plain : RegistryValue → Option String
as_plain (RegistryValue.plain value) = some value
as_plain (RegistryValue.secret reference) = none

abbrev pub secret_ref : RegistryValue → Option String
secret_ref (RegistryValue.plain value) = none
secret_ref (RegistryValue.secret reference) = some reference

pub record EntryMeta : Type 0 where
  pub scope : Option Scope
  pub providers : Option (List String)
  pub targets : Option (List TargetId)
  pub enabled : Bool
  pub legacy : Bool

pub record RegistryEntry : Type 0 where
  pub transport : TransportKind
  pub command : Option String
  pub args : List String
  pub env : Assoc String RegistryValue
  pub url : Option String
  pub headers : Assoc String RegistryValue
  pub meta : EntryMeta

pub record McpTransports : Type 0 where
  pub stdio : Bool
  pub http : Bool
  pub sse : Bool

pub record SessionServer : Type 0 where
  pub name : String
  pub transport : TransportKind
  pub command : Option String
  pub args : List String
  pub env : Assoc String RegistryValue
  pub url : Option String
  pub headers : Assoc String RegistryValue

pub parse-as_str : (target : TargetId) → parse (as_str target) ≡ some target
unfolding parse as_str
parse-as_str TargetId.claude_code = refl
parse-as_str TargetId.codex = refl
parse-as_str TargetId.open_code = refl
parse-as_str TargetId.session = refl

pub parse_scope-scope_str : (scope : Scope) → parse_scope (scope_str scope) ≡ some scope
unfolding parse_scope scope_str
parse_scope-scope_str Scope.global = refl
parse_scope-scope_str Scope.workspace = refl
