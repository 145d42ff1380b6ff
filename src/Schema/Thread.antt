-- ===== src/Schema/Thread.antt =====
-- crates/tethys-schema/src/thread.rs: threads, turns and the normalized event model. Text is the
-- native `String`; a `f64` is its 64-bit pattern, which nothing here computes with.
use tethys.Prelude.{ℕ, String, Bool, Option, List}

pub data ThreadState : Type 0 where
  idle running awaiting_approval error interrupted suspended archived : ThreadState

-- The three-state field of v2 patches.
pub data Patch {ℓ} (A : Type ℓ) : Type ℓ where
  unchanged : Patch A
  clear : Patch A
  set : A → Patch A

pub data StopReason : Type 0 where
  end_turn max_tokens stop_sequence refusal cancelled error : StopReason
  other : String → StopReason

pub data SessionState : Type 0 where
  running : SessionState
  idle : Option StopReason → SessionState
  requires_action : SessionState

pub data Role : Type 0 where
  user agent thought : Role

pub data ContentBlock : Type 0 where
  text : String → ContentBlock
  -- uri, name, mime_type
  resource_link : String → String → Option String → ContentBlock
  -- mime_type, data
  image : String → String → ContentBlock
  unknown : String → ContentBlock

pub record MessageUpsert : Type 0 where
  pub message_id : String
  pub role : Role
  pub content : Patch (List ContentBlock)

pub record MessageChunk : Type 0 where
  pub message_id : String
  pub role : Role
  pub block : ContentBlock

pub data ToolCallStatus : Type 0 where
  pending executing completed failed : ToolCallStatus

pub record ToolCallPatch : Type 0 where
  pub title : Option String
  pub kind : Option String
  pub status : Option ToolCallStatus
  pub input : Option String
  pub output : Option String
  pub locations : List String

pub data ToolCallContent : Type 0 where
  text : String → ToolCallContent
  -- path, patch
  diff : String → String → ToolCallContent
  terminal : String → ToolCallContent
  unknown : String → ToolCallContent

pub data PlanEntryPriority : Type 0 where
  high medium low : PlanEntryPriority

pub data PlanEntryStatus : Type 0 where
  pending in_progress completed : PlanEntryStatus

pub record PlanEntry : Type 0 where
  pub content : String
  pub priority : PlanEntryPriority
  pub status : PlanEntryStatus

pub record PlanContent : Type 0 where
  pub entries : List PlanEntry

pub record ConfigOption : Type 0 where
  pub id : String
  pub name : String
  pub description : Option String
  pub current_value : String
  pub values : List String

pub record AgentCommand : Type 0 where
  pub name : String
  pub description : Option String
  pub input : Option String

pub record UsageSnapshot : Type 0 where
  pub input_tokens : ℕ
  pub output_tokens : ℕ
  pub total_tokens : ℕ
  pub cost : Option ℕ

pub record SessionInfo : Type 0 where
  pub title : Option String
  pub updated_at : Option String

pub data PermissionSubject : Type 0 where
  command : String → PermissionSubject
  tool_call : String → PermissionSubject
  file : String → PermissionSubject
  unknown : String → PermissionSubject

pub record PermOption : Type 0 where
  pub option_id : String
  pub name : String
  pub kind : Option String

pub data PermOutcome : Type 0 where
  approved rejected cancelled : PermOutcome

pub data Decider : Type 0 where
  user policy : Decider

pub record PermissionRequested : Type 0 where
  pub req_id : String
  pub title : String
  pub description : Option String
  pub subject : Option PermissionSubject
  pub options : List PermOption

pub data WriteVia : Type 0 where
  acp_fs watcher : WriteVia

pub data CheckpointKind : Type 0 where
  turn_start turn_end manual : CheckpointKind

-- One v2-shaped stream for all agents.
pub data TurnEventBody : Type 0 where
  state_changed : SessionState → TurnEventBody
  message_upsert : MessageUpsert → TurnEventBody
  message_chunk : MessageChunk → TurnEventBody
  -- tool_call_id, patch
  tool_call_upsert : String → ToolCallPatch → TurnEventBody
  -- tool_call_id, item
  tool_call_content_chunk : String → ToolCallContent → TurnEventBody
  -- terminal_id, patch
  terminal_upsert : String → Patch String → TurnEventBody
  -- terminal_id, bytes
  terminal_output_chunk : String → String → TurnEventBody
  -- plan_id, plan
  plan_upsert : String → PlanContent → TurnEventBody
  config_options_changed : List ConfigOption → TurnEventBody
  commands_available : List AgentCommand → TurnEventBody
  session_info : SessionInfo → TurnEventBody
  usage : UsageSnapshot → TurnEventBody
  permission_requested : PermissionRequested → TurnEventBody
  -- req_id, outcome, decided_by
  permission_resolved : String → PermOutcome → Decider → TurnEventBody
  -- path, before, after, via
  file_write : String → Option String → String → WriteVia → TurnEventBody
  -- oid, kind
  checkpoint : String → CheckpointKind → TurnEventBody
  -- code, message, retryable
  error : String → String → Bool → TurnEventBody
  unknown : String → TurnEventBody

-- The latest state per message, tool call, plan, terminal, permission, or error.
pub data Entry : Type 0 where
  message : String → Role → List ContentBlock → Entry
  tool_call : String → ToolCallPatch → Entry
  plan : String → PlanContent → Entry
  terminal : String → String → Entry
  permission : String → PermissionRequested → Option PermOutcome → Entry
  -- code, message
  error : String → String → Entry

-- Stable identity of an entry.
unfoldable pub entry_id : Entry → String
entry_id (Entry.message i r bs) = i
entry_id (Entry.tool_call i p) = i
entry_id (Entry.plan i p) = i
entry_id (Entry.terminal i out) = i
entry_id (Entry.permission i q out) = i
entry_id (Entry.error c m) = "error"

pub record EventEnvelope : Type 0 where
  pub thread_id : String
  pub seq : ℕ
  pub event : TurnEventBody
