-- ===== src/Thread/Entries.antt =====
-- crates/tethys-thread/src/entries.rs: one event applied to the list of entries. A mutation through
-- `find_mut` changes the first entry of that id, in place.
pub mod Find
pub mod Kinds
pub mod Slots
pub mod Replay
pub mod Ids
use tethys.Prelude.{
  String, push_str, Bool, true, false, ◌&&◌, Option, none, some, List, [], ◌∷◌, ◌++◌, ◌==◌,
  string_eq, is_some, if◌then◌else◌, unwrap_or,
}
use tethys.Schema.Thread.{
  Patch, Role, ContentBlock, ToolCallPatch, ToolCallContent, PlanContent, PermissionRequested,
  PermOutcome, TurnEventBody, Entry, entry_id,
}

-- `find_mut`, as a look-up.
unfoldable pub find : List Entry → String → Option Entry
find [] id = none
find (e ∷ es) id = if entry_id e == id then some e else find es id

-- `find_mut`, as a place to write to.
unfoldable pub assign : List Entry → String → Entry → List Entry
assign [] id new = []
assign (e ∷ es) id new = if entry_id e == id then new ∷ es else e ∷ assign es id new

-- `match find_mut(entries, id)`: `change` mutates an entry of the right kind and is `none` at
-- another kind; `fresh` is pushed where there is no entry.
unfoldable pub upsert : (Entry → Option Entry) → Entry → List Entry → String → List Entry × Bool
unfolding find assign
upsert change fresh entries id = elim (find entries id) [
  | none ↦ (entries ++ fresh ∷ [], true)
  | some e ↦ elim (change e) [ none ↦ (entries, false) | some new ↦ (assign entries id new, true) ]
]

-- The same where a missing entry is left missing.
pub update : (Entry → Option Entry) → List Entry → String → List Entry × Bool
unfolding find assign
update change entries id = elim (find entries id) [
  | none ↦ (entries, false)
  | some e ↦ elim (change e) [ none ↦ (entries, false) | some new ↦ (assign entries id new, true) ]
]

-- `if replayed && find_mut(entries, id).is_some() { return false; }`
unfoldable pub unless_replayed :
    Bool → List Entry → String → (List Entry → String → List Entry × Bool) → List Entry × Bool
unfolding find
unless_replayed replayed entries id body =
    if replayed && is_some (find entries id) then (entries, false) else body entries id

-- `incoming` if it is there, else `existing`.
abbrev pub or_existing {ℓ} : {A : Type ℓ} → Option A → Option A → Option A
or_existing none existing = existing
or_existing (some a) existing = some a

merge_locations : List String → List String → List String
merge_locations [] existing = existing
merge_locations (l ∷ ls) existing = l ∷ ls

pub merge_tool_call : ToolCallPatch → ToolCallPatch → ToolCallPatch
unfolding merge_locations
merge_tool_call existing incoming = record {
  title = or_existing incoming.title existing.title;
  kind = or_existing incoming.kind existing.kind;
  status = or_existing incoming.status existing.status;
  input = or_existing incoming.input existing.input;
  output = or_existing incoming.output existing.output;
  locations = merge_locations incoming.locations existing.locations;
}

-- `Patch` read as the replacement, if any.
abbrev pub replacement {ℓ} : {A : Type ℓ} → A → Patch A → Option A
replacement blank Patch.unchanged = none
replacement blank Patch.clear = some blank
replacement blank (Patch.set a) = some a

unfoldable pub push_block : ContentBlock → Entry → Option Entry
push_block b (Entry.message i r bs) = some (Entry.message i r (bs ++ b ∷ []))
push_block b e = none

pub replace_blocks : Role → Option (List ContentBlock) → Entry → Option Entry
replace_blocks role new (Entry.message i r bs) = some (Entry.message i role (unwrap_or bs new))
replace_blocks role new e = none

pub merge_patch : ToolCallPatch → Entry → Option Entry
unfolding merge_tool_call
merge_patch p (Entry.tool_call i existing) = some (Entry.tool_call i (merge_tool_call existing p))
merge_patch p e = none

-- The text that a content chunk appends; `none` where the handler returns early.
chunk_text : ToolCallContent → Option String
chunk_text (ToolCallContent.text t) = some t
chunk_text (ToolCallContent.diff path p) = some p
chunk_text (ToolCallContent.terminal i) = none
chunk_text (ToolCallContent.unknown raw) = none

pub push_output : Option String → String → String
push_output none t = t
push_output (some out) t = push_str out t

pub append_output : ToolCallContent → Entry → Option Entry
unfolding chunk_text push_output
append_output item (Entry.tool_call i p) = elim (chunk_text item) [
  | none ↦ none
  | some t ↦ some (Entry.tool_call i (record p { output = some (push_output p.output t) }))
]
append_output item e = none

pub replace_plan : PlanContent → Entry → Option Entry
replace_plan new (Entry.plan i p) = some (Entry.plan i new)
replace_plan new e = none

pub replace_output : Option String → Entry → Option Entry
replace_output new (Entry.terminal i out) = some (Entry.terminal i (unwrap_or out new))
replace_output new e = none

pub push_bytes : String → Entry → Option Entry
push_bytes bytes (Entry.terminal i out) = some (Entry.terminal i (push_str out bytes))
push_bytes bytes e = none

pub replace_request : PermissionRequested → Entry → Option Entry
replace_request q (Entry.permission i old out) = some (Entry.permission i q out)
replace_request q e = none

pub record_outcome : PermOutcome → Entry → Option Entry
record_outcome o (Entry.permission i q out) = some (Entry.permission i q (some o))
record_outcome o e = none

pub replace_error : String → String → Entry → Option Entry
replace_error code reason (Entry.error c m) = some (Entry.error code reason)
replace_error code reason e = none

-- The new list, and whether it changed.
unfoldable pub apply_event : List Entry → TurnEventBody → Bool → List Entry × Bool
apply_event entries (TurnEventBody.message_chunk c) replayed =
    unless_replayed replayed entries c.message_id
      (upsert (push_block c.block) (Entry.message c.message_id c.role (c.block ∷ [])))
apply_event entries (TurnEventBody.message_upsert u) replayed =
    let new = replacement [] u.content in
    unless_replayed replayed entries u.message_id
      (upsert (replace_blocks u.role new) (Entry.message u.message_id u.role (unwrap_or [] new)))
apply_event entries (TurnEventBody.tool_call_upsert id p) replayed =
    unless_replayed replayed entries id (upsert (merge_patch p) (Entry.tool_call id p))
apply_event entries (TurnEventBody.tool_call_content_chunk id item) replayed =
    unless_replayed replayed entries id (update (append_output item))
apply_event entries (TurnEventBody.plan_upsert id p) replayed =
    unless_replayed replayed entries id (upsert (replace_plan p) (Entry.plan id p))
apply_event entries (TurnEventBody.terminal_upsert id p) replayed =
    let output = replacement "" p in
    unless_replayed replayed entries id
      (upsert (replace_output output) (Entry.terminal id (unwrap_or "" output)))
apply_event entries (TurnEventBody.terminal_output_chunk id bytes) replayed =
    unless_replayed replayed entries id (upsert (push_bytes bytes) (Entry.terminal id bytes))
apply_event entries (TurnEventBody.permission_requested q) replayed =
    unless_replayed replayed entries q.req_id
      (upsert (replace_request q) (Entry.permission q.req_id q none))
apply_event entries (TurnEventBody.permission_resolved id outcome by) replayed =
    if replayed then (entries, false) else update (record_outcome outcome) entries id
apply_event entries (TurnEventBody.error code reason retryable) replayed =
    unless_replayed replayed entries "error"
      (upsert (replace_error code reason) (Entry.error code reason))
apply_event entries _ replayed = (entries, false)
