-- ===== src/Thread/Entries/Slots.antt =====
-- The entry list as a store with one slot for each id, and what one event does to a slot.
use tethys.Prelude.{
  String, push_str, ◌≡◌, refl, sym, ap, Bool, true, false, Option, none, some, List, [], ◌∷◌, ◌++◌,
  arith, ◌==◌, string_eq, eq_iff, is_some, if◌then◌else◌, ◌&&◌,
}
use tethys.Schema.Thread.{Patch, ToolCallContent, TurnEventBody, Entry, entry_id}
use tethys.Thread.Entries.{
  find, replacement, upsert, update, unless_replayed, apply_event, merge_tool_call, push_block,
  replace_blocks, merge_patch, append_output, replace_plan, replace_output, push_bytes,
  replace_request, record_outcome, replace_error, push_output,
}
use tethys.Thread.Entries.Kinds.{
  push_block-KeepsId, replace_blocks-KeepsId, merge_patch-KeepsId, append_output-KeepsId,
  replace_plan-KeepsId, replace_output-KeepsId, push_bytes-KeepsId, replace_request-KeepsId,
  record_outcome-KeepsId, replace_error-KeepsId,
}
use tethys.Thread.Entries.Find.{KeepsId, find-upsert, find-update, upserted, updated, changed}

-- The id that an event writes to.
unfoldable pub event_id : TurnEventBody → Option String
event_id (TurnEventBody.message_chunk c) = some c.message_id
event_id (TurnEventBody.message_upsert u) = some u.message_id
event_id (TurnEventBody.tool_call_upsert id p) = some id
event_id (TurnEventBody.tool_call_content_chunk id item) = some id
event_id (TurnEventBody.plan_upsert id p) = some id
event_id (TurnEventBody.terminal_upsert id p) = some id
event_id (TurnEventBody.terminal_output_chunk id bytes) = some id
event_id (TurnEventBody.permission_requested q) = some q.req_id
event_id (TurnEventBody.permission_resolved id outcome by) = some id
event_id (TurnEventBody.error code reason retryable) = some "error"
event_id _ = none

-- An empty slot after a live event.
unfoldable pub created : TurnEventBody → Option Entry
created (TurnEventBody.message_chunk c) = some (Entry.message c.message_id c.role (c.block ∷ []))
created (TurnEventBody.message_upsert u) =
    some (Entry.message u.message_id u.role (elim u.content [ Patch.set bs ↦ bs | _ ↦ [] ]))
created (TurnEventBody.tool_call_upsert id p) = some (Entry.tool_call id p)
created (TurnEventBody.plan_upsert id p) = some (Entry.plan id p)
created (TurnEventBody.terminal_upsert id p) =
    some (Entry.terminal id (elim p [ Patch.set t ↦ t | _ ↦ "" ]))
created (TurnEventBody.terminal_output_chunk id bytes) = some (Entry.terminal id bytes)
created (TurnEventBody.permission_requested q) = some (Entry.permission q.req_id q none)
created (TurnEventBody.error code reason retryable) = some (Entry.error code reason)
created _ = none

-- A filled slot after a live event. An event of another kind than the entry leaves it alone.
unfoldable pub revised : TurnEventBody → Entry → Entry
revised (TurnEventBody.message_chunk c) (Entry.message i r bs) =
    Entry.message i r (bs ++ c.block ∷ [])
revised (TurnEventBody.message_upsert u) (Entry.message i r bs) =
    Entry.message i u.role
      (elim u.content [ Patch.unchanged ↦ bs | Patch.clear ↦ [] | Patch.set new ↦ new ])
revised (TurnEventBody.tool_call_upsert id p) (Entry.tool_call i old) =
    Entry.tool_call i (merge_tool_call old p)
revised (TurnEventBody.tool_call_content_chunk id (ToolCallContent.text t)) (Entry.tool_call i p) =
    Entry.tool_call i (record p { output = some (push_output p.output t) })
revised (TurnEventBody.tool_call_content_chunk id (ToolCallContent.diff path t))
      (Entry.tool_call i p) =
    Entry.tool_call i (record p { output = some (push_output p.output t) })
revised (TurnEventBody.plan_upsert id p) (Entry.plan i old) = Entry.plan i p
revised (TurnEventBody.terminal_upsert id p) (Entry.terminal i out) =
    Entry.terminal i (elim p [ Patch.unchanged ↦ out | Patch.clear ↦ "" | Patch.set new ↦ new ])
revised (TurnEventBody.terminal_output_chunk id bytes) (Entry.terminal i out) =
    Entry.terminal i (push_str out bytes)
revised (TurnEventBody.permission_requested q) (Entry.permission i old out) =
    Entry.permission i q out
revised (TurnEventBody.permission_resolved id outcome by) (Entry.permission i q out) =
    Entry.permission i q (some outcome)
revised (TurnEventBody.error code reason retryable) (Entry.error c m) = Entry.error code reason
revised _ e = e

-- One slot after one event: a replayed event may only fill an empty slot.
unfoldable pub slot_after : TurnEventBody → Bool → Option Entry → Option Entry
unfolding created revised
slot_after ev replayed none = created ev
slot_after ev true (some e) = some e
slot_after ev false (some e) = some (revised ev e)

-- The slot of `j` after an event that writes to the slot of `i`, if to any.
unfoldable pub slots_after : TurnEventBody → Bool → List Entry → String → Option Entry
unfolding event_id slot_after
slots_after ev replayed es j = elim (event_id ev) [
  | none ↦ find es j
  | some i ↦ if i == j then slot_after ev replayed (find es i) else find es j
]

module _ (ev : TurnEventBody) (change : Entry → Option Entry) where
  -- `change` is what the event does to a filled slot.
  abbrev Revises : Type 0
  Revises = (e : Entry) → changed change e ≡ revised ev e

  slot-upserted :
      (fresh : Entry)
      → created ev ≡ some fresh
      → Revises
      → (replayed : Bool) (o : Option Entry)
      → (if replayed && is_some o then o else upserted change fresh o) ≡ slot_after ev replayed o
  unfolding slot_after
  slot-upserted fresh c r true none = sym c
  slot-upserted fresh c r false none = sym c
  slot-upserted fresh c r true (some e) = refl
  slot-upserted fresh c r false (some e) = ap some (r e)

  slot-updated :
      created ev ≡ none
      → Revises
      → (replayed : Bool) (o : Option Entry)
      → (if replayed && is_some o then o else updated change o) ≡ slot_after ev replayed o
  unfolding slot_after
  slot-updated c r true none = sym c
  slot-updated c r false none = sym c
  slot-updated c r true (some e) = refl
  slot-updated c r false (some e) = ap some (r e)

module _ (ev : TurnEventBody) (change : Entry → Option Entry) (keeps : KeepsId change)
    (revises : Revises ev change) (es : List Entry) (replayed : Bool) where
  upserts :
      (fresh : Entry) (i j : String)
      → entry_id fresh ≡ i
      → created ev ≡ some fresh
      → find (unless_replayed replayed es i (upsert change fresh)).0 j
        ≡ (if i == j then slot_after ev replayed (find es i) else find es j)
  unfolding unless_replayed
  upserts fresh i j h c =
      rw (← slot-upserted ev change fresh c revises replayed (find es i))
        (ground (arith, eq_iff i j, find-upsert change keeps es fresh i j h))

  updates :
      (i j : String)
      → created ev ≡ none
      → find (unless_replayed replayed es i (update change)).0 j
        ≡ (if i == j then slot_after ev replayed (find es i) else find es j)
  unfolding unless_replayed
  updates i j c =
      rw (← slot-updated ev change c revises replayed (find es i))
        (ground (arith, eq_iff i j, find-update change keeps es i j))

-- After one event, live or replayed, the slot of every id is what `slots_after` says: the slot of
-- the event's id moves as `created` and `revised` describe, unless the event is a replay and the
-- slot is filled, and every other slot stays as it was.
pub find-apply_event :
    (es : List Entry) (ev : TurnEventBody) (replayed : Bool) (j : String)
    → find (apply_event es ev replayed).0 j ≡ slots_after ev replayed es j
unfolding apply_event slots_after entry_id push_block replace_blocks merge_patch append_output
    replace_plan replace_output push_bytes replace_request record_outcome replace_error revised
    created unless_replayed
find-apply_event es (TurnEventBody.message_chunk c) replayed j =
    upserts (TurnEventBody.message_chunk c) (push_block c.block) (push_block-KeepsId c.block)
      (λ e. ground arith) es replayed _ c.message_id j refl refl
find-apply_event es (TurnEventBody.message_upsert u) replayed j =
    upserts (TurnEventBody.message_upsert u) (replace_blocks u.role (replacement [] u.content))
      (replace_blocks-KeepsId u.role (replacement [] u.content)) (λ e. ground arith) es replayed _
      u.message_id j refl (ground arith)
find-apply_event es (TurnEventBody.tool_call_upsert id p) replayed j =
    upserts (TurnEventBody.tool_call_upsert id p) (merge_patch p) (merge_patch-KeepsId p)
      (λ e. ground arith) es replayed _ id j refl refl
find-apply_event es (TurnEventBody.tool_call_content_chunk id item) replayed j =
    updates (TurnEventBody.tool_call_content_chunk id item) (append_output item)
      (append_output-KeepsId item) (λ e. ground arith) es replayed id j refl
find-apply_event es (TurnEventBody.plan_upsert id p) replayed j =
    upserts (TurnEventBody.plan_upsert id p) (replace_plan p) (replace_plan-KeepsId p)
      (λ e. ground arith) es replayed _ id j refl refl
find-apply_event es (TurnEventBody.terminal_upsert id p) replayed j =
    upserts (TurnEventBody.terminal_upsert id p) (replace_output (replacement "" p))
      (replace_output-KeepsId (replacement "" p)) (λ e. ground arith) es replayed _ id j refl
      (ground arith)
find-apply_event es (TurnEventBody.terminal_output_chunk id bytes) replayed j =
    upserts (TurnEventBody.terminal_output_chunk id bytes) (push_bytes bytes)
      (push_bytes-KeepsId bytes) (λ e. ground arith) es replayed _ id j refl refl
find-apply_event es (TurnEventBody.permission_requested q) replayed j =
    upserts (TurnEventBody.permission_requested q) (replace_request q) (replace_request-KeepsId q)
      (λ e. ground arith) es replayed _ q.req_id j refl refl
find-apply_event es (TurnEventBody.error code reason retryable) replayed j =
    upserts (TurnEventBody.error code reason retryable) (replace_error code reason)
      (replace_error-KeepsId code reason) (λ e. ground arith) es replayed _ "error" j refl refl
find-apply_event es (TurnEventBody.permission_resolved id outcome by) true j =
    ground (arith, eq_iff id j)
find-apply_event es (TurnEventBody.permission_resolved id outcome by) false j =
    updates (TurnEventBody.permission_resolved id outcome by) (record_outcome outcome)
      (record_outcome-KeepsId outcome) (λ e. ground arith) es false id j refl
find-apply_event es _ replayed j = refl
