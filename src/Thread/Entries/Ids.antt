-- ===== src/Thread/Entries/Ids.antt =====
-- The ids of the entries: distinct, and in the order of their creation.
use tethys.Prelude.{
  String, ◌≡◌, refl, sym, inl, inr, ◌∙◌, Bool, true, false, Option, none, some, List, [], ◌∷◌, ◌++◌,
  arith, ◌==◌, string_eq, eq_iff, is_some, if◌then◌else◌, append-nil,
}
use tethys.Schema.Thread.{TurnEventBody, Entry, entry_id}
use tethys.Thread.Entries.{
  find, replacement, unless_replayed, upsert, update, apply_event, push_block, replace_blocks,
  merge_patch, append_output, replace_plan, replace_output, push_bytes, replace_request,
  record_outcome, replace_error,
}
use tethys.Thread.Entries.Find.{KeepsId, ids, ids-upsert, ids-update}
use tethys.Thread.Entries.Kinds.{
  push_block-KeepsId, replace_blocks-KeepsId, merge_patch-KeepsId, append_output-KeepsId,
  replace_plan-KeepsId, replace_output-KeepsId, push_bytes-KeepsId, replace_request-KeepsId,
  record_outcome-KeepsId, replace_error-KeepsId,
}
use tethys.Thread.Entries.Slots.{event_id, created}
use tethys.Thread.Entries.Replay.{missing, missing_cases}

module _ (es : List Entry) (replayed : Bool) (change : Entry → Option Entry)
    (keeps : KeepsId change) where
  upserts :
      (ev : TurnEventBody) (fresh : Entry) (i : String)
      → event_id ev ≡ some i
      → created ev ≡ some fresh
      → entry_id fresh ≡ i
      → ids (unless_replayed replayed es i (upsert change fresh)).0 ≡ ids es ++ ids (missing ev es)
  unfolding unless_replayed missing
  upserts ev fresh i e c h =
      ground (arith, ids-upsert change keeps es fresh i h, append-nil (ids es))

  updates : (i : String) → ids (unless_replayed replayed es i (update change)).0 ≡ ids es
  unfolding unless_replayed
  updates i = ground (arith, ids-update change keeps es i)

missing-none : (ev : TurnEventBody) (es : List Entry) → created ev ≡ none → missing ev es ≡ []
unfolding missing
missing-none ev es c = ground arith

nothing_new :
    (ev : TurnEventBody) (es : List Entry)
    → created ev ≡ none
    → ids es ≡ ids es ++ ids (missing ev es)
nothing_new ev es c = rw (missing-none ev es c) (sym (append-nil (ids es)))

-- Live or replayed, an event keeps the ids that are there, in their order, and puts behind them the
-- id of the entry that it creates, if its id was free.
pub ids-apply_event :
    (es : List Entry) (ev : TurnEventBody) (replayed : Bool)
    → ids (apply_event es ev replayed).0 ≡ ids es ++ ids (missing ev es)
unfolding apply_event entry_id created event_id
ids-apply_event es (TurnEventBody.message_chunk c) replayed =
    upserts es replayed (push_block c.block) (push_block-KeepsId c.block)
      (TurnEventBody.message_chunk c) _ c.message_id refl refl refl
ids-apply_event es (TurnEventBody.message_upsert u) replayed =
    upserts es replayed (replace_blocks u.role (replacement [] u.content))
      (replace_blocks-KeepsId u.role (replacement [] u.content)) (TurnEventBody.message_upsert u) _
      u.message_id refl (ground arith) refl
ids-apply_event es (TurnEventBody.tool_call_upsert id p) replayed =
    upserts es replayed (merge_patch p) (merge_patch-KeepsId p)
      (TurnEventBody.tool_call_upsert id p) _ id refl refl refl
ids-apply_event es (TurnEventBody.tool_call_content_chunk id item) replayed =
    updates es replayed (append_output item) (append_output-KeepsId item) id ∙ nothing_new _ es refl
ids-apply_event es (TurnEventBody.plan_upsert id p) replayed =
    upserts es replayed (replace_plan p) (replace_plan-KeepsId p) (TurnEventBody.plan_upsert id p) _
      id refl refl refl
ids-apply_event es (TurnEventBody.terminal_upsert id p) replayed =
    upserts es replayed (replace_output (replacement "" p))
      (replace_output-KeepsId (replacement "" p)) (TurnEventBody.terminal_upsert id p) _ id refl
      (ground arith) refl
ids-apply_event es (TurnEventBody.terminal_output_chunk id bytes) replayed =
    upserts es replayed (push_bytes bytes) (push_bytes-KeepsId bytes)
      (TurnEventBody.terminal_output_chunk id bytes) _ id refl refl refl
ids-apply_event es (TurnEventBody.permission_requested q) replayed =
    upserts es replayed (replace_request q) (replace_request-KeepsId q)
      (TurnEventBody.permission_requested q) _ q.req_id refl refl refl
ids-apply_event es (TurnEventBody.error code reason retryable) replayed =
    upserts es replayed (replace_error code reason) (replace_error-KeepsId code reason)
      (TurnEventBody.error code reason retryable) _ "error" refl refl refl
ids-apply_event es (TurnEventBody.permission_resolved id outcome by) replayed = ground (
  arith,
  ids-update (record_outcome outcome) (record_outcome-KeepsId outcome) es id,
  nothing_new (TurnEventBody.permission_resolved id outcome by) es refl,
)
ids-apply_event es _ replayed = nothing_new _ es refl

unfoldable pub occurs : String → List String → Bool
occurs i [] = false
occurs i (j ∷ js) = if j == i then true else occurs i js

-- No id stands twice.
abbrev pub Distinct : List String → Type 0
Distinct [] = Unit {0}
Distinct (i ∷ is) = (occurs i is ≡ false) × Distinct is

occurs-snoc :
    (i j : String) (is : List String)
    → occurs i (is ++ j ∷ []) ≡ (if occurs i is then true else j == i)
unfolding occurs
occurs-snoc i j [] = ground arith
occurs-snoc i j (k ∷ is) = ground (arith, occurs-snoc i j is)

Distinct-snoc :
    (is : List String) (i : String) → occurs i is ≡ false → Distinct is → Distinct (is ++ i ∷ [])
unfolding occurs
Distinct-snoc [] i h d = (refl, tt)
Distinct-snoc (k ∷ is) i h d = (
  ground (arith, occurs-snoc k i is, eq_iff k i, eq_iff i k),
  Distinct-snoc is i (ground arith) d.1,
)

occurs-ids : (es : List Entry) (i : String) → occurs i (ids es) ≡ is_some (find es i)
unfolding occurs find
occurs-ids [] i = refl
occurs-ids (e ∷ es) i = ground (arith, occurs-ids es i)

-- No event, live or replayed, makes two entries of one id.
pub apply_event-Distinct :
    (es : List Entry) (ev : TurnEventBody) (replayed : Bool)
    → Distinct (ids es)
    → Distinct (ids (apply_event es ev replayed).0)
apply_event-Distinct es ev replayed d =
    rw (ids-apply_event es ev replayed) (elim (missing_cases ev es) [
      | inl h ↦ rw (h, append-nil (ids es)) d
      | inr (e, h, free) ↦
          rw h (Distinct-snoc (ids es) (entry_id e) (rw (occurs-ids es (entry_id e), free)) d)
    ])

-- The entries after a history of events, each live or replayed.
pub materialize : List Entry → List (TurnEventBody × Bool) → List Entry
materialize es [] = es
materialize es ((ev, replayed) ∷ evs) = materialize (apply_event es ev replayed).0 evs

-- Any history of events, live and replayed, that starts from entries with distinct ids ends in
-- entries with distinct ids.
pub materialize-Distinct :
    (evs : List (TurnEventBody × Bool)) (es : List Entry)
    → Distinct (ids es)
    → Distinct (ids (materialize es evs))
unfolding materialize
materialize-Distinct [] es d = d
materialize-Distinct ((ev, replayed) ∷ evs) es d =
    materialize-Distinct evs (apply_event es ev replayed).0 (apply_event-Distinct es ev replayed d)
