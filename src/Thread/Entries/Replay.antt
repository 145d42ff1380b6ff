-- ===== src/Thread/Entries/Replay.antt =====
-- Replayed events: what a resume transcript may do to the entries.
use tethys.Prelude.{
  String, ◌≡◌, refl, sym, ◌⊎◌, inl, inr, Bool, true, false, Option, none, some, List, [], ◌∷◌, ◌++◌,
  arith, string_eq, eq_iff, Option-cases, append-nil, append_assoc,
}
use tethys.Schema.Thread.{TurnEventBody, Entry, entry_id}
use tethys.Thread.Entries.{find, upsert, update, unless_replayed, apply_event}
use tethys.Thread.Entries.Find.{find-push, find-append}
use tethys.Thread.Entries.Slots.{event_id, created}

abbrev to_list : Option Entry → List Entry
to_list none = []
to_list (some e) = e ∷ []

absent : Option String → Option Entry → List Entry → List Entry
absent none new es = []
absent (some i) new es = elim (find es i) [ some e ↦ [] | none ↦ to_list new ]

-- What a replayed event adds: the entry that it creates, where its id is free.
unfoldable pub missing : TurnEventBody → List Entry → List Entry
unfolding absent
missing ev es = absent (event_id ev) (created ev) es

abbrev pub nonempty : List Entry → Bool
nonempty [] = false
nonempty (e ∷ es) = true

-- A replayed event leaves every entry as it is and where it is. It adds at most one entry, behind
-- them, and reports a change exactly then.
pub apply_event-replayed :
    (es : List Entry) (ev : TurnEventBody)
    → apply_event es ev true ≡ (es ++ missing ev es, nonempty (missing ev es))
unfolding apply_event unless_replayed upsert update missing created event_id
apply_event-replayed es (TurnEventBody.message_chunk c) = ground (arith, append-nil es)
apply_event-replayed es _ = ground (arith, append-nil es)

created-id :
    (ev : TurnEventBody) (e : Entry) → created ev ≡ some e → event_id ev ≡ some (entry_id e)
unfolding created event_id entry_id
created-id (TurnEventBody.message_chunk c) e h = ground arith
created-id _ e h = ground arith

absent-append :
    (i : Option String) (c : Option Entry) (es new : List Entry)
    → absent i c es ≡ []
    → absent i c (es ++ new) ≡ []
unfolding absent
absent-append none c es new h = refl
absent-append (some i) none es new h = ground arith
absent-append (some i) (some e) es new h = ground (arith, find-append es new i)

absent_after :
    (i : Option String) (c : Option Entry) (es : List Entry)
    → ((e : Entry) → c ≡ some e → i ≡ some (entry_id e))
    → absent i c (es ++ absent i c es) ≡ []
unfolding absent
absent_after none c es h = refl
absent_after (some i) none es h = ground arith
absent_after (some i) (some e) es h =
    ground (arith, find-push es e i, eq_iff (entry_id e) i, h e refl, append-nil es)

missing-append :
    (ev : TurnEventBody) (es new : List Entry) → missing ev es ≡ [] → missing ev (es ++ new) ≡ []
unfolding missing
missing-append ev = absent-append (event_id ev) (created ev)

missing_after : (ev : TurnEventBody) (es : List Entry) → missing ev (es ++ missing ev es) ≡ []
unfolding missing
missing_after ev es = absent_after (event_id ev) (created ev) es (created-id ev)

absent_cases :
    (i : Option String) (c : Option Entry) (es : List Entry)
    → ((e : Entry) → c ≡ some e → i ≡ some (entry_id e))
    → (absent i c es ≡ [])
      ⊎ ((e : Entry) × (absent i c es ≡ e ∷ []) × (find es (entry_id e) ≡ none))
unfolding absent
absent_cases none c es h = inl refl
absent_cases (some i) none es h = inl (ground arith)
absent_cases (some i) (some e) es h = elim (Option-cases (find es i)) [
  | inl free ↦ inr (e, ground (arith, free), ground (arith, free, h e refl))
  | inr (old, taken) ↦ inl (ground (arith, taken))
]

pub missing_cases :
    (ev : TurnEventBody) (es : List Entry)
    → (missing ev es ≡ [])
      ⊎ ((e : Entry) × (missing ev es ≡ e ∷ []) × (find es (entry_id e) ≡ none))
unfolding missing
missing_cases ev es = absent_cases (event_id ev) (created ev) es (created-id ev)

-- A whole transcript, replayed.
unfoldable pub replay : List Entry → List TurnEventBody → List Entry
replay es [] = es
replay es (ev ∷ evs) = replay (apply_event es ev true).0 evs

-- Nothing that the transcript creates is missing.
abbrev Complete : List TurnEventBody → List Entry → Type 0
Complete [] es = Unit {0}
Complete (ev ∷ evs) es = (missing ev es ≡ []) × Complete evs es

Complete-append :
    (evs : List TurnEventBody) (es new : List Entry) → Complete evs es → Complete evs (es ++ new)
Complete-append [] es new h = tt
Complete-append (ev ∷ evs) es new h = (missing-append ev es new h.0, Complete-append evs es new h.1)

-- What the transcript adds.
pub added : List TurnEventBody → List Entry → List Entry
added [] es = []
added (ev ∷ evs) es = missing ev es ++ added evs (es ++ missing ev es)

-- What a replay adds stands behind what was there.
pub replay-added : (evs : List TurnEventBody) (es : List Entry) → replay es evs ≡ es ++ added evs es
unfolding replay added
replay-added [] es = sym (append-nil es)
replay-added (ev ∷ evs) es =
    rw (apply_event-replayed es ev, replay-added evs (es ++ missing ev es))
      (append_assoc es (missing ev es) _)

replay-Complete' : (evs : List TurnEventBody) (es : List Entry) → Complete evs (replay es evs)
unfolding replay
replay-Complete' [] es = tt
replay-Complete' (ev ∷ evs) es = (
  rw (apply_event-replayed es ev, replay-added evs (es ++ missing ev es))
      (missing-append ev (es ++ missing ev es) _ (missing_after ev es)),
  replay-Complete' evs (apply_event es ev true).0,
)

replay_again : (evs : List TurnEventBody) (es : List Entry) → Complete evs es → replay es evs ≡ es
unfolding replay
replay_again [] es h = refl
replay_again (ev ∷ evs) es h =
    rw (apply_event-replayed es ev, h.0, append-nil es) (replay_again evs es h.1)

-- A transcript that is replayed again changes nothing.
replay_twice :
    (es : List Entry) (evs : List TurnEventBody) → replay (replay es evs) evs ≡ replay es evs
replay_twice es evs = replay_again evs (replay es evs) (replay-Complete' evs es)
