-- ===== src/Thread/Examples.antt =====
-- Tests of the entries and of the machine, and the theorems at concrete inputs.
use tethys.Prelude.{ℕ, ◌≡◌, refl, String, Bool, true, false, none, List, [], ◌∷◌, ◌++◌, arith, max}
use tethys.Schema.Thread.{
  Role, ContentBlock, ThreadState, SessionState, TurnEventBody, Entry, entry_id, PermOutcome,
  Decider,
}
use tethys.Thread.Entries.{find, assign, upsert, unless_replayed, push_block, apply_event}
use tethys.Thread.Entries.Find.{ids}
use tethys.Thread.Entries.Slots.{slots_after, find-apply_event}
use tethys.Thread.Entries.Replay.{missing, replay}
use tethys.Thread.Entries.Ids.{Distinct, occurs, materialize, materialize-Distinct}
use tethys.Thread.Machine.{EventOrigin, TurnRecord, ThreadMachine, apply}
use tethys.Thread.Machine.Turns.{open_turns, opened, open_turns-apply}
use tethys.Thread.Machine.Cycle.{start, finish, await, open_turns-await}
use tethys.Thread.Machine.Invariant.{IsValid, apply-IsValid}
use tethys.Thread.Machine.Replay.{apply-replay}

abbrev chunk : String → String → TurnEventBody
chunk id t =
    TurnEventBody.message_chunk
      (record { message_id = id; role = Role.agent; block = ContentBlock.text t })

abbrev greeting : List Entry
greeting = Entry.message "m1" Role.agent (ContentBlock.text "hello " ∷ []) ∷ []

find-apply_event_example :
    find (apply_event greeting (chunk "m1" "world") false).0 "m1"
    ≡ slots_after (chunk "m1" "world") false greeting "m1"
find-apply_event_example = find-apply_event greeting (chunk "m1" "world") false "m1"

abbrev transcript : List TurnEventBody
transcript = chunk "m1" "hello " ∷ chunk "m1" "world" ∷ chunk "m2" "bye" ∷ []

abbrev mixed : List (TurnEventBody × Bool)
mixed = (chunk "m1" "hello ", false) ∷ (chunk "m1" "hello ", true) ∷ (chunk "m2" "bye", true) ∷ []

materialize-Distinct_example : Distinct (ids (materialize [] mixed))
materialize-Distinct_example = materialize-Distinct mixed [] tt

abbrev fresh : ThreadMachine
fresh = record {
  id = "t1";
  state = ThreadState.idle;
  entries = greeting;
  turns = [];
  latest_seq = 4;
  session_id = none;
  title = none;
}

abbrev first_turn : TurnRecord
first_turn = record { index = 0; started_seq = 1; ended_seq = none; stop_reason = none }

abbrev busy : ThreadMachine
busy = record fresh { state = ThreadState.running; turns = first_turn ∷ [] }

abbrev running_event : TurnEventBody
running_event = TurnEventBody.state_changed SessionState.running

apply-replay_example : apply fresh 2 (chunk "m2" "bye") EventOrigin.replay ≡ record fresh {
  latest_seq = max fresh.latest_seq 2;
  entries = fresh.entries ++ missing (chunk "m2" "bye") fresh.entries;
}
apply-replay_example = apply-replay fresh 2 (chunk "m2" "bye")

open_turns-apply_example :
    open_turns (apply fresh 5 running_event EventOrigin.live).turns
    ≡ opened fresh.state running_event (open_turns fresh.turns)
open_turns-apply_example = open_turns-apply fresh 5 running_event

abbrev answer : List (ℕ × TurnEventBody)
answer =
    (6, chunk "m2" "done")
    ∷ (7, TurnEventBody.permission_resolved "perm-1" PermOutcome.approved Decider.user)
    ∷ []

open_turns-await_example :
    ((finish (start (await busy 5) 6) 7 none).state ≡ ThreadState.idle)
    × (open_turns (finish (start (await busy 5) 6) 7 none).turns ≡ open_turns busy.turns)
open_turns-await_example = open_turns-await busy 5 6 7 none refl

apply-IsValid_example : IsValid (apply fresh 5 running_event EventOrigin.live)
unfolding occurs
apply-IsValid_example =
    apply-IsValid fresh 5 running_event EventOrigin.live (λ live. omega arith)
      (record { distinct = (refl, tt); indexed = tt; ordered = tt })

-- `replay_does_not_duplicate_or_rewind_entries` of tests/state_machine.rs, in short.
chunks_append :
    (apply_event greeting (chunk "m1" "world") false).0
    ≡ Entry.message "m1" Role.agent (ContentBlock.text "hello " ∷ ContentBlock.text "world" ∷ [])
      ∷ []
unfolding apply_event unless_replayed upsert find assign entry_id push_block
chunks_append = refl

-- A transcript that is replayed into an empty list keeps the first chunk of each message only.
replay_keeps_first_chunk : replay [] (chunk "m1" "hello " ∷ chunk "m1" "world" ∷ []) ≡ greeting
unfolding replay apply_event unless_replayed upsert find assign entry_id push_block
replay_keeps_first_chunk = refl
