-- ===== src/Sessions/Examples.antt =====
-- Tests of the thread sessions, and the theorems at concrete inputs.
use mathlib.Core.Option
use tethys.Prelude.{
  ℕ, List, ◌≡◌, refl, String, true, false, none, some, [], ◌∷◌, string_eq, arith, length,
}
use tethys.Prelude.Assoc.{Assoc, lookup, insert, remove}
use tethys.Schema.Connection.{ConnectionKey, AgentCompat}
use tethys.Schema.Thread.{TurnEventBody, SessionState, EventEnvelope}
use tethys.Connections.{ConnectionLease}
use tethys.Prelude.Text.{digits}
use tethys.Sessions.{
  ApiError, ApiResult, done, failed, CreateThread, ThreadHandle, ThreadSessions, SpawnAnswers,
  new_handle, deliver, end_reader, attach_session, hold_lease, start_reader, put_reader, backlog,
  from_seq, live_connection, create, delete, handle, thread_id,
}
use tethys.Sessions.World.{
  World, Stream, Reach, delivered, leased, started, subscribed, brought, lagging, here, next, start,
  send, at, receive, lag, subscribe,
}
use tethys.Sessions.Log.{Inv, log-Inv}
use tethys.Sessions.Readers.{live_connection-leased, stale_reader}
use tethys.Sessions.Ids.{create_replaces}

abbrev request : CreateThread
request = record { workspace_id = "w"; agent_profile_id = "codex"; workdir = "/w" }

abbrev lease : ConnectionLease
lease = record { key = record { profile_id = "codex"; host = "local" }; connection = 70 }

abbrev opened : World
opened = record (start "thread-1" request "/w") {
  thread = attach_session (new_handle "thread-1" request "/w") lease "s1";
}

opened-Reach : Reach (start "thread-1" request "/w") opened
unfolding attach_session hold_lease start_reader put_reader new_handle
opened-Reach = next (next here (leased lease "s1")) (started 70)

abbrev running : TurnEventBody
running = TurnEventBody.state_changed SessionState.running

-- A subscriber from number 5 on hears the event 0, and loses the event 1.
abbrev steps : List Stream → World
steps streams = record opened {
  thread = record opened.thread {
    inner = (deliver (deliver opened.thread.inner running false).0 running false).0;
  };
  streams = streams;
}

abbrev event : ℕ → EventEnvelope
event seq = record { thread_id = "thread-1"; seq = seq; event = running }

abbrev heard : World
heard = steps (
    record {
      since_seq = 5;
      joined = 0;
      backlog = [];
      live = event 0 ∷ [];
      waiting = [];
      lagged = true;
    }
    ∷ [])

heard-Reach : Reach (start "thread-1" request "/w") heard
unfolding attach_session hold_lease start_reader put_reader new_handle deliver subscribe backlog
    send at receive lag from_seq
heard-Reach =
    next
      (next
        (next (next (next opened-Reach (subscribed 5)) (delivered running false (omega arith)))
          (delivered running false (omega arith)))
        (brought 0))
      (lagging 0)

log-Inv_example : Inv "thread-1" heard
log-Inv_example = log-Inv "thread-1" request "/w" heard heard-Reach

live_connection-leased_example :
    Option.map (λ (live : ℕ × String). live.0) (live_connection heard.thread) ≡ some 70
unfolding attach_session hold_lease start_reader put_reader new_handle deliver
live_connection-leased_example = live_connection-leased "thread-1" request "/w" heard heard-Reach

abbrev stale : ThreadHandle
stale = record (new_handle "thread-1" request "/w") { reader = some 69 }

stale_reader_example :
    ((attach_session stale lease "s1").reader ≡ some 69)
    × (live_connection (attach_session stale lease "s1") ≡ some (70, "s1"))
    × (live_connection (end_reader (attach_session stale lease "s1")) ≡ none)
    × ((end_reader (attach_session stale lease "s1")).reader ≡ none)
stale_reader_example = stale_reader stale lease "s1" 69 refl

abbrev answers : SpawnAnswers
answers = record {
  key = done lease.key;
  lease = done lease;
  servers = done tt;
  resumed = done tt;
  created = failed (ApiError.internal "closed");
}

abbrev profiles : Assoc String (ConnectionKey × AgentCompat)
profiles =
    ("codex", (lease.key, record { preferred_protocol = none; projection_target = none })) ∷ []

-- Two threads were created, and the first deleted.
abbrev one_left : ThreadSessions
one_left = record { profiles = profiles; threads = ("thread-2", stale) ∷ [] }

abbrev root : String → ApiResult String
root w = done "/w"

create_replaces_example :
    (handle (create one_left root request).0 (thread_id 2)
      ≡ done (new_handle (thread_id 2) request "/w"))
    × (length (create one_left root request).0.threads ≡ length one_left.threads)
unfolding lookup handle thread_id digits
create_replaces_example = create_replaces one_left root request "/w" refl refl stale refl

abbrev none_yet : ThreadSessions
none_yet = record { profiles = profiles; threads = [] }

-- The second thread is gone after two creations, a deletion of the first, and a third creation.
third_replaces_second :
    (let two = (create (create none_yet root request).0 root request).0 in
      length (create (delete two "thread-1").0 root request).0.threads)
    ≡ 1
unfolding create delete lookup insert remove thread_id digits
third_replaces_second = refl
