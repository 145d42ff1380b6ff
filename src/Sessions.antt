-- ===== src/Sessions.antt =====
-- crates/tethys-core/src/thread_session.rs: the threads, their connection leases and their event
-- logs. Each function is one section under a thread's lock, or a composition of the sections of one
-- call with nothing in between; `Sessions.World` lets the sections interleave. Paths are texts, a
-- connection is its number, and what the agent and the store answer are arguments.
pub mod World
pub mod Streams
pub mod Log
pub mod Readers
pub mod Ids
mod Examples
use tethys.Prelude.{
  ℕ, zero, suc, ◌+◌, ◌/◌, ◌%◌, ◌^◌, String, push_str, Bool, true, false, ◌||◌, not, Option, none,
  some, List, [], ◌∷◌, ◌++◌, ltb, leb, length, get_elem?, map, is_some, unwrap_or, string_eq,
  if◌then◌else◌,
}
use mathlib.Core.Option
use tethys.Prelude.Text.{digits}
use tethys.Prelude.Assoc.{Assoc, lookup, insert, remove, contains_key}
use tethys.Schema.Connection.{ConnectionKey, AgentCompat}
use tethys.Schema.Thread.{ThreadState, TurnEventBody, EventEnvelope, Entry}
use tethys.Thread.Machine
use tethys.Thread.Machine.{ThreadMachine, EventOrigin}
use tethys.Connections.{ConnectionLease}

pub data ApiError : Type 0 where
  not_found internal : String → ApiError

pub data ApiResult {ℓ} (A : Type ℓ) : Type ℓ where
  done : A → ApiResult A
  failed : ApiError → ApiResult A

-- `()`
abbrev pub Done : Type 0
Done = Unit

pub record CreateThread : Type 0 where
  pub workspace_id : String
  pub agent_profile_id : String
  pub workdir : String

pub record ThreadSummary : Type 0 where
  pub id : String
  pub workspace_id : String
  pub agent_profile_id : String
  pub title : String
  pub workdir : String
  pub state : ThreadState
  pub session_id : Option String

pub record ThreadView : Type 0 where
  pub thread : ThreadSummary
  pub entries : List Entry
  pub latest_seq : ℕ

pub record ThreadInner : Type 0 where
  pub machine : ThreadMachine
  pub workspace_id : String
  pub agent_profile_id : String
  pub workdir : String
  pub workspace_root : String
  pub session : Option String
  pub lease : Option ConnectionLease
  pub events : List EventEnvelope
  pub next_seq : ℕ

-- `reader` is the connection that the reader task listens to.
pub record ThreadHandle : Type 0 where
  pub inner : ThreadInner
  pub reader : Option ℕ

pub record ThreadSessions : Type 0 where
  pub profiles : Assoc String (ConnectionKey × AgentCompat)
  pub threads : Assoc String ThreadHandle

unfoldable pub summary : ThreadInner → ThreadSummary
summary t = record {
  id = t.machine.id;
  workspace_id = t.workspace_id;
  agent_profile_id = t.agent_profile_id;
  title = unwrap_or "Untitled" t.machine.title;
  workdir = t.workdir;
  state = t.machine.state;
  session_id = t.session;
}

unfoldable pub view : ThreadInner → ThreadView
unfolding summary
view t = record { thread = summary t; entries = t.machine.entries; latest_seq = t.next_seq }

-- One event in the reader task. `next_seq` is a `u32`.
unfoldable pub deliver : ThreadInner → TurnEventBody → Bool → ThreadInner × EventEnvelope
deliver t body replayed =
    let seq = t.next_seq in
    let origin = if replayed then EventOrigin.replay else EventOrigin.live in
    let envelope : EventEnvelope = record { thread_id = t.machine.id; seq = seq; event = body } in
    (
      record t {
        next_seq = (seq + 1) % 2 ^ 32;
        machine = Machine.apply t.machine seq body origin;
        events = t.events ++ envelope ∷ [];
      },
      envelope,
    )

abbrev pub in_turn : ThreadState → Bool
in_turn ThreadState.running = true
in_turn ThreadState.awaiting_approval = true
in_turn _ = false

-- The reader task ends: its stream or its connection is closed.
unfoldable pub end_reader : ThreadHandle → ThreadHandle
end_reader h =
    let t = h.inner in
    let machine =
      if in_turn t.machine.state then Machine.mark_interrupted t.machine else t.machine in
    record { inner = record t { machine = machine; lease = none }; reader = none }

unfoldable pub mark_transport_lost : ThreadHandle → ThreadHandle
mark_transport_lost h =
    let t = h.inner in
    record h { inner = record t { lease = none; machine = Machine.mark_interrupted t.machine } }

-- The first section of `resume`.
unfoldable pub begin_resume : ThreadHandle → ThreadHandle
begin_resume h =
    let t = h.inner in
    record h { inner = record t { lease = none; machine = Machine.mark_resumed t.machine } }

unfoldable pub archive : ThreadHandle → ThreadHandle
archive h = let t = h.inner in record h { inner = record t { machine = Machine.archive t.machine } }

unfoldable pub live_connection : ThreadHandle → Option (ℕ × String)
live_connection h = elim h.inner.lease [
  | none ↦ none
  | some lease ↦ Option.map (λ session. (lease.connection, session)) h.inner.session
]

-- The new task takes the slot of the reader.
unfoldable pub put_reader : ThreadHandle → ℕ → ThreadHandle
put_reader h connection = record h { reader = some connection }

-- A reader that is there stays.
unfoldable pub start_reader : ThreadHandle → ℕ → ThreadHandle
unfolding put_reader
start_reader h connection = if is_some h.reader then h else put_reader h connection

-- The last section of `ensure_connection`.
unfoldable pub hold_lease : ThreadHandle → ConnectionLease → String → ThreadHandle
hold_lease h lease session =
    let t = h.inner in record h { inner = record t { session = some session; lease = some lease } }

-- That section and the start of the reader, with nothing in between.
unfoldable pub attach_session : ThreadHandle → ConnectionLease → String → ThreadHandle
unfolding hold_lease start_reader
attach_session h lease session = start_reader (hold_lease h lease session) lease.connection

-- The reader is taken and stopped.
unfoldable pub stop_reader : ThreadHandle → ThreadHandle
stop_reader h = record h { reader = none }

-- What a call of `ensure_connection` meets: the lookup of the profile's key, the lease from the
-- store, the MCP servers, and the agent's answer to `session/resume` or `session/new`.
pub record SpawnAnswers : Type 0 where
  pub key : ApiResult ConnectionKey
  pub lease : ApiResult ConnectionLease
  pub servers : ApiResult Done
  pub resumed : ApiResult Done
  pub created : ApiResult String

unfoldable pub open_session : Option String → SpawnAnswers → ApiResult String
open_session none a = a.created
open_session (some session) a = elim a.resumed [ failed e ↦ failed e | done ok ↦ done session ]

unfoldable pub ensure_connection : ThreadHandle → SpawnAnswers → ThreadHandle × ApiResult Done
unfolding live_connection attach_session open_session
ensure_connection h a = elim a.key [
  | failed e ↦ (h, failed e)
  | done key ↦ if is_some (live_connection h) then (h, done tt) else elim a.lease [
    | failed e ↦ (h, failed e)
    | done lease ↦ elim a.servers [
      | failed e ↦ (h, failed e)
      | done servers ↦ elim (open_session h.inner.session a) [
        | failed e ↦ (h, failed e)
        | done session ↦ (attach_session h lease session, done tt)
      ]
    ]
  ]
]

unfoldable pub no_live_connection : ApiError
no_live_connection = ApiError.internal "thread has no live connection"

-- `prompt`, with what the connection answers.
unfoldable pub prompt : ThreadHandle → SpawnAnswers → ApiResult Done → ThreadHandle × ApiResult Done
unfolding ensure_connection live_connection mark_transport_lost no_live_connection
prompt h a sent =
    let (h', ensured) = ensure_connection h a in
    elim ensured [
      | failed e ↦ (h', failed e)
      | done ok ↦ elim (live_connection h') [
        | none ↦ (h', failed no_live_connection)
        | some live ↦ elim sent [
          | failed e ↦ (mark_transport_lost h', failed e)
          | done ok ↦ (h', done tt)
        ]
      ]
    ]

unfoldable pub resume : ThreadHandle → SpawnAnswers → ThreadHandle × ApiResult Done
unfolding begin_resume ensure_connection
resume h a = ensure_connection (begin_resume h) a

-- The events from `since_seq` on, that one included.
unfoldable pub from_seq : ℕ → List EventEnvelope → List EventEnvelope
from_seq since_seq [] = []
from_seq since_seq (e ∷ es) =
    let rest = from_seq since_seq es in if leb since_seq e.seq then e ∷ rest else rest

-- The backlog of a subscription.
unfoldable pub backlog : ThreadInner → ℕ → List EventEnvelope
unfolding from_seq
backlog t since_seq = from_seq since_seq t.events

-- `format!("thread-{n}")`; a `usize` has 20 digits at most.
unfoldable pub thread_id : ℕ → String
unfolding digits
thread_id n = push_str "thread-" (digits 20 n)

unfoldable pub new_handle : String → CreateThread → String → ThreadHandle
new_handle id request workspace_root = record {
  inner = record {
    machine = Machine.new id;
    workspace_id = request.workspace_id;
    agent_profile_id = request.agent_profile_id;
    workdir = request.workdir;
    workspace_root = workspace_root;
    session = none;
    lease = none;
    events = [];
    next_seq = 0;
  };
  reader = none;
}

-- `root` is what `WorkspaceRoots` answers.
unfoldable pub create :
    ThreadSessions
    → (String → ApiResult String)
    → CreateThread
    → ThreadSessions × ApiResult ThreadSummary
unfolding thread_id new_handle summary
create s root request =
    if not (contains_key request.agent_profile_id s.profiles)
    then (s, failed (ApiError.not_found (push_str "agent profile " request.agent_profile_id)))
    else elim (root request.workspace_id) [
      | failed e ↦ (s, failed e)
      | done workspace_root ↦
          let id = thread_id (length s.threads + 1) in
          let handle = new_handle id request workspace_root in
          (record s { threads = insert id handle s.threads }, done (summary handle.inner))
    ]

-- The threads that are left, and what becomes of the one that is deleted: others may hold it still.
unfoldable pub delete : ThreadSessions → String → ThreadSessions × Option ThreadHandle
unfolding stop_reader
delete s id =
    (record s { threads = remove id s.threads }, Option.map stop_reader (lookup id s.threads))

unfoldable pub handle : ThreadSessions → String → ApiResult ThreadHandle
handle s id = elim (lookup id s.threads) [
  | none ↦ failed (ApiError.not_found (push_str "thread " id))
  | some h ↦ done h
]

unfoldable pub get : ThreadSessions → String → ApiResult ThreadView
unfolding handle view
get s id = elim (handle s id) [ failed e ↦ failed e | done h ↦ done (view h.inner) ]

unfoldable pub list : ThreadSessions → List ThreadSummary
unfolding summary
list s = map (λ (p : String × ThreadHandle). summary p.1.inner) s.threads

unfoldable pub profile_key : ThreadSessions → String → ApiResult ConnectionKey
profile_key s profile_id = elim (lookup profile_id s.profiles) [
  | none ↦ failed (ApiError.not_found (push_str "agent profile " profile_id))
  | some (key, compat) ↦ done key
]
