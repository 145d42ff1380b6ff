-- ===== src/Thread/Machine.antt =====
-- crates/tethys-thread/src/state.rs: the pure reducer of one thread.
pub mod Turns
pub mod Cycle
pub mod Invariant
pub mod Replay
pub mod Identity
use tethys.Prelude.{
  ℕ, ◌%◌, ◌^◌, String, max, Bool, true, false, not, Option, none, some, List, [], ◌∷◌, ◌++◌, length,
  if◌then◌else◌, is_some,
}
use tethys.Schema.Thread.{ThreadState, StopReason, SessionState, SessionInfo, TurnEventBody, Entry}
use tethys.Thread.Entries.{apply_event}

pub data EventOrigin : Type 0 where
  live replay : EventOrigin

pub record TurnRecord : Type 0 where
  pub index : ℕ
  pub started_seq : ℕ
  pub ended_seq : Option ℕ
  pub stop_reason : Option StopReason

pub record ThreadMachine : Type 0 where
  pub id : String
  pub state : ThreadState
  pub entries : List Entry
  pub turns : List TurnRecord
  pub latest_seq : ℕ
  pub session_id : Option String
  pub title : Option String

abbrev pub new : String → ThreadMachine
new id = record {
  id = id;
  state = ThreadState.idle;
  entries = [];
  turns = [];
  latest_seq = 0;
  session_id = none;
  title = none;
}

-- Binds the agent session created for or resumed by this thread.
abbrev pub set_session : ThreadMachine → String → ThreadMachine
set_session m session = record m { session_id = some session }

abbrev pub is_running : ThreadState → Bool
is_running ThreadState.running = true
is_running _ = false

abbrev pub is_awaiting : ThreadState → Bool
is_awaiting ThreadState.awaiting_approval = true
is_awaiting _ = false

abbrev pub is_interrupted : ThreadState → Bool
is_interrupted ThreadState.interrupted = true
is_interrupted _ = false

-- The first turn that has not ended gets its end; a list with none stays as it is.
pub close_first : ℕ → Option StopReason → List TurnRecord → List TurnRecord
close_first seq reason [] = []
close_first seq reason (t ∷ ts) =
    if is_some t.ended_seq
    then t ∷ close_first seq reason ts
    else record t { ended_seq = some seq; stop_reason = reason } ∷ ts

pub end_turn : ThreadMachine → ℕ → Option StopReason → ThreadMachine
unfolding close_first
end_turn m seq reason = record m { turns = close_first seq reason m.turns }

-- `self.turns.len() as u32` keeps the low 32 bits.
start_turn : ThreadMachine → ℕ → ThreadMachine
start_turn m seq = record m {
  turns =
      m.turns
      ++ record {
        index = length m.turns % 2 ^ 32;
        started_seq = seq;
        ended_seq = none;
        stop_reason = none;
      }
        ∷ [];
}

change_state : ThreadMachine → ℕ → SessionState → ThreadMachine
unfolding start_turn end_turn
change_state m seq SessionState.running =
    let m' = if is_running m.state then m else start_turn m seq in
    record m' { state = ThreadState.running }
change_state m seq (SessionState.idle reason) =
    let m' = end_turn m seq reason in record m' { state = ThreadState.idle }
change_state m seq SessionState.requires_action = record m { state = ThreadState.awaiting_approval }

materialize : ThreadMachine → TurnEventBody → Bool → ThreadMachine
materialize m ev replayed = record m { entries = (apply_event m.entries ev replayed).0 }

apply_live : ThreadMachine → ℕ → TurnEventBody → ThreadMachine
unfolding change_state materialize
apply_live m seq (TurnEventBody.state_changed s) = change_state m seq s
apply_live m seq (TurnEventBody.permission_requested q) =
    let m' = materialize m (TurnEventBody.permission_requested q) false in
    record m' { state = ThreadState.awaiting_approval }
apply_live m seq (TurnEventBody.permission_resolved id outcome by) =
    let m' = materialize m (TurnEventBody.permission_resolved id outcome by) false in
    if is_awaiting m'.state then record m' { state = ThreadState.running } else m'
apply_live m seq (TurnEventBody.session_info info) =
    if is_some info.title then record m { title = info.title } else m
apply_live m seq (TurnEventBody.error code reason retryable) =
    let m' = materialize m (TurnEventBody.error code reason retryable) false in
    record m' { state = ThreadState.error }
apply_live m seq ev = materialize m ev false

-- One normalized event.
pub apply : ThreadMachine → ℕ → TurnEventBody → EventOrigin → ThreadMachine
unfolding apply_live
apply m seq ev EventOrigin.replay =
    materialize (record m { latest_seq = max m.latest_seq seq }) ev true
apply m seq ev EventOrigin.live = apply_live (record m { latest_seq = max m.latest_seq seq }) seq ev

-- A successful resume reconnects a thread parked in `Interrupted`.
pub mark_resumed : ThreadMachine → ThreadMachine
mark_resumed m = if is_interrupted m.state then record m { state = ThreadState.idle } else m

-- Process death or transport loss mid-turn.
pub mark_interrupted : ThreadMachine → ThreadMachine
unfolding end_turn
mark_interrupted m =
    let m' = end_turn m m.latest_seq (some StopReason.error) in
    record m' { state = ThreadState.interrupted }

pub archive : ThreadMachine → ThreadMachine
archive m = record m { state = ThreadState.archived }
