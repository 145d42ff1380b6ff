-- ===== src/Thread/Machine/Identity.antt =====
-- No event changes the thread's id or the session.
use tethys.Prelude.{ℕ, ◌≡◌, refl, arith}
use tethys.Schema.Thread.{SessionState, TurnEventBody}
use tethys.Thread.Machine.{
  ThreadMachine, EventOrigin, apply, apply_live, materialize, change_state, start_turn, end_turn,
  mark_interrupted, mark_resumed, archive,
}

pub id-apply :
    (m : ThreadMachine) (seq : ℕ) (ev : TurnEventBody) (origin : EventOrigin)
    → (apply m seq ev origin).id ≡ m.id
unfolding apply apply_live materialize change_state start_turn end_turn
id-apply m seq ev EventOrigin.replay = refl
id-apply m seq (TurnEventBody.state_changed SessionState.running) EventOrigin.live = ground arith
id-apply m seq (TurnEventBody.state_changed (SessionState.idle reason)) EventOrigin.live = refl
id-apply m seq (TurnEventBody.state_changed SessionState.requires_action) EventOrigin.live = refl
id-apply m seq (TurnEventBody.permission_resolved id outcome by) EventOrigin.live = ground arith
id-apply m seq (TurnEventBody.session_info info) EventOrigin.live = ground arith
id-apply m seq _ EventOrigin.live = refl

pub id-mark_interrupted : (m : ThreadMachine) → (mark_interrupted m).id ≡ m.id
unfolding mark_interrupted end_turn
id-mark_interrupted m = refl

pub id-mark_resumed : (m : ThreadMachine) → (mark_resumed m).id ≡ m.id
unfolding mark_resumed
id-mark_resumed m = ground arith

pub id-archive : (m : ThreadMachine) → (archive m).id ≡ m.id
unfolding archive
id-archive m = refl
