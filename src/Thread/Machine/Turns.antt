-- ===== src/Thread/Machine/Turns.antt =====
-- How many turns are open, event by event.
use tethys.Prelude.{
  ℕ, ◌+◌, ◌-◌, ◌≡◌, refl, Option, none, List, [], ◌∷◌, ◌++◌, arith, if◌then◌else◌, is_some, length,
  ◌%◌, ◌^◌,
}
use tethys.Schema.Thread.{ThreadState, StopReason, SessionState, TurnEventBody}
use tethys.Thread.Machine.{EventOrigin, TurnRecord, ThreadMachine, close_first, apply, is_running}

unfoldable pub open_turns : List TurnRecord → ℕ
open_turns [] = 0
open_turns (t ∷ ts) = if is_some t.ended_seq then open_turns ts else open_turns ts + 1

pub open_turns-close_first :
    (seq : ℕ) (reason : Option StopReason) (ts : List TurnRecord)
    → open_turns (close_first seq reason ts) ≡ open_turns ts - 1
unfolding open_turns close_first
open_turns-close_first seq reason [] = omega arith
open_turns-close_first seq reason (t ∷ ts) = ground (arith, open_turns-close_first seq reason ts)

open_turns-snoc :
    (ts : List TurnRecord) (t : TurnRecord)
    → t.ended_seq ≡ none
    → open_turns (ts ++ t ∷ []) ≡ open_turns ts + 1
unfolding open_turns
open_turns-snoc [] t h = ground arith
open_turns-snoc (x ∷ ts) t h = ground (arith, open_turns-snoc ts t h)

-- The number of open turns after a live event, from the state before it.
unfoldable pub opened : ThreadState → TurnEventBody → ℕ → ℕ
opened st (TurnEventBody.state_changed SessionState.running) n = if is_running st then n else n + 1
opened st (TurnEventBody.state_changed (SessionState.idle reason)) n = n - 1
opened st _ n = n

-- `Running` opens a turn unless the thread is running already, `Idle` closes one if one is open, and
-- no other live event opens or closes any.
pub open_turns-apply :
    (m : ThreadMachine) (seq : ℕ) (ev : TurnEventBody)
    → open_turns (apply m seq ev EventOrigin.live).turns ≡ opened m.state ev (open_turns m.turns)
unfolding apply opened
open_turns-apply m seq (TurnEventBody.state_changed SessionState.running) = ground (
  arith,
  open_turns-snoc m.turns
      (record {
        index = length m.turns % 2 ^ 32;
        started_seq = seq;
        ended_seq = none;
        stop_reason = none;
      })
      refl,
)
open_turns-apply m seq (TurnEventBody.state_changed (SessionState.idle reason)) =
    ground (arith, open_turns-close_first seq reason m.turns)
open_turns-apply m seq _ = ground arith
