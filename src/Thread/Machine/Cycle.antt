-- ===== src/Thread/Machine/Cycle.antt =====
-- A turn from its `Running` to its `Idle`, and what an approval in the middle does to it.
use tethys.Prelude.{
  ℕ, ◌≡◌, refl, ◌∙◌, ap, Bool, true, false, Option, none, some, List, [], ◌∷◌, ◌++◌, arith, length,
  ◌%◌, ◌^◌,
}
use tethys.Schema.Thread.{ThreadState, StopReason, SessionState, TurnEventBody}
use tethys.Thread.Machine.{EventOrigin, TurnRecord, ThreadMachine, close_first, apply, is_running}
use tethys.Thread.Machine.Turns.{open_turns, opened, open_turns-apply}

-- Live events, in order.
pub run : ThreadMachine → List (ℕ × TurnEventBody) → ThreadMachine
run m [] = m
run m ((seq, ev) ∷ evs) = run (apply m seq ev EventOrigin.live) evs

-- Everything that is no state change: content, permissions, errors, session data.
abbrev pub is_content : TurnEventBody → Bool
is_content (TurnEventBody.state_changed s) = false
is_content _ = true

abbrev pub AllContent : List (ℕ × TurnEventBody) → Type 0
AllContent [] = Unit {0}
AllContent ((seq, ev) ∷ evs) = (is_content ev ≡ true) × AllContent evs

turns-apply_content :
    (m : ThreadMachine) (seq : ℕ) (ev : TurnEventBody)
    → is_content ev ≡ true
    → (apply m seq ev EventOrigin.live).turns ≡ m.turns
unfolding apply
turns-apply_content m seq (TurnEventBody.state_changed s) h = cc
turns-apply_content m seq _ h = ground arith

turns-run_content :
    (m : ThreadMachine) (evs : List (ℕ × TurnEventBody))
    → AllContent evs
    → (run m evs).turns ≡ m.turns
unfolding run
turns-run_content m [] h = refl
turns-run_content m ((seq, ev) ∷ evs) h =
    turns-run_content (apply m seq ev EventOrigin.live) evs h.1 ∙ turns-apply_content m seq ev h.0

close_first-snoc :
    (seq : ℕ) (reason : Option StopReason) (ts : List TurnRecord) (t : TurnRecord)
    → open_turns ts ≡ 0
    → t.ended_seq ≡ none
    → close_first seq reason (ts ++ t ∷ [])
      ≡ ts ++ record t { ended_seq = some seq; stop_reason = reason } ∷ []
unfolding open_turns close_first
close_first-snoc seq reason [] t h e = ground arith
close_first-snoc seq reason (x ∷ ts) t h e = ground (arith, close_first-snoc seq reason ts t)

abbrev pub start : ThreadMachine → ℕ → ThreadMachine
start m seq = apply m seq (TurnEventBody.state_changed SessionState.running) EventOrigin.live

abbrev pub finish : ThreadMachine → ℕ → Option StopReason → ThreadMachine
finish m seq reason =
    apply m seq (TurnEventBody.state_changed (SessionState.idle reason)) EventOrigin.live

abbrev pub await : ThreadMachine → ℕ → ThreadMachine
await m seq =
    apply m seq (TurnEventBody.state_changed SessionState.requires_action) EventOrigin.live

-- A turn that starts in a thread with no open turn, and meets no state change before its `Idle`,
-- is recorded once, with its two sequence numbers and its stop reason, behind the earlier turns.
turns-cycle :
    (m : ThreadMachine) (a b : ℕ) (evs : List (ℕ × TurnEventBody)) (reason : Option StopReason)
    → is_running m.state ≡ false
    → open_turns m.turns ≡ 0
    → AllContent evs
    → (finish (run (start m a) evs) b reason).turns
      ≡ m.turns
        ++ record {
          index = length m.turns % 2 ^ 32;
          started_seq = a;
          ended_seq = some b;
          stop_reason = reason;
        }
          ∷ []
unfolding apply
turns-cycle m a b evs reason idle none_open content =
    ap (close_first b reason) (turns-run_content (start m a) evs content)
    ∙ ground (
      arith,
      close_first-snoc b reason m.turns
          (record {
            index = length m.turns % 2 ^ 32;
            started_seq = a;
            ended_seq = none;
            stop_reason = none;
          })
          none_open refl,
    )

-- A running turn that asks for an action and goes on is recorded a second time, and the `Idle` that
-- ends it closes one of the two records only: a turn stays open in an idle thread.
pub open_turns-await :
    (m : ThreadMachine) (a b c : ℕ) (reason : Option StopReason)
    → is_running m.state ≡ true
    → let m' = finish (start (await m a) b) c reason in
      (m'.state ≡ ThreadState.idle) × (open_turns m'.turns ≡ open_turns m.turns)
unfolding apply opened
open_turns-await m a b c reason r = (
  refl,
  open_turns-apply (start (await m a) b) c (TurnEventBody.state_changed (SessionState.idle reason))
      ∙ ground (
        arith,
        open_turns-apply (await m a) b (TurnEventBody.state_changed SessionState.running),
        open_turns-apply m a (TurnEventBody.state_changed SessionState.requires_action),
      ),
)

-- No later turn closes it.
pub open_turns-start-finish :
    (m : ThreadMachine) (a b : ℕ) (reason : Option StopReason)
    → is_running m.state ≡ false
    → open_turns (finish (start m a) b reason).turns ≡ open_turns m.turns
unfolding opened
open_turns-start-finish m a b reason r =
    open_turns-apply (start m a) b (TurnEventBody.state_changed (SessionState.idle reason))
    ∙ ground (arith, open_turns-apply m a (TurnEventBody.state_changed SessionState.running))
