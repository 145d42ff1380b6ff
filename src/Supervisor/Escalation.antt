-- ===== src/Supervisor/Escalation.antt =====
-- When the ladder escalates.
use tethys.Prelude.{
  ◌≡◌, refl, Bool, true, false, not, ◌&&◌, ◌||◌, if◌then◌else◌, is_some, inl, inr, Option-cases,
  List, [], ◌∷◌, arith,
}
use tethys.Supervisor.{Signal, Poll, Outcome, poll_until, cancel_ladder}

abbrev is_running : Poll → Bool
is_running Poll.running = true
is_running _ = false

abbrev is_kill : Signal → Bool
is_kill Signal.kill = true
is_kill _ = false

unfoldable pub all_running : List Poll → Bool
all_running [] = true
all_running (p ∷ ps) = is_running p && all_running ps

unfoldable pub killed : List Signal → Bool
killed [] = false
killed (s ∷ ss) = is_kill s || killed ss

poll_until-all_running : (polls : List Poll) → is_some (poll_until polls) ≡ not (all_running polls)
unfolding poll_until all_running
poll_until-all_running [] = refl
poll_until-all_running (Poll.failed ∷ ps) = refl
poll_until-all_running (Poll.running ∷ ps) = poll_until-all_running ps
poll_until-all_running (Poll.exited ∷ ps) = refl

-- The process group is killed just when each poll, before the ladder and in the grace period, found
-- the child running; then the ladder ends well just when the wait does.
pub cancel_ladder-killed :
    (first : Poll) (polls : List Poll) (waited : Bool)
    → (killed (cancel_ladder first polls waited).0 ≡ all_running (first ∷ polls))
      × (all_running (first ∷ polls) ≡ true
          → (cancel_ladder first polls waited).1
            ≡ (if waited then Outcome.stopped else Outcome.error))
unfolding cancel_ladder killed all_running
cancel_ladder-killed Poll.failed polls waited = (refl, λ h. cc)
cancel_ladder-killed Poll.exited polls waited = (refl, λ h. cc)
cancel_ladder-killed Poll.running polls waited = elim (Option-cases (poll_until polls)) [
  | inl none_decided ↦ ground (arith, none_decided, poll_until-all_running polls)
  | inr (o, decided) ↦ ground (arith, decided, poll_until-all_running polls)
]
