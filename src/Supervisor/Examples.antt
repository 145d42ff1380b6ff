-- ===== src/Supervisor/Examples.antt =====
-- Tests of the ring buffer and the ladder, and the theorems at concrete inputs.
use tethys.Prelude.{ℕ, ◌≡◌, refl, true, List, [], ◌∷◌, ◌++◌, arith, if◌then◌else◌}
use tethys.Supervisor.{StderrRingBuffer, write_bytes, Poll, Outcome, cancel_ladder}
use tethys.Supervisor.Ring.{last, write_all, joined, write_all-last}
use tethys.Supervisor.Escalation.{all_running, killed, cancel_ladder-killed}

abbrev ring : StderrRingBuffer
ring = record { capacity = 4; buffer = 1 ∷ 2 ∷ 3 ∷ [] }

abbrev writes : List (List ℕ)
writes = (4 ∷ 5 ∷ []) ∷ (6 ∷ 7 ∷ 8 ∷ 9 ∷ 10 ∷ []) ∷ []

write_all-last_example : (write_all ring writes).buffer ≡ last 4 (ring.buffer ++ joined writes)
write_all-last_example = write_all-last ring writes (omega arith)

keeps_last_four : (write_all ring writes).buffer ≡ 7 ∷ 8 ∷ 9 ∷ 10 ∷ []
unfolding write_all write_bytes
keeps_last_four = refl

abbrev polls : List Poll
polls = Poll.running ∷ Poll.running ∷ []

cancel_ladder-killed_example :
    (killed (cancel_ladder Poll.running polls true).0 ≡ all_running (Poll.running ∷ polls))
    × (all_running (Poll.running ∷ polls) ≡ true
        → (cancel_ladder Poll.running polls true).1
          ≡ (if true then Outcome.stopped else Outcome.error))
cancel_ladder-killed_example = cancel_ladder-killed Poll.running polls true
