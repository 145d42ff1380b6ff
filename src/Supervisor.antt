-- ===== src/Supervisor.antt =====
-- crates/tethys-supervisor/src/lib.rs: the ring buffer of an agent's stderr, and the ladder that
-- stops an agent. A byte is a number. The child process is what its `try_wait` answers, in turn.
pub mod Ring
pub mod Escalation
mod Examples
use tethys.Prelude.{
  ℕ, suc, ◌+◌, ◌-◌, Bool, true, false, Option, none, some, List, [], ◌∷◌, ◌++◌, leb, length, drop,
  if◌then◌else◌,
}

pub record StderrRingBuffer : Type 0 where
  pub capacity : ℕ
  pub buffer : List ℕ

abbrev pub new : ℕ → StderrRingBuffer
new capacity = record { capacity = capacity; buffer = [] }

abbrev pub len : StderrRingBuffer → ℕ
len r = length r.buffer

unfoldable pub write_bytes : StderrRingBuffer → List ℕ → StderrRingBuffer
write_bytes r bytes =
    let total = length r.buffer + length bytes in
    let overflow = total - r.capacity in
    if leb total r.capacity
    then record r { buffer = r.buffer ++ bytes }
    else if leb (length r.buffer) overflow
    then record r { buffer = drop (length bytes - r.capacity) bytes }
    else record r { buffer = drop overflow r.buffer ++ bytes }

pub data Signal : Type 0 where
  interrupt terminate kill : Signal

-- What one `try_wait` answers: an error, still running, or an exit.
pub data Poll : Type 0 where
  failed running exited : Poll

pub data Outcome : Type 0 where
  -- The child had exited, or was killed and waited for.
  stopped : Outcome
  -- `try_wait` failed.
  error : Outcome

-- The polls until the deadline: what they decide, if anything.
unfoldable pub poll_until : List Poll → Option Outcome
poll_until [] = none
poll_until (Poll.failed ∷ ps) = some Outcome.error
poll_until (Poll.exited ∷ ps) = some Outcome.stopped
poll_until (Poll.running ∷ ps) = poll_until ps

-- On Unix, with `wait` at the end as `waited`: the signals sent, and the result. `first` is the poll
-- before the ladder, and `polls` are those that fit in the grace period.
unfoldable pub cancel_ladder : Poll → List Poll → Bool → List Signal × Outcome
unfolding poll_until
cancel_ladder Poll.failed polls waited = ([], Outcome.error)
cancel_ladder Poll.exited polls waited = ([], Outcome.stopped)
cancel_ladder Poll.running polls waited = elim (poll_until polls) [
  | some decided ↦ (Signal.interrupt ∷ [], decided)
  | none ↦ (
    Signal.interrupt ∷ Signal.terminate ∷ Signal.kill ∷ [],
    if waited then Outcome.stopped else Outcome.error,
  )
]
