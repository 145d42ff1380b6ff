-- ===== src/Thread/Machine/Replay.antt =====
-- What a replayed event may do to the machine.
use tethys.Prelude.{◌≡◌, max, ℕ, ◌++◌}
use tethys.Schema.Thread.{TurnEventBody}
use tethys.Thread.Entries.Replay.{missing, apply_event-replayed}
use tethys.Thread.Machine.{EventOrigin, ThreadMachine, apply}

-- A replayed event drives no state: it raises the latest sequence number, puts the entry that it
-- creates, if its id is free, behind the entries that are there, and changes nothing else.
pub apply-replay :
    (m : ThreadMachine) (seq : ℕ) (ev : TurnEventBody)
    → apply m seq ev EventOrigin.replay
      ≡ record m { latest_seq = max m.latest_seq seq; entries = m.entries ++ missing ev m.entries }
unfolding apply
apply-replay m seq ev = rw (apply_event-replayed m.entries ev)
