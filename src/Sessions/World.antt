-- ===== src/Sessions/World.antt =====
-- One thread among its tasks and its subscribers: each locked section is one step.
use tethys.Prelude.{
  ℕ, zero, suc, ◌+◌, ◌^◌, ◌<◌, Bool, true, false, String, List, [], ◌∷◌, ◌++◌, map,
}
use tethys.Schema.Thread.{TurnEventBody, EventEnvelope}
use tethys.Connections.{ConnectionLease}
use tethys.Sessions.{
  CreateThread, ThreadHandle, deliver, end_reader, mark_transport_lost, begin_resume, archive,
  hold_lease, put_reader, stop_reader, backlog, new_handle,
}

-- A subscription: the backlog that it starts with, the live events that it has brought since, and
-- those that wait in the receiver of the broadcast. `joined` is the next number at its start, and
-- `lagged` tells whether the receiver has ever lost an event.
pub record Stream : Type 0 where
  pub since_seq : ℕ
  pub joined : ℕ
  pub backlog : List EventEnvelope
  pub live : List EventEnvelope
  pub waiting : List EventEnvelope
  pub lagged : Bool

-- The broadcast of an event.
unfoldable pub send : EventEnvelope → Stream → Stream
send e st = record st { waiting = st.waiting ++ e ∷ [] }

abbrev pub received : Stream → List EventEnvelope → Stream
received st [] = st
received st (e ∷ waiting) = record st { live = st.live ++ e ∷ []; waiting = waiting }

-- The receiver gives the oldest event that waits.
unfoldable pub receive : Stream → Stream
receive st = received st st.waiting

abbrev pub dropped : Stream → List EventEnvelope → Stream
dropped st [] = st
dropped st (e ∷ waiting) = record st { waiting = waiting; lagged = true }

-- A receiver that lags loses the oldest event that waits, and the stream goes on with the next.
unfoldable pub lag : Stream → Stream
lag st = dropped st st.waiting

unfoldable pub subscribe : ThreadHandle → ℕ → Stream
unfolding backlog
subscribe h since_seq = record {
  since_seq = since_seq;
  joined = h.inner.next_seq;
  backlog = backlog h.inner since_seq;
  live = [];
  waiting = [];
  lagged = false;
}

-- A change of the stream at a place.
unfoldable pub at : ℕ → (Stream → Stream) → List Stream → List Stream
at i f [] = []
at zero f (st ∷ sts) = f st ∷ sts
at (suc i) f (st ∷ sts) = st ∷ at i f sts

pub record World : Type 0 where
  pub thread : ThreadHandle
  pub streams : List Stream

-- The sequence numbers stay below 2 ^ 32. Two starts may both find no reader, and a task may outlive
-- its place in the slot: so a delivery, an end and a new reader are possible at any time.
pub data Step (w : World) : World → Type 0 where
  delivered :
      (body : TurnEventBody) (replayed : Bool)
      → w.thread.inner.next_seq + 1 < 2 ^ 32
      → Step w (record {
        thread = record w.thread { inner = (deliver w.thread.inner body replayed).0 };
        streams = map (send (deliver w.thread.inner body replayed).1) w.streams;
      })
  ended : Step w (record w { thread = end_reader w.thread })
  leased :
      (lease : ConnectionLease) (session : String)
      → Step w (record w { thread = hold_lease w.thread lease session })
  started : (connection : ℕ) → Step w (record w { thread = put_reader w.thread connection })
  deleted : Step w (record w { thread = stop_reader w.thread })
  resuming : Step w (record w { thread = begin_resume w.thread })
  archived : Step w (record w { thread = archive w.thread })
  lost : Step w (record w { thread = mark_transport_lost w.thread })
  subscribed :
      (since_seq : ℕ) → Step w (record w { streams = subscribe w.thread since_seq ∷ w.streams })
  brought : (i : ℕ) → Step w (record w { streams = at i receive w.streams })
  lagging : (i : ℕ) → Step w (record w { streams = at i lag w.streams })

pub data Reach (w : World) : World → Type 0 where
  here : Reach w w
  next : {u v : World} → Reach w u → Step u v → Reach w v

-- A thread that `create` has made.
abbrev pub start : String → CreateThread → String → World
start id request workspace_root = record {
  thread = new_handle id request workspace_root;
  streams = [];
}
