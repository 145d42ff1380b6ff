-- ===== src/Sessions/Log.antt =====
-- The event log of a thread is dense, and a stream is a suffix of it.
use mathlib.Core.List.{Sublist}
use mathlib.Core.List.Sublist
use tethys.Prelude.{
  ℕ, suc, ◌+◌, ◌-◌, ◌^◌, ◌<◌, ◌≡◌, refl, ap, sym, ◌∙◌, Bool, true, false, String, List, [], ◌∷◌,
  ◌++◌, map, arith, length, drop, take, subst, length-append, All, leb, if◌then◌else◌, drop-nil,
  All-map, Bool-cases, inl, inr,
}
use tethys.Schema.Thread.{TurnEventBody, EventEnvelope}
use tethys.Thread.Machine.{EventOrigin}
use tethys.Thread.Machine.Identity.{id-apply, id-mark_interrupted, id-mark_resumed, id-archive}
use tethys.Sessions.{
  CreateThread, ThreadInner, ThreadHandle, deliver, end_reader, mark_transport_lost, begin_resume,
  archive, hold_lease, put_reader, stop_reader, backlog, from_seq, new_handle,
}
use tethys.Sessions.Streams.{
  IsFollowing, take-length, drop-length, deliver-IsFollowing, receive-IsFollowing, lag-IsFollowing,
  at-All,
}
use tethys.Sessions.World.{
  Stream, World, Step, Reach, send, receive, lag, subscribe, delivered, ended, leased, started,
  deleted, resuming, archived, lost, subscribed, brought, lagging, here, next, start,
}

-- The events number `i`, `i + 1`, … of the thread `id`.
abbrev pub Dense : String → ℕ → List EventEnvelope → Type 0
Dense id i [] = Unit
Dense id i (e ∷ es) = (e.seq ≡ i) × (e.thread_id ≡ id) × Dense id (i + 1) es

pub record IsLogged (id : String) (t : ThreadInner) : Type 0 where
  pub named : t.machine.id ≡ id
  pub dense : Dense id 0 t.events
  pub counted : length t.events ≡ t.next_seq

pub record Inv (id : String) (w : World) : Type 0 where
  pub log : IsLogged id w.thread.inner
  pub streams : All (IsFollowing w.thread.inner) w.streams

Dense-snoc :
    (id : String) (i : ℕ) (es : List EventEnvelope) (e : EventEnvelope)
    → Dense id i es
    → e.seq ≡ i + length es
    → e.thread_id ≡ id
    → Dense id i (es ++ e ∷ [])
Dense-snoc id i [] e d s n = (omega (arith, s), n, tt)
Dense-snoc id i (x ∷ es) e (first, name, d) s n =
    (first, name, Dense-snoc id (i + 1) es e d (omega (arith, s)) n)

from_seq-Dense :
    (id : String) (i since : ℕ) (es : List EventEnvelope)
    → Dense id i es
    → from_seq since es ≡ drop (since - i) es
unfolding from_seq
from_seq-Dense id i since [] d = sym (drop-nil (since - i))
from_seq-Dense id i since (x ∷ es) (first, name, d) = elim (Bool-cases (leb since i)) [
  | inl reached ↦
      rw (first, reached, from_seq-Dense id (i + 1) since es d, late reached, later reached) refl
  | inr before ↦ rw (first, before, from_seq-Dense id (i + 1) since es d, one_more before) refl
]
  where
    late : leb since i ≡ true → since - (i + 1) ≡ 0
    late r = ground (arith, r)

    later : leb since i ≡ true → since - i ≡ 0
    later r = ground (arith, r)

    one_more : leb since i ≡ false → since - i ≡ suc (since - (i + 1))
    one_more b = ground (arith, b)

deliver-IsLogged :
    (id : String) (t : ThreadInner) (body : TurnEventBody) (replayed : Bool)
    → t.next_seq + 1 < 2 ^ 32
    → IsLogged id t
    → IsLogged id (deliver t body replayed).0
unfolding deliver
deliver-IsLogged id t body replayed small v = record {
  named =
      id-apply t.machine t.next_seq body (if replayed then EventOrigin.replay else EventOrigin.live)
      ∙ v.named;
  dense = Dense-snoc id 0 t.events _ v.dense (omega (arith, v.counted)) v.named;
  counted =
      ground (arith, length-append t.events ((deliver t body replayed).1 ∷ []), v.counted, small);
}

-- A change of a thread that keeps its id, its log and its counter.
record Keeps (t t' : ThreadInner) : Type 0 where
  named : t'.machine.id ≡ t.machine.id
  events : t'.events ≡ t.events
  seq : t'.next_seq ≡ t.next_seq

Keeps-IsLogged : (id : String) (t t' : ThreadInner) → Keeps t t' → IsLogged id t → IsLogged id t'
Keeps-IsLogged id t t' k v = record {
  named = k.named ∙ v.named;
  dense = rw k.events v.dense;
  counted = rw (k.events, k.seq) v.counted;
}

Keeps-IsFollowing :
    (t t' : ThreadInner) → Keeps t t' → (st : Stream) → IsFollowing t st → IsFollowing t' st
Keeps-IsFollowing t t' k st v = record {
  known = rw k.events v.known;
  before = rw k.events v.before;
  after = rw k.events v.after;
  whole = rw k.events v.whole;
}

Keeps-Inv :
    (id : String) (w : World) (h : ThreadHandle)
    → Keeps w.thread.inner h.inner
    → Inv id w
    → Inv id (record w { thread = h })
Keeps-Inv id w h k v = record {
  log = Keeps-IsLogged id w.thread.inner h.inner k v.log;
  streams = All-map (Keeps-IsFollowing w.thread.inner h.inner k) w.streams v.streams;
}

Step-Inv : {id : String} {w u : World} → Step w u → Inv id w → Inv id u
unfolding end_reader hold_lease put_reader stop_reader begin_resume archive mark_transport_lost
    subscribe backlog
Step-Inv {id} {w} (delivered body replayed small) v = record {
  log = deliver-IsLogged id w.thread.inner body replayed small v.log;
  streams = All-send w.streams v.streams;
}
  where
    All-send :
        (sts : List Stream)
        → All (IsFollowing w.thread.inner) sts
        → All
            (IsFollowing (deliver w.thread.inner body replayed).0)
            (map (send (deliver w.thread.inner body replayed).1) sts)
    All-send [] all = tt
    All-send (st ∷ sts) (first, rest) =
        (deliver-IsFollowing w.thread.inner body replayed st first, All-send sts rest)
Step-Inv {id} {w} ended v =
    Keeps-Inv id w (end_reader w.thread)
      (record {
        named = ground (arith, id-mark_interrupted w.thread.inner.machine);
        events = refl;
        seq = refl;
      })
      v
Step-Inv {id} {w} (leased lease session) v =
    Keeps-Inv id w (hold_lease w.thread lease session)
      (record { named = refl; events = refl; seq = refl }) v
Step-Inv {id} {w} (started connection) v =
    Keeps-Inv id w (put_reader w.thread connection)
      (record { named = refl; events = refl; seq = refl }) v
Step-Inv {id} {w} deleted v =
    Keeps-Inv id w (stop_reader w.thread) (record { named = refl; events = refl; seq = refl }) v
Step-Inv {id} {w} resuming v =
    Keeps-Inv id w (begin_resume w.thread)
      (record { named = id-mark_resumed w.thread.inner.machine; events = refl; seq = refl }) v
Step-Inv {id} {w} archived v =
    Keeps-Inv id w (archive w.thread)
      (record { named = id-archive w.thread.inner.machine; events = refl; seq = refl }) v
Step-Inv {id} {w} lost v =
    Keeps-Inv id w (mark_transport_lost w.thread)
      (record { named = id-mark_interrupted w.thread.inner.machine; events = refl; seq = refl }) v
Step-Inv {id} {w} (subscribed since) v = record { log = v.log; streams = (first, v.streams) }
  where
    es : List EventEnvelope
    es = w.thread.inner.events

    none_less : since - 0 ≡ since
    none_less = omega arith

    first : IsFollowing w.thread.inner (subscribe w.thread since)
    first = record {
      known = omega (arith, v.log.counted);
      before =
          from_seq-Dense id 0 since es v.log.dense
          ∙ ap (λ n. drop n es) none_less
          ∙ ap (λ (zs : List EventEnvelope). drop since zs)
              (sym (take-length es) ∙ ap (λ n. take n es) v.log.counted);
      after =
          subst (λ n. Sublist [] (drop n es)) v.log.counted
            (subst (λ zs. Sublist [] zs) (sym (drop-length es)) (Sublist.refl []));
      whole = λ kept. sym (ap (λ n. drop n es) (sym v.log.counted) ∙ drop-length es);
    }
Step-Inv {id} {w} (brought i) v = record {
  log = v.log;
  streams =
      at-All w.thread.inner receive (receive-IsFollowing w.thread.inner) i w.streams v.streams;
}
Step-Inv {id} {w} (lagging i) v = record {
  log = v.log;
  streams = at-All w.thread.inner lag (lag-IsFollowing w.thread.inner) i w.streams v.streams;
}

Reach-Inv : {id : String} {w u : World} → Reach w u → Inv id w → Inv id u
Reach-Inv here v = v
Reach-Inv (next r st) v = Step-Inv st (Reach-Inv r v)

start-Inv : (id : String) (request : CreateThread) (root : String) → Inv id (start id request root)
unfolding new_handle
start-Inv id request root = record {
  log = record { named = refl; dense = tt; counted = refl };
  streams = tt;
}

-- In every world that a created thread can reach with fewer than 2 ^ 32 events, the log holds the
-- events 0, 1, … of that thread, as many as `next_seq` tells. Each stream's backlog is what the log
-- held from the asked number on when it subscribed; what it has brought since, and what waits for it,
-- are later events of the log, each once and in order, and all of them unless it has lagged.
pub log-Inv :
    (id : String) (request : CreateThread) (root : String) (w : World)
    → Reach (start id request root) w
    → Inv id w
log-Inv id request root w r = Reach-Inv r (start-Inv id request root)
