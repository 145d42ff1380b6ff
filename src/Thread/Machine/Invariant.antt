-- ===== src/Thread/Machine/Invariant.antt =====
-- What holds of a machine after any history.
use tethys.Prelude.{
  String, ℕ, suc, ◌+◌, ◌≤◌, ◌≡◌, refl, true, false, Option, none, some, List, [], ◌∷◌, ◌++◌, arith,
  max, length, ◌%◌, ◌^◌,
}
use tethys.Schema.Thread.{StopReason, SessionState, TurnEventBody}
use tethys.Thread.Entries.Ids.{Distinct, apply_event-Distinct}
use tethys.Thread.Entries.Find.{ids}
use tethys.Thread.Machine.{
  EventOrigin, TurnRecord, ThreadMachine, new, close_first, apply, mark_resumed, mark_interrupted,
  archive,
}

-- The turns carry their positions, from `k` on, in 32 bits.
abbrev pub Indexed : ℕ → List TurnRecord → Type 0
Indexed k [] = Unit {0}
Indexed k (t ∷ ts) = (t.index ≡ k % 2 ^ 32) × Indexed (suc k) ts

-- A turn started by `latest`, and ended, if it did, between its start and `latest`.
abbrev pub Ends : ℕ → ℕ → Option ℕ → Type 0
Ends latest started none = Unit {0}
Ends latest started (some ended) = (started ≤ ended) × (ended ≤ latest)

abbrev pub Ordered : ℕ → List TurnRecord → Type 0
Ordered latest [] = Unit {0}
Ordered latest (t ∷ ts) =
    (t.started_seq ≤ latest) × Ends latest t.started_seq t.ended_seq × Ordered latest ts

pub record IsValid (m : ThreadMachine) : Type 0 where
  pub distinct : Distinct (ids m.entries)
  pub indexed : Indexed 0 m.turns
  pub ordered : Ordered m.latest_seq m.turns

Ends-mono : (a b s : ℕ) (o : Option ℕ) → a ≤ b → Ends a s o → Ends b s o
Ends-mono a b s none h e = tt
Ends-mono a b s (some x) h e = omega arith

Ordered-mono : (a b : ℕ) (ts : List TurnRecord) → a ≤ b → Ordered a ts → Ordered b ts
Ordered-mono a b [] h o = tt
Ordered-mono a b (t ∷ ts) h o =
    (omega arith, Ends-mono a b t.started_seq t.ended_seq h o.1, Ordered-mono a b ts h o.2)

close_first-Indexed :
    (k seq : ℕ) (reason : Option StopReason) (ts : List TurnRecord)
    → Indexed k ts
    → Indexed k (close_first seq reason ts)
unfolding close_first
close_first-Indexed k seq reason [] h = tt
close_first-Indexed k seq reason (t ∷ ts) h =
    ground (arith, close_first-Indexed (suc k) seq reason ts h.1)

close_first-Ordered :
    (latest seq : ℕ) (reason : Option StopReason) (ts : List TurnRecord)
    → latest ≤ seq
    → Ordered latest ts
    → Ordered seq (close_first seq reason ts)
unfolding close_first
close_first-Ordered latest seq reason [] h o = tt
close_first-Ordered latest seq reason (t ∷ ts) h o = ground (
  arith,
  close_first-Ordered latest seq reason ts h o.2,
  Ordered-mono latest seq ts h o.2,
  Ends-mono latest seq t.started_seq t.ended_seq h o.1,
)

Indexed-snoc :
    (k : ℕ) (ts : List TurnRecord) (t : TurnRecord)
    → t.index ≡ (k + length ts) % 2 ^ 32
    → Indexed k ts
    → Indexed k (ts ++ t ∷ [])
Indexed-snoc k [] t h i = (ground arith, tt)
Indexed-snoc k (x ∷ ts) t h i = (i.0, Indexed-snoc (suc k) ts t (ground arith) i.1)

Ordered-snoc :
    (latest seq : ℕ) (ts : List TurnRecord) (t : TurnRecord)
    → latest ≤ seq
    → t.started_seq ≤ seq
    → t.ended_seq ≡ none
    → Ordered latest ts
    → Ordered seq (ts ++ t ∷ [])
Ordered-snoc latest seq [] t h s e o = ground arith
Ordered-snoc latest seq (x ∷ ts) t h s e o = (
  omega arith,
  Ends-mono latest seq x.started_seq x.ended_seq h o.1,
  Ordered-snoc latest seq ts t h s e o.2,
)

max_latest : (m : ThreadMachine) (seq : ℕ) → m.latest_seq ≤ seq → max m.latest_seq seq ≡ seq
max_latest m seq h = omega arith

new-IsValid : (id : String) → IsValid (new id)
new-IsValid id = record { distinct = tt; indexed = tt; ordered = tt }

-- A live event whose number is not behind the latest, and any replayed event, keeps the entries'
-- ids distinct, the turns numbered by position, and each turn's end between its start and the
-- latest sequence number.
pub apply-IsValid :
    (m : ThreadMachine) (seq : ℕ) (ev : TurnEventBody) (origin : EventOrigin)
    → (origin ≡ EventOrigin.live → m.latest_seq ≤ seq)
    → IsValid m
    → IsValid (apply m seq ev origin)
unfolding apply
apply-IsValid m seq ev EventOrigin.replay h v = record {
  distinct = apply_event-Distinct m.entries ev true v.distinct;
  indexed = v.indexed;
  ordered = Ordered-mono m.latest_seq _ m.turns (omega arith) v.ordered;
}
apply-IsValid m seq (TurnEventBody.state_changed SessionState.running) EventOrigin.live h v =
    let t : TurnRecord = record {
      index = length m.turns % 2 ^ 32;
      started_seq = seq;
      ended_seq = none;
      stop_reason = none;
    } in
    ground (
      arith,
      Ordered-mono m.latest_seq (max m.latest_seq seq) m.turns (omega arith) v.ordered,
      Ordered-snoc m.latest_seq (max m.latest_seq seq) m.turns t (omega arith) (omega arith) refl
          v.ordered,
      Indexed-snoc 0 m.turns t (omega arith) v.indexed,
    )
apply-IsValid m seq (TurnEventBody.state_changed (SessionState.idle reason)) EventOrigin.live h v =
    record {
      distinct = v.distinct;
      indexed = close_first-Indexed 0 seq reason m.turns v.indexed;
      ordered =
          rw (max_latest m seq (h refl))
            (close_first-Ordered m.latest_seq seq reason m.turns (h refl) v.ordered);
    }
apply-IsValid m seq ev EventOrigin.live h v = ground (
  arith,
  apply_event-Distinct m.entries ev false v.distinct,
  Ordered-mono m.latest_seq (max m.latest_seq seq) m.turns (omega arith) v.ordered,
)

-- The other operations keep it as they are.
pub marks-IsValid :
    (m : ThreadMachine)
    → IsValid m
    → IsValid (mark_resumed m) × IsValid (mark_interrupted m) × IsValid (archive m)
unfolding mark_resumed mark_interrupted archive
marks-IsValid m v = (
  ground arith,
  record {
    distinct = v.distinct;
    indexed = close_first-Indexed 0 m.latest_seq (some StopReason.error) m.turns v.indexed;
    ordered =
        close_first-Ordered m.latest_seq m.latest_seq (some StopReason.error) m.turns (omega arith)
          v.ordered;
  },
  record { distinct = v.distinct; indexed = v.indexed; ordered = v.ordered },
)
