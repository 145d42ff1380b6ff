-- ===== src/Sessions/Streams.antt =====
-- What a stream of a thread brings, next to the thread's log.
use mathlib.Core.List.{Sublist}
use mathlib.Core.List.Sublist
use tethys.Prelude.{
  ℕ, zero, suc, ◌≤◌, ◌≡◌, refl, ap, sym, ◌∙◌, Bool, false, List, [], ◌∷◌, ◌++◌, arith, length, drop,
  take, append_assoc, subst, length-append, drop-append_left, All,
}
use tethys.Schema.Thread.{TurnEventBody, EventEnvelope}
use tethys.Sessions.{ThreadInner, deliver}
use tethys.Sessions.World.{Stream, send, received, receive, dropped, lag, at}

-- The backlog of a stream is what the log then held from `since_seq` on. What the stream has brought
-- since, and what waits for it, are later events of the log, each once and in order; all of them, if
-- the stream has never lagged.
pub record IsFollowing (t : ThreadInner) (st : Stream) : Type 0 where
  pub known : st.joined ≤ length t.events
  pub before : st.backlog ≡ drop st.since_seq (take st.joined t.events)
  pub after : Sublist (st.live ++ st.waiting) (drop st.joined t.events)
  pub whole : st.lagged ≡ false → st.live ++ st.waiting ≡ drop st.joined t.events

take-append_left :
    (n : ℕ) (xs ys : List EventEnvelope) → n ≤ length xs → take n (xs ++ ys) ≡ take n xs
take-append_left zero xs ys h = refl
take-append_left (suc n) [] ys h = absurd (omega (arith, h))
take-append_left (suc n) (x ∷ xs) ys h =
    ap (λ zs. x ∷ zs) (take-append_left n xs ys (omega (arith, h)))

pub take-length : (xs : List EventEnvelope) → take (length xs) xs ≡ xs
take-length [] = refl
take-length (x ∷ xs) = ap (λ zs. x ∷ zs) (take-length xs)

pub drop-length : (xs : List EventEnvelope) → drop (length xs) xs ≡ []
drop-length [] = refl
drop-length (x ∷ xs) = drop-length xs

pub deliver-IsFollowing :
    (t : ThreadInner) (body : TurnEventBody) (replayed : Bool) (st : Stream)
    → IsFollowing t st
    → IsFollowing (deliver t body replayed).0 (send (deliver t body replayed).1 st)
unfolding deliver send
deliver-IsFollowing t body replayed st v =
    let e : EventEnvelope = (deliver t body replayed).1 in
    let later : drop st.joined (t.events ++ e ∷ []) ≡ drop st.joined t.events ++ e ∷ [] =
      drop-append_left st.joined t.events (e ∷ []) v.known in
    let joined : st.live ++ (st.waiting ++ e ∷ []) ≡ (st.live ++ st.waiting) ++ e ∷ [] =
      sym (append_assoc st.live st.waiting (e ∷ [])) in
    record {
      known = omega (arith, length-append t.events (e ∷ []), v.known);
      before =
          v.before
          ∙ ap (λ es. drop st.since_seq es)
              (sym (take-append_left st.joined t.events (e ∷ []) v.known));
      after = rw (joined, later) (Sublist.append v.after (Sublist.refl (e ∷ [])));
      whole = λ kept. joined ∙ ap (λ es. es ++ e ∷ []) (v.whole kept) ∙ sym later;
    }

pub receive-IsFollowing :
    (t : ThreadInner) (st : Stream) → IsFollowing t st → IsFollowing t (receive st)
unfolding receive
receive-IsFollowing t st v = go st.waiting refl
  where
    go : (es : List EventEnvelope) → st.waiting ≡ es → IsFollowing t (received st es)
    go [] e = v
    go (x ∷ es) e =
        let same : (st.live ++ x ∷ []) ++ es ≡ st.live ++ st.waiting =
          append_assoc st.live (x ∷ []) es ∙ ap (λ zs. st.live ++ zs) (sym e) in
        record {
          known = v.known;
          before = v.before;
          after = rw same v.after;
          whole = λ kept. same ∙ v.whole kept;
        }

pub lag-IsFollowing : (t : ThreadInner) (st : Stream) → IsFollowing t st → IsFollowing t (lag st)
unfolding lag
lag-IsFollowing t st v = go st.waiting refl
  where
    go : (es : List EventEnvelope) → st.waiting ≡ es → IsFollowing t (dropped st es)
    go [] e = v
    go (x ∷ es) e = record {
      known = v.known;
      before = v.before;
      after =
          Sublist.trans (Sublist.append (Sublist.refl st.live) (Sublist.cons x (Sublist.refl es)))
            (subst (λ zs. Sublist (st.live ++ zs) (drop st.joined t.events)) e v.after);
      whole = λ kept. absurd (cc kept);
    }

-- A change that every stream stands may happen to the stream at any place.
pub at-All :
    (t : ThreadInner) (f : Stream → Stream)
    → ((st : Stream) → IsFollowing t st → IsFollowing t (f st))
    → (i : ℕ) (sts : List Stream) → All (IsFollowing t) sts
    → All (IsFollowing t) (at i f sts)
unfolding at
at-All t f kept zero [] all = tt
at-All t f kept (suc i) [] all = tt
at-All t f kept zero (st ∷ sts) (first, all) = (kept st first, all)
at-All t f kept (suc i) (st ∷ sts) (first, all) = (first, at-All t f kept i sts all)
