-- ===== src/Sessions/Readers.antt =====
-- The lease of a thread, its reader task, and what a call of `ensure_connection` leaves.
use mathlib.Core.Option
use tethys.Prelude.{
  ℕ, ◌≡◌, refl, ◌⊎◌, inl, inr, true, String, none, some, Bool-cases, Option-cases, is_some, arith,
}
use tethys.Connections.{ConnectionLease}
use tethys.Sessions.{
  ApiError, ApiResult, done, failed, CreateThread, ThreadHandle, SpawnAnswers, deliver, end_reader,
  mark_transport_lost, begin_resume, archive, hold_lease, put_reader, stop_reader, attach_session,
  start_reader, new_handle, live_connection, open_session, ensure_connection,
}
use tethys.Sessions.World.{
  World, Step, Reach, delivered, ended, leased, started, deleted, resuming, archived, lost,
  subscribed, brought, lagging, here, next, start,
}

abbrev IsHeld : ThreadHandle → Type 0
IsHeld h = is_some h.inner.lease ≡ true → is_some h.inner.session ≡ true

Step-IsHeld : {w u : World} → Step w u → IsHeld w.thread → IsHeld u.thread
unfolding deliver end_reader mark_transport_lost begin_resume archive hold_lease put_reader
    stop_reader
Step-IsHeld (delivered body replayed small) v = v
Step-IsHeld ended v = λ h. cc
Step-IsHeld (leased lease session) v = λ h. refl
Step-IsHeld (started connection) v = v
Step-IsHeld deleted v = v
Step-IsHeld resuming v = λ h. cc
Step-IsHeld archived v = v
Step-IsHeld lost v = λ h. cc
Step-IsHeld (subscribed since) v = v
Step-IsHeld (brought i) v = v
Step-IsHeld (lagging i) v = v

Reach-IsHeld : {w u : World} → Reach w u → IsHeld w.thread → IsHeld u.thread
Reach-IsHeld here v = v
Reach-IsHeld (next r st) v = Step-IsHeld st (Reach-IsHeld r v)

-- In every world that a created thread can reach with fewer than 2 ^ 32 events, also between the
-- sections of a call and after the deletion of the thread: `live_connection` answers just when the
-- thread holds a lease, and the connection is that of the lease.
pub live_connection-leased :
    (id : String) (request : CreateThread) (root : String) (w : World)
    → Reach (start id request root) w
    → Option.map (λ (live : ℕ × String). live.0) (live_connection w.thread)
      ≡ Option.map (λ (lease : ConnectionLease). lease.connection) w.thread.inner.lease
unfolding new_handle live_connection
live_connection-leased id request root w r = elim (Option-cases w.thread.inner.lease) [
  | inl free ↦ ground (arith, free)
  | inr (lease, held) ↦ elim (Option-cases w.thread.inner.session) [
    | inl missing ↦ absurd (ground (arith, held, missing, Reach-IsHeld r first))
    | inr (session, known) ↦ ground (arith, held, known)
  ]
]
  where
    first : IsHeld (new_handle id request root)
    first h = cc

-- A new lease attached while the reader of an older connection still runs: that reader stays, so
-- nothing reads the new connection, and when it ends the thread loses the new lease with it.
pub stale_reader :
    (h : ThreadHandle) (lease : ConnectionLease) (session : String) (old : ℕ)
    → h.reader ≡ some old
    → ((attach_session h lease session).reader ≡ some old)
      × (live_connection (attach_session h lease session) ≡ some (lease.connection, session))
      × (live_connection (end_reader (attach_session h lease session)) ≡ none)
      × ((end_reader (attach_session h lease session)).reader ≡ none)
unfolding attach_session hold_lease start_reader put_reader live_connection end_reader
stale_reader h lease session old reading = ground (arith, reading)

ApiResult-cases {ℓ} :
    {A : Type ℓ} (r : ApiResult A) → ((e : ApiError) × (r ≡ failed e)) ⊎ ((x : A) × (r ≡ done x))
ApiResult-cases (failed e) = inl (e, refl)
ApiResult-cases (done x) = inr (x, refl)

-- `ensure_connection` answers well only with a live connection in the thread, and an error leaves the thread as it was.
ensure_connection-cases :
    (h : ThreadHandle) (a : SpawnAnswers)
    → (((ensure_connection h a).1 ≡ done tt)
        × (is_some (live_connection (ensure_connection h a).0) ≡ true))
      ⊎ ((e : ApiError) × ((ensure_connection h a).1 ≡ failed e) × ((ensure_connection h a).0 ≡ h))
unfolding ensure_connection live_connection attach_session hold_lease start_reader put_reader
ensure_connection-cases h a = elim (ApiResult-cases a.key) [
  | inl (e, unknown) ↦ inr (e, ground (arith, unknown), ground (arith, unknown))
  | inr (key, known) ↦ elim (Bool-cases (is_some (live_connection h))) [
    | inl live ↦ inl (ground (arith, known, live))
    | inr dead ↦ elim (ApiResult-cases a.lease) [
      | inl (e, refused) ↦
          inr (e, ground (arith, known, dead, refused), ground (arith, known, dead, refused))
      | inr (lease, granted) ↦ elim (ApiResult-cases a.servers) [
        | inl (e, unresolved) ↦ inr (
          e,
          ground (arith, known, dead, granted, unresolved),
          ground (arith, known, dead, granted, unresolved),
        )
        | inr (servers, resolved) ↦ elim (ApiResult-cases (open_session h.inner.session a)) [
          | inl (e, unopened) ↦ inr (
            e,
            ground (arith, known, dead, granted, resolved, unopened),
            ground (arith, known, dead, granted, resolved, unopened),
          )
          | inr (session, opened) ↦ inl (ground (arith, known, dead, granted, resolved, opened))
        ]
      ]
    ]
  ]
]
