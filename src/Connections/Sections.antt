-- ===== src/Connections/Sections.antt =====
-- What a locked section did to the store, read off its result.
use tethys.Prelude.{
  ℕ, Bool, true, ◌≡◌, ◌⊎◌, inl, inr, none, some, is_some, arith, Option-cases, Bool-cases, ◌&&◌,
  ◌==◌, nat_eq,
}
use tethys.Prelude.Assoc.{lookup, modify}
use tethys.Schema.Connection.{ConnectionKey, key_eq}
use tethys.Connections.{
  ConnectionStore, ConnectionLease, Entry, Lifecycle, PendingSpawn, ok, reuse, begin_spawn, reap,
  restart, entry, refresh_liveness, is_connected, is_draining, lend, count_spawn, terminate,
}

pub reuse-lent :
    (s s' : ConnectionStore) (exited : ℕ → Bool) (now : ℕ) (key : ConnectionKey)
    (l : ConnectionLease)
    → reuse s exited now key ≡ (s', some l)
    → (e : Entry) × (lookup key s.entries ≡ some e)
      × (is_connected (refresh_liveness exited e).state ≡ true)
      × (l ≡ record { key = key; connection = l.connection })
      × (s'
          ≡ record s { entries = modify key (λ _. lend now (refresh_liveness exited e)) s.entries })
unfolding reuse
reuse-lent s s' exited now key l h = elim (Option-cases (lookup key s.entries)) [
  | inl e ↦ absurd (ground (arith, e))
  | inr (x, e) ↦ (x, e, ground (arith, e), ground (arith, e), ground (arith, e))
]

pub reuse-missed :
    (s s' : ConnectionStore) (exited : ℕ → Bool) (now : ℕ) (key : ConnectionKey)
    → reuse s exited now key ≡ (s', none)
    → (s' ≡ s)
      ⊎ ((e : Entry) × (lookup key s.entries ≡ some e)
          × (s' ≡ record s { entries = modify key (λ _. refresh_liveness exited e) s.entries }))
unfolding reuse
reuse-missed s s' exited now key h = elim (Option-cases (lookup key s.entries)) [
  | inl e ↦ inl (ground (arith, e))
  | inr (x, e) ↦ inr (x, e, ground (arith, e))
]

pub begin_spawn-began :
    (s s' : ConnectionStore) (key : ConnectionKey) (p : PendingSpawn)
    → begin_spawn s key ≡ (s', ok p)
    → (is_some (lookup key s.entries) ≡ true)
      × (s' ≡ record s { entries = modify key count_spawn s.entries })
unfolding begin_spawn
begin_spawn-began s s' key p h = elim (Option-cases (lookup key s.entries)) [
  | inl e ↦ absurd (ground (arith, e))
  | inr (x, e) ↦ (ground (arith, e), ground (arith, e))
]

pub reap-cases :
    (s : ConnectionStore) (key : ConnectionKey)
    → ((reap s key).0 ≡ s)
      ⊎ ((e : Entry) × (lookup key s.entries ≡ some e)
          × (is_draining e.state ≡ true)
          × (e.leases ≡ 0)
          × ((reap s key).0 ≡ record s { entries = modify key terminate s.entries }))
unfolding reap
reap-cases s key = elim (Option-cases (lookup key s.entries)) [
  | inl e ↦ inl (ground (arith, e))
  | inr (x, e) ↦ elim (Bool-cases (is_draining x.state && x.leases == 0)) [
    | inl b ↦ inr (x, e, ground (arith, b), ground (arith, b), ground (arith, e, b))
    | inr b ↦ inl (ground (arith, e, b))
  ]
]

abbrev pub fail : Entry → Entry
fail e = record e { state = Lifecycle.error; child = none; connection = none }

pub restart-cases :
    (s : ConnectionStore) (key : ConnectionKey)
    → ((restart s key).0 ≡ s)
      ⊎ ((restart s key).0 ≡ record s { entries = modify key fail s.entries })
unfolding restart
restart-cases s key = elim (Option-cases (lookup key s.entries)) [
  | inl e ↦ inl (ground (arith, e))
  | inr (x, e) ↦ inr (ground (arith, e))
]

pub entry-cases :
    (s : ConnectionStore) (exited : ℕ → Bool) (key : ConnectionKey)
    → ((entry s exited key).0 ≡ s)
      ⊎ ((e : Entry) × (lookup key s.entries ≡ some e)
          × ((entry s exited key).0
              ≡ record s { entries = modify key (λ _. refresh_liveness exited e) s.entries }))
unfolding entry
entry-cases s exited key = elim (Option-cases (lookup key s.entries)) [
  | inl e ↦ inl (ground (arith, e))
  | inr (x, e) ↦ inr (x, e, ground (arith, e))
]
