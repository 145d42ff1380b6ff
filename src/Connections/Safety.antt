-- ===== src/Connections/Safety.antt =====
-- What the accounts give: a leased connection is never reaped, and what a lease is worth.
use tethys.Prelude.{ℕ, ◌<◌, ◌≡◌, inl, inr, Bool, true, none, some, arith, subst, Option-cases}
use tethys.Prelude.Assoc.{lookup, lookup-modify}
use tethys.Schema.Connection.{ConnectionKey, key_eq, key_beq_iff}
use tethys.Connections.{
  ConnectionStore, Entry, Lifecycle, ok, reap, reuse, release, begin_spawn, give_back, is_connected,
  refresh_liveness, reusable,
}
use tethys.Connections.World.{World, Reach, held_of}
use tethys.Connections.Accounting.{Inv, IsCounted, IsCountedAt}
use tethys.Connections.Invariant.{start, start-Inv, Reach-Inv}

IsCounted-lookup :
    {w : World}
    → Inv w
    → (key : ConnectionKey) (e : Entry) → lookup key w.store.entries ≡ some e
    → IsCounted (held_of key w.held) e
IsCounted-lookup {w} v key e found = subst (IsCountedAt (held_of key w.held)) found (v.counts key)

-- In every world that the tasks can reach from an empty store with fewer than 2 ^ 32 leases of one
-- key at any time, an entry counts exactly the lease objects of its key that exist, and a draining
-- entry has none of them.
pub leases_counted :
    (s : ConnectionStore) (w : World) (key : ConnectionKey) (e : Entry)
    → Reach (start s) w
    → lookup key w.store.entries ≡ some e
    → (e.leases ≡ held_of key w.held) × (e.state ≡ Lifecycle.draining → held_of key w.held ≡ 0)
leases_counted s w key e r found =
    let c = IsCounted-lookup (Reach-Inv r (start-Inv s)) key e found in
    (c.counted, λ draining. c.idle (ground (arith, draining)))

-- In every world that the tasks can reach from an empty store with fewer than 2 ^ 32 leases of one
-- key at any time, while a lease of a key exists, the second section of `reap_idle` for that key
-- leaves the store as it is and takes no child to stop, whatever happened since the first section.
pub reap_spares_leased :
    (s : ConnectionStore) (w : World) (key : ConnectionKey)
    → Reach (start s) w
    → 0 < held_of key w.held
    → reap w.store key ≡ (w.store, none)
unfolding reap
reap_spares_leased s w key r leased = elim (Option-cases (lookup key w.store.entries)) [
  | inl gone ↦ ground (arith, gone)
  | inr (e, found) ↦
      let c = IsCounted-lookup (Reach-Inv r (start-Inv s)) key e found in
      ground (arith, found, c.counted, c.idle)
]

-- After the drop of the last lease of a connected entry the next `reuse` of the key finds nothing, at
-- any time and however long the grace is, and the next spawn of the key takes the old child, to stop it.
pub last_release :
    (s : ConnectionStore) (key : ConnectionKey) (e : Entry) (exited : ℕ → Bool) (now later : ℕ)
    → lookup key s.entries ≡ some e
    → is_connected e.state ≡ true
    → e.leases ≡ 1
    → ((reuse (release s now key) exited later key).1 ≡ none)
      × ((begin_spawn (release s now key) key).1
          ≡ ok (record {
            spec = e.spec;
            compat = e.compat;
            child = e.child;
            connection = e.connection;
          }))
unfolding reuse release begin_spawn give_back refresh_liveness reusable
last_release s key e exited now later found connected one =
    let at = lookup-modify key key (give_back now) s.entries in
    ground (arith, found, connected, one, at, key_beq_iff key key)
