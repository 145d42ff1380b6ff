-- ===== src/Connections/World.antt =====
-- The store among its tasks: each locked section is one step, and the steps of different tasks
-- interleave. `connect_guard` lets one `acquire` run at a time, from its `reuse` to its `install`.
use tethys.Prelude.{
  ℕ, ◌+◌, ◌^◌, ◌<◌, ◌≡◌, ◌==◌, Bool, Option, none, some, List, [], ◌∷◌, ◌++◌, if◌then◌else◌,
}
use tethys.Schema.Connection.{ConnectionKey, key_eq, NormalizedCapabilities, AgentCompat}
use tethys.Connections.{
  ConnectionStore, ConnectionLease, LaunchSpec, PendingSpawn, Spawned, ok, register, reuse,
  begin_spawn, mark_error, install, release, reap, restart, entry, refresh_all, close_watched,
  set_capabilities_for_test,
}

pub record World : Type 0 where
  pub store : ConnectionStore
  -- The lease objects that exist.
  pub held : List ConnectionLease
  -- The key of the spawn that is under way, if any.
  pub spawning : Option ConnectionKey

-- The leases of one key.
unfoldable pub held_of : ConnectionKey → List ConnectionLease → ℕ
held_of key [] = 0
held_of key (l ∷ ls) = if l.key == key then held_of key ls + 1 else held_of key ls

abbrev pub grant : World → ConnectionStore → ConnectionLease → World
grant w s l = record { store = s; held = l ∷ w.held; spawning = none }

-- A counter of leases holds 32 bits: `Step` keeps to fewer leases of one key than that.
pub data Step (w : World) : World → Type 0 where
  registered :
      (spec : LaunchSpec) (compat : AgentCompat) (now : ℕ)
      → Step w (record w { store = (register w.store spec compat now).0 })
  reused :
      (exited : ℕ → Bool) (now : ℕ) (key : ConnectionKey) (s : ConnectionStore)
      (l : ConnectionLease)
      → w.spawning ≡ none
      → held_of key w.held + 1 < 2 ^ 32
      → reuse w.store exited now key ≡ (s, some l)
      → Step w (grant w s l)
  missed :
      (exited : ℕ → Bool) (now : ℕ) (key : ConnectionKey) (s : ConnectionStore)
      → w.spawning ≡ none
      → reuse w.store exited now key ≡ (s, none)
      → Step w (record w { store = s })
  began :
      (key : ConnectionKey) (s : ConnectionStore) (p : PendingSpawn)
      → w.spawning ≡ none
      → begin_spawn w.store key ≡ (s, ok p)
      → Step w (record w { store = s; spawning = some key })
  failed :
      (key : ConnectionKey) (pid : Option ℕ)
      → w.spawning ≡ some key
      → Step w (record w { store = mark_error w.store key pid; spawning = none })
  installed :
      (now : ℕ) (key : ConnectionKey) (spawned : Spawned)
      → w.spawning ≡ some key
      → held_of key w.held + 1 < 2 ^ 32
      → Step w (grant w (install w.store now key spawned).0 (install w.store now key spawned).1)
  released :
      (now : ℕ) (before after : List ConnectionLease) (l : ConnectionLease)
      → w.held ≡ before ++ l ∷ after
      → Step w (record w { store = release w.store now l.key; held = before ++ after })
  reaped : (key : ConnectionKey) → Step w (record w { store = (reap w.store key).0 })
  restarted : (key : ConnectionKey) → Step w (record w { store = (restart w.store key).0 })
  inspected :
      (exited : ℕ → Bool) (key : ConnectionKey)
      → Step w (record w { store = (entry w.store exited key).0 })
  listed :
      (exited : ℕ → Bool)
      → Step w
          (record w { store = record w.store { entries = refresh_all exited w.store.entries } })
  closed :
      (key : ConnectionKey) (connection : ℕ)
      → Step w (record w { store = close_watched w.store key connection })
  hooked :
      (key : ConnectionKey) (capabilities : Option NormalizedCapabilities)
      → Step w (record w { store = set_capabilities_for_test w.store key capabilities })

pub data Reach (w : World) : World → Type 0 where
  here : Reach w w
  next : {u v : World} → Reach w u → Step u v → Reach w v
