-- ===== src/Connections/Examples.antt =====
-- Tests of the connection store, and the theorems at concrete inputs.
use mathlib.Core.Option
use tethys.Prelude.{◌≡◌, refl, true, false, none, some, [], ◌∷◌, arith}
use tethys.Prelude.Assoc.{lookup, modify, insert, or_insert}
use tethys.Schema.Connection.{AcpProtocol, AgentCompat, ConnectionKey, key_eq}
use tethys.Connections.{
  LaunchSpec, ConnectionStore, ConnectionLease, Entry, Lifecycle, Spawned, PendingSpawn, ok,
  register, reuse, begin_spawn, count_spawn, attach, install, release, reap, idle_keys, give_back,
}
use tethys.Connections.World.{
  World, Reach, held_of, registered, began, installed, released, here, next,
}
use tethys.Connections.Invariant.{start}
use tethys.Connections.Safety.{leases_counted, reap_spares_leased, last_release}
use tethys.Connections.Idle.{reap_all, reap_idle, when_idle, lookup-reap_idle}
use tethys.Connections.Recovery.{
  SpawnOutcome, Answers, Acquired, acquire-connects, Restarted, recover-Restarted,
}

abbrev spec : LaunchSpec
spec = record {
  profile_id = "codex";
  host = "local";
  program = "codex-acp";
  args = [];
  cwd = none;
  env = [];
  stderr_capacity = 2097152;
}

abbrev compat : AgentCompat
compat = record { preferred_protocol = some AcpProtocol.v1; projection_target = none }

abbrev codex : ConnectionKey
codex = record { profile_id = "codex"; host = "local" }

abbrev empty : ConnectionStore
empty = record { protocol = AcpProtocol.v1; idle_grace = 60; cancel_grace = 5; entries = [] }

abbrev terminated : Entry
terminated = record {
  key = codex;
  spec = spec;
  compat = compat;
  state = Lifecycle.terminated;
  protocol = none;
  info = none;
  capabilities = none;
  pid = none;
  restarts = 0;
  spawn_count = 0;
  leases = 0;
  last_active = 0;
  child = none;
  connection = none;
}

abbrev spawned : Spawned
spawned = record {
  child = 7;
  connection = 70;
  pid = 700;
  info = record { name = "codex"; version = "1"; title = none };
  capabilities = record {
    load_session = true;
    resume = true;
    mcp = record { stdio = true; http = false; sse = false };
    prompt_embedded_context = false;
  };
  protocol = AcpProtocol.v1;
}

abbrev connecting : Entry
connecting = record terminated { state = Lifecycle.connecting; spawn_count = 1 }

abbrev leased : Entry
leased = record connecting {
  state = Lifecycle.connected;
  protocol = some AcpProtocol.v1;
  info = some spawned.info;
  capabilities = some spawned.capabilities;
  pid = some 700;
  leases = 1;
  last_active = 2;
  child = some 7;
  connection = some 70;
}

abbrev store_of : Entry → ConnectionStore
store_of e = record empty { entries = (codex, e) ∷ [] }

abbrev lease : ConnectionLease
lease = record { key = codex; connection = 70 }

abbrev pending : PendingSpawn
pending = record { spec = spec; compat = compat; child = none; connection = none }

abbrev one_lease : World
one_lease = record { store = store_of leased; held = lease ∷ []; spawning = none }

one_lease-Reach : Reach (start empty) one_lease
unfolding register or_insert lookup insert begin_spawn count_spawn modify install attach held_of
one_lease-Reach =
    next
      (next (next here (registered spec compat 0))
        (began codex (store_of connecting) pending refl refl))
      (installed 2 codex spawned refl (omega arith))

leases_counted_example :
    (leased.leases ≡ held_of codex one_lease.held)
    × (leased.state ≡ Lifecycle.draining → held_of codex one_lease.held ≡ 0)
unfolding lookup
leases_counted_example = leases_counted empty one_lease codex leased one_lease-Reach refl

reap_spares_leased_example : reap one_lease.store codex ≡ (one_lease.store, none)
unfolding held_of
reap_spares_leased_example = reap_spares_leased empty one_lease codex one_lease-Reach (omega arith)

abbrev draining : Entry
draining = record leased { leases = 0; last_active = 3; state = Lifecycle.draining }

abbrev idle : World
idle = record { store = store_of draining; held = []; spawning = none }

idle-Reach : Reach (start empty) idle
unfolding release give_back modify
idle-Reach = next one_lease-Reach (released 3 [] [] lease refl)

lookup-reap_idle_example :
    lookup codex (reap_idle idle.store 63).store.entries
    ≡ Option.map (when_idle 60 63) (lookup codex idle.store.entries)
lookup-reap_idle_example = lookup-reap_idle empty idle 63 codex idle-Reach

reaped_once : (reap_idle idle.store 63).reaped ≡ 1
unfolding reap_idle reap_all idle_keys reap lookup modify
reaped_once = refl

reaped_too_early : (reap_idle idle.store 62).reaped ≡ 0
unfolding reap_idle reap_all idle_keys
reaped_too_early = refl

last_release_example :
    ((reuse (release (store_of leased) 3 codex) (λ c. false) 4 codex).1 ≡ none)
    × ((begin_spawn (release (store_of leased) 3 codex) codex).1
        ≡ ok (record { spec = spec; compat = compat; child = some 7; connection = some 70 }))
unfolding lookup
last_release_example = last_release (store_of leased) codex leased (λ c. false) 3 4 refl refl refl

acquire-connects_example : Acquired (store_of leased) (λ c. true) 3 codex leased spawned
unfolding lookup
acquire-connects_example =
    acquire-connects (store_of leased) (λ c. true) 3 codex leased spawned refl

abbrev unresponsive : Answers
unresponsive = record {
  cancels = false;
  resumes = false;
  killed = true;
  spawn = SpawnOutcome.connected spawned;
}

recover-Restarted_example : Restarted (store_of leased) (λ c. false) 3 codex unresponsive leased
unfolding lookup
recover-Restarted_example =
    recover-Restarted (store_of leased) (λ c. false) 3 codex unresponsive leased 70 spawned refl
      refl refl refl refl refl (omega arith)

-- A restart with no lease held: the fresh process is to be stopped at once.
abbrev unleased : Entry
unleased = record leased { leases = 0 }

reaped_next : reap (store_of (record unleased { state = Lifecycle.draining })) codex ≡ (
  store_of (record unleased { state = Lifecycle.terminated; child = none; connection = none }),
  some (some 7),
)
unfolding reap lookup modify
reaped_next = refl
