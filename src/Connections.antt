-- ===== src/Connections.antt =====
-- crates/tethys-agent-servers/src/connection_store.rs: one agent process and connection for each
-- profile and host. Each function is one section under the `entries` lock; what happens between two
-- of them is in `Connections.World`. A child process and an `AcpConnection` are the numbers that
-- identify them; `now` is `Instant::now()`, and `exited` tells of which children `try_wait` reports
-- an exit status.
pub mod Sections
pub mod World
pub mod Accounting
pub mod Invariant
pub mod Safety
pub mod Keys
pub mod Idle
pub mod Recovery
mod Examples
use tethys.Prelude.{
  ℕ, ◌+◌, ◌-◌, ◌%◌, ◌^◌, String, Bool, true, false, ◌&&◌, Option, none, some, List, [], ◌∷◌, ◌==◌,
  nat_eq, leb, ltb, is_some, if◌then◌else◌,
}
use tethys.Prelude.Assoc.{Assoc, lookup, modify, or_insert}
use tethys.Schema.Connection.{
  AcpProtocol, ConnectionState, AgentInfo, NormalizedCapabilities, AgentCompat, ConnectionKey,
  key_eq, ConnectionEntry,
}

-- launch.rs
pub record LaunchSpec : Type 0 where
  pub profile_id : String
  pub host : String
  pub program : String
  pub args : List String
  pub cwd : Option String
  pub env : List (String × String)
  pub stderr_capacity : ℕ

pub data StoreError : Type 0 where
  unknown_profile spawn connect recovery : String → StoreError

pub data Result {ℓ} (A : Type ℓ) : Type ℓ where
  ok : A → Result A
  err : StoreError → Result A

pub data Lifecycle : Type 0 where
  connecting connected error draining terminated : Lifecycle

unfoldable pub exposed : Lifecycle → Option ConnectionState
exposed Lifecycle.connecting = some ConnectionState.connecting
exposed Lifecycle.connected = some ConnectionState.connected
exposed Lifecycle.error = some ConnectionState.error
exposed Lifecycle.draining = some ConnectionState.draining
exposed Lifecycle.terminated = none

pub record Entry : Type 0 where
  pub key : ConnectionKey
  pub spec : LaunchSpec
  pub compat : AgentCompat
  pub state : Lifecycle
  pub protocol : Option AcpProtocol
  pub info : Option AgentInfo
  pub capabilities : Option NormalizedCapabilities
  pub pid : Option ℕ
  pub restarts : ℕ
  pub spawn_count : ℕ
  pub leases : ℕ
  pub last_active : ℕ
  pub child : Option ℕ
  pub connection : Option ℕ

pub record ConnectionStore : Type 0 where
  pub protocol : AcpProtocol
  pub idle_grace : ℕ
  pub cancel_grace : ℕ
  pub entries : Assoc ConnectionKey Entry

pub record ConnectionLease : Type 0 where
  pub key : ConnectionKey
  pub connection : ℕ

-- What a finished handshake brings.
pub record Spawned : Type 0 where
  pub child : ℕ
  pub connection : ℕ
  pub pid : ℕ
  pub info : AgentInfo
  pub capabilities : NormalizedCapabilities
  pub protocol : AcpProtocol

pub record PendingSpawn : Type 0 where
  pub spec : LaunchSpec
  pub compat : AgentCompat
  pub child : Option ℕ
  pub connection : Option ℕ

abbrev pub is_connected : Lifecycle → Bool
is_connected Lifecycle.connected = true
is_connected _ = false

abbrev pub is_draining : Lifecycle → Bool
is_draining Lifecycle.draining = true
is_draining _ = false

abbrev pub is_error : Lifecycle → Bool
is_error Lifecycle.error = true
is_error _ = false

-- `n += 1` on a `u32`
abbrev pub increment : ℕ → ℕ
increment n = (n + 1) % 2 ^ 32

-- A mutation of one entry, where the key is there.
abbrev pub with_entry : ConnectionStore → ConnectionKey → (Entry → Entry) → ConnectionStore
with_entry s key f = record s { entries = modify key f s.entries }

unfoldable pub register :
    ConnectionStore → LaunchSpec → AgentCompat → ℕ → ConnectionStore × ConnectionKey
register s spec compat now =
    let key : ConnectionKey = record { profile_id = spec.profile_id; host = spec.host } in
    let fresh : Entry = record {
      key = key;
      spec = spec;
      compat = compat;
      state = Lifecycle.terminated;
      protocol = none;
      info = none;
      capabilities = none;
      pid = none;
      restarts = 0;
      spawn_count = 0;
      leases = 0;
      last_active = now;
      child = none;
      connection = none;
    } in
    (record s { entries = or_insert key fresh s.entries }, key)

abbrev has_exited : (ℕ → Bool) → Option ℕ → Bool
has_exited exited none = false
has_exited exited (some c) = exited c

unfoldable pub refresh_liveness : (ℕ → Bool) → Entry → Entry
refresh_liveness exited entry =
    if is_connected entry.state && has_exited exited entry.child
    then record entry { connection = none; state = Lifecycle.error }
    else entry

abbrev pub lend : ℕ → Entry → Entry
lend now entry = record entry { leases = increment entry.leases; last_active = now }

-- The lease that `reuse` hands out from a refreshed entry, if any.
unfoldable pub reusable : Entry → Option ℕ
reusable entry = if is_connected entry.state then entry.connection else none

unfoldable pub reuse :
    ConnectionStore → (ℕ → Bool) → ℕ → ConnectionKey → ConnectionStore × Option ConnectionLease
unfolding refresh_liveness reusable
reuse s exited now key = elim (lookup key s.entries) [
  | none ↦ (s, none)
  | some entry ↦
      let refreshed = refresh_liveness exited entry in
      elim (reusable refreshed) [
        | none ↦ (with_entry s key (λ e. refreshed), none)
        | some connection ↦ (
          with_entry s key (λ e. lend now refreshed),
          some (record { key = key; connection = connection }),
        )
      ]
]

unfoldable pub count_spawn : Entry → Entry
count_spawn entry =
    let spawns = increment entry.spawn_count in
    record entry {
      spawn_count = spawns;
      restarts = if ltb 1 spawns then increment entry.restarts else entry.restarts;
      state = Lifecycle.connecting;
      child = none;
      connection = none;
    }

unfoldable pub begin_spawn : ConnectionStore → ConnectionKey → ConnectionStore × Result PendingSpawn
unfolding count_spawn
begin_spawn s key = elim (lookup key s.entries) [
  | none ↦ (s, err (StoreError.unknown_profile key.profile_id))
  | some entry ↦ (
    with_entry s key count_spawn,
    ok (record {
      spec = entry.spec;
      compat = entry.compat;
      child = entry.child;
      connection = entry.connection;
    }),
  )
]

unfoldable pub mark_error : ConnectionStore → ConnectionKey → Option ℕ → ConnectionStore
mark_error s key pid = with_entry s key (λ entry. record entry {
  state = Lifecycle.error;
  connection = none;
  pid = if is_some pid then pid else entry.pid;
})

unfoldable pub attach : ℕ → Spawned → Entry → Entry
attach now spawned entry = record entry {
  state = Lifecycle.connected;
  child = some spawned.child;
  connection = some spawned.connection;
  pid = some spawned.pid;
  protocol = some spawned.protocol;
  info = some spawned.info;
  capabilities = some spawned.capabilities;
  leases = increment entry.leases;
  last_active = now;
}

unfoldable pub install :
    ConnectionStore → ℕ → ConnectionKey → Spawned → ConnectionStore × ConnectionLease
unfolding attach
install s now key spawned =
    (with_entry s key (attach now spawned), record { key = key; connection = spawned.connection })

-- `leases.saturating_sub(1)`
unfoldable pub give_back : ℕ → Entry → Entry
give_back now entry =
    let leases = entry.leases - 1 in
    record entry {
      leases = leases;
      last_active = now;
      state = if leases == 0 && is_connected entry.state then Lifecycle.draining else entry.state;
    }

-- The drop of a lease.
unfoldable pub release : ConnectionStore → ℕ → ConnectionKey → ConnectionStore
unfolding give_back
release s now key = with_entry s key (give_back now)

-- The keys that `reap_idle` collects in its first section.
unfoldable pub idle_keys : ℕ → ℕ → Assoc ConnectionKey Entry → List ConnectionKey
idle_keys grace now [] = []
idle_keys grace now ((key, entry) ∷ rest) =
    let keys = idle_keys grace now rest in
    if is_draining entry.state && entry.leases == 0 && leb grace (now - entry.last_active)
    then entry.key ∷ keys
    else keys

abbrev pub terminate : Entry → Entry
terminate entry = record entry { state = Lifecycle.terminated; child = none; connection = none }

-- The second section, for one key: the child to stop, if the entry is reaped.
unfoldable pub reap : ConnectionStore → ConnectionKey → ConnectionStore × Option (Option ℕ)
reap s key = elim (lookup key s.entries) [
  | none ↦ (s, none)
  | some entry ↦
      if is_draining entry.state && entry.leases == 0
      then (with_entry s key terminate, some entry.child)
      else (s, none)
]

-- `restart`: the entry fails, and its child is to be killed.
unfoldable pub restart : ConnectionStore → ConnectionKey → ConnectionStore × Result (Option ℕ)
restart s key = elim (lookup key s.entries) [
  | none ↦ (s, err (StoreError.unknown_profile key.profile_id))
  | some entry ↦ (
    with_entry s key (λ e. record e { state = Lifecycle.error; child = none; connection = none }),
    ok entry.child,
  )
]

unfoldable pub live_connection : ConnectionStore → ConnectionKey → Result (Option ℕ)
live_connection s key = elim (lookup key s.entries) [
  | none ↦ err (StoreError.unknown_profile key.profile_id)
  | some entry ↦ ok entry.connection
]

unfoldable pub spawns : ConnectionStore → ConnectionKey → ℕ
spawns s key = elim (lookup key s.entries) [ none ↦ 0 | some entry ↦ entry.spawn_count ]

-- The last section of the watcher of `connection`, once that is closed.
unfoldable pub fail_closed : ℕ → Entry → Entry
fail_closed connection entry = elim entry.connection [
  | none ↦ entry
  | some current ↦
      if current == connection && is_connected entry.state
      then record entry { connection = none; state = Lifecycle.error }
      else entry
]

unfoldable pub close_watched : ConnectionStore → ConnectionKey → ℕ → ConnectionStore
unfolding fail_closed
close_watched s key connection = with_entry s key (fail_closed connection)

abbrev or_else {ℓ} : {A : Type ℓ} → Option A → Option A → Option A
or_else none b = b
or_else (some a) b = some a

-- The row that is shown of an entry.
abbrev row : Entry → ConnectionState → Option AcpProtocol → ConnectionEntry
row entry state protocol = record {
  key = entry.key;
  state = state;
  protocol = protocol;
  info = entry.info;
  capabilities = entry.capabilities;
  pid = entry.pid;
  restarts = entry.restarts;
  stale = is_error entry.state;
}

abbrev unwrap_state : Option ConnectionState → ConnectionState
unwrap_state none = ConnectionState.connecting
unwrap_state (some st) = st

unfoldable pub entry :
    ConnectionStore → (ℕ → Bool) → ConnectionKey → ConnectionStore × Option ConnectionEntry
unfolding refresh_liveness exposed
entry s exited key = elim (lookup key s.entries) [
  | none ↦ (s, none)
  | some e ↦
      let e' = refresh_liveness exited e in
      (
        with_entry s key (λ _. e'),
        some (
            row e' (unwrap_state (exposed e'.state))
              (or_else e'.protocol e'.compat.preferred_protocol)),
      )
]

-- The test hook: it makes an entry connected, with no connection.
unfoldable pub set_capabilities_for_test :
    ConnectionStore → ConnectionKey → Option NormalizedCapabilities → ConnectionStore
set_capabilities_for_test s key capabilities = with_entry s key (λ e. record e {
  capabilities = capabilities;
  state = Lifecycle.connected;
  protocol = or_else e.protocol e.compat.preferred_protocol;
})

-- `entries()` looks at every process before it lists the rows.
unfoldable pub refresh_all : (ℕ → Bool) → Assoc ConnectionKey Entry → Assoc ConnectionKey Entry
unfolding refresh_liveness
refresh_all exited [] = []
refresh_all exited ((key, e) ∷ rest) = (key, refresh_liveness exited e) ∷ refresh_all exited rest
