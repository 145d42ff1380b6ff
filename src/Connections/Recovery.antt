-- ===== src/Connections/Recovery.antt =====
-- recovery.rs, and `acquire` from its first section to its last with nothing in between.
use tethys.Connections.Sections.{fail}
use tethys.Prelude.Assoc.{Assoc, lookup, modify, lookup-modify-found}
use tethys.Prelude.{
  inl, inr, Option-cases, ◌+◌, ◌<◌, ◌^◌, ◌==◌, nat_eq, ℕ, ◌≡◌, refl, Bool, true, false, Option,
  none, some, arith, if◌then◌else◌, is_some,
}
use tethys.Schema.Connection.{ConnectionKey, key_eq}
use tethys.Connections.{
  ConnectionStore, ConnectionLease, Spawned, StoreError, Result, ok, err, reuse, begin_spawn,
  mark_error, install, release, restart, live_connection, Entry, Lifecycle, increment,
  refresh_liveness, reusable, count_spawn, give_back, lend, attach,
}

-- What `spawn_connection` meets outside: a process that does not start or whose handshake fails,
-- with its pid where there is one, or a connection.
pub data SpawnOutcome : Type 0 where
  failed : Option ℕ → StoreError → SpawnOutcome
  connected : Spawned → SpawnOutcome

unfoldable pub acquire :
    ConnectionStore
    → (ℕ → Bool)
    → ℕ
    → ConnectionKey
    → SpawnOutcome
    → ConnectionStore × Result ConnectionLease
unfolding reuse begin_spawn mark_error install
acquire s exited now key outcome =
    let (s₁, found) = reuse s exited now key in
    elim found [
      | some lease ↦ (s₁, ok lease)
      | none ↦
          let (s₂, pending) = begin_spawn s₁ key in
          elim pending [
            | err e ↦ (s₂, err e)
            | ok p ↦ elim outcome [
              | SpawnOutcome.failed pid e ↦ (mark_error s₂ key pid, err e)
              | SpawnOutcome.connected spawned ↦
                  let (s₃, lease) = install s₂ now key spawned in (s₃, ok lease)
            ]
          ]
    ]

pub data RecoveryOutcome : Type 0 where
  cancelled session_resumed process_restarted interrupted : RecoveryOutcome

-- The lease is dropped at once.
unfoldable pub acquire_or_interrupt :
    ConnectionStore
    → (ℕ → Bool)
    → ℕ
    → ConnectionKey
    → SpawnOutcome
    → ConnectionStore × RecoveryOutcome
unfolding acquire release
acquire_or_interrupt s exited now key outcome =
    let (s', result) = acquire s exited now key outcome in
    elim result [
      | ok lease ↦ (release s' now key, RecoveryOutcome.process_restarted)
      | err e ↦ (s', RecoveryOutcome.interrupted)
    ]

-- What the agent answers within the grace: to `cancel` and to `resume_session`; whether the process
-- group could be killed; and what a spawn would meet.
pub record Answers : Type 0 where
  pub cancels : Bool
  pub resumes : Bool
  pub killed : Bool
  pub spawn : SpawnOutcome

-- `restart`, with the kill of the child that it took.
unfoldable pub restart_killing : ConnectionStore → ConnectionKey → Bool → ConnectionStore × Bool
unfolding restart
restart_killing s key killed =
    let (s', taken) = restart s key in
    elim taken [ err e ↦ (s', false) | ok child ↦ (s', if is_some child then killed else true) ]

unfoldable pub recover :
    ConnectionStore
    → (ℕ → Bool)
    → ℕ
    → ConnectionKey
    → Answers
    → ConnectionStore × Result RecoveryOutcome
unfolding live_connection acquire_or_interrupt restart_killing
recover s exited now key answers = elim (live_connection s key) [
  | err e ↦ (s, err e)
  | ok live ↦ elim live [
    | none ↦
        let (s', outcome) = acquire_or_interrupt s exited now key answers.spawn in (s', ok outcome)
    | some connection ↦
        if answers.cancels
        then (s, ok RecoveryOutcome.cancelled)
        else if answers.resumes
        then (s, ok RecoveryOutcome.session_resumed)
        else (let (s', restarted) = restart_killing s key answers.killed in
            let (s'', outcome) = acquire_or_interrupt s' exited now key answers.spawn in
            if restarted then (s'', ok outcome) else (s', ok RecoveryOutcome.interrupted))
  ]
]

module _ (s : ConnectionStore) (exited : ℕ → Bool) (now : ℕ) (key : ConnectionKey) (e : Entry) where
  -- What `acquire` leaves at the key, and the lease.
  pub record Acquired (spawned : Spawned) : Type 0 where
    pub lease : ConnectionLease
    pub entry : Entry
    pub granted : (acquire s exited now key (SpawnOutcome.connected spawned)).1 ≡ ok lease
    pub keyed : lease.key ≡ key
    pub stored :
        lookup key (acquire s exited now key (SpawnOutcome.connected spawned)).0.entries
        ≡ some entry
    pub live : entry.state ≡ Lifecycle.connected
    pub same : entry.connection ≡ some lease.connection
    pub counted : entry.leases ≡ increment e.leases

  -- A registered profile whose spawn connects always gets a lease of its key, and the entry then is
  -- connected with the connection that the lease holds, and counts it.
  pub acquire-connects : (spawned : Spawned) → lookup key s.entries ≡ some e → Acquired spawned
  unfolding acquire reuse begin_spawn install refresh_liveness reusable count_spawn attach
  acquire-connects spawned found = elim (Option-cases (reusable refreshed)) [
    | inl none_live ↦ record {
      lease = record { key = key; connection = spawned.connection };
      entry = attach now spawned (count_spawn refreshed);
      granted = ground (arith, found, none_live, there);
      keyed = refl;
      stored = ground (
        arith,
        found,
        none_live,
        there,
        counted_there,
        lookup-modify-found key (attach now spawned) (modify key count_spawn held) _ counted_there,
      );
      live = refl;
      same = refl;
      counted = ground arith;
    }
    | inr (c, live) ↦ record {
      lease = record { key = key; connection = c };
      entry = lend now refreshed;
      granted = ground (arith, found, live);
      keyed = refl;
      stored =
          ground (
            arith,
            found,
            live,
            lookup-modify-found key (λ _. lend now refreshed) s.entries e found,
          );
      live = ground (arith, live);
      same = ground (arith, live);
      counted = ground (arith, live);
    }
  ]
    where
      refreshed : Entry
      refreshed = refresh_liveness exited e

      held : Assoc ConnectionKey Entry
      held = modify key (λ _. refreshed) s.entries

      there : lookup key held ≡ some refreshed
      there = lookup-modify-found key (λ _. refreshed) s.entries e found

      counted_there : lookup key (modify key count_spawn held) ≡ some (count_spawn refreshed)
      counted_there = lookup-modify-found key count_spawn held refreshed there

-- What the restart of a process leaves at the key.
pub record Restarted (s : ConnectionStore) (exited : ℕ → Bool) (now : ℕ) (key : ConnectionKey)
    (answers : Answers) (e : Entry) : Type 0 where
  pub entry : Entry
  pub outcome : (recover s exited now key answers).1 ≡ ok RecoveryOutcome.process_restarted
  pub stored : lookup key (recover s exited now key answers).0.entries ≡ some entry
  pub counted : entry.leases ≡ e.leases
  pub state : entry.state ≡ (if e.leases == 0 then Lifecycle.draining else Lifecycle.connected)

-- An entry with a connection, fewer than 2 ^ 32 - 1 leases and an agent that answers neither `cancel` nor `resume_session`, whose process can be killed and
-- whose next spawn connects: recovery restarts the process and reports it, and counts the leases as
-- before. The new connection is kept only if a lease was held: with none, the entry is draining at once.
pub recover-Restarted :
    (s : ConnectionStore) (exited : ℕ → Bool) (now : ℕ) (key : ConnectionKey) (answers : Answers)
    (e : Entry) (connection : ℕ) (spawned : Spawned)
    → lookup key s.entries ≡ some e
    → e.connection ≡ some connection
    → answers.cancels ≡ false
    → answers.resumes ≡ false
    → answers.killed ≡ true
    → answers.spawn ≡ SpawnOutcome.connected spawned
    → e.leases + 1 < 2 ^ 32
    → Restarted s exited now key answers e
unfolding recover acquire_or_interrupt restart_killing restart live_connection release give_back
recover-Restarted s exited now key answers e connection spawned found live no_cancel no_resume
      killed spawns few =
    record {
      entry = give_back now a.entry;
      outcome = ground (arith, found, live, no_cancel, no_resume, killed, spawns, a.granted);
      stored = ground (
        arith,
        found,
        live,
        no_cancel,
        no_resume,
        killed,
        spawns,
        a.granted,
        lookup-modify-found key (give_back now) _ a.entry a.stored,
      );
      counted = ground (arith, a.counted);
      state = ground (arith, a.counted, a.live);
    }
  where
    failed_store : ConnectionStore
    failed_store = record s { entries = modify key fail s.entries }

    a : Acquired failed_store exited now key (fail e) spawned
    a =
        acquire-connects failed_store exited now key (fail e) spawned
          (lookup-modify-found key fail s.entries e found)
