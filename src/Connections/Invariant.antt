-- ===== src/Connections/Invariant.antt =====
-- Every step of the world keeps the accounts of the leases.
use mathlib.Core.Option
use tethys.Prelude.{
  unwrap_or, some_inj, subst, sym, ◌∙◌, ℕ, ◌+◌, ◌≡◌, refl, ◌==◌, inl, inr, Bool, true, Option, none,
  some, [], is_some, arith, Bool-cases,
}
use tethys.Prelude.Assoc.{lookup, modify, or_insert, lookup-or_insert}
use tethys.Schema.Connection.{ConnectionKey, key_eq, key_beq_iff}
use tethys.Connections.{
  ConnectionStore, Entry, register, mark_error, install, release, close_watched,
  set_capabilities_for_test, give_back, refresh_liveness, count_spawn, fail_closed, terminate,
}
use tethys.Connections.Sections.{
  reuse-lent, reuse-missed, begin_spawn-began, reap-cases, restart-cases, entry-cases, fail,
}
use tethys.Connections.Accounting.{
  IsCounted, IsCountedAt, Inv, refresh-IsCounted, lend-IsCounted, count_spawn-IsCounted,
  fail_closed-IsCounted, keeps, lends, drops, known-modify, refresh_all-lookup,
}
use tethys.Connections.World.{
  World, Step, Reach, held_of, grant, registered, reused, missed, began, failed, installed,
  released, reaped, restarted, inspected, listed, closed, hooked, here, next,
}

fresh-IsCountedAt :
    (n : ℕ) (fresh : Entry) (o : Option Entry)
    → fresh.leases ≡ 0
    → fresh.connection ≡ none
    → IsCountedAt n o
    → IsCounted n (unwrap_or fresh o)
fresh-IsCountedAt n fresh none z c h = ground arith
fresh-IsCountedAt n fresh (some e) z c h = h

module _ (w : World) (v : Inv w) where
  -- The world after a change of one entry.
  changed :
      (key : ConnectionKey) (f : Entry → Entry) (sp : Option ConnectionKey)
      → ((e : Entry) (n : ℕ)
          → lookup key w.store.entries ≡ some e
          → IsCounted n e
          → IsCounted n (f e))
      → ((k : ConnectionKey) → sp ≡ some k → is_some (lookup k w.store.entries) ≡ true)
      → Inv (record w {
        store = record w.store { entries = modify key f w.store.entries };
        spawning = sp;
      })
  changed key f sp h there = record {
    counts = λ k. keeps w v key f k h;
    known = λ k e. rw (known-modify w v key k f) (there k e);
  }

  -- The world after a change of one entry and a grant.
  granted :
      (key : ConnectionKey) (connection : ℕ) (f : Entry → Entry)
      → is_some (lookup key w.store.entries) ≡ true
      → ((e : Entry) (n : ℕ)
          → lookup key w.store.entries ≡ some e
          → n ≡ held_of key w.held
          → IsCounted n e
          → IsCounted (n + 1) (f e))
      → Inv (
          grant w
            (record w.store { entries = modify key f w.store.entries })
            (record { key = key; connection = connection }))
  granted key connection f there h = record {
    counts = λ k. lends w v key connection f k there h;
    known = λ k e. cc;
  }

  -- The entry that a section found, put back after a look at its process.
  refreshed :
      (exited : ℕ → Bool) (key : ConnectionKey) (e₀ : Entry)
      → lookup key w.store.entries ≡ some e₀
      → Inv (record w {
        store = record w.store {
          entries = modify key (λ _. refresh_liveness exited e₀) w.store.entries;
        };
      })
  refreshed exited key e₀ found =
      changed key (λ _. refresh_liveness exited e₀) w.spawning
        (λ e n g c.
          refresh-IsCounted exited n e₀ (subst (IsCounted n) (some_inj (sym g ∙ found)) c))
        v.known

  -- The world after the registration of an entry with no lease and no connection.
  added :
      (key : ConnectionKey) (fresh : Entry)
      → fresh.leases ≡ 0
      → fresh.connection ≡ none
      → Inv (record w { store = record w.store { entries = or_insert key fresh w.store.entries } })
  added key fresh z c = record {
    counts = λ k. rw (lookup-or_insert key k fresh w.store.entries) (elim (Bool-cases (key == k)) [
      | inl same ↦ rw same (
          fresh-IsCountedAt _ fresh (lookup key w.store.entries) z c
            (rw ((key_beq_iff key k).0 same) (v.counts k)))
      | inr differ ↦ rw differ (v.counts k)
    ]);
    known = λ k e. ground (arith, lookup-or_insert key k fresh w.store.entries, v.known k e);
  }

refreshed-IsCountedAt :
    (exited : ℕ → Bool) (n : ℕ) (o : Option Entry)
    → IsCountedAt n o
    → IsCountedAt n (Option.map (refresh_liveness exited) o)
refreshed-IsCountedAt exited n none h = h
refreshed-IsCountedAt exited n (some e) h = refresh-IsCounted exited n e h

-- Every step keeps the accounts.
pub Step-Inv : {w u : World} → Step w u → Inv w → Inv u
unfolding register release mark_error install close_watched set_capabilities_for_test
Step-Inv {w} (registered spec compat now) v = added w v _ _ refl refl
Step-Inv {w} (reused exited now key s l idle few h) v =
    let (e, found, live, lease, after) = reuse-lent w.store s exited now key l h in
    rw (lease, after)
      (granted w v key l.connection _ (rw found) (λ e' n g m c.
        lend-IsCounted now n (refresh_liveness exited e) (rw m few) live
          (refresh-IsCounted exited n e (subst (IsCounted n) (some_inj (sym g ∙ found)) c))))
Step-Inv {w} (missed exited now key s idle h) v = elim (reuse-missed w.store s exited now key h) [
  | inl same ↦ rw same v
  | inr (e, found, after) ↦ rw after (refreshed w v exited key e found)
]
Step-Inv {w} (began key s p idle h) v =
    let (there, after) = begin_spawn-began w.store s key p h in
    rw after (
      changed w v key count_spawn (some key) (λ e n _. count_spawn-IsCounted n e)
        (λ k e. rw (← some_inj e) there))
Step-Inv {w} (failed key pid sp) v =
    changed w v key _ none (λ e n _ c. ground (arith, c.idle, c.attached)) (λ k e. cc)
Step-Inv {w} (installed now key spawned sp few) v =
    granted w v key spawned.connection _ (v.known key sp)
      (λ e n _ m c. ground (arith, c.idle, c.attached))
Step-Inv {w} (released now before after l h) v = record {
  counts = λ k. drops w v now before after l k h;
  known = λ k sp. rw (known-modify w v l.key k (give_back now)) (v.known k sp);
}
Step-Inv {w} (reaped key) v = elim (reap-cases w.store key) [
  | inl same ↦ rw same v
  | inr (e, found, drain, zero_leases, after) ↦ rw after (
      changed w v key terminate w.spawning (λ e' n g c. ground (arith, c.idle, c.attached)) v.known)
]
Step-Inv {w} (restarted key) v = elim (restart-cases w.store key) [
  | inl same ↦ rw same v
  | inr after ↦
      rw after
        (changed w v key fail w.spawning (λ e n _ c. ground (arith, c.idle, c.attached)) v.known)
]
Step-Inv {w} (inspected exited key) v = elim (entry-cases w.store exited key) [
  | inl same ↦ rw same v
  | inr (e, found, after) ↦ rw after (refreshed w v exited key e found)
]
Step-Inv {w} (listed exited) v = record {
  counts = λ k.
      rw (refresh_all-lookup exited k w.store.entries)
        (refreshed-IsCountedAt exited _ (lookup k w.store.entries) (v.counts k));
  known = λ k e. ground (arith, refresh_all-lookup exited k w.store.entries, v.known k e);
}
Step-Inv {w} (closed key c) v =
    changed w v key (fail_closed c) w.spawning (λ e n _. fail_closed-IsCounted c n e) v.known
Step-Inv {w} (hooked key capabilities) v =
    changed w v key _ w.spawning (λ e n _ c. ground (arith, c.idle, c.attached)) v.known

pub Reach-Inv : {w u : World} → Reach w u → Inv w → Inv u
Reach-Inv here v = v
Reach-Inv (next r st) v = Step-Inv st (Reach-Inv r v)

-- A store with no entries, and no leases.
abbrev pub start : ConnectionStore → World
start s = record { store = record s { entries = [] }; held = []; spawning = none }

pub start-Inv : (s : ConnectionStore) → Inv (start s)
unfolding lookup held_of
start-Inv s = record { counts = λ k. refl; known = λ k e. cc }
