-- ===== src/Connections/Idle/Count.antt =====
-- The number that `reap_idle` returns.
use tethys.Prelude.{
  ℕ, suc, ◌≡◌, refl, subst, ap, ◌∙◌, ◌==◌, ◌&&◌, Bool, true, false, Option, none, some, List, [],
  ◌∷◌, if◌then◌else◌, nat_eq, is_some, arith, Option-cases, Bool-cases, inl, inr, length,
}
use tethys.Prelude.Assoc.{Assoc, lookup, contains, contains_key, DistinctKeys}
use tethys.Schema.Connection.{ConnectionKey, key_eq, key_beq_iff}
use tethys.Connections.{ConnectionStore, Entry, idle_keys, is_draining, reap}
use tethys.Connections.World.{World, Reach}
use tethys.Connections.Invariant.{start}
use tethys.Connections.Keys.{Keyed, Reach-WellKeyed}
use tethys.Connections.Idle.{
  Reaping, tally, reap_all, reap_idle, is_idle, lookup-reap, absent-idle_keys, absent-lookup,
}

-- The number of entries that pass a test.
unfoldable pub count_idle : ℕ → ℕ → Assoc ConnectionKey Entry → ℕ
count_idle grace now [] = 0
count_idle grace now ((k, e) ∷ m) =
    let rest = count_idle grace now m in if is_idle grace now e then suc rest else rest

-- The second section would reap the entry.
abbrev settles : Option Entry → Bool
settles none = false
settles (some e) = is_draining e.state && e.leases == 0

-- Each key once, with an entry that the second section reaps.
abbrev AllIdle : ConnectionStore → List ConnectionKey → Type 0
AllIdle s [] = Unit
AllIdle s (key ∷ keys) =
    (contains keys key ≡ false) × (settles (lookup key s.entries) ≡ true) × AllIdle s keys

reap-AllIdle :
    (s : ConnectionStore) (key : ConnectionKey) (keys : List ConnectionKey)
    → contains keys key ≡ false
    → AllIdle s keys
    → AllIdle (reap s key).0 keys
unfolding contains
reap-AllIdle s key [] new h = tt
reap-AllIdle s key (k ∷ keys) new (once, idle, h) = (
  once,
  ground (arith, new, idle, lookup-reap s key k, key_beq_iff k key, key_beq_iff key k),
  reap-AllIdle s key keys (ground (arith, new)) h,
)

reap-child :
    (s : ConnectionStore) (key : ConnectionKey)
    → settles (lookup key s.entries) ≡ true
    → is_some (reap s key).1 ≡ true
unfolding reap
reap-child s key h = elim (Option-cases (lookup key s.entries)) [
  | inl gone ↦ absurd (ground (arith, gone, h))
  | inr (e, found) ↦ ground (arith, found, h)
]

tally-reaped :
    (o : Option (Option ℕ)) (r : Reaping) → is_some o ≡ true → (tally o r).reaped ≡ suc r.reaped
tally-reaped none r h = absurd (ground (arith, h))
tally-reaped (some child) r h = refl

reaped-reap_all :
    (s : ConnectionStore) (keys : List ConnectionKey)
    → AllIdle s keys
    → (reap_all s keys).reaped ≡ length keys
unfolding reap_all
reaped-reap_all s [] h = refl
reaped-reap_all s (key ∷ keys) (once, idle, h) =
    tally-reaped (reap s key).1 (reap_all (reap s key).0 keys) (reap-child s key idle)
    ∙ ap suc (reaped-reap_all (reap s key).0 keys (reap-AllIdle s key keys once h))

idle_keys-AllIdle :
    (s : ConnectionStore) (grace now : ℕ) (m : Assoc ConnectionKey Entry)
    → DistinctKeys m
    → Keyed m
    → ((k : ConnectionKey) (e : Entry) → lookup k m ≡ some e → lookup k s.entries ≡ some e)
    → AllIdle s (idle_keys grace now m)
unfolding idle_keys lookup
idle_keys-AllIdle s grace now [] d h inside = tt
idle_keys-AllIdle s grace now ((j, e) ∷ m) (new, d) (same, h) inside =
    let there : lookup j s.entries ≡ some e = inside j e (ground (arith, key_beq_iff j j)) in
    let rest =
      idle_keys-AllIdle s grace now m d h (λ k x found. inside k x (elsewhere k x found)) in
    elim (Bool-cases (is_idle grace now e)) [
      | inl idle ↦ rw idle (
        rw same (absent-idle_keys grace now m j h (absent-lookup m j new)),
        rw same (rw there (ground (arith, idle))),
        rest,
      )
      | inr other ↦ rw other rest
    ]
  where
    elsewhere :
        (k : ConnectionKey) (x : Entry) → lookup k m ≡ some x → lookup k ((j, e) ∷ m) ≡ some x
    elsewhere k x found = elim (Bool-cases (j == k)) [
      | inl at ↦ absurd (
          ground (arith, found, subst (λ i. contains_key i m ≡ false) ((key_beq_iff j k).0 at) new))
      | inr other ↦ ground (arith, other, found)
    ]

length-idle_keys :
    (grace now : ℕ) (m : Assoc ConnectionKey Entry)
    → length (idle_keys grace now m) ≡ count_idle grace now m
unfolding idle_keys count_idle
length-idle_keys grace now [] = refl
length-idle_keys grace now ((j, e) ∷ m) = ground (arith, length-idle_keys grace now m)

-- In every world that the tasks can reach from an empty store with fewer than 2 ^ 32 leases of one
-- key at any time, the number that `reap_idle` returns, with no other task between its sections, is
-- that of the entries that drain without a lease and were last active at least the grace before.
reaped-reap_idle :
    (s : ConnectionStore) (w : World) (now : ℕ)
    → Reach (start s) w
    → (reap_idle w.store now).reaped ≡ count_idle w.store.idle_grace now w.store.entries
unfolding reap_idle
reaped-reap_idle s w now r =
    let (d, h) = Reach-WellKeyed r (tt, tt) in
    reaped-reap_all w.store (idle_keys w.store.idle_grace now w.store.entries)
      (idle_keys-AllIdle w.store w.store.idle_grace now w.store.entries d h (λ k e found. found))
    ∙ length-idle_keys w.store.idle_grace now w.store.entries
