-- ===== src/Connections/Idle.antt =====
-- `reap_idle` as a whole, when no other task comes between its sections. `Connections.World` has
-- the interleavings of its second section.
pub mod Count
use mathlib.Core.Option
use tethys.Prelude.{
  ℕ, suc, ◌≡◌, refl, subst, ap, ◌∙◌, ◌-◌, ◌==◌, ◌&&◌, Bool, true, false, Option, none, some, List,
  [], ◌∷◌, if◌then◌else◌, leb, nat_eq, is_some, arith, Option-cases, Bool-cases, inl, inr, length,
}
use tethys.Prelude.Assoc.{Assoc, lookup, lookup-modify, contains, contains_key, DistinctKeys}
use tethys.Schema.Connection.{ConnectionKey, key_eq, key_beq_iff}
use tethys.Connections.World.{World, Reach}
use tethys.Connections.Invariant.{start}
use tethys.Connections.Keys.{Keyed, Reach-WellKeyed}
use tethys.Connections.{ConnectionStore, Entry, idle_keys, is_draining, reap, terminate}

-- What a call did: the store, `reaped`, and the children that it stops.
pub record Reaping : Type 0 where
  pub store : ConnectionStore
  pub reaped : ℕ
  pub stopped : List ℕ

abbrev stop : Option ℕ → List ℕ → List ℕ
stop none children = children
stop (some c) children = c ∷ children

-- One pass of the loop, before the passes that follow: `reaped += 1` unless it goes on to the next.
abbrev tally : Option (Option ℕ) → Reaping → Reaping
tally none rest = rest
tally (some child) rest = record {
  store = rest.store;
  reaped = suc rest.reaped;
  stopped = stop child rest.stopped;
}

-- The loop over the candidates.
unfoldable pub reap_all : ConnectionStore → List ConnectionKey → Reaping
unfolding reap
reap_all s [] = record { store = s; reaped = 0; stopped = [] }
reap_all s (key ∷ keys) = let (left, child) = reap s key in tally child (reap_all left keys)

unfoldable pub reap_idle : ConnectionStore → ℕ → Reaping
unfolding reap_all idle_keys
reap_idle s now = reap_all s (idle_keys s.idle_grace now s.entries)

abbrev pub is_idle : ℕ → ℕ → Entry → Bool
is_idle grace now e = is_draining e.state && e.leases == 0 && leb grace (now - e.last_active)

abbrev pub when_idle : ℕ → ℕ → Entry → Entry
when_idle grace now e = if is_idle grace now e then terminate e else e

abbrev pub settle : Entry → Entry
settle e = if is_draining e.state && e.leases == 0 then terminate e else e

settle-settle : (e : Entry) → settle (settle e) ≡ settle e
settle-settle e = ground arith

pub lookup-reap :
    (s : ConnectionStore) (key k : ConnectionKey)
    → lookup k (reap s key).0.entries
      ≡ (if key == k then Option.map settle (lookup k s.entries) else lookup k s.entries)
unfolding reap
lookup-reap s key k = elim (Option-cases (lookup key s.entries)) [
  | inl gone ↦ elim (Bool-cases (key == k)) [
    | inl same ↦
        ground (arith, gone, same, ap (λ j. lookup j s.entries) ((key_beq_iff key k).0 same))
    | inr other ↦ ground (arith, gone, other)
  ]
  | inr (e, found) ↦ elim (Bool-cases (key == k)) [
    | inl same ↦
        let found_k = subst (λ j. lookup j s.entries ≡ some e) ((key_beq_iff key k).0 same) found in
        ground (arith, found, same, found_k, lookup-modify key k terminate s.entries)
    | inr other ↦ ground (arith, found, other, lookup-modify key k terminate s.entries)
  ]
]

settle-twice :
    (a b : Bool) (o : Option Entry)
    → (if b
        then Option.map settle (if a then Option.map settle o else o)
        else (if a then Option.map settle o else o))
      ≡ (if (if a then true else b) then Option.map settle o else o)
settle-twice a false o = ground arith
settle-twice false true o = refl
settle-twice true true none = refl
settle-twice true true (some e) = ap some (settle-settle e)

tally-store : (o : Option (Option ℕ)) (r : Reaping) → (tally o r).store ≡ r.store
tally-store none r = refl
tally-store (some child) r = refl

lookup-reap_all :
    (s : ConnectionStore) (keys : List ConnectionKey) (k : ConnectionKey)
    → lookup k (reap_all s keys).store.entries
      ≡ (if contains keys k then Option.map settle (lookup k s.entries) else lookup k s.entries)
unfolding reap_all contains
lookup-reap_all s [] k = refl
lookup-reap_all s (key ∷ keys) k =
    ap (λ (r : ConnectionStore). lookup k r.entries)
      (tally-store (reap s key).1 (reap_all (reap s key).0 keys))
    ∙ lookup-reap_all (reap s key).0 keys k
    ∙ ap (λ o. if contains keys k then Option.map settle o else o) (lookup-reap s key k)
    ∙ settle-twice (key == k) (contains keys k) (lookup k s.entries)

abbrev idle_at : ℕ → ℕ → Option Entry → Bool
idle_at grace now none = false
idle_at grace now (some e) = is_idle grace now e

pub absent-idle_keys :
    (grace now : ℕ) (m : Assoc ConnectionKey Entry) (k : ConnectionKey)
    → Keyed m
    → lookup k m ≡ none
    → contains (idle_keys grace now m) k ≡ false
unfolding contains idle_keys lookup
absent-idle_keys grace now [] k h gone = refl
absent-idle_keys grace now ((j, e) ∷ m) k (same, h) gone =
    ground (arith, gone, ap (λ i. i == k) same, absent-idle_keys grace now m k h)

pub absent-lookup :
    (m : Assoc ConnectionKey Entry) (k : ConnectionKey)
    → contains_key k m ≡ false
    → lookup k m ≡ none
absent-lookup m k h = elim (Option-cases (lookup k m)) [
  | inl gone ↦ gone
  | inr (e, found) ↦ absurd (ground (arith, h, found))
]

contains-idle_keys :
    (grace now : ℕ) (m : Assoc ConnectionKey Entry) (k : ConnectionKey)
    → DistinctKeys m
    → Keyed m
    → contains (idle_keys grace now m) k ≡ idle_at grace now (lookup k m)
unfolding contains idle_keys lookup
contains-idle_keys grace now [] k d h = refl
contains-idle_keys grace now ((j, e) ∷ m) k (new, d) (same, h) = elim (Bool-cases (j == k)) [
  | inl at ↦
      let gone = subst (λ i. contains_key i m ≡ false) ((key_beq_iff j k).0 at) new in
      ground (
        arith,
        at,
        ap (λ i. i == k) same,
        absent-idle_keys grace now m k h (absent-lookup m k gone),
      )
  | inr other ↦ ground (arith, other, ap (λ i. i == k) same, contains-idle_keys grace now m k d h)
]

-- In every world that the tasks can reach from an empty store with fewer than 2 ^ 32 leases of one
-- key at any time, `reap_idle` with no other task between its sections terminates the entries that
-- drain without a lease and were last active at least the grace before, and changes no other entry.
pub lookup-reap_idle :
    (s : ConnectionStore) (w : World) (now : ℕ) (k : ConnectionKey)
    → Reach (start s) w
    → lookup k (reap_idle w.store now).store.entries
      ≡ Option.map (when_idle w.store.idle_grace now) (lookup k w.store.entries)
unfolding reap_idle
lookup-reap_idle s w now k r =
    let (d, h) = Reach-WellKeyed r (tt, tt) in
    rw
      (
        lookup-reap_all w.store (idle_keys w.store.idle_grace now w.store.entries) k,
        contains-idle_keys w.store.idle_grace now w.store.entries k d h,
      )
      (elim (Option-cases (lookup k w.store.entries)) [
        | inl gone ↦ ground (arith, gone)
        | inr (e, found) ↦ ground (arith, found)
      ])
