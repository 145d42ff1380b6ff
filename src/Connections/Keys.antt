-- ===== src/Connections/Keys.antt =====
-- The map of the store holds each key once, with an entry of that key.
use tethys.Prelude.{
  ◌≡◌, refl, sym, ◌∙◌, ap, ◌==◌, Bool, some, [], ◌∷◌, arith, inl, inr, Bool-cases, ℕ, some_inj,
}
use tethys.Prelude.Assoc.{
  Assoc, lookup, modify, insert, or_insert, contains_key, DistinctKeys, insert-DistinctKeys,
  lookup-modify,
}
use tethys.Schema.Connection.{ConnectionKey, key_eq, key_beq_iff}
use tethys.Connections.{
  Entry, refresh_liveness, refresh_all, register, release, mark_error, install, attach,
  close_watched, set_capabilities_for_test, give_back, fail_closed, count_spawn, lend, terminate,
}
use tethys.Connections.Sections.{
  reuse-lent, reuse-missed, begin_spawn-began, reap-cases, restart-cases, entry-cases, fail,
}
use tethys.Connections.Accounting.{refresh_all-lookup}
use tethys.Connections.World.{
  World, Step, Reach, registered, reused, missed, began, failed, installed, released, reaped,
  restarted, inspected, listed, closed, hooked, here, next,
}

abbrev pub Keyed : Assoc ConnectionKey Entry → Type 0
Keyed [] = Unit
Keyed ((key, e) ∷ m) = (e.key ≡ key) × Keyed m

abbrev pub WellKeyed : Assoc ConnectionKey Entry → Type 0
WellKeyed m = DistinctKeys m × Keyed m

modify-DistinctKeys :
    (k : ConnectionKey) (f : Entry → Entry) (m : Assoc ConnectionKey Entry)
    → DistinctKeys m
    → DistinctKeys (modify k f m)
unfolding modify
modify-DistinctKeys k f [] d = tt
modify-DistinctKeys k f ((j, e) ∷ m) (new, d) = elim (Bool-cases (j == k)) [
  | inl same ↦ rw same (new, d)
  | inr other ↦
      rw other (ground (arith, new, lookup-modify k j f m, other), modify-DistinctKeys k f m d)
]

modify-Keyed :
    (k : ConnectionKey) (f : Entry → Entry) (m : Assoc ConnectionKey Entry)
    → ((e : Entry) → lookup k m ≡ some e → e.key ≡ k → (f e).key ≡ k)
    → Keyed m
    → Keyed (modify k f m)
unfolding modify lookup
modify-Keyed k f [] keeps h = tt
modify-Keyed k f ((j, e) ∷ m) keeps (same, h) = elim (Bool-cases (j == k)) [
  | inl at ↦
      let j_is_k = (key_beq_iff j k).0 at in
      rw at (keeps e (ground (arith, at)) (same ∙ j_is_k) ∙ sym j_is_k, h)
  | inr other ↦
      rw other (same, modify-Keyed k f m (λ x found. keeps x (ground (arith, found, other))) h)
]

insert-Keyed :
    (k : ConnectionKey) (e : Entry) (m : Assoc ConnectionKey Entry)
    → e.key ≡ k
    → Keyed m
    → Keyed (insert k e m)
unfolding insert
insert-Keyed k e [] same h = (same, tt)
insert-Keyed k e ((j, x) ∷ m) same (first, h) = elim (Bool-cases (j == k)) [
  | inl at ↦ rw at (same ∙ sym ((key_beq_iff j k).0 at), h)
  | inr other ↦ rw other (first, insert-Keyed k e m same h)
]

pub or_insert-WellKeyed :
    (k : ConnectionKey) (e : Entry) (m : Assoc ConnectionKey Entry)
    → e.key ≡ k
    → WellKeyed m
    → WellKeyed (or_insert k e m)
unfolding or_insert
or_insert-WellKeyed k e m same (d, h) = elim (Bool-cases (contains_key k m)) [
  | inl there ↦ rw there (d, h)
  | inr new ↦ rw new (insert-DistinctKeys k e m d, insert-Keyed k e m same h)
]

pub modify-WellKeyed :
    (k : ConnectionKey) (f : Entry → Entry) (m : Assoc ConnectionKey Entry)
    → ((e : Entry) → lookup k m ≡ some e → e.key ≡ k → (f e).key ≡ k)
    → WellKeyed m
    → WellKeyed (modify k f m)
modify-WellKeyed k f m keeps (d, h) = (modify-DistinctKeys k f m d, modify-Keyed k f m keeps h)

refresh-key : (exited : ℕ → Bool) (e : Entry) → (refresh_liveness exited e).key ≡ e.key
unfolding refresh_liveness
refresh-key exited e = ground arith

pub refresh_all-WellKeyed :
    (exited : ℕ → Bool) (m : Assoc ConnectionKey Entry)
    → WellKeyed m
    → WellKeyed (refresh_all exited m)
unfolding refresh_all
refresh_all-WellKeyed exited [] h = h
refresh_all-WellKeyed exited ((j, e) ∷ m) ((new, d), (same, h)) =
    let (d', h') = refresh_all-WellKeyed exited m (d, h) in
    ((ground (arith, new, refresh_all-lookup exited j m), d'), (refresh-key exited e ∙ same, h'))

module _ (w : World) (v : WellKeyed w.store.entries) where
  -- A section that changes the entry of one key keeps the keys.
  changed :
      (key : ConnectionKey) (f : Entry → Entry)
      → ((e : Entry) → (f e).key ≡ e.key)
      → WellKeyed (modify key f w.store.entries)
  changed key f keeps = modify-WellKeyed key f w.store.entries (λ e _ same. keeps e ∙ same) v

  -- A section that puts back the entry that it found.
  replaced :
      (key : ConnectionKey) (found new : Entry)
      → lookup key w.store.entries ≡ some found
      → new.key ≡ found.key
      → WellKeyed (modify key (λ _. new) w.store.entries)
  replaced key found new at keeps =
      modify-WellKeyed key (λ _. new) w.store.entries
        (λ e at_e same. keeps ∙ ap (λ (x : Entry). x.key) (some_inj (sym at ∙ at_e)) ∙ same) v

-- Every step keeps the keys.
Step-WellKeyed : {w u : World} → Step w u → WellKeyed w.store.entries → WellKeyed u.store.entries
unfolding register release mark_error install attach close_watched set_capabilities_for_test
    give_back fail_closed count_spawn
Step-WellKeyed {w} (registered spec compat now) v = or_insert-WellKeyed _ _ w.store.entries refl v
Step-WellKeyed {w} (reused exited now key s l idle few h) v =
    let (e, found, live, lease, after) = reuse-lent w.store s exited now key l h in
    rw after
      (replaced w v key e (lend now (refresh_liveness exited e)) found (refresh-key exited e))
Step-WellKeyed {w} (missed exited now key s idle h) v =
    elim (reuse-missed w.store s exited now key h) [
      | inl same ↦ rw same v
      | inr (e, found, after) ↦
          rw after (replaced w v key e (refresh_liveness exited e) found (refresh-key exited e))
    ]
Step-WellKeyed {w} (began key s p idle h) v =
    rw ((begin_spawn-began w.store s key p h).1) (changed w v key count_spawn (λ e. refl))
Step-WellKeyed {w} (failed key pid sp) v = changed w v key _ (λ e. refl)
Step-WellKeyed {w} (installed now key spawned sp few) v = changed w v key _ (λ e. refl)
Step-WellKeyed {w} (released now before after l h) v = changed w v l.key (give_back now) (λ e. refl)
Step-WellKeyed {w} (reaped key) v = elim (reap-cases w.store key) [
  | inl same ↦ rw same v
  | inr (e, found, drain, zero_leases, after) ↦ rw after (changed w v key terminate (λ x. refl))
]
Step-WellKeyed {w} (restarted key) v = elim (restart-cases w.store key) [
  | inl same ↦ rw same v
  | inr after ↦ rw after (changed w v key fail (λ e. refl))
]
Step-WellKeyed {w} (inspected exited key) v = elim (entry-cases w.store exited key) [
  | inl same ↦ rw same v
  | inr (e, found, after) ↦
      rw after (replaced w v key e (refresh_liveness exited e) found (refresh-key exited e))
]
Step-WellKeyed {w} (listed exited) v = refresh_all-WellKeyed exited w.store.entries v
Step-WellKeyed {w} (closed key connection) v =
    changed w v key (fail_closed connection) (λ e. ground arith)
Step-WellKeyed {w} (hooked key capabilities) v = changed w v key _ (λ e. refl)

pub Reach-WellKeyed :
    {w u : World} → Reach w u → WellKeyed w.store.entries → WellKeyed u.store.entries
Reach-WellKeyed here v = v
Reach-WellKeyed (next r step) v = Step-WellKeyed step (Reach-WellKeyed r v)
