-- ===== src/Git/Cache/Invariant.antt =====
-- The queue of the cache is the keys of its entries, and the cache is bounded.
use tethys.Prelude.{
  ℕ, ◌≤◌, ◌<◌, ◌≡◌, refl, ap, subst, ◌==◌, inl, inr, String, false, some, List, [], ◌∷◌, ◌++◌,
  string_eq, eq_iff, leb, length, if◌then◌else◌, arith, map, length-map, length-append, Bool-cases,
}
use tethys.Prelude.Assoc.{Assoc, lookup, remove, contains_key, lookup-insert, lookup-remove}
use tethys.Prelude.Assoc
use tethys.Git.Hunks.{ComputedHunk}
use tethys.Git.Cache.{DiffCache, get, evict, insert}

abbrev pub keys : Assoc String (List ComputedHunk) → List String
keys m = map (λ (e : String × List ComputedHunk). e.0) m

abbrev pub Absent : String → List String → Type 0
Absent k [] = Unit
Absent k (j ∷ js) = ((j == k) ≡ false) × Absent k js

abbrev pub Distinct : List String → Type 0
Distinct [] = Unit
Distinct (k ∷ ks) = Absent k ks × Distinct ks

-- The queue holds the keys of the entries, each once, and no more of them than the capacity.
pub record IsValid (c : DiffCache) : Type 0 where
  pub queued : keys c.entries ≡ c.order
  pub distinct : Distinct c.order
  pub bounded : length c.order ≤ c.capacity

lookup-Absent :
    (k : String) (m : Assoc String (List ComputedHunk))
    → contains_key k m ≡ false
    → Absent k (keys m)
unfolding lookup
lookup-Absent k [] h = tt
lookup-Absent k ((j, v) ∷ m) h = (ground (arith, h), lookup-Absent k m (ground (arith, h)))

insert-new :
    (k : String) (v : List ComputedHunk) (m : Assoc String (List ComputedHunk))
    → Absent k (keys m)
    → Assoc.insert k v m ≡ m ++ (k, v) ∷ []
unfolding Assoc.insert
insert-new k v [] h = refl
insert-new k v ((j, w) ∷ m) (other, h) = rw other (ap (λ l. (j, w) ∷ l) (insert-new k v m h))

remove-absent :
    (k : String) (m : Assoc String (List ComputedHunk)) → Absent k (keys m) → remove k m ≡ m
unfolding remove
remove-absent k [] h = refl
remove-absent k ((j, w) ∷ m) (other, h) = rw other (ap (λ l. (j, w) ∷ l) (remove-absent k m h))

Absent-snoc :
    (k j : String) (ks : List String) → Absent k ks → (j == k) ≡ false → Absent k (ks ++ j ∷ [])
Absent-snoc k j [] h other = (other, tt)
Absent-snoc k j (i ∷ ks) (first, h) other = (first, Absent-snoc k j ks h other)

Distinct-snoc :
    (k : String) (ks : List String) → Absent k ks → Distinct ks → Distinct (ks ++ k ∷ [])
Distinct-snoc k [] h d = (tt, tt)
Distinct-snoc k (j ∷ ks) (other, h) (first, d) = (
  Absent-snoc j k ks first (ground (arith, other, eq_iff j k, eq_iff k j)),
  Distinct-snoc k ks h d,
)

keys-snoc :
    (m : Assoc String (List ComputedHunk)) (k : String) (v : List ComputedHunk)
    → keys (m ++ (k, v) ∷ []) ≡ keys m ++ k ∷ []
keys-snoc [] k v = refl
keys-snoc ((j, w) ∷ m) k v = ap (λ l. j ∷ l) (keys-snoc m k v)

-- The cache where the next insertion has room.
record IsRoomy (c : DiffCache) (key : String) : Type 0 where
  queued : keys c.entries ≡ c.order
  distinct : Distinct c.order
  bounded : length c.order < c.capacity
  new : Absent key c.order

evict_front :
    (m : Assoc String (List ComputedHunk)) (capacity : ℕ) (key : String)
    → 0 < capacity
    → Distinct (keys m)
    → length (keys m) ≤ capacity
    → Absent key (keys m)
    → IsRoomy (evict (record { entries = m; order = keys m; capacity = capacity })) key
unfolding evict remove
evict_front [] capacity key room d b new = record {
  queued = refl;
  distinct = tt;
  bounded = room;
  new = tt;
}
evict_front ((j, w) ∷ m) capacity key room (first, d) b (other, new) = record {
  queued = rw ((eq_iff j j).1 refl) (ap keys (remove-absent j m first));
  distinct = d;
  bounded = omega (arith, b);
  new = new;
}

evict-IsRoomy :
    (c : DiffCache) (key : String)
    → 0 < c.capacity
    → IsValid c
    → Absent key c.order
    → IsRoomy (evict c) key
evict-IsRoomy c key room v new =
    subst
      (λ o. IsRoomy (evict (record { entries = c.entries; order = o; capacity = c.capacity })) key)
      v.queued
      (evict_front c.entries c.capacity key room (rw v.queued v.distinct) (rw v.queued v.bounded)
        (rw v.queued new))

room_made :
    (c : DiffCache) (key : String)
    → 0 < c.capacity
    → IsValid c
    → Absent key c.order
    → IsRoomy (if leb c.capacity (length c.entries) then evict c else c) key
room_made c key room v new = elim (Bool-cases (leb c.capacity (length c.entries))) [
  | inl full ↦ rw full (evict-IsRoomy c key room v new)
  | inr space ↦ rw space (record {
    queued = v.queued;
    distinct = v.distinct;
    bounded = subst (λ o. length o < c.capacity) v.queued (fewer space);
    new = new;
  })
]
  where
    fewer : leb c.capacity (length c.entries) ≡ false → length (keys c.entries) < c.capacity
    fewer space =
        rw (length-map (λ (e : String × List ComputedHunk). e.0) c.entries) (ground (arith, space))

appended :
    (c : DiffCache) (key : String) (hunks : List ComputedHunk)
    → IsRoomy c key
    → IsValid (record c { entries = Assoc.insert key hunks c.entries; order = c.order ++ key ∷ [] })
appended c key hunks r = record {
  queued =
      rw
        (
          insert-new key hunks c.entries (rw r.queued r.new),
          keys-snoc c.entries key hunks,
          r.queued,
        )
        refl;
  distinct = Distinct-snoc key c.order r.new r.distinct;
  bounded = ground (arith, length-append c.order (key ∷ []), r.bounded);
}

-- In a cache whose capacity is not 0, an insertion keeps the queue the keys of the entries, each
-- once, and the cache within its capacity.
pub insert-IsValid :
    (c : DiffCache) (key : String) (hunks : List ComputedHunk)
    → 0 < c.capacity
    → IsValid c
    → IsValid (insert c key hunks)
unfolding insert
insert-IsValid c key hunks room v = elim (Bool-cases (contains_key key c.entries)) [
  | inl known ↦ rw known v
  | inr new ↦ rw new (
      appended _ key hunks
        (room_made c key room v (subst (Absent key) v.queued (lookup-Absent key c.entries new))))
]

-- What a lookup finds after an insertion: what was there, for a key that is known; else the new
-- hunks at the new key, and at the others what was there, less the oldest key if the cache was full.
get-insert :
    (c : DiffCache) (key j : String) (hunks : List ComputedHunk)
    → get (insert c key hunks) j ≡ (
        if contains_key key c.entries
        then get c j
        else if key == j
        then some hunks
        else if leb c.capacity (length c.entries)
        then get (evict c) j
        else get c j)
unfolding insert get
get-insert c key j hunks = elim (Bool-cases (contains_key key c.entries)) [
  | inl known ↦ rw known refl
  | inr new ↦ elim (Bool-cases (leb c.capacity (length c.entries))) [
    | inl full ↦ rw (new, full) (lookup-insert key j hunks (evict c).entries)
    | inr space ↦ rw (new, space) (lookup-insert key j hunks c.entries)
  ]
]
