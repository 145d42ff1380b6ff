-- ===== src/Thread/Entries/Find.antt =====
-- How the look-up of `find_mut` meets a write, a push and the two match shapes of the handlers.
use mathlib.Core.List.{map-append}
use tethys.Prelude.{
  unwrap_or, String, ◌≡◌, refl, ◌⊎◌, inl, inr, Option, none, some, List, [], ◌∷◌, ◌++◌, map, arith,
  ◌==◌, string_eq, eq_iff, is_some, if◌then◌else◌, Option-cases,
}
use tethys.Schema.Thread.{Entry, entry_id}
use tethys.Thread.Entries.{find, assign, upsert, update}

-- A mutation leaves the identity of the entry alone.
abbrev pub KeepsId : (Entry → Option Entry) → Type 0
KeepsId change = (e new : Entry) → change e ≡ some new → entry_id new ≡ entry_id e

pub find-id : (es : List Entry) (i : String) (e : Entry) → find es i ≡ some e → entry_id e ≡ i
unfolding find
find-id [] i e h = cc
find-id (x ∷ es) i e h = ground (arith, eq_iff (entry_id x) i, find-id es i e)

pub find-assign :
    (es : List Entry) (i j : String) (new : Entry)
    → entry_id new ≡ i
    → find (assign es i new) j
      ≡ (if i == j then (if is_some (find es i) then some new else none) else find es j)
unfolding find assign
find-assign [] i j new h = ground arith
find-assign (x ∷ es) i j new h = ground (
  arith,
  eq_iff (entry_id x) i,
  eq_iff (entry_id x) j,
  eq_iff (entry_id new) j,
  eq_iff i j,
  find-assign es i j new h,
)

pub find-push :
    (es : List Entry) (new : Entry) (j : String)
    → find (es ++ new ∷ []) j
      ≡ (if is_some (find es j) then find es j else if entry_id new == j then some new else none)
unfolding find
find-push [] new j = refl
find-push (x ∷ es) new j = ground (arith, find-push es new j)

pub find-append :
    (es new : List Entry) (j : String)
    → find (es ++ new) j ≡ (if is_some (find es j) then find es j else find new j)
unfolding find
find-append [] new j = refl
find-append (x ∷ es) new j = ground (arith, find-append es new j)

-- The ids of a list, in its order.
abbrev pub ids : List Entry → List String
ids = map entry_id

pub ids-assign :
    (es : List Entry) (i : String) (new : Entry) → entry_id new ≡ i → ids (assign es i new) ≡ ids es
unfolding assign
ids-assign [] i new h = refl
ids-assign (x ∷ es) i new h = ground (arith, eq_iff (entry_id x) i, ids-assign es i new h)

-- What the two match shapes do to the entry of one id.
abbrev pub changed : (Entry → Option Entry) → Entry → Entry
changed change e = unwrap_or e (change e)

abbrev pub upserted : (Entry → Option Entry) → Entry → Option Entry → Option Entry
upserted change fresh none = some fresh
upserted change fresh (some e) = some (changed change e)

abbrev pub updated : (Entry → Option Entry) → Option Entry → Option Entry
updated change none = none
updated change (some e) = some (changed change e)

module _ (change : Entry → Option Entry) where
  -- No entry, an entry of another kind, or one that is changed.
  find_cases :
      (es : List Entry) (i : String)
      → (find es i ≡ none)
        ⊎ (((e : Entry) × (find es i ≡ some e) × (change e ≡ none))
            ⊎ ((e new : Entry) × (find es i ≡ some e) × (change e ≡ some new)))
  find_cases es i = elim (Option-cases (find es i)) [
    | inl missing ↦ inl missing
    | inr (e, h) ↦ elim (Option-cases (change e)) [
      | inl other ↦ inr (inl (e, h, other))
      | inr (new, c) ↦ inr (inr (e, new, h, c))
    ]
  ]

module _ (change : Entry → Option Entry) (keeps : KeepsId change) where
  find-write :
      (es : List Entry) (i j : String) (e new : Entry)
      → find es i ≡ some e
      → change e ≡ some new
      → find (assign es i new) j ≡ (if i == j then some new else find es j)
  find-write es i j e new h c =
      ground (arith, find-assign es i j new, keeps e new c, find-id es i e h)

  ids-write :
      (es : List Entry) (i : String) (e new : Entry)
      → find es i ≡ some e
      → change e ≡ some new
      → ids (assign es i new) ≡ ids es
  ids-write es i e new h c = ground (arith, ids-assign es i new, keeps e new c, find-id es i e h)

  pub find-upsert :
      (es : List Entry) (fresh : Entry) (i j : String)
      → entry_id fresh ≡ i
      → find (upsert change fresh es i).0 j
        ≡ (if i == j then upserted change fresh (find es i) else find es j)
  unfolding upsert
  find-upsert es fresh i j h = elim (find_cases change es i) [
    | inl e ↦ ground (arith, e, find-push es fresh j, eq_iff i j, eq_iff (entry_id fresh) j)
    | inr (inl (x, e, c)) ↦ ground (arith, e, c, eq_iff i j)
    | inr (inr (x, new, e, c)) ↦ ground (arith, e, c, find-write es i j x new)
  ]

  pub find-update :
      (es : List Entry) (i j : String)
      → find (update change es i).0 j ≡ (if i == j then updated change (find es i) else find es j)
  unfolding update
  find-update es i j = elim (find_cases change es i) [
    | inl e ↦ ground (arith, e, eq_iff i j)
    | inr (inl (x, e, c)) ↦ ground (arith, e, c, eq_iff i j)
    | inr (inr (x, new, e, c)) ↦ ground (arith, e, c, find-write es i j x new)
  ]

  -- The ids after an upsert: the old ones in order, and the new one behind them if it is new.
  pub ids-upsert :
      (es : List Entry) (fresh : Entry) (i : String)
      → entry_id fresh ≡ i
      → ids (upsert change fresh es i).0
        ≡ (if is_some (find es i) then ids es else ids es ++ i ∷ [])
  unfolding upsert
  ids-upsert es fresh i h = elim (find_cases change es i) [
    | inl e ↦ ground (arith, e, map-append entry_id es (fresh ∷ []))
    | inr (inl (x, e, c)) ↦ ground (arith, e, c)
    | inr (inr (x, new, e, c)) ↦ ground (arith, e, c, ids-write es i x new)
  ]

  pub ids-update : (es : List Entry) (i : String) → ids (update change es i).0 ≡ ids es
  unfolding update
  ids-update es i = elim (find_cases change es i) [
    | inl e ↦ ground (arith, e)
    | inr (inl (x, e, c)) ↦ ground (arith, e, c)
    | inr (inr (x, new, e, c)) ↦ ground (arith, e, c, ids-write es i x new)
  ]
