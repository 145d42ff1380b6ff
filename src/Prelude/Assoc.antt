-- ===== src/Prelude/Assoc.antt =====
-- `HashMap` and `BTreeMap` as association lists. A write keeps the place of a key that is there.
use mathlib.Core.Path.{◌≡◌, refl, ap, subst}
use mathlib.Core.Bool.{Bool, true, false}
use mathlib.Core.Option.{Option, none, some}
use mathlib.Core.Option
use mathlib.Core.List.{List, [], ◌∷◌}
use native.Mathlib.Omega.{arith}
use mathlib.Core.Logic.{inl, inr}
use Prim.Native.Nat.{suc}
use tethys.Prelude.Lists.{length}
use tethys.Prelude.Tests.{Bool-cases, Option-cases, unwrap_or, Eq, ◌==◌, if◌then◌else◌, is_some}

abbrev pub Assoc {ℓ κ} : Type ℓ → Type κ → Type (ℓ ⊔ κ)
Assoc K V = List (K × V)

abbrev pub first_some {ℓ} : {A : Type ℓ} → Option A → Option A → Option A
first_some none b = b
first_some (some a) b = some a

module _ {ℓ κ} {K : Type ℓ} {V : Type κ} ⦃e : Eq K⦄ where
  -- `get`
  unfoldable pub lookup : K → Assoc K V → Option V
  lookup k [] = none
  lookup k ((j, v) ∷ m) = if j == k then some v else lookup k m

  -- A mutation through `get_mut`, where the key is there.
  unfoldable pub modify : K → (V → V) → Assoc K V → Assoc K V
  modify k f [] = []
  modify k f ((j, v) ∷ m) = if j == k then (j, f v) ∷ m else (j, v) ∷ modify k f m

  unfoldable pub insert : K → V → Assoc K V → Assoc K V
  insert k v [] = (k, v) ∷ []
  insert k v ((j, w) ∷ m) = if j == k then (j, v) ∷ m else (j, w) ∷ insert k v m

  unfoldable pub remove : K → Assoc K V → Assoc K V
  remove k [] = []
  remove k ((j, v) ∷ m) = let rest = remove k m in if j == k then rest else (j, v) ∷ rest

  abbrev pub contains_key : K → Assoc K V → Bool
  contains_key k m = is_some (lookup k m)

  -- `entry(k).or_insert(v)`
  unfoldable pub or_insert : K → V → Assoc K V → Assoc K V
  unfolding lookup insert
  or_insert k v m = if contains_key k m then m else insert k v m

  pub lookup-modify :
      (k j : K) (f : V → V) (m : Assoc K V)
      → lookup j (modify k f m) ≡ (if k == j then Option.map f (lookup j m) else lookup j m)
  unfolding lookup modify
  lookup-modify k j f [] = ground arith
  lookup-modify k j f ((i, v) ∷ m) =
      ground (arith, e.beq_iff i k, e.beq_iff i j, e.beq_iff k j, lookup-modify k j f m)

  pub lookup-modify-found :
      (k : K) (f : V → V) (m : Assoc K V) (v : V)
      → lookup k m ≡ some v
      → lookup k (modify k f m) ≡ some (f v)
  lookup-modify-found k f m v found = ground (arith, lookup-modify k k f m, found, e.beq_iff k k)

  pub lookup-insert :
      (a b : K) (new : V) (m : Assoc K V)
      → lookup b (insert a new m) ≡ (if a == b then some new else lookup b m)
  unfolding lookup insert
  lookup-insert a b new [] = ground arith
  lookup-insert a b new ((k, old) ∷ rest) =
      ground (arith, lookup-insert a b new rest, e.beq_iff a b, e.beq_iff k b, e.beq_iff k a)

  pub lookup-or_insert :
      (k j : K) (v : V) (m : Assoc K V)
      → lookup j (or_insert k v m)
        ≡ (if k == j then some (unwrap_or v (lookup k m)) else lookup j m)
  unfolding or_insert
  lookup-or_insert k j v m = elim (Option-cases (lookup k m)) [
    | inl new ↦ ground (arith, new, lookup-insert k j v m)
    | inr (w, old) ↦ ground (arith, old, e.beq_iff k j)
  ]

  pub lookup-remove :
      (k j : K) (m : Assoc K V) → lookup j (remove k m) ≡ (if k == j then none else lookup j m)
  unfolding lookup remove
  lookup-remove k j [] = ground arith
  lookup-remove k j ((i, w) ∷ m) =
      ground (arith, e.beq_iff i k, e.beq_iff i j, e.beq_iff k j, lookup-remove k j m)

  -- A write to a key that is there keeps the number of keys.
  pub length-insert :
      (k : K) (v : V) (m : Assoc K V) → contains_key k m ≡ true → length (insert k v m) ≡ length m
  unfolding lookup insert
  length-insert k v [] h = absurd (ground (arith, h))
  length-insert k v ((j, w) ∷ m) h = elim (Bool-cases (j == k)) [
    | inl same ↦ rw same refl
    | inr other ↦ rw other (ap suc (length-insert k v m (ground (arith, h, other))))
  ]

  -- The entries that a test keeps.
  unfoldable pub retain : (K → V → Bool) → Assoc K V → Assoc K V
  retain p [] = []
  retain p ((k, v) ∷ m) = let rest = retain p m in if p k v then (k, v) ∷ rest else rest

  -- `extend`
  unfoldable pub extend : Assoc K V → Assoc K V → Assoc K V
  unfolding insert
  extend m [] = m
  extend m ((k, v) ∷ more) = extend (insert k v m) more

  -- Each key once, as in a map.
  abbrev pub DistinctKeys : Assoc K V → Type 0
  DistinctKeys [] = Unit
  DistinctKeys ((k, v) ∷ m) = (contains_key k m ≡ false) × DistinctKeys m

  abbrev pub kept : (K → V → Bool) → K → Option V → Option V
  kept p k none = none
  kept p k (some v) = if p k v then some v else none

  absent-retain :
      (p : K → V → Bool) (k : K) (m : Assoc K V)
      → contains_key k m ≡ false
      → lookup k (retain p m) ≡ none
  unfolding retain lookup
  absent-retain p k [] h = refl
  absent-retain p k ((j, v) ∷ m) h = ground (arith, h, absent-retain p k m)

  pub lookup-retain :
      (p : K → V → Bool) (k : K) (m : Assoc K V)
      → DistinctKeys m
      → lookup k (retain p m) ≡ kept p k (lookup k m)
  unfolding retain lookup
  lookup-retain p k [] d = refl
  lookup-retain p k ((j, v) ∷ m) (new, d) = elim (Bool-cases (j == k)) [
    | inl same ↦
        let j_is_k = (e.beq_iff j k).0 same in
        ground (
          arith,
          same,
          ap (λ i. p i v) j_is_k,
          absent-retain p k m (subst (λ i. contains_key i m ≡ false) j_is_k new),
        )
    | inr other ↦ ground (arith, other, lookup-retain p k m d)
  ]

  pub lookup-extend :
      (k : K) (m more : Assoc K V)
      → DistinctKeys more
      → lookup k (extend m more) ≡ first_some (lookup k more) (lookup k m)
  unfolding extend lookup
  lookup-extend k m [] d = refl
  lookup-extend k m ((j, v) ∷ more) (new, d) = elim (Bool-cases (j == k)) [
    | inl same ↦
        let j_is_k = (e.beq_iff j k).0 same in
        ground (
          arith,
          same,
          lookup-extend k (insert j v m) more d,
          lookup-insert j k v m,
          subst (λ i. contains_key i more ≡ false) j_is_k new,
        )
    | inr other ↦
        ground (arith, other, lookup-extend k (insert j v m) more d, lookup-insert j k v m)
  ]

  pub insert-DistinctKeys :
      (k : K) (v : V) (m : Assoc K V) → DistinctKeys m → DistinctKeys (insert k v m)
  unfolding insert lookup
  insert-DistinctKeys k v [] d = (refl, tt)
  insert-DistinctKeys k v ((j, w) ∷ m) (new, d) = elim (Bool-cases (j == k)) [
    | inl same ↦ rw same (new, d)
    | inr other ↦ rw other (
      ground (arith, new, other, lookup-insert k j v m, e.beq_iff j k, e.beq_iff k j),
      insert-DistinctKeys k v m d,
    )
  ]

  pub extend-DistinctKeys : (m more : Assoc K V) → DistinctKeys m → DistinctKeys (extend m more)
  unfolding extend
  extend-DistinctKeys m [] d = d
  extend-DistinctKeys m ((k, v) ∷ more) d =
      extend-DistinctKeys (insert k v m) more (insert-DistinctKeys k v m d)

-- `contains`
unfoldable pub contains {ℓ} : {A : Type ℓ} ⦃e : Eq A⦄ → List A → A → Bool
contains [] a = false
contains (x ∷ xs) a = if x == a then true else contains xs a
