-- ===== src/Sync/Projection/Replanned.antt =====
-- The rows of a plan by the entries that they stand for.
use tethys.Prelude.{
  String, Bool, true, false, ◌&&◌, ◌≡◌, refl, sym, ◌∙◌, ap, subst, ◌⊎◌, inl, inr, Option, some,
  List, [], ◌∷◌, string_eq, ◌==◌, if◌then◌else◌, arith, Bool-cases, Option-cases, eq_iff, All, map,
}
use tethys.Prelude.Assoc.{Assoc, lookup, contains_key, DistinctKeys}
use tethys.Schema.Sync.{TargetId, RegistryEntry}
use tethys.Schema.Projection.{EntryProjection}
use tethys.Sync.Error.{ok}
use tethys.Sync.Projectors.{Projector}
use tethys.Sync.Projection.{
  match_state, omits_secrets, state_of, project, injects, project_all, conflicts, written_hashes,
  is_conflict, is_sse,
}
use tethys.Sync.Projection.Planned.{overlay, project_all-inverted}

-- An entry of a list of desired ones.
abbrev pub Has : String → RegistryEntry → List (String × RegistryEntry) → Type 0
Has k e [] = ⊥
Has k e ((n, x) ∷ ds) = ((n ≡ k) × (x ≡ e)) ⊎ Has k e ds

Has-contains_key :
    (k : String) (e : RegistryEntry) (ds : List (String × RegistryEntry))
    → Has k e ds
    → contains_key k ds ≡ true
unfolding lookup
Has-contains_key k e [] h = absurd h
Has-contains_key k e ((n, x) ∷ ds) (inl (same, _)) = ground (arith, same, eq_iff n k)
Has-contains_key k e ((n, x) ∷ ds) (inr h) = ground (arith, Has-contains_key k e ds h)

pub All-Has :
    (P : String × RegistryEntry → Type 0) (ds : List (String × RegistryEntry))
    → ((k : String) (e : RegistryEntry) → Has k e ds → P (k, e))
    → All P ds
All-Has P [] f = tt
All-Has P ((n, x) ∷ ds) f = (f n x (inl (refl, refl)), All-Has P ds (λ k e h. f k e (inr h)))

module _ (entry_digest : RegistryEntry → String) (written : RegistryEntry → RegistryEntry)
    (target : TargetId) (owned : Assoc String String) (on_disk : Assoc String RegistryEntry) where
  abbrev pub row : String → RegistryEntry → EntryProjection
  row k e = project entry_digest target owned on_disk k e

  abbrev pub rows_of : List (String × RegistryEntry) → List EntryProjection
  rows_of ds = map (λ (d : String × RegistryEntry). row d.0 d.1) ds

  overlay-absent :
      (k : String) (ds : List (String × RegistryEntry)) (o : Option RegistryEntry)
      → contains_key k ds ≡ false
      → overlay entry_digest written target owned on_disk k ds o ≡ o
  unfolding overlay lookup
  overlay-absent k [] o h = refl
  overlay-absent k ((n, x) ∷ ds) o h = elim (Bool-cases (n == k)) [
    | inl same ↦ absurd (ground (arith, h, same))
    | inr other ↦ ground (arith, other, h, overlay-absent k ds o)
  ]

  pub overlay-Has :
      (k : String) (e : RegistryEntry) (ds : List (String × RegistryEntry))
      (o : Option RegistryEntry)
      → DistinctKeys ds
      → Has k e ds
      → overlay entry_digest written target owned on_disk k ds o
        ≡ (if injects (row k e) then some (written e) else o)
  unfolding overlay
  overlay-Has k e [] o d h = absurd h
  overlay-Has k e ((n, x) ∷ ds) o (new, d) (inl (same, is_e)) =
      rw (same, is_e)
        (overlay-absent k ds _ (subst (λ i. contains_key i ds ≡ false) same new)
          ∙ once (injects (row k e)))
    where
      once :
          (b : Bool)
          → (if b && k == k then some (written e) else o) ≡ (if b then some (written e) else o)
      once b = ground (arith, eq_iff k k)
  overlay-Has k e ((n, x) ∷ ds) o (new, d) (inr h) = elim (Bool-cases (n == k)) [
    | inl same ↦ absurd (
        ground (
          arith,
          Has-contains_key k e ds h,
          subst (λ i. contains_key i ds ≡ false) ((eq_iff n k).0 same) new,
        ))
    | inr other ↦ ground (arith, other, overlay-Has k e ds o d h)
  ]

  name-project : (k : String) (e : RegistryEntry) → (row k e).name ≡ k
  unfolding project
  name-project k e = ground arith

  -- The hash that an `apply` records of a row that is projected.
  pub written_hashes-Has :
      (k : String) (e current : RegistryEntry) (ds : List (String × RegistryEntry))
      (m : Assoc String RegistryEntry)
      → Has k e ds
      → (row k e).projected ≡ true
      → lookup k m ≡ some current
      → lookup k (written_hashes entry_digest (rows_of ds) m) ≡ some (entry_digest current)
  unfolding written_hashes lookup
  written_hashes-Has k e current [] m h p found = absurd h
  written_hashes-Has k e current ((n, x) ∷ ds) m (inl (same, is_e)) p found =
      rw (same, is_e) (ground (arith, p, name-project k e, found, eq_iff k k))
  written_hashes-Has k e current ((n, x) ∷ ds) m (inr h) p found =
      let rest = written_hashes-Has k e current ds m h p found in
      elim (Bool-cases (n == k)) [
        | inl same ↦
            ground (
              arith,
              same,
              ap (λ i. lookup i m) ((eq_iff n k).0 same),
              found,
              name-project n x,
              rest,
            )
        | inr other ↦ ground (arith, other, name-project n x, rest)
      ]

  pub not_conflict-Has :
      (k : String) (e : RegistryEntry) (ds : List (String × RegistryEntry))
      → Has k e ds
      → conflicts (rows_of ds) ≡ []
      → is_conflict (row k e).state ≡ false
  unfolding conflicts
  not_conflict-Has k e [] h free = absurd h
  not_conflict-Has k e ((n, x) ∷ ds) (inl (same, is_e)) free =
      let is_row : row n x ≡ row k e = ap (λ i. row i x) same ∙ ap (λ y. row k y) is_e in
      ground (arith, free, is_row)
  not_conflict-Has k e ((n, x) ∷ ds) (inr h) free = ground (arith, free, not_conflict-Has k e ds h)

  pub project_all-rows :
      (p : Projector) (content : String) (ds : List (String × RegistryEntry)) (content' : String)
      (rows : List EntryProjection)
      → p.target ≡ target
      → project_all entry_digest p owned on_disk content ds ≡ ok (content', rows)
      → rows ≡ rows_of ds
  unfolding project_all
  project_all-rows p content [] content' rows t h = ground (arith, h)
  project_all-rows p content ((n, x) ∷ ds) content' rows t h =
      let (next, others, step, rest, all) =
        project_all-inverted entry_digest p owned on_disk content n x ds content' rows h in
      all
      ∙ ap (λ l. project entry_digest p.target owned on_disk n x ∷ l)
          (project_all-rows p next ds content' others t rest)
      ∙ ap (λ tgt. project entry_digest tgt owned on_disk n x ∷ rows_of ds) t

  -- A row that is no conflict, of an entry that the target takes as it is.
  pub in_sync_row :
      (k : String) (e : RegistryEntry)
      → is_conflict (row k e).state ≡ false
      → is_sse e.transport ≡ false
      → omits_secrets target e ≡ false
      → injects (row k e) ≡ false
      → (current : RegistryEntry) × (lookup k on_disk ≡ some current)
        × (entry_digest current ≡ entry_digest e)
  unfolding project state_of match_state
  in_sync_row k e free other plain kept = elim (Option-cases (lookup k owned)) [
    | inl unowned ↦ absurd (elim (Option-cases (lookup k on_disk)) [
      | inl gone ↦ ground (arith, unowned, gone, plain, other, kept)
      | inr (c, there) ↦ ground (arith, unowned, there, plain, other, free)
    ])
    | inr (hash, owns) ↦ elim (Option-cases (lookup k on_disk)) [
      | inl gone ↦ absurd (ground (arith, owns, gone, plain, other, kept))
      | inr (c, there) ↦ elim (Bool-cases (entry_digest c == hash)) [
        | inr changed ↦ absurd (ground (arith, owns, there, plain, changed, free))
        | inl unchanged ↦ elim (Bool-cases (entry_digest e == hash)) [
          | inr newer ↦ absurd (ground (arith, owns, there, plain, other, unchanged, newer, kept))
          | inl equal ↦ (
            c,
            there,
            (eq_iff (entry_digest c) hash).0 unchanged
                ∙ sym ((eq_iff (entry_digest e) hash).0 equal),
          )
        ]
      ]
    ]
  ]

  pub projected_row :
      (k : String) (e : RegistryEntry)
      → is_conflict (row k e).state ≡ false
      → is_sse e.transport ≡ false
      → (row k e).projected ≡ true
  unfolding project
  projected_row k e free other = ground (arith, free, other)
