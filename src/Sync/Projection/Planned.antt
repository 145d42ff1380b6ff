-- ===== src/Sync/Projection/Planned.antt =====
-- What a planned text reads as.
use tethys.Prelude.{
  String, false, ◌&&◌, ◌≡◌, ◌≢◌, refl, sym, ap, ◌∙◌, subst, inl, inr, Option, some, List, [], ◌∷◌,
  string_eq, ◌==◌, if◌then◌else◌, arith, eq_iff, Bool-cases, Option-cases, All,
}
use tethys.Prelude.Assoc.{Assoc, lookup}
use tethys.Schema.Sync.{TargetId, RegistryEntry}
use tethys.Schema.Meta.{target_eq}
use tethys.Schema.Projection.{EntryProjection}
use tethys.Sync.Error.{ok, >>=-eq-ok, ok_inj}
use tethys.Sync.Projectors.{Projector}
use tethys.Sync.Projectors.Law.{IsProjector}
use tethys.Sync.Projection.{
  match_state, omits_secrets, state_of, project, injects, project_all, is_sse,
}

module _ (entry_digest : RegistryEntry → String) where
  -- What a name reads as after the injections of a list of entries: the last one of that name that
  -- is injected, or what it read before.
  unfoldable pub overlay :
      (RegistryEntry → RegistryEntry)
      → TargetId
      → Assoc String String
      → Assoc String RegistryEntry
      → String
      → List (String × RegistryEntry)
      → Option RegistryEntry
      → Option RegistryEntry
  overlay written target owned on_disk k [] before = before
  overlay written target owned on_disk k ((name, entry) ∷ desired) before =
      overlay written target owned on_disk k desired (
        if injects (project entry_digest target owned on_disk name entry) && name == k
        then some (written entry)
        else before)

  -- One turn of the loop: the text that it leaves, and what the other turns make of it.
  pub project_all-inverted :
      (p : Projector) (owned : Assoc String String) (on_disk : Assoc String RegistryEntry)
      (content : String) (name : String) (entry : RegistryEntry)
      (desired : List (String × RegistryEntry)) (content' : String) (rows : List EntryProjection)
      → project_all entry_digest p owned on_disk content ((name, entry) ∷ desired)
        ≡ ok (content', rows)
      → let row = project entry_digest p.target owned on_disk name entry in
        (next : String) × (others : List EntryProjection) × ((if injects row
            then p.inject content name entry
            else ok content)
          ≡ ok next)
        × (project_all entry_digest p owned on_disk next desired ≡ ok (content', others))
        × (rows ≡ row ∷ others)
  unfolding project_all
  project_all-inverted p owned on_disk content name entry desired content' rows h =
      let row = project entry_digest p.target owned on_disk name entry in
      let (next, injected, h₁) =
        >>=-eq-ok (if injects row then p.inject content name entry else ok content) _ h in
      let (rest, looped, h₂) =
        >>=-eq-ok (project_all entry_digest p owned on_disk next desired) _ h₁ in
      let same = ok_inj h₂ in
      (
        next,
        rest.1,
        injected,
        looped ∙ ap (λ c. ok (c, rest.1)) (ap (λ (r : String × List EntryProjection). r.0) same),
        sym (ap (λ (r : String × List EntryProjection). r.1) same),
      )

  pub project_all-reads :
      (p : Projector) (Regular : String → Type 0) (written : RegistryEntry → RegistryEntry)
      (laws : IsProjector p Regular written) (owned : Assoc String String)
      (on_disk : Assoc String RegistryEntry) (content : String)
      (desired : List (String × RegistryEntry)) (content' : String) (rows : List EntryProjection)
      (m : Assoc String RegistryEntry)
      → p.read_entries content ≡ ok m
      → Regular content
      → project_all entry_digest p owned on_disk content desired ≡ ok (content', rows)
      → (m' : Assoc String RegistryEntry) × (p.read_entries content' ≡ ok m')
        × ((k : String)
            → lookup k m' ≡ overlay written p.target owned on_disk k desired (lookup k m))
  unfolding project_all overlay
  project_all-reads p Regular written laws owned on_disk content [] content' rows m r regular h =
      (m, ground (arith, r, h), λ k. refl)
  project_all-reads p Regular written laws owned on_disk content ((name, entry) ∷ desired) content'
        rows m r regular h =
      let (next, others, step, rest, _) =
        project_all-inverted p owned on_disk content name entry desired content' rows h in
      elim (Bool-cases (injects (project entry_digest p.target owned on_disk name entry))) [
        | inl injected ↦
            let (regular₁, m₁, r₁, f₁) =
              laws.inject-reads content name next entry m (ground (arith, injected, step)) r
                regular in
            let (m', r', f') =
              project_all-reads p Regular written laws owned on_disk next desired content' others m₁
                r₁ regular₁ rest in
            (
              m',
              r',
              λ k.
                  rw injected
                    (f' k ∙ ap (λ o. overlay written p.target owned on_disk k desired o) (f₁ k)),
            )
        | inr kept ↦
            let same : content ≡ next = ground (arith, kept, step) in
            let (m', r', f') =
              project_all-reads p Regular written laws owned on_disk next desired content' others m
                (rw (← same) r) (subst Regular same regular) rest in
            (m', r', λ k. rw kept (f' k))
      ]

  -- No hash that Tethys wrote is that of the entry that the file holds.
  abbrev pub IsForeign : Assoc String String → String → RegistryEntry → Type 0
  IsForeign owned k current =
      (hash : String) → lookup k owned ≡ some hash → entry_digest current ≢ hash

  -- The match of a foreign entry is a conflict, and it is left out.
  pub foreign-injects :
      (target : TargetId) (owned : Assoc String String) (on_disk : Assoc String RegistryEntry)
      (k : String) (current entry : RegistryEntry)
      → lookup k on_disk ≡ some current
      → IsForeign owned k current
      → omits_secrets target entry ≡ false
      → injects (project entry_digest target owned on_disk k entry) ≡ false
  unfolding project state_of match_state
  foreign-injects target owned on_disk k current entry there foreign plain =
      elim (Option-cases (lookup k owned)) [
        | inl unowned ↦ elim (Bool-cases (is_sse entry.transport)) [
          | inl sse ↦ ground (arith, sse)
          | inr other ↦ ground (arith, there, unowned, plain, other)
        ]
        | inr (hash, owns) ↦ elim (Bool-cases (is_sse entry.transport)) [
          | inl sse ↦ ground (arith, sse)
          | inr other ↦ ground (
            arith,
            there,
            owns,
            plain,
            other,
            foreign hash owns,
            eq_iff (entry_digest current) hash,
          )
        ]
      ]

  -- No desired entry of the name is one whose secrets the target omits.
  abbrev pub AllPlain : TargetId → String → List (String × RegistryEntry) → Type 0
  AllPlain target k desired =
      All (λ (d : String × RegistryEntry). d.0 ≡ k → omits_secrets target d.1 ≡ false) desired

  pub overlay-spares :
      (written : RegistryEntry → RegistryEntry) (target : TargetId) (owned : Assoc String String)
      (on_disk : Assoc String RegistryEntry) (k : String) (current : RegistryEntry)
      (desired : List (String × RegistryEntry)) (before : Option RegistryEntry)
      → lookup k on_disk ≡ some current
      → IsForeign owned k current
      → AllPlain target k desired
      → overlay written target owned on_disk k desired before ≡ before
  unfolding overlay
  overlay-spares written target owned on_disk k current [] before there foreign plain = refl
  overlay-spares written target owned on_disk k current ((name, entry) ∷ desired) before there
        foreign (plain, plains) =
      elim (Bool-cases (name == k)) [
        | inl same ↦
            let name_is_k = (eq_iff name k).0 same in
            let left_out =
              subst (λ n. injects (project entry_digest target owned on_disk n entry) ≡ false)
                (sym name_is_k)
                (foreign-injects target owned on_disk k current entry there foreign
                  (plain name_is_k)) in
            rw left_out (
              overlay-spares written target owned on_disk k current desired before there foreign
                plains)
        | inr other ↦ ground (
          arith,
          other,
          overlay-spares written target owned on_disk k current desired before there foreign plains,
        )
      ]
