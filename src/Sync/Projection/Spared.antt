-- ===== src/Sync/Projection/Spared.antt =====
-- A plan leaves what others wrote, but for the secrets of Codex.
use tethys.Prelude.{
  String, true, ◌≡◌, refl, sym, subst, ◌∙◌, inl, inr, some, [], ◌∷◌, string_eq, if◌then◌else◌,
  unwrap_or, arith, Bool-cases, eq_iff,
}
use tethys.Prelude.Assoc.{Assoc, lookup}
use tethys.Prelude.Text.{is_blank}
use tethys.Schema.Sync.{TargetId, TransportKind, RegistryEntry}
use tethys.Schema.Meta.{target_eq}
use tethys.Schema.Projection.{EntryState, ProjectionPlan}
use tethys.Sync.Error.{ok, >>=-eq-ok, ok_inj}
use tethys.Sync.Projectors.Law.{IsProjector}
use tethys.Sync.Projection.{
  PlanRequest, omits_secrets, state_of, project, injects, project_all, plan, conflicts, has_secret,
}
use tethys.Sync.Projection.Planned.{
  overlay, project_all-reads, project_all-inverted, IsForeign, AllPlain, overlay-spares,
}

module _ (digest : String → String) (entry_digest : RegistryEntry → String)
    (unified_diff : String → String → String) where
  abbrev pub original_of : PlanRequest → String
  original_of request = unwrap_or "" request.original

  -- A plan read the original, and is what the loop made of it.
  pub plan-inverted :
      (Regular : String → Type 0) (written : RegistryEntry → RegistryEntry) (request : PlanRequest)
      (laws : IsProjector request.projector Regular written) (pl : ProjectionPlan)
      → plan digest entry_digest unified_diff request ≡ ok pl
      → (on_disk : Assoc String RegistryEntry) × (request.projector.read_entries
            (original_of request)
          ≡ ok on_disk)
        × (project_all entry_digest request.projector request.owned on_disk
              (original_of request)
              request.desired
            ≡ ok (pl.content, pl.entries))
        × (pl.base_hash ≡ digest (original_of request))
        × (pl.created ≡ is_blank (original_of request))
  unfolding plan
  plan-inverted Regular written request laws pl h =
      let original = original_of request in
      let (on_disk, opened, h₁) =
        >>=-eq-ok (if is_blank original then ok [] else request.projector.read_entries original) _
          h in
      let (done, looped, h₂) =
        >>=-eq-ok
          (project_all entry_digest request.projector request.owned on_disk original
            request.desired)
          _ h₁ in
      let same = ok_inj h₂ in
      (
        on_disk,
        elim (Bool-cases (is_blank original)) [
          | inl blank ↦ ground (arith, blank, opened, laws.read-blank original blank)
          | inr visible ↦ ground (arith, visible, opened)
        ],
        ground (arith, looped, same),
        ground (arith, same),
        ground (arith, same),
      )

  -- Where a projector is lawful on the original text, an entry that Tethys did not write, or that was changed since, reads
  -- after the plan as before, unless a desired entry of its name has secrets that the target omits.
  pub plan-spares_foreign :
      (Regular : String → Type 0) (written : RegistryEntry → RegistryEntry) (request : PlanRequest)
      (laws : IsProjector request.projector Regular written) (pl : ProjectionPlan)
      (on_disk : Assoc String RegistryEntry) (k : String) (current : RegistryEntry)
      → plan digest entry_digest unified_diff request ≡ ok pl
      → request.projector.read_entries (original_of request) ≡ ok on_disk
      → Regular (original_of request)
      → lookup k on_disk ≡ some current
      → IsForeign entry_digest request.owned k current
      → AllPlain entry_digest request.projector.target k request.desired
      → (m : Assoc String RegistryEntry) × (request.projector.read_entries pl.content ≡ ok m)
        × (lookup k m ≡ some current)
  plan-spares_foreign Regular written request laws pl on_disk k current h r regular there foreign
        plain =
      let (on_disk', r', looped, _, _) = plan-inverted Regular written request laws pl h in
      let same = ok_inj (sym r' ∙ r) in
      let (m, read, reads) =
        project_all-reads entry_digest request.projector Regular written laws request.owned on_disk
          (original_of request) request.desired pl.content pl.entries on_disk r regular
          (subst
            (λ d.
              project_all entry_digest request.projector request.owned d (original_of request)
                request.desired
              ≡ ok (pl.content, pl.entries))
            same looped) in
      (
        m,
        read,
        reads k
            ∙ overlay-spares entry_digest written request.projector.target request.owned on_disk k
                current request.desired (lookup k on_disk) there foreign plain
            ∙ there,
      )

  project-codex :
      (target : TargetId) (owned : Assoc String String) (on_disk : Assoc String RegistryEntry)
      (k : String) (entry : RegistryEntry)
      → target ≡ TargetId.codex
      → entry.transport ≡ TransportKind.stdio
      → has_secret entry.env ≡ true
      → let row = project entry_digest target owned on_disk k entry in
        (row.state ≡ EntryState.unsupported) × (injects row ≡ true)
  unfolding project state_of omits_secrets
  project-codex target owned on_disk k entry codex stdio secret =
      rw (codex, stdio, secret) (refl, refl)

  -- The secrets of Codex break that, with a projector that is lawful on the original text: where the only desired entry is a process with a secret in its
  -- environment, a foreign entry of its name is no conflict of the plan, and what is written of the
  -- desired entry takes its place.
  pub plan-overwrites_foreign :
      (Regular : String → Type 0) (written : RegistryEntry → RegistryEntry) (request : PlanRequest)
      (laws : IsProjector request.projector Regular written) (pl : ProjectionPlan)
      (on_disk : Assoc String RegistryEntry) (k : String) (entry : RegistryEntry)
      → plan digest entry_digest unified_diff request ≡ ok pl
      → request.projector.read_entries (original_of request) ≡ ok on_disk
      → Regular (original_of request)
      → request.projector.target ≡ TargetId.codex
      → request.desired ≡ (k, entry) ∷ []
      → entry.transport ≡ TransportKind.stdio
      → has_secret entry.env ≡ true
      → (conflicts pl.entries ≡ [])
        × (m : Assoc String RegistryEntry) × (request.projector.read_entries pl.content ≡ ok m)
        × (lookup k m ≡ some (written entry))
  unfolding project_all overlay conflicts
  plan-overwrites_foreign Regular written request laws pl on_disk k entry h r regular codex alone
        stdio secret =
      let (on_disk', r', looped, _, _) = plan-inverted Regular written request laws pl h in
      let same = ok_inj (sym r' ∙ r) in
      let looped' =
        subst
          (λ d.
            project_all entry_digest request.projector request.owned d (original_of request)
              request.desired
            ≡ ok (pl.content, pl.entries))
          same looped in
      let (m, read, reads) =
        project_all-reads entry_digest request.projector Regular written laws request.owned on_disk
          (original_of request) request.desired pl.content pl.entries on_disk r regular looped' in
      let (next, others, step, rest, rows) =
        project_all-inverted entry_digest request.projector request.owned on_disk
          (original_of request) k entry [] pl.content pl.entries
          (subst
            (λ d.
              project_all entry_digest request.projector request.owned on_disk (original_of request)
                d
              ≡ ok (pl.content, pl.entries))
            alone looped') in
      let (state, injected) =
        project-codex request.projector.target request.owned on_disk k entry codex stdio secret in
      (
        ground (arith, rows, rest, state),
        m,
        read,
        reads k ∙ rw (alone, injected) (ground (arith, eq_iff k k)),
      )
