-- ===== src/Sync/Projection/Twice.antt =====
-- A projection that was applied is in sync: a plan of the same entries proposes nothing.
use tethys.Prelude.{
  ℕ, String, true, false, ◌≡◌, refl, sym, ◌∙◌, ap, subst, inl, inr, some, List, [], ◌∷◌, string_eq,
  unwrap_or, arith, Bool-cases, eq_iff, All,
}
use tethys.Prelude.Assoc.{Assoc, lookup, DistinctKeys}
use tethys.Prelude.Text.{is_blank}
use tethys.Schema.Sync.{TargetId, RegistryEntry}
use tethys.Schema.Projection.{EntryState, EntryProjection, ProjectionPlan, Applied}
use tethys.Sync.Error.{ok}
use tethys.Sync.Files.{Disk, Faults}
use tethys.Sync.Projectors.{Projector}
use tethys.Sync.Projectors.Law.{IsProjector}
use tethys.Sync.Projection.{
  PlanRequest, match_state, omits_secrets, state_of, project, injects, project_all, plan, conflicts,
  written_hashes, finish, apply, is_sse,
}
use tethys.Sync.Projection.Planned.{overlay, project_all-reads}
use tethys.Sync.Projection.Spared.{original_of, plan-inverted}
use tethys.Sync.Projection.Applying.{apply-ok}
use tethys.Sync.Projection.Replanned.{
  Has, All-Has, rows_of, overlay-Has, written_hashes-Has, not_conflict-Has, project_all-rows,
  in_sync_row, projected_row,
}

-- The entries that a target takes as they are.
abbrev pub AllKept :
    (RegistryEntry → RegistryEntry) → TargetId → List (String × RegistryEntry) → Type 0
AllKept written target desired =
    All
      (λ (d : String × RegistryEntry).
        (is_sse d.1.transport ≡ false) × (omits_secrets target d.1 ≡ false) × (written d.1 ≡ d.1))
      desired

kept-Has :
    (written : RegistryEntry → RegistryEntry) (target : TargetId) (k : String) (e : RegistryEntry)
    (ds : List (String × RegistryEntry))
    → AllKept written target ds
    → Has k e ds
    → (is_sse e.transport ≡ false) × (omits_secrets target e ≡ false) × (written e ≡ e)
kept-Has written target k e [] a h = absurd h
kept-Has written target k e ((n, x) ∷ ds) (kept, a) (inl (same, is_e)) =
    subst
      (λ (y : RegistryEntry).
        (is_sse y.transport ≡ false) × (omits_secrets target y ≡ false) × (written y ≡ y))
      is_e kept
kept-Has written target k e ((n, x) ∷ ds) (kept, a) (inr h) = kept-Has written target k e ds a h

module _ (entry_digest : RegistryEntry → String) where
  -- The file holds an entry of the same hash as the desired one, and it is the hash last written.
  abbrev Current :
      TargetId → Assoc String String → Assoc String RegistryEntry → String × RegistryEntry → Type 0
  Current target owned on_disk (k, e) =
      (project entry_digest target owned on_disk k e).state ≡ EntryState.in_sync

  project-Current :
      (target : TargetId) (owned : Assoc String String) (on_disk : Assoc String RegistryEntry)
      (k : String) (e current : RegistryEntry)
      → is_sse e.transport ≡ false
      → omits_secrets target e ≡ false
      → lookup k on_disk ≡ some current
      → lookup k owned ≡ some (entry_digest current)
      → entry_digest current ≡ entry_digest e
      → Current target owned on_disk (k, e)
  unfolding project state_of match_state
  project-Current target owned on_disk k e current other plain there owns same = ground (
    arith,
    other,
    plain,
    there,
    owns,
    eq_iff (entry_digest current) (entry_digest current),
    eq_iff (entry_digest e) (entry_digest current),
    same,
  )

  -- A loop over entries that are in sync changes nothing.
  project_all-Current :
      (p : Projector) (owned : Assoc String String) (on_disk : Assoc String RegistryEntry)
      (content : String) (ds : List (String × RegistryEntry))
      → All (Current p.target owned on_disk) ds
      → (rows : List EntryProjection) × (project_all entry_digest p owned on_disk content ds
          ≡ ok (content, rows))
        × All (λ (r : EntryProjection). r.state ≡ EntryState.in_sync) rows
  unfolding project_all
  project_all-Current p owned on_disk content [] a = ([], refl, tt)
  project_all-Current p owned on_disk content ((n, x) ∷ ds) (c, a) =
      let (rows, looped, all) = project_all-Current p owned on_disk content ds a in
      let first = project entry_digest p.target owned on_disk n x in
      (first ∷ rows, ground (arith, c, looped), (c, all))

module _ (digest : String → String) (entry_digest : RegistryEntry → String)
    (unified_diff : String → String → String) (written : RegistryEntry → RegistryEntry)
    (Regular : String → Type 0) (request : PlanRequest)
    (laws : IsProjector request.projector Regular written) (pl : ProjectionPlan)
    (applied : Applied) where
  -- The request of the same entries, once the plan is applied.
  abbrev pub again : PlanRequest
  again = record request { original = some pl.content; owned = applied.entries }

  finish-entries :
      finish digest entry_digest request.projector pl ≡ ok applied
      → (m : Assoc String RegistryEntry) → request.projector.read_entries pl.content ≡ ok m
      → applied.entries ≡ written_hashes entry_digest pl.entries m
  unfolding finish
  finish-entries h m r = ground (arith, h, r)

  abbrev target : TargetId
  target = request.projector.target

  -- Each desired entry is in sync with the file that was written and its hashes.
  currents :
      (on_disk m : Assoc String RegistryEntry)
      → pl.entries ≡ rows_of entry_digest written target request.owned on_disk request.desired
      → conflicts pl.entries ≡ []
      → ((k : String)
          → lookup k m
            ≡ overlay entry_digest written target request.owned on_disk k request.desired
                (lookup k on_disk))
      → applied.entries ≡ written_hashes entry_digest pl.entries m
      → DistinctKeys request.desired
      → AllKept written target request.desired
      → All (Current entry_digest target applied.entries m) request.desired
  currents on_disk m rows free reads hashes distinct kept =
      All-Has (Current entry_digest target applied.entries m) request.desired λ k e h.
        let (other, plain, faithful) = kept-Has written target k e request.desired kept h in
        let (current, there, same) = found k e h other plain faithful in
        let no_conflict =
          not_conflict-Has entry_digest written target request.owned on_disk k e request.desired h
            (subst (λ l. conflicts l ≡ []) rows free) in
        project-Current entry_digest target applied.entries m k e current other plain there
          (ap (lookup k) (hashes ∙ ap (λ l. written_hashes entry_digest l m) rows)
            ∙ written_hashes-Has entry_digest written target request.owned on_disk k e current
                request.desired m h
                (projected_row entry_digest written target request.owned on_disk k e no_conflict
                  other)
                there)
          same
    where
      found :
          (k : String) (e : RegistryEntry)
          → Has k e request.desired
          → is_sse e.transport ≡ false
          → omits_secrets target e ≡ false
          → written e ≡ e
          → (current : RegistryEntry) × (lookup k m ≡ some current)
            × (entry_digest current ≡ entry_digest e)
      found k e h other plain faithful =
          let over =
            reads k
            ∙ overlay-Has entry_digest written target request.owned on_disk k e request.desired
                (lookup k on_disk) distinct h in
          elim (Bool-cases (injects (project entry_digest target request.owned on_disk k e))) [
            | inl injected ↦ (e, over ∙ rw injected (ap some faithful), refl)
            | inr left ↦
                let (c, there, same) =
                  in_sync_row entry_digest written target request.owned on_disk k e
                    (not_conflict-Has entry_digest written target request.owned on_disk k e
                      request.desired h (subst (λ l. conflicts l ≡ []) rows free))
                    other plain left in
                (c, over ∙ rw left there, same)
          ]

  -- A plan is what its loop makes of the entries that its text holds.
  plan-made :
      (r : PlanRequest) (m : Assoc String RegistryEntry) (content : String)
      (rows : List EntryProjection)
      → ((text : String) → is_blank text ≡ true → r.projector.read_entries text ≡ ok [])
      → r.projector.read_entries (unwrap_or "" r.original) ≡ ok m
      → project_all entry_digest r.projector r.owned m (unwrap_or "" r.original) r.desired
        ≡ ok (content, rows)
      → (pl' : ProjectionPlan) × (plan digest entry_digest unified_diff r ≡ ok pl')
        × (pl'.content ≡ content)
        × (pl'.entries ≡ rows)
  unfolding plan
  plan-made r m content rows blank_reads read looped =
      let original = unwrap_or "" r.original in
      (
        record {
          target = r.projector.target;
          path = r.path;
          scope = r.scope;
          base_hash = digest original;
          created = is_blank original;
          diff = unified_diff original content;
          content = content;
          entries = rows;
          providers = [];
        },
        elim (Bool-cases (is_blank original)) [
          | inl blank ↦ ground (arith, blank, read, looped, blank_reads original blank)
          | inr visible ↦ ground (arith, visible, read, looped)
        ],
        refl,
        refl,
      )

  -- Where the projector is lawful on the original text, the names are distinct and the target takes the desired entries
  -- as they are: once a plan of them is applied, the next plan of them is in sync in every row and
  -- leaves the text as it is.
  pub plan_again :
      (faults : Faults) (disk disk' : Disk) (now : ℕ)
      → plan digest entry_digest unified_diff request ≡ ok pl
      → Regular (original_of digest entry_digest unified_diff request)
      → apply digest entry_digest faults disk now request.projector pl ≡ (disk', ok applied)
      → DistinctKeys request.desired
      → AllKept written request.projector.target request.desired
      → (pl' : ProjectionPlan) × (plan digest entry_digest unified_diff again ≡ ok pl')
        × (pl'.content ≡ pl.content)
        × All (λ (r : EntryProjection). r.state ≡ EntryState.in_sync) pl'.entries
  plan_again faults disk disk' now planned regular done distinct kept =
      let (fresh, free, files, finished, backups, backed) =
        apply-ok digest entry_digest faults disk disk' now request.projector pl applied done in
      let (on_disk, read, looped, _, _) =
        plan-inverted digest entry_digest unified_diff Regular written request laws pl planned in
      let (m, read', reads) =
        project_all-reads entry_digest request.projector Regular written laws request.owned on_disk
          (original_of digest entry_digest unified_diff request) request.desired pl.content
          pl.entries on_disk read regular looped in
      let rows =
        project_all-rows entry_digest written target request.owned on_disk request.projector
          (original_of digest entry_digest unified_diff request) request.desired pl.content
          pl.entries refl looped in
      let (rows', looped', synced) =
        project_all-Current entry_digest request.projector applied.entries m pl.content
          request.desired
          (currents on_disk m rows free reads (finish-entries finished m read') distinct kept) in
      let (pl', planned', content', entries') =
        plan-made again m pl.content rows' laws.read-blank read' looped' in
      (
        pl',
        planned',
        content',
        subst (λ l. All (λ (r : EntryProjection). r.state ≡ EntryState.in_sync) l) (sym entries')
            synced,
      )
