-- ===== src/Sync/Projection/Examples.antt =====
-- Tests of the projections, and the theorems at concrete inputs: a file of Claude Code, and one of
-- Codex with a foreign server.
use tethys.Prelude.{
  String, true, false, none, some, [], ◌∷◌, ◌≡◌, refl, unwrap_or, string_eq, All, arith, ◌⊎◌,
}
use tethys.Prelude.Assoc.{Assoc, lookup, insert}
use tethys.Schema.Sync.{Scope, TransportKind, TargetId, RegistryValue, RegistryEntry, transport_str}
use tethys.Schema.Projection.{ProjectionPlan, EntryProjection, Applied, EntryState, VerifyStatus}
use tethys.Sync.Error.{SyncError, ok, err}
use tethys.Sync.Files
use tethys.Sync.Files.{Disk, Faults, prune_backups, backup_retention}
use tethys.Sync.Projectors.Law.{IsRegular, IsProjector}
use tethys.Sync.Document.{get, set, of_strings, object, object_or_set, root_object}
use tethys.Sync.Document.Sample.{sample-IsRegular, sample, json-IsFormat, toml-IsFormat}
use tethys.Sync.Projectors.{Projector, default_meta, refs}
use tethys.Sync.Projectors.ClaudeCode.{claude_code, inject, inject_into, read_entries, entry_value}
use tethys.Sync.Projectors.ClaudeCode.RoundTrip.{claude_code-IsProjector, written}
use tethys.Sync.Projectors.Codex
use tethys.Sync.Projectors.Codex.{codex}
use tethys.Sync.Projectors.Codex.RoundTrip.{codex-IsProjector}
use tethys.Sync.Projection.Twice.{plan_again, again}
use tethys.Sync.Projection.Spared.{plan-spares_foreign, plan-overwrites_foreign}
use tethys.Sync.Projection.Applying.{apply-err}
use tethys.Sync.Projection.Undone.{rollback-apply, verify-apply}
use tethys.Sync.Projection.{
  PlanRequest, plan, project_all, project, state_of, match_state, omits_secrets, has_secret, apply,
  verify, rollback, conflicts, write_plan, finish,
}

abbrev github : RegistryEntry
github = record {
  transport = TransportKind.stdio;
  command = some "github-mcp-server";
  args = "stdio" ∷ [];
  env = [];
  url = none;
  headers = [];
  meta = default_meta;
}

abbrev digest : String → String
digest text = text

abbrev entry_digest : RegistryEntry → String
entry_digest e = unwrap_or "" e.command

abbrev no_diff : String → String → String
no_diff before after = ""

abbrev claude : Projector
claude = claude_code sample

abbrev Regular : String → Type 0
Regular = IsRegular sample false "{}"

abbrev request : PlanRequest
request = record {
  projector = claude;
  path = ".mcp.json";
  scope = Scope.workspace;
  original = none;
  desired = ("github", github) ∷ [];
  owned = [];
}

abbrev projected : String
projected =
    "occmcccpcScecrcvcecrcseoccgcictchcucbeocctcycpceescsctcdcicoeccccocmcmcacncdescgcictchcucbc-cmcccpc-cscecrcvcecreccacrcgcseacscsctcdcicoeeeee"

abbrev github_plan : ProjectionPlan
github_plan = record {
  target = TargetId.claude_code;
  path = ".mcp.json";
  scope = Scope.workspace;
  base_hash = "";
  created = true;
  diff = "";
  content = projected;
  entries =
      record { name = "github"; state = EntryState.pending; projected = true; notes = [] } ∷ [];
  providers = [];
}

github_planned : plan digest entry_digest no_diff request ≡ ok github_plan
unfolding plan project_all project state_of match_state omits_secrets has_secret inject inject_into
    entry_value object_or_set object get set of_strings root_object transport_str refs lookup sample
github_planned = refl

abbrev quiet : Faults
quiet = record { read = λ p. none; backup = λ p. none; write = λ p. none; remove = λ p. none }

abbrev empty_disk : Disk
empty_disk = record { files = []; backups = [] }

abbrev github_applied : Applied
github_applied = record {
  target = TargetId.claude_code;
  path = ".mcp.json";
  scope = Scope.workspace;
  file_hash = projected;
  created = true;
  entries = ("github", "github-mcp-server") ∷ [];
}

abbrev written_disk : Disk
written_disk = record { files = (".mcp.json", projected) ∷ []; backups = [] }

github_done :
    apply digest entry_digest quiet empty_disk 7 claude github_plan
    ≡ (written_disk, ok github_applied)
unfolding apply Files.read_text lookup conflicts write_plan Files.backup_file Files.write_atomic
    insert finish read_entries sample
github_done = refl

plan_again_example :
    (pl' : ProjectionPlan) × (plan digest entry_digest no_diff (
        again digest entry_digest no_diff written Regular request
          (claude_code-IsProjector sample json-IsFormat)
          github_plan
          github_applied)
      ≡ ok pl')
    × (pl'.content ≡ projected)
    × All (λ (r : EntryProjection). r.state ≡ EntryState.in_sync) pl'.entries
unfolding lookup omits_secrets
plan_again_example =
    plan_again digest entry_digest no_diff written Regular request
      (claude_code-IsProjector sample json-IsFormat) github_plan github_applied quiet empty_disk
      written_disk 7 github_planned (sample-IsRegular false "{}" "") github_done (refl, tt)
      ((refl, refl, refl), tt)

-- A file that someone else made, with another server of the name.
abbrev foreign : String
foreign =
    "occmcccpcScecrcvcecrcseoccgcictchcucbeocctcycpceescsctcdcicoeccccocmcmcacncdescoctchcecreeee"

abbrev contested : PlanRequest
contested = record request { original = some foreign }

abbrev other : RegistryEntry
other = record github { command = some "other"; args = [] }

abbrev contested_plan : ProjectionPlan
contested_plan = record github_plan {
  base_hash = foreign;
  created = false;
  content = foreign;
  entries =
      record {
        name = "github";
        state = EntryState.conflict;
        projected = false;
        notes = "foreign entry with the same name" ∷ [];
      }
      ∷ [];
}

plan-spares_foreign_example :
    (m : Assoc String RegistryEntry) × (read_entries sample foreign ≡ ok m)
    × (lookup "github" m ≡ some other)
unfolding plan read_entries sample project_all project lookup
plan-spares_foreign_example =
    plan-spares_foreign digest entry_digest no_diff Regular written contested
      (claude_code-IsProjector sample json-IsFormat) contested_plan (("github", other) ∷ [])
      "github" other refl refl (sample-IsRegular false "{}" foreign) refl
      (λ hash h. absurd (ground (arith, h))) ((λ h. refl), tt)

-- The same with Codex, and a secret.
abbrev secretive : RegistryEntry
secretive = record github { env = ("TOKEN", RegistryValue.secret "keychain:TOKEN") ∷ [] }

abbrev codex_request : PlanRequest
codex_request = record {
  projector = codex sample;
  path = "config.toml";
  scope = Scope.global;
  original = some "occmcccpc_cscecrcvcecrcseoccgcictchcucbeoccccocmcmcacncdescoctchcecreeee";
  desired = ("github", secretive) ∷ [];
  owned = [];
}

abbrev codex_plan : ProjectionPlan
codex_plan = record {
  target = TargetId.codex;
  path = "config.toml";
  scope = Scope.global;
  base_hash = "occmcccpc_cscecrcvcecrcseoccgcictchcucbeoccccocmcmcacncdescoctchcecreeee";
  created = false;
  diff = "";
  content =
      "occmcccpc_cscecrcvcecrcseoccgcictchcucbeoccccocmcmcacncdescgcictchcucbc-cmcccpc-cscecrcvcecreccacrcgcseacscsctcdcicoeeeee";
  entries =
      record {
        name = "github";
        state = EntryState.unsupported;
        projected = true;
        notes =
            "foreign entry with the same name" ∷ "secret env values are omitted for codex stdio"
            ∷ [];
      }
      ∷ [];
  providers = [];
}

plan-overwrites_foreign_example :
    (conflicts codex_plan.entries ≡ [])
    × (m : Assoc String RegistryEntry) × (Codex.read_entries sample codex_plan.content ≡ ok m)
    × (lookup "github" m ≡ some (Codex.RoundTrip.written secretive))
unfolding plan Codex.read_entries sample project_all project Codex.inject lookup
plan-overwrites_foreign_example =
    plan-overwrites_foreign digest entry_digest no_diff (IsRegular sample true "")
      Codex.RoundTrip.written codex_request (codex-IsProjector sample toml-IsFormat) codex_plan
      (("github", other) ∷ []) "github" secretive refl refl
      (sample-IsRegular true "" (unwrap_or "" codex_request.original)) refl refl refl refl

-- The text is no longer the one that was planned.
abbrev stale_disk : Disk
stale_disk = record { files = (".mcp.json", foreign) ∷ []; backups = [] }

apply-err_example :
    (stale_disk.files ≡ stale_disk.files)
    ⊎ (claude.read_entries github_plan.content ≡ err (SyncError.stale_plan ".mcp.json"))
unfolding apply Files.read_text lookup sample
apply-err_example =
    apply-err digest entry_digest quiet stale_disk stale_disk 7 claude github_plan
      (SyncError.stale_plan ".mcp.json") refl

-- An empty document stood there, and is put back.
abbrev empty_request : PlanRequest
empty_request = record request { original = some "oe" }

abbrev empty_plan : ProjectionPlan
empty_plan = record github_plan { base_hash = "oe"; created = false }

abbrev old_disk : Disk
old_disk = record { files = (".mcp.json", "oe") ∷ []; backups = [] }

abbrev new_disk : Disk
new_disk = record {
  files = (".mcp.json", projected) ∷ [];
  backups = (".mcp.json", (7, "oe") ∷ []) ∷ [];
}

abbrev empty_applied : Applied
empty_applied = record github_applied { created = false }

rollback-apply_example :
    let (disk'', result) = rollback digest quiet new_disk empty_applied false in
    (result ≡ ok tt) × (lookup ".mcp.json" disk''.files ≡ some "oe")
unfolding apply Files.read_text lookup conflicts write_plan Files.backup_file Files.write_atomic
    insert finish read_entries sample Files.prune_backups Files.add_backup plan project_all project
    inject inject_into
rollback-apply_example =
    rollback-apply digest entry_digest quiet old_disk new_disk 7 claude empty_plan empty_applied
      refl no_diff empty_request false refl refl tt refl refl refl

verify-apply_example :
    verify digest quiet written_disk ".mcp.json" github_applied ≡ ok VerifyStatus.in_sync
verify-apply_example =
    verify-apply digest entry_digest quiet empty_disk written_disk 7 claude github_plan
      github_applied github_done refl

claude_code-IsProjector_example : IsProjector claude Regular written
claude_code-IsProjector_example = claude_code-IsProjector sample json-IsFormat
