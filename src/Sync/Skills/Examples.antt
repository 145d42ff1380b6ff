-- ===== src/Sync/Skills/Examples.antt =====
-- The library with one skill, that is trusted and loaded again.
use tethys.Prelude.{ℕ, String, true, ◌≡◌, refl, none, some, List, [], ◌∷◌, string_eq}
use tethys.Schema.Sync.{Scope}
use tethys.Schema.Skills.{SkillOrigin, SkillInfo}
use tethys.Sync.Error.{ok}
use tethys.Sync.Trust.{SkillFile, SkillFacts, inspect, has_scripts}
use tethys.Sync.Trust.Digest.{joined, parted, inspect-joined}
use tethys.Sync.Skills.{Rows, Env, SkillHome, skill_dir, skill_id, trust, load_or_record}
use tethys.Sync.Skills.Rows.{IsLogged}
use tethys.Sync.Skills.World.{start, step, trusting}
use tethys.Sync.Skills.Trusted.{trusted-IsLogged}
use tethys.Sync.Skills.Kept.{load_or_record-trust}
use tethys.Sync.Skills.Sample.{source_text, source_of, source_of-source_text}

abbrev facts : SkillFacts
facts = record { content_hash = "h1"; requires_trust = true }

abbrev env : Env
env = record {
  is_dir = λ dir. true;
  inspect = λ dir. ok facts;
  discover = λ dir. ok [];
  read_fails = none;
  write_fails = none;
}

abbrev home : SkillHome
home = record { root = "/work"; home = "/home" }

abbrev pdf : SkillInfo
pdf = record {
  name = "pdf";
  scope = Scope.global;
  path = "/home/.agents/skills/pdf";
  source = record {
    origin = SkillOrigin.folder;
    repo = none;
    reference = none;
    subdir = none;
    lock_hash = none;
    url = none;
  };
  enabled = true;
  requires_trust = true;
  trusted = true;
  content_hash = "h1";
  pinned_sha = none;
}

abbrev rows : Rows
rows =
    (
      "global:pdf",
      record {
        skill_id = "global:pdf";
        scope = "global";
        name = "pdf";
        source = "fnnnnn";
        pinned_sha = none;
        content_hash = "h1";
        trusted_hash = some "h1";
        enabled = true;
        requires_trust = true;
      },
    )
    ∷ []

trusted : trust source_text source_of env [] home Scope.global "pdf" ≡ (rows, ok pdf)
unfolding trust source_text skill_dir
trusted = refl

trusted-IsLogged_example :
    (found : SkillFacts) × (env.inspect (skill_dir home Scope.global "pdf") ≡ ok found)
    × ("h1" ≡ found.content_hash)
    × (true ≡ found.requires_trust)
    × (true ≡ true
        → IsLogged (skill_id Scope.global "pdf") found.content_hash (("global:pdf", "h1") ∷ []))
unfolding trust source_text source_of skill_dir
trusted-IsLogged_example =
    trusted-IsLogged source_text source_of rows (("global:pdf", "h1") ∷ [])
      (step start (trusting env home Scope.global "pdf" [] [])) env home Scope.global "pdf" rows pdf
      refl

load_or_record-trust_example :
    (out : SkillInfo) × (load_or_record source_text source_of env rows home Scope.global "pdf"
      ≡ (rows, ok out))
    × (out.trusted ≡ true)
    × (out.content_hash ≡ "h1")
load_or_record-trust_example =
    load_or_record-trust source_text source_of source_of-source_text [] [] start env env home
      Scope.global "pdf" rows pdf trusted refl refl

-- The text of a file that would be a script of its own.
abbrev script : List ℕ
script = 35 ∷ 33 ∷ 47 ∷ []

abbrev known_script : List SkillFile
known_script = record { relative = "scripts/run.sh"; bytes = script; executable = true } ∷ []

abbrev sum : List ℕ → String
sum bytes = "digest"

inspect-joined_example :
    inspect sum (joined sum "data" "new.sh" (65 ∷ []) script true known_script)
    ≡ inspect sum (parted sum "data" "new.sh" (65 ∷ []) script true known_script)
unfolding has_scripts
inspect-joined_example = inspect-joined sum "data" "new.sh" (65 ∷ []) script true known_script refl
