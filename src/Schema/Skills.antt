-- ===== src/Schema/Skills.antt =====
-- crates/tethys-schema/src/sync.rs: skills, where they come from and their updates.
use tethys.Prelude.{String, Bool, Option}
use tethys.Schema.Sync.{Scope}

pub data SkillOrigin : Type 0 where
  folder archive git_hub lockfile : SkillOrigin

pub record SkillSource : Type 0 where
  pub origin : SkillOrigin
  pub repo : Option String
  pub reference : Option String
  pub subdir : Option String
  pub lock_hash : Option String
  pub url : Option String

pub record SkillInfo : Type 0 where
  pub name : String
  pub scope : Scope
  pub path : String
  pub source : SkillSource
  pub enabled : Bool
  pub requires_trust : Bool
  pub trusted : Bool
  pub content_hash : String
  pub pinned_sha : Option String

pub record SkillUpdateCheck : Type 0 where
  pub name : String
  pub pinned_sha : Option String
  pub upstream_sha : Option String
  pub update_available : Bool
  pub error : Option String

pub record SkillUpdateApplied : Type 0 where
  pub name : String
  pub pinned_sha : String
  pub content_hash : String
