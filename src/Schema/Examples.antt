-- ===== src/Schema/Examples.antt =====
-- Tests of the entry meta, and the theorems at concrete inputs.
use tethys.Prelude.{true, false, none, some, [], ◌∷◌, ◌≡◌, refl}
use tethys.Schema.Sync.{TargetId}
use tethys.Schema.Meta.{EntryMetaRaw, from_raw, allows, allows_provider}

abbrev raw : EntryMetaRaw
raw = record {
  scope = none;
  providers = none;
  targets = some (TargetId.session ∷ TargetId.codex ∷ []);
  enabled = true;
  legacy = false;
}

codex_only : allows_provider (from_raw raw) "opencode" ≡ false
unfolding allows_provider from_raw
codex_only = refl

-- An entry for sessions only is for the sessions of every provider, and for no file.
abbrev sessions_only : EntryMetaRaw
sessions_only = record raw { targets = some (TargetId.session ∷ []) }

any_session : allows_provider (from_raw sessions_only) "codex" ≡ true
unfolding allows_provider from_raw
any_session = refl

no_file : allows (from_raw sessions_only) TargetId.codex ≡ false
unfolding allows from_raw
no_file = refl
