-- ===== src/Sync/Error.antt =====
-- crates/tethys-sync/src/error.rs: the errors of the sync engine, and results that may be one.
pub use tethys.Prelude.Result.{Result, ok, err, ◌>>=◌, >>=-eq-ok, ok_inj, Result-cases}
use tethys.Prelude.{String, List}

pub data SyncError : Type 0 where
  registry unsupported unsupported_source conflict secret_store : String → SyncError
  unsafe_archive git network not_found io json store : String → SyncError
  parse : String → String → SyncError
  stale_plan skill_not_found : String → SyncError
  missing_secrets : List String → SyncError
  git_missing : SyncError

abbrev pub SyncResult {ℓ} : Type ℓ → Type ℓ
SyncResult A = Result SyncError A
