-- ===== src/Sync/Manifest.antt =====
-- crates/tethys-sync/src/manifest.rs: the row of tethys-store's sync_state.rs that keeps what an apply
-- wrote. `entries_text` and `entries_of` are serde_json's functions on the hashes of the entries.
mod Examples
use tethys.Prelude.{ℕ, String, push_str, Bool, ◌≡◌, refl, Option, none, some, List, string_eq}
use tethys.Prelude.Assoc.{Assoc}
use tethys.Schema.Sync.{
  Scope, TargetId, as_str, parse, scope_str, parse_scope, parse-as_str, parse_scope-scope_str,
}
use tethys.Schema.Projection.{Applied}
use tethys.Sync.Error.{SyncError, SyncResult, ok, err, ◌>>=◌}

pub record ProjectionRow : Type 0 where
  pub target : String
  pub path : String
  pub scope : String
  pub file_hash : String
  pub created : Bool
  pub updated_at : ℕ
  pub entries : String

abbrev or_error {ℓ} : {A : Type ℓ} → Option A → SyncError → SyncResult A
or_error none e = err e
or_error (some a) e = ok a

module _ (entries_text : Assoc String String → String) where
  unfoldable pub applied_to_row : Applied → ℕ → SyncResult ProjectionRow
  unfolding as_str scope_str
  applied_to_row applied updated_at = ok (record {
    target = as_str applied.target;
    path = applied.path;
    scope = scope_str applied.scope;
    file_hash = applied.file_hash;
    created = applied.created;
    updated_at = updated_at;
    entries = entries_text applied.entries;
  })

module _ (entries_of : String → SyncResult (Assoc String String)) where
  unfoldable pub applied_from_row : ProjectionRow → SyncResult Applied
  unfolding parse parse_scope
  applied_from_row row = do
    target ←
        or_error (parse row.target) (SyncError.registry (push_str "unknown target " row.target))
    scope ←
        or_error (parse_scope row.scope) (SyncError.registry (push_str "unknown scope " row.scope))
    entries ← entries_of row.entries
    ok (record {
      target = target;
      path = row.path;
      scope = scope;
      file_hash = row.file_hash;
      created = row.created;
      entries = entries;
    })

-- Where the hashes of entries read back from their JSON, an `Applied` that is stored reads back as it
-- was.
pub applied_from_row-applied_to_row :
    (entries_text : Assoc String String → String)
    (entries_of : String → SyncResult (Assoc String String))
    (reads_back : (entries : Assoc String String) → entries_of (entries_text entries) ≡ ok entries)
    (applied : Applied) (updated_at : ℕ)
    → (applied_to_row entries_text applied updated_at >>= applied_from_row entries_of) ≡ ok applied
unfolding applied_to_row applied_from_row
applied_from_row-applied_to_row entries_text entries_of reads_back applied updated_at =
    rw
      (
        parse-as_str applied.target,
        parse_scope-scope_str applied.scope,
        reads_back applied.entries,
        applied_from_row,
      )
      refl
