-- ===== src/Sync/Manifest/Examples.antt =====
-- A record of one projection that is stored and read.
use tethys.Prelude.{false, ◌≡◌, [], ◌∷◌}
use tethys.Schema.Sync.{Scope, TargetId}
use tethys.Schema.Projection.{Applied}
use tethys.Sync.Error.{ok, ◌>>=◌}
use tethys.Sync.Document.Sample.Maps.{map_text, map_of, map_of-map_text}
use tethys.Sync.Manifest.{applied_to_row, applied_from_row, applied_from_row-applied_to_row}

abbrev github : Applied
github = record {
  target = TargetId.codex;
  path = "config.toml";
  scope = Scope.global;
  file_hash = "h";
  created = false;
  entries = ("github", "e1") ∷ ("search", "e2") ∷ [];
}

applied_from_row-applied_to_row_example :
    (applied_to_row map_text github 7 >>= applied_from_row map_of) ≡ ok github
applied_from_row-applied_to_row_example =
    applied_from_row-applied_to_row map_text map_of map_of-map_text github 7
