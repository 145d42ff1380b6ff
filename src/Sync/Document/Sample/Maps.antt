-- ===== src/Sync/Document/Sample/Maps.antt =====
-- A spelling of maps from texts to texts that reads back: as objects.
use tethys.Prelude.{◌≤◌, String, ◌≡◌, refl, ap, some, none, [], ◌∷◌, arith}
use tethys.Prelude.Assoc.{Assoc}
use tethys.Sync.Error.{SyncError, SyncResult, ok, err}
use tethys.Sync.Document.{str, Fields, end, field}
use tethys.Sync.Document.Sample.Spelling.{
  Read, write, read, chars, write_fields, read_fields, size_fields, fields-le-chars,
  read_fields-write,
}

fields : Assoc String String → Fields
fields [] = end
fields ((key, text) ∷ map) = field key (str text) (fields map)

texts : Fields → Assoc String String
texts end = []
texts (field key (str text) fs) = (key, text) ∷ texts fs
texts (field key value fs) = texts fs

unfoldable pub map_text : Assoc String String → String
unfolding fields write
map_text map = write_fields (fields map) ""

abbrev found : Read Fields → SyncResult (Assoc String String)
found none = err (SyncError.json "no map")
found (some (fs, rest)) = ok (texts fs)

unfoldable pub map_of : String → SyncResult (Assoc String String)
unfolding read texts chars
map_of text = found (read_fields (chars text) text)

texts-fields : (map : Assoc String String) → texts (fields map) ≡ map
unfolding texts fields
texts-fields [] = refl
texts-fields ((key, text) ∷ map) = ap (λ m. (key, text) ∷ m) (texts-fields map)

pub map_of-map_text : (map : Assoc String String) → map_of (map_text map) ≡ ok map
unfolding map_of map_text
map_of-map_text map =
    rw (read_fields-write (fields map) (chars (write_fields (fields map) "")) "" enough)
      (ap ok (texts-fields map))
  where
    enough : size_fields (fields map) ≤ chars (write_fields (fields map) "")
    enough = omega (arith, fields-le-chars (fields map) "")
