-- ===== src/Sync/Document.antt =====
-- crates/tethys-sync/src/format: vendor configuration files as values. The parsers of JSON and TOML
-- are third-party: a `Format` is what they read of a text, and the text with the edits that make it
-- another value. A TOML table is an object; an inline table, which the code does not look into, is a
-- scalar. The objects that are read as servers have each key once, as serde's maps have.
pub mod Lookup
pub mod Sample
use tethys.Prelude.{
  String, push_str, Bool, true, false, Option, none, some, List, [], ◌∷◌, string_eq, ◌==◌,
  if◌then◌else◌,
}
use tethys.Sync.Error.{SyncError, SyncResult, ok, err}

mutual
  -- `scalar` is a number, a truth value or a null, by its text.
  pub data Value : Type 0 where
    str : String → Value
    scalar : String → Value
    arr : Items → Value
    obj : Fields → Value

  pub data Fields : Type 0 where
    end : Fields
    field : String → Value → Fields → Fields

  pub data Items : Type 0 where
    nil : Items
    cons : Value → Items → Items

pub record Format : Type 0 where
  -- Whether comments and trailing commas are allowed, and the text.
  pub parse : Bool → String → SyncResult Value
  -- The text of a document, with the edits that make it the value.
  pub render : String → Value → String

unfoldable pub get : Fields → String → Option Value
get end name = none
get (field k v fs) name = if k == name then some v else get fs name

-- A property is replaced in its place, or appended.
unfoldable pub set : Fields → String → Value → Fields
set end name v = field name v end
set (field k w fs) name v = if k == name then field k v fs else field k w (set fs name v)

unfoldable pub remove : Fields → String → Fields
remove end name = end
remove (field k v fs) name = if k == name then fs else field k v (remove fs name)

abbrev pub is_empty : Fields → Bool
is_empty end = true
is_empty (field k v fs) = false

abbrev pub as_str : Value → Option String
as_str (str s) = some s
as_str _ = none

abbrev pub as_array : Value → Option Items
as_array (arr xs) = some xs
as_array _ = none

abbrev pub as_object : Value → Option Fields
as_object (obj fs) = some fs
as_object _ = none

abbrev pub and_then {ℓ κ} : {A : Type ℓ} {B : Type κ} → (A → Option B) → Option A → Option B
and_then f none = none
and_then f (some a) = f a

unfoldable pub root_object : Value → SyncResult Fields
root_object v = elim (as_object v) [
  | none ↦ err (SyncError.registry "root must be a JSON object")
  | some fs ↦ ok fs
]

-- `object`: a property that is an object.
unfoldable pub object : Fields → String → Option Fields
unfolding get
object fs name = and_then as_object (get fs name)

-- `object_or_set`: a property that is an object, or `{}` in the place of what is there.
unfoldable pub object_or_set : Fields → String → Fields
unfolding object
object_or_set fs name = elim (object fs name) [ none ↦ end | some inner ↦ inner ]

-- `toml::table_or_insert`: a table that is there, or a new one; what is there may be no table.
unfoldable pub table_or_insert : Fields → String → SyncResult Fields
unfolding get
table_or_insert doc key = elim (get doc key) [
  | none ↦ ok end
  | some v ↦ elim (as_object v) [
    | none ↦ err (SyncError.registry (push_str key " must be a table"))
    | some fs ↦ ok fs
  ]
]

-- The texts of an array.
unfoldable pub strings : Items → List String
strings nil = []
strings (cons v xs) = let rest = strings xs in elim (as_str v) [ none ↦ rest | some s ↦ s ∷ rest ]

unfoldable pub of_strings : List String → Items
of_strings [] = nil
of_strings (s ∷ ss) = cons (str s) (of_strings ss)
