-- ===== src/Git/Cache.antt =====
-- crates/tethys-git/src/hunks.rs: the bounded cache of computed hunks, first in first out. A key is
-- the text that `blake3` makes of a pair of blobs.
pub mod Invariant
use tethys.Prelude.{
  ℕ, String, Bool, true, false, Option, none, some, List, [], ◌∷◌, ◌++◌, string_eq, leb, length,
  if◌then◌else◌,
}
use tethys.Prelude.Assoc.{Assoc, lookup, insert as put, remove, contains_key}
use tethys.Git.Hunks.{ComputedHunk}

pub record DiffCache : Type 0 where
  pub entries : Assoc String (List ComputedHunk)
  pub order : List String
  pub capacity : ℕ

abbrev pub cache_capacity : ℕ
cache_capacity = 256

abbrev pub default : DiffCache
default = record { entries = []; order = []; capacity = cache_capacity }

unfoldable pub get : DiffCache → String → Option (List ComputedHunk)
get c key = lookup key c.entries

-- `pop_front`, and the removal of its key.
unfoldable pub evict : DiffCache → DiffCache
evict c = elim c.order [
  | [] ↦ c
  | oldest ∷ rest ↦ record c { entries = remove oldest c.entries; order = rest }
]

unfoldable pub insert : DiffCache → String → List ComputedHunk → DiffCache
unfolding evict
insert c key hunks =
    let room = if leb c.capacity (length c.entries) then evict c else c in
    if contains_key key c.entries
    then c
    else record room { entries = put key hunks room.entries; order = room.order ++ key ∷ [] }
