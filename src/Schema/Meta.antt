-- ===== src/Schema/Meta.antt =====
-- crates/tethys-schema/src/sync.rs: for whom a registry entry is meant.
pub mod Migration
use tethys.Prelude.{
  String, Bool, true, false, Option, none, some, List, [], ◌∷◌, string_eq, Eq, ◌==◌, ◌≡◌, ◌↔◌,
  arith, if◌then◌else◌, nat_beq, ℕ,
}
use tethys.Prelude.Assoc.{contains}
use tethys.Schema.Sync.{TargetId, as_str, Scope, EntryMeta}

abbrev pub is_session : TargetId → Bool
is_session TargetId.session = true
is_session _ = false

abbrev pub position : TargetId → ℕ
position TargetId.session = 0
position TargetId.claude_code = 1
position TargetId.codex = 2
position TargetId.open_code = 3

abbrev pub target_beq : TargetId → TargetId → Bool
target_beq a b = nat_beq (position a) (position b)

pub target_beq_iff : (a b : TargetId) → (target_beq a b ≡ true) ↔ (a ≡ b)
target_beq_iff a b = ground arith

instance abbrev pub target_eq : Eq TargetId
target_eq = record { beq = target_beq; beq_iff = target_beq_iff }

-- An entry's meta as it stands in the file.
pub record EntryMetaRaw : Type 0 where
  pub scope : Option Scope
  pub providers : Option (List String)
  pub targets : Option (List TargetId)
  pub enabled : Bool
  pub legacy : Bool

-- The names of the targets other than `session`.
unfoldable pub non_session : List TargetId → List String
unfolding as_str
non_session [] = []
non_session (t ∷ ts) = let rest = non_session ts in if is_session t then rest else as_str t ∷ rest

abbrev pub is_empty : List String → Bool
is_empty [] = true
is_empty (x ∷ xs) = false

abbrev pub providers_of : Option (List String) → Option (List TargetId) → Option (List String)
providers_of (some p) targets = some p
providers_of none (some targets) =
    let p = non_session targets in if is_empty p then none else some p
providers_of none none = none

unfoldable pub from_raw : EntryMetaRaw → EntryMeta
unfolding non_session
from_raw raw = record {
  scope = raw.scope;
  providers = providers_of raw.providers raw.targets;
  targets = raw.targets;
  enabled = raw.enabled;
  legacy = raw.legacy;
}

unfoldable pub allows_provider : EntryMeta → String → Bool
unfolding non_session contains
allows_provider m provider_id = elim m.providers [
  | some providers ↦ contains providers provider_id
  | none ↦ elim m.targets [
    | none ↦ true
    | some targets ↦
        let names = non_session targets in
        if is_empty names then true else contains names provider_id
  ]
]

unfoldable pub allows : EntryMeta → TargetId → Bool
unfolding allows_provider contains
allows m target = elim m.targets [
  | some targets ↦ contains targets target
  | none ↦ if is_session target then true else allows_provider m (as_str target)
]
