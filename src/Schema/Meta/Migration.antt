-- ===== src/Schema/Meta/Migration.antt =====
-- What the reading of an old entry's targets means.
use tethys.Prelude.{
  String, true, false, none, some, Option-cases, Bool-cases, inl, inr, List, [], ◌∷◌, string_eq,
  ◌==◌, ◌≡◌, refl, ap, sym, ◌∙◌, some_inj, arith, eq_iff,
}
use tethys.Prelude.Assoc.{contains}
use tethys.Schema.Sync.{TargetId, as_str, parse, EntryMeta}
use tethys.Schema.Meta.{
  EntryMetaRaw, target_eq, target_beq, target_beq_iff, is_session, is_empty, non_session, from_raw,
  allows_provider, allows,
}

-- The meta of an entry as it stands in the file, with no providers read off its targets.
abbrev pub unmigrated : EntryMetaRaw → EntryMeta
unmigrated raw = record {
  scope = raw.scope;
  providers = raw.providers;
  targets = raw.targets;
  enabled = raw.enabled;
  legacy = raw.legacy;
}

-- The providers that the reading of an entry takes from its targets are those that the targets allow anyway.
allows_provider-from_raw :
    (raw : EntryMetaRaw) (provider_id : String)
    → allows_provider (from_raw raw) provider_id ≡ allows_provider (unmigrated raw) provider_id
unfolding allows_provider from_raw
allows_provider-from_raw raw provider_id = elim (Option-cases raw.providers) [
  | inr (ps, given) ↦ ground (arith, given)
  | inl not_given ↦ elim (Option-cases raw.targets) [
    | inl no_targets ↦ ground (arith, not_given, no_targets)
    | inr (ts, targets) ↦ ground (arith, not_given, targets)
  ]
]

-- The names of the targets are read back.
pub parse-as_str : (t : TargetId) → parse (as_str t) ≡ some t
unfolding parse as_str
parse-as_str TargetId.session = refl
parse-as_str TargetId.claude_code = refl
parse-as_str TargetId.codex = refl
parse-as_str TargetId.open_code = refl

same_name : (a b : TargetId) → (as_str a == as_str b) ≡ target_beq a b
same_name a b = ground (arith, eq_iff (as_str a) (as_str b), target_beq_iff a b, back, forth)
  where
    back : as_str a ≡ as_str b → a ≡ b
    back e = some_inj (sym (parse-as_str a) ∙ ap parse e ∙ parse-as_str b)

    forth : a ≡ b → as_str a ≡ as_str b
    forth e = ap as_str e

not_session : (x t : TargetId) → is_session x ≡ true → is_session t ≡ false → target_beq x t ≡ false
not_session x t h k = ground (arith, h, k)

contains-non_session :
    (ts : List TargetId) (t : TargetId)
    → is_session t ≡ false
    → contains (non_session ts) (as_str t) ≡ contains ts t
unfolding contains non_session
contains-non_session [] t h = refl
contains-non_session (x ∷ ts) t h = elim (Bool-cases (is_session x)) [
  | inl session ↦ rw (session, not_session x t session h) (contains-non_session ts t h)
  | inr file ↦ rw (file, same_name x t, contains-non_session ts t h) refl
]

-- An entry with targets other than `session` and no providers of its own: each such target is
-- allowed as a target just when it is allowed as a provider.
allows-agree :
    (raw : EntryMetaRaw) (ts : List TargetId) (t : TargetId)
    → raw.providers ≡ none
    → raw.targets ≡ some ts
    → is_empty (non_session ts) ≡ false
    → is_session t ≡ false
    → allows (from_raw raw) t ≡ allows_provider (from_raw raw) (as_str t)
unfolding allows allows_provider from_raw
allows-agree raw ts t no_providers targets some_file file =
    ground (arith, no_providers, targets, some_file, contains-non_session ts t file)
