-- ===== src/Sync/Skills/Loading.antt =====
-- A skill that is loaded has the facts of its files, and is trusted only if they were.
use tethys.Prelude.{
  String, Bool, true, false, ◌≡◌, refl, sym, subst, inl, inr, Option, string_eq, ◌==◌, arith,
  eq_iff, Bool-cases,
}
use tethys.Schema.Sync.{Scope}
use tethys.Schema.Skills.{SkillSource, SkillInfo}
use tethys.Sync.Error.{SyncResult, ok, ok_inj, Result-cases}
use tethys.Sync.Trust.{SkillFacts}
use tethys.Sync.Skills.{
  Rows, Env, SkillHome, skill_id, skill_dir, existing, is_current, refresh, load_or_record,
  load_required, bool_beq,
}
use tethys.Sync.Skills.Rows.{Log, AllRows, IsOwn, recording-AllRows, recording-ok, existing-IsOwn}

-- The info has these facts.
abbrev pub HasFacts : SkillInfo → SkillFacts → Type 0
HasFacts info facts =
    (info.content_hash ≡ facts.content_hash) × (info.requires_trust ≡ facts.requires_trust)

is_current-HasFacts :
    (info : SkillInfo) (facts : SkillFacts) → is_current info facts ≡ true → HasFacts info facts
is_current-HasFacts info facts h = elim (Bool-cases (info.content_hash == facts.content_hash)) [
  | inl same ↦ (
    (eq_iff info.content_hash facts.content_hash).0 same,
    bools info.requires_trust facts.requires_trust (ground (arith, same, h)),
  )
  | inr other ↦ absurd (ground (arith, other, h))
]
  where
    bools : (a b : Bool) → bool_beq a b ≡ true → a ≡ b
    bools true true h = refl
    bools true false h = sym h
    bools false false h = refl
    bools false true h = h

module _ (source_text : SkillSource → String) (source_of : String → Option SkillSource) (log : Log)
    (env : Env) (rows : Rows) where
  -- The rows are sound after an operation on a skill, and what it returns is one.
  abbrev pub IsSound : String → SkillFacts → Rows × SyncResult SkillInfo → Type 0
  IsSound id facts (rows', result) =
      AllRows log rows'
      × ((info : SkillInfo) → result ≡ ok info → IsOwn log id info × HasFacts info facts)

  refresh-IsSound :
      (id : String) (info : SkillInfo) (facts : SkillFacts)
      → IsOwn log id info
      → AllRows log rows
      → IsSound id facts (refresh source_text source_of env rows info facts)
  unfolding refresh
  refresh-IsSound id info facts own all = elim (Bool-cases (is_current info facts)) [
    | inl current ↦ rw current (
      all,
      λ out h.
          subst (λ (i : SkillInfo). IsOwn log id i × HasFacts i facts) (ok_inj h)
            (own, is_current-HasFacts info facts current),
    )
    | inr stale ↦
        let anew : SkillInfo = record info {
          content_hash = facts.content_hash;
          requires_trust = facts.requires_trust;
          trusted = false;
        } in
        let anew_own : IsOwn log id anew = (own.0, λ t. absurd (ground (arith, t))) in
        rw stale (
          recording-AllRows source_text log env rows id anew anew_own all,
          λ out h.
              subst (λ (i : SkillInfo). IsOwn log id i × HasFacts i facts)
                (recording-ok source_text env rows anew out h) (anew_own, (refl, refl)),
        )
  ]

  -- The same of a skill that is loaded, with the facts that its files have now.
  abbrev pub IsLoaded : SkillHome → Scope → String → Rows × SyncResult SkillInfo → Type 0
  IsLoaded home scope name (rows', result) =
      AllRows log rows'
      × ((info : SkillInfo)
          → result ≡ ok info
          → (facts : SkillFacts) × (env.inspect (skill_dir home scope name) ≡ ok facts)
            × IsOwn log (skill_id scope name) info
            × HasFacts info facts)

  pub load_or_record-IsSound :
      (home : SkillHome) (scope : Scope) (name : String)
      → AllRows log rows
      → IsLoaded home scope name (load_or_record source_text source_of env rows home scope name)
  unfolding load_or_record
  load_or_record-IsSound home scope name all =
      let dir = skill_dir home scope name in
      elim (Result-cases (env.inspect dir)) [
        | inl (e, failed) ↦ rw (failed, load_or_record) (all, λ info h. absurd (ground (arith, h)))
        | inr (facts, found) ↦
            elim (Result-cases (existing source_of env rows scope name dir facts)) [
              | inl (e, failed) ↦
                  rw (found, failed, load_or_record) (all, λ info h. absurd (ground (arith, h)))
              | inr (old, known) ↦
                  let sound =
                    refresh-IsSound (skill_id scope name) old facts
                      (existing-IsOwn source_of log env rows scope name dir facts old known all)
                      all in
                  rw (found, known, load_or_record)
                    (sound.0, λ info h. let (own, has) = sound.1 info h in (facts, refl, own, has))
            ]
      ]

  pub load_required-IsSound :
      (home : SkillHome) (scope : Scope) (name : String)
      → AllRows log rows
      → IsLoaded home scope name (load_required source_text source_of env rows home scope name)
  unfolding load_required
  load_required-IsSound home scope name all =
      elim (Bool-cases (env.is_dir (skill_dir home scope name))) [
        | inl there ↦ rw there (load_or_record-IsSound home scope name all)
        | inr absent ↦ rw absent (all, λ info h. absurd (ground (arith, h)))
      ]
