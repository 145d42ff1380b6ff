-- ===== src/Sync/Skills/Kept.antt =====
-- A skill that was trusted stays so while its files do.
use tethys.Prelude.{
  String, Bool, true, false, ◌≡◌, refl, ap, ◌∙◌, subst, inl, inr, Option, none, some, arith,
  string_eq, eq_iff,
}
use tethys.Prelude.Assoc.{lookup, lookup-insert}
use tethys.Schema.Sync.{Scope, parse_scope-scope_str}
use tethys.Schema.Skills.{SkillSource, SkillInfo}
use tethys.Sync.Error.{ok}
use tethys.Sync.Trust.{SkillFacts}
use tethys.Sync.Skills.{
  Rows, Env, SkillHome, skill_id, skill_dir, row_of, upsert_skill, record_skill, info_from_row,
  existing, is_current, bool_beq, refresh, load_or_record, load_required, trust,
}
use tethys.Sync.Skills.Rows.{Log}
use tethys.Sync.Skills.Loading.{HasFacts, load_required-IsSound}
use tethys.Sync.Skills.World.{Reach, change-cases}
use tethys.Sync.Skills.Trusted.{Reach-AllRows}

HasFacts-is_current :
    (info : SkillInfo) (facts : SkillFacts) → HasFacts info facts → is_current info facts ≡ true
HasFacts-is_current info facts (hash, scripts) =
    rw ((eq_iff info.content_hash facts.content_hash).1 hash, scripts) (same facts.requires_trust)
  where
    same : (b : Bool) → bool_beq b b ≡ true
    same true = refl
    same false = refl

module _ (source_text : SkillSource → String) (source_of : String → Option SkillSource)
    (reads_back : (source : SkillSource) → source_of (source_text source) ≡ some source) where
  -- An info that was recorded loads again, with the path of the directory.
  info_from_row-row_of :
      (info : SkillInfo) (dir : String)
      → info.trusted ≡ true
      → info_from_row source_of (row_of source_text info) dir ≡ ok (record info { path = dir })
  unfolding info_from_row row_of
  info_from_row-row_of info dir trusted =
      rw
        (
          reads_back info.source,
          parse_scope-scope_str info.scope,
          trusted,
          (eq_iff info.content_hash info.content_hash).1 refl,
          info_from_row,
        )
        refl

  stored_row :
      (id : String) (info : SkillInfo) (rows : Rows)
      → skill_id info.scope info.name ≡ id
      → lookup id (upsert_skill (row_of source_text info) rows) ≡ some (row_of source_text info)
  unfolding row_of
  stored_row id info rows own = ground (
    arith,
    own,
    lookup-insert (skill_id info.scope info.name) id (row_of source_text info) rows,
    eq_iff (skill_id info.scope info.name) id,
  )

  -- In such a library, once `trust` succeeded for a skill, every load of it says that it is trusted,
  -- and changes nothing, as long as its files have the same facts and the store can be read.
  pub load_or_record-trust :
      (rows : Rows) (log : Log)
      → Reach source_text source_of (rows, log)
      → (env env' : Env) (home : SkillHome) (scope : Scope) (name : String) (rows' : Rows)
        (info : SkillInfo)
      → trust source_text source_of env rows home scope name ≡ (rows', ok info)
      → env'.inspect (skill_dir home scope name) ≡ env.inspect (skill_dir home scope name)
      → env'.read_fails ≡ none
      → (out : SkillInfo) × (load_or_record source_text source_of env' rows' home scope name
          ≡ (rows', ok out))
        × (out.trusted ≡ true)
        × (out.content_hash ≡ info.content_hash)
  unfolding trust load_or_record existing refresh record_skill
  load_or_record-trust rows log reached env env' home scope name rows' info h same_files readable =
      let all = Reach-AllRows source_text source_of (rows, log) reached in
      let sound = load_required-IsSound source_text source_of log env rows home scope name all in
      let loaded = load_required source_text source_of env rows home scope name in
      let dir = skill_dir home scope name in
      elim (change-cases source_text source_of (λ info. record info { trusted = true }) env rows
        home scope name) [
          | inl (e, failed) ↦ absurd (ground (arith, h, failed))
          | inr (old, found, works, changed) ↦
              let (facts, inspected, own, has) = sound.1 old found in
              let new : SkillInfo = record old { trusted = true } in
              let out : SkillInfo = record new { path = dir } in
              let is_rows : upsert_skill (row_of source_text new) loaded.0 ≡ rows' =
                ground (arith, works, changed, h) in
              let is_info : new ≡ info = ground (arith, changed, h) in
              let stored : lookup (skill_id scope name) rows' ≡ some (row_of source_text new) =
                subst (λ rs. lookup (skill_id scope name) rs ≡ some (row_of source_text new))
                  is_rows (stored_row (skill_id scope name) new loaded.0 own.0) in
              let current : is_current out facts ≡ true = HasFacts-is_current out facts has in
              (
                out,
                rw
                    (
                      same_files ∙ inspected,
                      readable,
                      stored,
                      info_from_row-row_of new dir refl,
                      current,
                      load_or_record,
                      existing,
                      refresh,
                    )
                    refl,
                refl,
                ap (λ (i : SkillInfo). i.content_hash) is_info,
              )
        ]
