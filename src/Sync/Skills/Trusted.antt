-- ===== src/Sync/Skills/Trusted.antt =====
-- Whatever happens to the files, a skill counts as trusted only with contents that were trusted.
use tethys.Prelude.{
  String, Bool, true, false, ◌≡◌, refl, sym, ap, ◌∙◌, subst, inl, inr, Option, List, [], ◌∷◌, arith,
}
use tethys.Schema.Sync.{Scope}
use tethys.Schema.Skills.{SkillSource, SkillInfo}
use tethys.Sync.Error.{SyncResult, ok}
use tethys.Sync.Trust.{SkillFacts}
use tethys.Sync.Skills.{
  Rows, Env, SkillHome, skill_id, skill_dir, load_or_record, load_required, trust, set_enabled,
}
use tethys.Sync.Skills.Rows.{Log, IsLogged, AllRows, record_skill-AllRows}
use tethys.Sync.Skills.Loading.{load_or_record-IsSound, load_required-IsSound}
use tethys.Sync.Skills.World.{
  Step, loading, listing, trusting, enabling, updating, installing, Reach, start, step, trusted_log,
  change-cases, update_apply-cases, install-cases, list-AllRows, longer,
}

module _ (source_text : SkillSource → String) (source_of : String → Option SkillSource) where
  trust-AllRows :
      (env : Env) (rows : Rows) (home : SkillHome) (scope : Scope) (name : String) (log : Log)
      → AllRows log rows
      → let (rows', result) = trust source_text source_of env rows home scope name in
        AllRows (trusted_log result log) rows'
  unfolding trust
  trust-AllRows env rows home scope name log all =
      let sound = load_required-IsSound source_text source_of log env rows home scope name all in
      let loaded = load_required source_text source_of env rows home scope name in
      elim (change-cases source_text source_of (λ info. record info { trusted = true }) env rows
        home scope name) [
          | inl (e, failed) ↦ rw failed sound.0
          | inr (info, found, works, changed) ↦
              let (facts, inspected, own, has) = sound.1 info found in
              let entry : String × String = (skill_id info.scope info.name, info.content_hash) in
              rw changed (
                record_skill-AllRows source_text (entry ∷ log) env loaded.0
                  (skill_id info.scope info.name) (record info { trusted = true })
                  (refl, λ t. inl (refl, refl))
                  (longer source_text source_of log entry loaded.0 sound.0))
        ]

  set_enabled-AllRows :
      (enabled : Bool) (env : Env) (rows : Rows) (home : SkillHome) (scope : Scope) (name : String)
      (log : Log)
      → AllRows log rows
      → AllRows log (set_enabled source_text source_of enabled env rows home scope name).0
  unfolding set_enabled
  set_enabled-AllRows enabled env rows home scope name log all =
      let sound = load_required-IsSound source_text source_of log env rows home scope name all in
      let loaded = load_required source_text source_of env rows home scope name in
      elim (change-cases source_text source_of (λ info. record info { enabled = enabled }) env rows
        home scope name) [
          | inl (e, failed) ↦ rw failed sound.0
          | inr (info, found, works, changed) ↦
              let (facts, inspected, own, has) = sound.1 info found in
              rw changed (
                record_skill-AllRows source_text log env loaded.0 (skill_id scope name)
                  (record info { enabled = enabled }) own sound.0)
        ]

  Step-AllRows :
      (a b : Rows × Log) → Step source_text source_of a b → AllRows a.1 a.0 → AllRows b.1 b.0
  Step-AllRows _ _ (loading env home scope name rows log) all =
      (load_or_record-IsSound source_text source_of log env rows home scope name all).0
  Step-AllRows _ _ (listing env home rows log) all =
      list-AllRows source_text source_of log env home rows all
  Step-AllRows _ _ (trusting env home scope name rows log) all =
      trust-AllRows env rows home scope name log all
  Step-AllRows _ _ (enabling enabled env home scope name rows log) all =
      set_enabled-AllRows enabled env rows home scope name log all
  Step-AllRows _ _ (updating resolve download install env home scope name rows log) all =
      let sound = load_required-IsSound source_text source_of log env rows home scope name all in
      let loaded = load_required source_text source_of env rows home scope name in
      elim (update_apply-cases source_text source_of resolve download install env rows home scope
        name) [
          | inl same ↦ subst (λ rs. AllRows log rs) (sym same) sound.0
          | inr (info, new, after, found, same, scope', name', untrusted) ↦
              let (facts, inspected, own, has) = sound.1 info found in
              subst (λ rs. AllRows log rs) (sym same)
                (record_skill-AllRows source_text log after loaded.0 (skill_id scope name) new
                  (rw (scope', name') own.0, λ t. absurd (ground (arith, untrusted, t))) sound.0)
        ]
  Step-AllRows _ _ (installing env home scope staged explicit_name source pinned_sha rows log) all =
      elim (install-cases source_text source_of env rows home scope staged explicit_name source
        pinned_sha) [
          | inl same ↦ subst (λ rs. AllRows log rs) (sym same) all
          | inr (info, same, untrusted) ↦
              subst (λ rs. AllRows log rs) (sym same)
                (record_skill-AllRows source_text log env rows (skill_id info.scope info.name) info
                  (refl, λ t. absurd (ground (arith, untrusted, t))) all)
        ]

  pub Reach-AllRows : (a : Rows × Log) → Reach source_text source_of a → AllRows a.1 a.0
  unfolding tethys.Prelude.Assoc.lookup
  Reach-AllRows _ start = λ id row h. absurd (ground (arith, h))
  Reach-AllRows _ (step {a} {b} r s) = Step-AllRows a b s (Reach-AllRows a r)

  -- In a library that any loads, listings, installations, updates and changes of trust and enabling
  -- have made from an empty one, whatever the files became in between and whatever failed: a skill
  -- that is loaded has the digest of its files as they are now, and if it is trusted, `trust`
  -- succeeded for its id while that was its digest.
  pub trusted-IsLogged :
      (rows : Rows) (log : Log)
      → Reach source_text source_of (rows, log)
      → (env : Env) (home : SkillHome) (scope : Scope) (name : String) (rows' : Rows)
        (info : SkillInfo)
      → load_or_record source_text source_of env rows home scope name ≡ (rows', ok info)
      → (facts : SkillFacts) × (env.inspect (skill_dir home scope name) ≡ ok facts)
        × (info.content_hash ≡ facts.content_hash)
        × (info.requires_trust ≡ facts.requires_trust)
        × (info.trusted ≡ true → IsLogged (skill_id scope name) facts.content_hash log)
  trusted-IsLogged rows log reached env home scope name rows' info h =
      let all = Reach-AllRows (rows, log) reached in
      let (facts, inspected, own, has) =
        (load_or_record-IsSound source_text source_of log env rows home scope name all).1 info
          (ap (λ (r : Rows × SyncResult SkillInfo). r.1) h) in
      (
        facts,
        inspected,
        has.0,
        has.1,
        λ t. subst (λ hash. IsLogged (skill_id scope name) hash log) has.0 (own.1 t),
      )
