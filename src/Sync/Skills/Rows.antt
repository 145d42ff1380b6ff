-- ===== src/Sync/Skills/Rows.antt =====
-- What the rows say about trust, and that loading and recording keep it.
use tethys.Prelude.{
  String, true, ◌≡◌, refl, sym, ◌∙◌, subst, ◌⊎◌, inl, inr, Option, some, List, [], ◌∷◌, string_eq,
  ◌==◌, arith, eq_iff, Bool-cases, Option-cases,
}
use tethys.Prelude.Assoc.{lookup, lookup-insert}
use tethys.Schema.Sync.{Scope, parse_scope, parse_scope-scope_str}
use tethys.Schema.Skills.{SkillSource, SkillInfo}
use tethys.Sync.Error.{SyncError, ok, ok_inj}
use tethys.Sync.Trust.{SkillFacts}
use tethys.Sync.Skills.{
  SkillRow, Rows, Env, skill_id, row_of, record_skill, recording, info_from_row, existing,
}

-- The ids and digests that were trusted so far.
abbrev pub Log : Type 0
Log = List (String × String)

abbrev pub IsLogged : String → String → Log → Type 0
IsLogged id hash [] = ⊥
IsLogged id hash ((i, h) ∷ log) = ((i ≡ id) × (h ≡ hash)) ⊎ IsLogged id hash log

-- A row stands under its id, and was trusted with the digest that it says.
abbrev pub IsRow : Log → String → SkillRow → Type 0
IsRow log id row =
    ((scope : Scope) × (parse_scope row.scope ≡ some scope) × (skill_id scope row.name ≡ id))
    × ((hash : String) → row.trusted_hash ≡ some hash → IsLogged id hash log)

abbrev pub AllRows : Log → Rows → Type 0
AllRows log rows = (id : String) (row : SkillRow) → lookup id rows ≡ some row → IsRow log id row

-- An info of an id is trusted only if its digest was trusted.
abbrev pub IsOwn : Log → String → SkillInfo → Type 0
IsOwn log id info =
    (skill_id info.scope info.name ≡ id) × (info.trusted ≡ true → IsLogged id info.content_hash log)

module _ (source_text : SkillSource → String) (log : Log) where
  row_of-IsRow :
      (id : String) (info : SkillInfo) → IsOwn log id info → IsRow log id (row_of source_text info)
  unfolding row_of
  row_of-IsRow id info (same, trusted) = (
    (info.scope, parse_scope-scope_str info.scope, same),
    λ hash h. elim (Bool-cases info.trusted) [
      | inl held ↦
          let is_hash : info.content_hash ≡ hash = ground (arith, held, h) in
          subst (λ t. IsLogged id t log) is_hash (trusted held)
      | inr not_held ↦ absurd (ground (arith, not_held, h))
    ],
  )

  pub record_skill-AllRows :
      (env : Env) (rows : Rows) (id : String) (info : SkillInfo)
      → IsOwn log id info
      → AllRows log rows
      → AllRows log (record_skill source_text env rows info).0
  unfolding record_skill row_of
  record_skill-AllRows env rows id info own all = elim (Option-cases env.write_fails) [
    | inr (message, fails) ↦ rw fails all
    | inl works ↦ rw works λ j row h. elim (Bool-cases (skill_id info.scope info.name == j)) [
      | inl same ↦
          let is_j : id ≡ j = sym own.0 ∙ (eq_iff (skill_id info.scope info.name) j).0 same in
          let is_row : row_of source_text info ≡ row = ground (
            arith,
            h,
            same,
            lookup-insert (skill_id info.scope info.name) j (row_of source_text info) rows,
          ) in
          subst (λ (r : SkillRow). IsRow log j r) is_row
            (subst (λ i. IsRow log i (row_of source_text info)) is_j (row_of-IsRow id info own))
      | inr other ↦ all j row (
          ground (
            arith,
            h,
            other,
            lookup-insert (skill_id info.scope info.name) j (row_of source_text info) rows,
          ))
    ]
  ]

  recording-rows :
      (env : Env) (rows : Rows) (info : SkillInfo)
      → (recording source_text env rows info).0 ≡ (record_skill source_text env rows info).0
  unfolding recording
  recording-rows env rows info = refl

  pub recording-AllRows :
      (env : Env) (rows : Rows) (id : String) (info : SkillInfo)
      → IsOwn log id info
      → AllRows log rows
      → AllRows log (recording source_text env rows info).0
  recording-AllRows env rows id info own all =
      subst (λ rs. AllRows log rs) (sym (recording-rows env rows info))
        (record_skill-AllRows env rows id info own all)

pub recording-ok :
    (source_text : SkillSource → String) (env : Env) (rows : Rows) (info out : SkillInfo)
    → (recording source_text env rows info).1 ≡ ok out
    → info ≡ out
unfolding recording record_skill
recording-ok source_text env rows info out h = elim (Option-cases env.write_fails) [
  | inr (message, fails) ↦ absurd (ground (arith, fails, h))
  | inl works ↦ ok_inj {E = SyncError} (ground (arith, works, h))
]

module _ (source_of : String → Option SkillSource) (log : Log) where
  pub existing-IsOwn :
      (env : Env) (rows : Rows) (scope : Scope) (name dir : String) (facts : SkillFacts)
      (info : SkillInfo)
      → existing source_of env rows scope name dir facts ≡ ok info
      → AllRows log rows
      → IsOwn log (skill_id scope name) info
  unfolding existing info_from_row
  existing-IsOwn env rows scope name dir facts info h all = elim (Option-cases env.read_fails) [
    | inr (message, fails) ↦ absurd (ground (arith, fails, h))
    | inl works ↦ elim (Option-cases (lookup (skill_id scope name) rows)) [
      | inl new ↦ (ground (arith, works, new, h), λ t. absurd (ground (arith, works, new, h, t)))
      | inr (row, found) ↦
          let ((own_scope, parsed, same), trusted) = all (skill_id scope name) row found in
          elim (Option-cases (source_of row.source)) [
            | inl unread ↦ absurd (ground (arith, works, found, unread, h))
            | inr (source, read) ↦ elim (Option-cases row.trusted_hash) [
              | inl never ↦ (
                ground (arith, works, found, read, parsed, never, h, same),
                λ t. absurd (ground (arith, works, found, read, parsed, never, h, t)),
              )
              | inr (hash, once) ↦ (
                ground (arith, works, found, read, parsed, once, h, same),
                λ t.
                    let is_hash : hash ≡ info.content_hash = ground (
                      arith,
                      works,
                      found,
                      read,
                      parsed,
                      once,
                      h,
                      t,
                      eq_iff hash row.content_hash,
                    ) in
                    subst (λ x. IsLogged (skill_id scope name) x log) is_hash (trusted hash once),
              )
            ]
          ]
    ]
  ]
