-- ===== src/Sync/Skills/Sample.antt =====
-- A spelling of the source of a skill that reads back.
use tethys.Prelude.{String, ◌≡◌, refl, Option, none, some, if◌then◌else◌, arith}
use tethys.Schema.Skills.{SkillOrigin, SkillSource}
use tethys.Sync.Document.Sample.Spelling.{
  Read, is_char, write_text, read_text, read_text-write_text,
}

abbrev origin_text : SkillOrigin → String → String
origin_text SkillOrigin.folder rest = String.◌∷◌ "f" rest
origin_text SkillOrigin.archive rest = String.◌∷◌ "a" rest
origin_text SkillOrigin.git_hub rest = String.◌∷◌ "g" rest
origin_text SkillOrigin.lockfile rest = String.◌∷◌ "l" rest

read_origin : String → Read SkillOrigin
read_origin String.[] = none
read_origin (String.◌∷◌ c rest) =
    if is_char c "f"
    then some (SkillOrigin.folder, rest)
    else if is_char c "a"
    then some (SkillOrigin.archive, rest)
    else if is_char c "g"
    then some (SkillOrigin.git_hub, rest)
    else some (SkillOrigin.lockfile, rest)

write_option : Option String → String → String
unfolding write_text
write_option none rest = String.◌∷◌ "n" rest
write_option (some text) rest = String.◌∷◌ "s" (write_text text rest)

read_option : String → Read (Option String)
unfolding read_text
read_option String.[] = none
read_option (String.◌∷◌ c rest) =
    if is_char c "n"
    then some (none, rest)
    else elim (read_text rest) [ none ↦ none | some (text, more) ↦ some (some text, more) ]

unfoldable pub source_text : SkillSource → String
unfolding write_option
source_text source = origin_text source.origin (
    write_option source.repo (
      write_option source.reference
        (write_option source.subdir (write_option source.lock_hash (write_option source.url "")))))

abbrev then_read {ℓ κ} : {A : Type ℓ} {B : Type κ} → Read A → (A → String → Option B) → Option B
then_read none next = none
then_read (some (a, rest)) next = next a rest

unfoldable pub source_of : String → Option SkillSource
unfolding read_origin read_option
source_of text = then_read (read_origin text) λ origin s₁. then_read (read_option s₁) λ repo s₂.
    then_read (read_option s₂) λ reference s₃. then_read (read_option s₃) λ subdir s₄.
      then_read (read_option s₄) λ lock_hash s₅. then_read (read_option s₅) λ url rest.
        some (record {
          origin = origin;
          repo = repo;
          reference = reference;
          subdir = subdir;
          lock_hash = lock_hash;
          url = url;
        })

read_origin-origin_text :
    (origin : SkillOrigin) (rest : String)
    → read_origin (origin_text origin rest) ≡ some (origin, rest)
unfolding read_origin
read_origin-origin_text SkillOrigin.folder rest = refl
read_origin-origin_text SkillOrigin.archive rest = refl
read_origin-origin_text SkillOrigin.git_hub rest = refl
read_origin-origin_text SkillOrigin.lockfile rest = refl

read_option-write_option :
    (option : Option String) (rest : String)
    → read_option (write_option option rest) ≡ some (option, rest)
unfolding read_option write_option
read_option-write_option none rest = refl
read_option-write_option (some text) rest = ground (arith, read_text-write_text text rest)

pub source_of-source_text : (source : SkillSource) → source_of (source_text source) ≡ some source
unfolding source_of source_text
source_of-source_text source =
    rw
      (
        read_origin-origin_text,
        read_option-write_option source.repo,
        read_option-write_option source.reference,
        read_option-write_option source.subdir,
        read_option-write_option source.lock_hash,
        read_option-write_option source.url,
      )
      refl
