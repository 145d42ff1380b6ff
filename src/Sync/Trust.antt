-- ===== src/Sync/Trust.antt =====
-- crates/tethys-sync/src/trust.rs: the digest of a skill's directory, and whether it holds scripts. A
-- directory is the list of its files, in the order of their paths; a path has its parts joined by
-- slashes, and bytes are numbers. `digest` is the hash of all the bytes that the hasher is fed.
pub mod Digest
use Prim.Native.Char.{code}
use tethys.Prelude.{
  ℕ, ◌+◌, ◌-◌, ◌/◌, ◌%◌, String, Bool, true, false, ◌&&◌, ◌||◌, not, Option, none, some, List, [],
  ◌∷◌, ◌++◌, leb, ltb, nat_beq, string_eq, ◌==◌, if◌then◌else◌,
}
use tethys.Prelude.Text.{split, as_bytes}

pub record SkillFile : Type 0 where
  pub relative : String
  pub bytes : List ℕ
  -- Whether a mode bit of execution is set.
  pub executable : Bool

pub record SkillFacts : Type 0 where
  pub content_hash : String
  pub requires_trust : Bool

abbrev pub script_extensions : List String
script_extensions =
    "sh" ∷ "bash" ∷ "zsh" ∷ "ps1" ∷ "bat" ∷ "cmd" ∷ "py" ∷ "js" ∷ "ts" ∷ "rb" ∷ "pl" ∷ "exe" ∷ "dll"
    ∷ []

abbrev pub within : ℕ × ℕ → ℕ → Bool
within (low, high) b = leb low b && leb b high

abbrev pub continuation : ℕ × ℕ
continuation = (128, 191)

-- The ranges of the bytes that must follow the first byte of a character, in well-formed UTF-8.
unfoldable pub followers : ℕ → Option (List (ℕ × ℕ))
followers b =
    if ltb b 128
    then some []
    else if within (194, 223) b
    then some (continuation ∷ [])
    else if nat_beq b 224
    then some ((160, 191) ∷ continuation ∷ [])
    else if nat_beq b 237
    then some ((128, 159) ∷ continuation ∷ [])
    else if within (225, 239) b
    then some (continuation ∷ continuation ∷ [])
    else if nat_beq b 240
    then some ((144, 191) ∷ continuation ∷ continuation ∷ [])
    else if within (241, 243) b
    then some (continuation ∷ continuation ∷ continuation ∷ [])
    else if nat_beq b 244
    then some ((128, 143) ∷ continuation ∷ continuation ∷ [])
    else none

-- `std::str::from_utf8`, with the bytes that are still due.
unfoldable pub is_utf8 : List (ℕ × ℕ) → List ℕ → Bool
unfolding followers
is_utf8 [] [] = true
is_utf8 (range ∷ due) [] = false
is_utf8 (range ∷ due) (b ∷ bytes) = within range b && is_utf8 due bytes
is_utf8 [] (b ∷ bytes) = elim (followers b) [ none ↦ false | some due ↦ is_utf8 due bytes ]

abbrev pub lowered : ℕ → ℕ
lowered c = if within (65, 90) c then c + 32 else c

-- Whether the second text is the ASCII lower case of the first.
unfoldable pub lowers_to : String → String → Bool
lowers_to String.[] String.[] = true
lowers_to String.[] (String.◌∷◌ d t) = false
lowers_to (String.◌∷◌ c s) String.[] = false
lowers_to (String.◌∷◌ c s) (String.◌∷◌ d t) = nat_beq (lowered (code c)) (code d) && lowers_to s t

unfoldable pub last_part : String → List String → String
last_part part [] = part
last_part part (next ∷ parts) = last_part next parts

-- `Path::extension`, of the parts of a file's name between its dots: a name that only starts with a
-- dot has none.
unfoldable pub extension_of : List String → Option String
unfolding last_part
extension_of [] = none
extension_of (name ∷ []) = none
extension_of (name ∷ part ∷ []) = if name == "" then none else some part
extension_of (name ∷ part ∷ next ∷ parts) = some (last_part next parts)

unfoldable pub extension : String → Option String
unfolding extension_of last_part split
extension path = extension_of (split (last_part "" (split path 47)) 46)

unfoldable pub is_script_extension : List String → String → Bool
unfolding lowers_to
is_script_extension [] text = false
is_script_extension (e ∷ es) text = lowers_to text e || is_script_extension es text

-- `relative.starts_with("scripts")`, of whole parts of the path.
abbrev pub starts_in_scripts : List String → Bool
starts_in_scripts [] = false
starts_in_scripts (part ∷ parts) = part == "scripts"

abbrev pub has_shebang : List ℕ → Bool
has_shebang (a ∷ b ∷ bytes) = nat_beq a 35 && nat_beq b 33
has_shebang _ = false

unfoldable pub script_like : SkillFile → Bool
unfolding extension is_script_extension is_utf8 split
script_like file =
    if starts_in_scripts (split file.relative 47)
    then true
    else if has_shebang file.bytes
    then true
    else if not (is_utf8 [] file.bytes)
    then true
    else if elim (extension file.relative) [
      | none ↦ false
      | some text ↦ is_script_extension script_extensions text
    ]
    then true
    else file.executable

-- What the hasher is fed: each path and each content, with a zero byte after it.
unfoldable pub fed : List SkillFile → List ℕ
unfolding as_bytes
fed [] = []
fed (file ∷ files) = as_bytes file.relative ++ 0 ∷ file.bytes ++ 0 ∷ fed files

unfoldable pub has_scripts : List SkillFile → Bool
unfolding script_like
has_scripts [] = false
has_scripts (file ∷ files) = script_like file || has_scripts files

unfoldable pub inspect : (List ℕ → String) → List SkillFile → SkillFacts
unfolding fed has_scripts
inspect digest files = record {
  content_hash = digest (fed files);
  requires_trust = has_scripts files;
}
