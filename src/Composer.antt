-- ===== src/Composer.antt =====
-- crates/tethys-core/src/composer/commands.rs: the `$skill` and `@path` tokens of an expanded
-- command. A text is the list of its bytes; a token starts and ends between characters, since every
-- byte that the scanner tests for is ASCII. What a skill or a path refers to is read from the file
-- system, and is an argument here.
pub mod Lossless
mod Examples
use tethys.Prelude.{
  ℕ, zero, suc, Bool, true, false, not, ◌&&◌, ◌||◌, Option, none, some, List, [], ◌∷◌, ◌++◌, leb,
  nat_eq, ◌==◌, length, if◌then◌else◌,
}

abbrev pub Text : Type 0
Text = List ℕ

pub data Token : Type 0 where
  text skill path : Text → Token

abbrev pub is_digit : ℕ → Bool
is_digit b = leb b'0' b && leb b b'9'

unfoldable pub is_skill_char : ℕ → Bool
is_skill_char b =
    is_digit b || leb b'a' b && leb b b'z' || leb b'A' b && leb b b'Z' || b == b'-' || b == b'_'

-- `is_ascii_whitespace`: space, tab, line feed, form feed, carriage return
unfoldable pub is_path_char : ℕ → Bool
is_path_char b = not (b == 32 || b == 9 || b == 10 || b == 12 || b == 13)

-- `while end < bytes.len() && test(bytes[end])`: what it goes over, and the rest.
unfoldable pub take_while : (ℕ → Bool) → Text → Text × Text
take_while test [] = ([], [])
take_while test (b ∷ bs) =
    let (name, rest) = take_while test bs in if test b then (b ∷ name, rest) else ([], b ∷ bs)

abbrev pub flush : Text → List Token → List Token
flush [] tokens = tokens
flush (b ∷ segment) tokens = Token.text (b ∷ segment) ∷ tokens

-- The token that starts after a `$` or an `@`: its end by the kind, and the token.
abbrev pub ends_at : Bool → ℕ → Bool
ends_at true b = is_skill_char b
ends_at false b = is_path_char b

abbrev pub token_of : Bool → Text → Token
token_of true name = Token.skill name
token_of false name = Token.path name

abbrev pub starts : ℕ → Option Bool
starts b = if b == b'$' then some true else if b == b'@' then some false else none

-- The outer loop, with the segment since `segment_start` and a turn of fuel for each byte.
unfoldable pub scan : ℕ → Text → Text → List Token
unfolding take_while is_skill_char is_path_char
scan zero segment bytes = flush segment []
scan (suc fuel) segment [] = flush segment []
scan (suc fuel) segment (b ∷ bytes) = elim (starts b) [
  | none ↦ scan fuel (segment ++ b ∷ []) bytes
  | some is_skill ↦
      let (name, rest) = take_while (ends_at is_skill) bytes in
      elim name [
        | [] ↦ scan fuel (segment ++ b ∷ []) bytes
        | c ∷ cs ↦ flush segment (token_of is_skill (c ∷ cs) ∷ scan fuel [] rest)
      ]
]

unfoldable pub scan_tokens : Text → List Token
unfolding scan
scan_tokens bytes = scan (length bytes) [] bytes

abbrev pub is_trimmed : ℕ → Bool
is_trimmed b = b == b',' || b == b';' || b == b')' || b == b']' || b == b'}' || b == b'.'

-- The path token and the punctuation behind it.
unfoldable pub split_path_token : Text → Text × Text
split_path_token [] = ([], [])
split_path_token (b ∷ bs) =
    let (token, suffix) = split_path_token bs in
    elim token [
      | [] ↦ if is_trimmed b then ([], b ∷ suffix) else (b ∷ [], suffix)
      | c ∷ cs ↦ (b ∷ c ∷ cs, suffix)
    ]

-- `split_once(':')`
unfoldable pub split_once : Text → Option (Text × Text)
split_once [] = none
split_once (b ∷ bs) =
    let later = split_once bs in
    if b == b':'
    then some ([], bs)
    else elim later [ none ↦ none | some (before, range) ↦ some (b ∷ before, range) ]

unfoldable pub all_range : Text → Bool
all_range [] = true
all_range (b ∷ bs) = (is_digit b || b == b'-') && all_range bs

abbrev pub is_range : Text → Bool
is_range [] = false
is_range (b ∷ bs) = all_range (b ∷ bs)

unfoldable pub strip_range : Text → Text
unfolding split_once all_range
strip_range token = elim (split_once token) [
  | none ↦ token
  | some (before, range) ↦ if is_range range then before else token
]

-- `skills` finds a skill by name and `paths` a path in the workspace, if there is one, each with the
-- text that stands for it and its reference.
module _ {R : Type 0} (skills : Text → Option (Text × R)) (paths : Text → Option (Text × R)) where
  unfoldable pub resolve_token : Token → Text × List R
  unfolding split_path_token strip_range
  resolve_token (Token.text segment) = (segment, [])
  resolve_token (Token.skill name) = elim (skills name) [
    | some (fragment, reference) ↦ (fragment, reference ∷ [])
    | none ↦ (b'$' ∷ name, [])
  ]
  resolve_token (Token.path raw) =
      let (token, suffix) = split_path_token raw in
      elim (paths (strip_range token)) [
        | some (fragment, reference) ↦ (fragment ++ suffix, reference ∷ [])
        | none ↦ (b'@' ∷ raw, [])
      ]

  unfoldable pub resolve_all : List Token → Text × List R
  unfolding resolve_token
  resolve_all [] = ([], [])
  resolve_all (t ∷ ts) =
      let (resolved, references) = resolve_token t in
      let (rest, more) = resolve_all ts in (resolved ++ rest, references ++ more)

  unfoldable pub resolve_tokens : Text → Text × List R
  unfolding scan_tokens resolve_all
  resolve_tokens bytes = resolve_all (scan_tokens bytes)
