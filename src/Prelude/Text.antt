-- ===== src/Prelude/Text.antt =====
-- Rust's operations on `str` that the code uses, on the characters of a text.
use Prim.Native.Nat.{ℕ, zero, suc, ◌+◌, ◌/◌, ◌%◌}
use Prim.Native.Char.{Char, code}
use Prim.Native.String.{String}
use Prim.Native.String.{◌++◌ as push_str}
use mathlib.Core.Bool.{Bool, true, false, ◌&&◌, ◌||◌}
use mathlib.Core.List.{List, [], ◌∷◌, ◌++◌}
use mathlib.Core.Option
use mathlib.Core.Option.{Option, none, some}
use tethys.Prelude.Tests.{
  if◌then◌else◌, ◌==◌, nat_eq, string_eq, leb, nat_beq, is_some, ltb, unwrap_or,
}
use tethys.Prelude.Lists.{get_elem?}

abbrev pub char_beq : Char → ℕ → Bool
char_beq c n = nat_beq (code c) n

unfoldable pub strip_prefix : String → String → Option String
strip_prefix String.[] s = some s
strip_prefix (String.◌∷◌ c p) String.[] = none
strip_prefix (String.◌∷◌ c p) (String.◌∷◌ d s) =
    let rest = strip_prefix p s in if nat_beq (code c) (code d) then rest else none

unfoldable pub strip_suffix : String → String → Option String
strip_suffix suffix String.[] = if suffix == "" then some "" else none
strip_suffix suffix (String.◌∷◌ c s) =
    let rest = strip_suffix suffix s in
    if String.◌∷◌ c s == suffix then some "" else Option.map (λ t. String.◌∷◌ c t) rest

-- Unicode's `White_Space`, that `trim` goes by.
unfoldable pub is_whitespace : ℕ → Bool
is_whitespace c =
    (leb 9 c && leb c 13)
    || c == 32
    || c == 133
    || c == 160
    || c == 5760
    || (leb 8192 c && leb c 8202)
    || c == 8232
    || c == 8233
    || c == 8239
    || c == 8287
    || c == 12288

-- `s.trim().is_empty()`
unfoldable pub is_blank : String → Bool
unfolding is_whitespace
is_blank String.[] = true
is_blank (String.◌∷◌ c s) = is_whitespace (code c) && is_blank s

unfoldable pub trim_start : String → String
unfolding is_whitespace
trim_start String.[] = ""
trim_start (String.◌∷◌ c s) =
    let rest = trim_start s in if is_whitespace (code c) then rest else String.◌∷◌ c s

unfoldable pub trim_end : String → String
unfolding is_blank
trim_end String.[] = ""
trim_end (String.◌∷◌ c s) =
    let rest = trim_end s in if is_blank (String.◌∷◌ c s) then "" else String.◌∷◌ c rest

unfoldable pub trim : String → String
unfolding trim_start trim_end
trim s = trim_end (trim_start s)

-- `contains`, of one character.
unfoldable pub contains_char : String → ℕ → Bool
contains_char String.[] n = false
contains_char (String.◌∷◌ c s) n = char_beq c n || contains_char s n

-- `contains`, of a text.
unfoldable pub contains_text : String → String → Bool
unfolding strip_prefix
contains_text needle String.[] = needle == ""
contains_text needle (String.◌∷◌ c s) =
    is_some (strip_prefix needle (String.◌∷◌ c s)) || contains_text needle s

-- `split_once`, at a character.
unfoldable pub split_once : String → ℕ → Option (String × String)
split_once String.[] n = none
split_once (String.◌∷◌ c s) n =
    let rest = split_once s n in
    if char_beq c n
    then some ("", s)
    else elim rest [ none ↦ none | some (a, b) ↦ some (String.◌∷◌ c a, b) ]

-- `split(needle).next()`: the text before the first occurrence of the needle.
unfoldable pub before : String → String → String
unfolding strip_prefix
before needle String.[] = ""
before needle (String.◌∷◌ c s) =
    let rest = before needle s in
    if is_some (strip_prefix needle (String.◌∷◌ c s)) then "" else String.◌∷◌ c rest

abbrev pub prepend : Char → List String → List String
prepend c [] = String.◌∷◌ c "" ∷ []
prepend c (s ∷ parts) = String.◌∷◌ c s ∷ parts

-- `split`, at a character.
unfoldable pub split : String → ℕ → List String
split String.[] n = "" ∷ []
split (String.◌∷◌ c s) n =
    let rest = split s n in if char_beq c n then "" ∷ rest else prepend c rest

-- `join`
unfoldable pub join : String → List String → String
join separator [] = ""
join separator (s ∷ []) = s
join separator (s ∷ t ∷ rest) = push_str s (push_str separator (join separator (t ∷ rest)))

-- Decimal digits, at most `fuel` of them.
unfoldable pub digits : ℕ → ℕ → String
digits zero n = ""
digits (suc fuel) n =
    let more = digits fuel (n / 10) in
    let last =
      unwrap_or ""
        (get_elem? ("0" ∷ "1" ∷ "2" ∷ "3" ∷ "4" ∷ "5" ∷ "6" ∷ "7" ∷ "8" ∷ "9" ∷ []) (n % 10)) in
    if ltb n 10 then last else push_str more last

-- The UTF-8 bytes of a character.
unfoldable pub char_bytes : ℕ → List ℕ
char_bytes c =
    if ltb c 128
    then c ∷ []
    else if ltb c 2048
    then (192 + c / 64) ∷ (128 + c % 64) ∷ []
    else if ltb c 65536
    then (224 + c / 4096) ∷ (128 + c / 64 % 64) ∷ (128 + c % 64) ∷ []
    else (240 + c / 262144) ∷ (128 + c / 4096 % 64) ∷ (128 + c / 64 % 64) ∷ (128 + c % 64) ∷ []

-- `as_bytes`
unfoldable pub as_bytes : String → List ℕ
unfolding char_bytes
as_bytes String.[] = []
as_bytes (String.◌∷◌ c s) = char_bytes (code c) ++ as_bytes s
