-- ===== src/Composer/Examples.antt =====
-- Tests of the token scanner, and the theorems at concrete inputs.
use tethys.Prelude.{[], ◌∷◌, ◌++◌, ◌≡◌, refl}
use tethys.Composer.{
  Text, Token, take_while, is_skill_char, is_path_char, scan, scan_tokens, split_path_token,
  split_once, all_range, strip_range,
}
use tethys.Composer.Lossless.{sources, sources-scan_tokens, split_path_token-append}

-- "$a @b."
abbrev line : Text
line = b'$' ∷ b'a' ∷ b' ' ∷ b'@' ∷ b'b' ∷ b'.' ∷ []

scanned :
    scan_tokens line
    ≡ Token.skill (b'a' ∷ []) ∷ Token.text (b' ' ∷ []) ∷ Token.path (b'b' ∷ b'.' ∷ []) ∷ []
unfolding scan_tokens scan take_while is_skill_char is_path_char
scanned = refl

sources-scan_tokens_example : sources (scan_tokens line) ≡ line
sources-scan_tokens_example = sources-scan_tokens line

split_path_token-append_example :
    (split_path_token (b'b' ∷ b'.' ∷ [])).0 ++ (split_path_token (b'b' ∷ b'.' ∷ [])).1
    ≡ b'b' ∷ b'.' ∷ []
split_path_token-append_example = split_path_token-append (b'b' ∷ b'.' ∷ [])

-- "f:3-5"
range_stripped : strip_range (b'f' ∷ b':' ∷ b'3' ∷ b'-' ∷ b'5' ∷ []) ≡ b'f' ∷ []
unfolding strip_range split_once all_range
range_stripped = refl
