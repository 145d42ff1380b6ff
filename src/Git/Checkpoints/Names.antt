-- ===== src/Git/Checkpoints/Names.antt =====
-- crates/tethys-git/src/checkpoint.rs: the names of the references of checkpoints and restores. A
-- `u32` is a number below 2 ^ 32.
use Prim.Native.Char.{code}
use tethys.Prelude.{
  ℕ, ◌+◌, ◌*◌, ◌-◌, ◌^◌, String, push_str, Bool, not, ◌&&◌, Option, none, some, List, ◌∷◌, ltb, leb,
  string_eq, ◌==◌, if◌then◌else◌, length,
}
use tethys.Prelude.Text.{strip_prefix, split, split_once, contains_char, digits, char_beq, as_bytes}

pub data CheckpointPhase : Type 0 where
  start end : CheckpointPhase

abbrev pub checkpoint_prefix : String
checkpoint_prefix = "refs/tethys/checkpoints"

abbrev pub edge : CheckpointPhase → String
edge CheckpointPhase.start = "start"
edge CheckpointPhase.end = "end"

abbrev pub slashed : String → String → String
slashed a b = push_str a (push_str "/" b)

-- A `u32` in decimal has 10 digits at most.
unfoldable pub turn_ref : String → ℕ → CheckpointPhase → String
unfolding digits
turn_ref thread turn phase =
    slashed checkpoint_prefix (slashed thread (slashed (digits 10 turn) (edge phase)))

unfoldable pub restore_prefix : String → String
restore_prefix thread = slashed checkpoint_prefix (slashed thread "restores/")

unfoldable pub restore_ref : String → ℕ → String → String
unfolding digits restore_prefix
restore_ref thread index kind = push_str (restore_prefix thread) (slashed (digits 10 index) kind)

abbrev pub thread_prefix : String → String
thread_prefix thread = slashed checkpoint_prefix (push_str thread "/")

-- A thread id that is not empty, not too long, and has no slashes.
unfoldable pub is_valid_thread : String → Bool
unfolding as_bytes
is_valid_thread thread =
    not (thread == "")
    && leb (length (as_bytes thread)) 200
    && not (contains_char thread 47)
    && not (contains_char thread 92)

-- The number that decimal digits go on to.
unfoldable pub parse_digits : ℕ → String → Option ℕ
parse_digits n String.[] = some n
parse_digits n (String.◌∷◌ c s) =
    let more = parse_digits (n * 10 + (code c - 48)) s in
    if leb 48 (code c) && leb (code c) 57 then more else none

abbrev pub below : ℕ → Option ℕ → Option ℕ
below bound none = none
below bound (some n) = if ltb n bound then some n else none

-- `parse::<u32>`, without the plus sign that may stand before the digits.
unfoldable pub parse_unsigned : String → Option ℕ
unfolding parse_digits
parse_unsigned String.[] = none
parse_unsigned (String.◌∷◌ c s) = below (2 ^ 32) (parse_digits 0 (String.◌∷◌ c s))

unfoldable pub parse_u32 : String → Option ℕ
unfolding parse_unsigned
parse_u32 String.[] = none
parse_u32 (String.◌∷◌ c s) =
    if char_beq c 43 then parse_unsigned s else parse_unsigned (String.◌∷◌ c s)

-- `trim_start_matches('/')`
unfoldable pub trim_slashes : String → String
trim_slashes String.[] = ""
trim_slashes (String.◌∷◌ c s) =
    let rest = trim_slashes s in if char_beq c 47 then rest else String.◌∷◌ c s

abbrev pub phase_of : String → Option CheckpointPhase
phase_of text =
    if text == "start"
    then some CheckpointPhase.start
    else if text == "end"
    then some CheckpointPhase.end
    else none

-- The parts of a reference behind the prefix: the thread, the turn, the edge, and whatever follows.
unfoldable pub parse_parts : List String → Option (ℕ × CheckpointPhase)
unfolding parse_u32
parse_parts (thread ∷ turn ∷ edge ∷ parts) = elim (parse_u32 turn) [
  | none ↦ none
  | some n ↦ elim (phase_of edge) [ none ↦ none | some phase ↦ some (n, phase) ]
]
parse_parts _ = none

unfoldable pub parse_checkpoint_ref : String → Option (ℕ × CheckpointPhase)
unfolding strip_prefix trim_slashes split parse_parts
parse_checkpoint_ref refname = elim (strip_prefix checkpoint_prefix refname) [
  | none ↦ none
  | some rest ↦ parse_parts (split (trim_slashes rest) 47)
]

-- The index of a reference with the prefix of the restores; what has not that prefix is no number
-- before its first slash either.
unfoldable pub parse_restore_index : String → String → Option ℕ
unfolding strip_prefix split_once parse_u32
parse_restore_index prefix refname = elim (strip_prefix prefix refname) [
  | none ↦ none
  | some rest ↦ elim (split_once rest 47) [ none ↦ none | some (index, kind) ↦ parse_u32 index ]
]
