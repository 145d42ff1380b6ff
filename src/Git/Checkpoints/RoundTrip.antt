-- ===== src/Git/Checkpoints/RoundTrip.antt =====
-- The reference of a turn's edge says which turn and which edge it is.
use Prim.Native.Char.{code}
use text.Mathlib.TextLemmas.{nil-append, cons-append, append-eq-nil_iff}
use tethys.Prelude.{
  ℕ, zero, suc, ◌+◌, ◌-◌, ◌*◌, ◌/◌, ◌%◌, ◌^◌, ◌<◌, String, push_str, true, false, ◌||◌, ◌≡◌, ◌≢◌,
  refl, sym, ap, subst, inl, inr, Option, none, some, [], ◌∷◌, ltb, string_eq, arith, Bool-cases,
  unwrap_or, get_elem?,
}
use tethys.Prelude.Text.{strip_prefix, split, contains_char, char_beq, digits}
use tethys.Git.Checkpoints.Names.{
  CheckpointPhase, checkpoint_prefix, edge, slashed, turn_ref, is_valid_thread, phase_of,
  parse_digits, parse_unsigned, parse_u32, trim_slashes, parse_parts, parse_checkpoint_ref,
}

strip_prefix-append : (p s : String) → strip_prefix p (push_str p s) ≡ some s
unfolding strip_prefix
strip_prefix-append String.[] s = ap some (nil-append s)
strip_prefix-append (String.◌∷◌ c p) s =
    rw (cons-append c p s) (ground (arith, strip_prefix-append p s))

split-slashed :
    (s t : String) → contains_char s 47 ≡ false → split (slashed s t) 47 ≡ s ∷ split t 47
unfolding split contains_char
split-slashed String.[] t h =
    rw (nil-append (push_str "/" t), cons-append "/" "" t, nil-append t) refl
split-slashed (String.◌∷◌ c s) t h =
    rw (cons-append c s (push_str "/" t)) (ground (arith, h, split-slashed s t (ground (arith, h))))

trim_slashes-id :
    (s t : String)
    → s ≢ ""
    → contains_char s 47 ≡ false
    → trim_slashes (push_str s t) ≡ push_str s t
unfolding trim_slashes contains_char
trim_slashes-id String.[] t visible h = absurd (visible refl)
trim_slashes-id (String.◌∷◌ c s) t visible h = rw (cons-append c s t) (ground (arith, h))

contains_char-append :
    (s t : String) (n : ℕ)
    → contains_char (push_str s t) n ≡ (contains_char s n || contains_char t n)
unfolding contains_char
contains_char-append String.[] t n = rw (nil-append t) refl
contains_char-append (String.◌∷◌ c s) t n =
    rw (cons-append c s t) (ground (arith, contains_char-append s t n))

abbrev go_on : Option ℕ → String → Option ℕ
go_on none t = none
go_on (some n) t = parse_digits n t

parse_digits-append :
    (n : ℕ) (s t : String) → parse_digits n (push_str s t) ≡ go_on (parse_digits n s) t
unfolding parse_digits
parse_digits-append n String.[] t = rw (nil-append t) refl
parse_digits-append n (String.◌∷◌ c s) t =
    rw (cons-append c s t) (ground (arith, parse_digits-append (n * 10 + (code c - 48)) s t))

abbrev digit : ℕ → String
digit n =
    unwrap_or "" (get_elem? ("0" ∷ "1" ∷ "2" ∷ "3" ∷ "4" ∷ "5" ∷ "6" ∷ "7" ∷ "8" ∷ "9" ∷ []) n)

-- A text of decimal digits.
abbrev IsDigits : String → Type 0
IsDigits s = (s ≢ "") × (contains_char s 47 ≡ false) × (contains_char s 43 ≡ false)

digit-reads :
    (d m : ℕ) → d < 10 → IsDigits (digit d) × (parse_digits m (digit d) ≡ some (m * 10 + d))
unfolding parse_digits contains_char
digit-reads zero m h = (((λ e. absurd (cc e)), refl, refl), refl)
digit-reads (suc zero) m h = (((λ e. absurd (cc e)), refl, refl), refl)
digit-reads (suc (suc zero)) m h = (((λ e. absurd (cc e)), refl, refl), refl)
digit-reads (suc (suc (suc zero))) m h = (((λ e. absurd (cc e)), refl, refl), refl)
digit-reads (suc (suc (suc (suc zero)))) m h = (((λ e. absurd (cc e)), refl, refl), refl)
digit-reads (suc (suc (suc (suc (suc zero))))) m h = (((λ e. absurd (cc e)), refl, refl), refl)
digit-reads (suc (suc (suc (suc (suc (suc zero)))))) m h =
    (((λ e. absurd (cc e)), refl, refl), refl)
digit-reads (suc (suc (suc (suc (suc (suc (suc zero))))))) m h =
    (((λ e. absurd (cc e)), refl, refl), refl)
digit-reads (suc (suc (suc (suc (suc (suc (suc (suc zero)))))))) m h =
    (((λ e. absurd (cc e)), refl, refl), refl)
digit-reads (suc (suc (suc (suc (suc (suc (suc (suc (suc zero))))))))) m h =
    (((λ e. absurd (cc e)), refl, refl), refl)
digit-reads (suc (suc (suc (suc (suc (suc (suc (suc (suc (suc d)))))))))) m h = absurd (omega arith)

-- How many numbers have so many digits.
numbers : ℕ → ℕ
numbers zero = 1
numbers (suc f) = 10 * numbers f

digits-small : (f n : ℕ) → ltb n 10 ≡ true → digits (suc f) n ≡ digit n
unfolding digits
digits-small f n h = let last : n % 10 ≡ n = ground arith in rw (h, last) refl

digits-large :
    (f n : ℕ) → ltb n 10 ≡ false → digits (suc f) n ≡ push_str (digits f (n / 10)) (digit (n % 10))
unfolding digits
digits-large f n h = rw (h) refl

append-IsDigits : (s t : String) → IsDigits s → IsDigits t → IsDigits (push_str s t)
append-IsDigits s t (some_s, slash_s, plus_s) (some_t, slash_t, plus_t) = (
  (λ e. some_s (((append-eq-nil_iff {p = s} {q = t}).0 e).0)),
  free 47 slash_s slash_t,
  free 43 plus_s plus_t,
)
  where
    free :
        (n : ℕ)
        → contains_char s n ≡ false
        → contains_char t n ≡ false
        → contains_char (push_str s t) n ≡ false
    free n a b = rw (contains_char-append s t n, a, b) refl

-- A text of decimal digits that reads as the number.
abbrev Reads : String → ℕ → Type 0
Reads s n = IsDigits s × (parse_digits 0 s ≡ some n)

append-Reads :
    (s : String) (n d : ℕ) → Reads s n → d < 10 → Reads (push_str s (digit d)) (n * 10 + d)
append-Reads s n d (written, read) small = (
  append-IsDigits s (digit d) written ((digit-reads d n small).0),
  rw (parse_digits-append 0 s (digit d), read) ((digit-reads d n small).1),
)

digits-small-Reads : (f n : ℕ) → ltb n 10 ≡ true → Reads (digits (suc f) n) n
digits-small-Reads f n small =
    let (written, read) = digit-reads n 0 (ground arith) in
    subst (λ s. Reads s n) (sym (digits-small f n small))
      (written, rw (read) (ap some (omega arith)))

digits-large-Reads :
    (f n : ℕ) → ltb n 10 ≡ false → Reads (digits f (n / 10)) (n / 10) → Reads (digits (suc f) n) n
digits-large-Reads f n large tens =
    let whole : n / 10 * 10 + n % 10 ≡ n = omega arith in
    subst (λ s. Reads s n) (sym (digits-large f n large))
      (subst (Reads (push_str (digits f (n / 10)) (digit (n % 10)))) whole
        (append-Reads (digits f (n / 10)) (n / 10) (n % 10) tens (omega arith)))

digits-Reads : (f n : ℕ) → n < numbers (suc f) → Reads (digits (suc f) n) n
unfolding numbers
digits-Reads zero n h = digits-small-Reads zero n (ground arith)
digits-Reads (suc f) n h = elim (Bool-cases (ltb n 10)) [
  | inl small ↦ digits-small-Reads (suc f) n small
  | inr large ↦ digits-large-Reads (suc f) n large (digits-Reads f (n / 10) (omega arith))
]

parse_u32-Reads : (s : String) (n : ℕ) → n < 2 ^ 32 → Reads s n → parse_u32 s ≡ some n
unfolding parse_u32 parse_unsigned contains_char
parse_u32-Reads String.[] n small ((visible, slash, plus), read) = absurd (visible refl)
parse_u32-Reads (String.◌∷◌ c s) n small ((visible, slash, plus), read) =
    let unsigned : char_beq c 43 ≡ false = ground (arith, plus) in
    rw (unsigned, read) (ground (arith, small))

slash-free-edge : (phase : CheckpointPhase) → split (edge phase) 47 ≡ edge phase ∷ []
unfolding split
slash-free-edge CheckpointPhase.start = refl
slash-free-edge CheckpointPhase.end = refl

trim_slashes-slash : (s : String) → trim_slashes (push_str "/" s) ≡ trim_slashes s
unfolding trim_slashes
trim_slashes-slash s = rw (cons-append "/" "" s, nil-append s) refl

phase_of-edge : (phase : CheckpointPhase) → phase_of (edge phase) ≡ some phase
phase_of-edge CheckpointPhase.start = refl
phase_of-edge CheckpointPhase.end = refl

parse_parts-read :
    (thread text : String) (turn : ℕ) (phase : CheckpointPhase)
    → parse_u32 text ≡ some turn
    → parse_parts (thread ∷ text ∷ edge phase ∷ []) ≡ some (turn, phase)
unfolding parse_parts
parse_parts-read thread text turn phase read =
    rw (read, parse_parts) (rw (phase_of-edge phase) refl)

named_lem : (thread : String) → is_valid_thread thread ≡ true → thread ≢ ""
unfolding is_valid_thread
named_lem String.[] valid = absurd (cc valid)
named_lem (String.◌∷◌ c s) valid = λ e. absurd (cc e)

split-reference :
    (thread text : String) (phase : CheckpointPhase)
    → is_valid_thread thread ≡ true
    → IsDigits text
    → split (trim_slashes (push_str "/" (slashed thread (slashed text (edge phase))))) 47
      ≡ thread ∷ text ∷ edge phase ∷ []
unfolding is_valid_thread
split-reference thread text phase valid (visible, free, plus) =
    let named : thread ≢ "" = named_lem thread valid in
    let whole : contains_char thread 47 ≡ false = ground (arith, valid) in
    rw
      (
        trim_slashes-slash (slashed thread (slashed text (edge phase))),
        trim_slashes-id thread (push_str "/" (slashed text (edge phase))) named whole,
        split-slashed thread (slashed text (edge phase)) whole,
        split-slashed text (edge phase) free,
        slash-free-edge phase,
      )
      refl

parse_checkpoint_ref-slashed :
    (thread text : String) (turn : ℕ) (phase : CheckpointPhase)
    → is_valid_thread thread ≡ true
    → turn < 2 ^ 32
    → Reads text turn
    → parse_checkpoint_ref (slashed checkpoint_prefix (slashed thread (slashed text (edge phase))))
      ≡ some (turn, phase)
unfolding parse_checkpoint_ref
parse_checkpoint_ref-slashed thread text turn phase valid small (written, read) =
    rw
      (
        strip_prefix-append checkpoint_prefix
            (push_str "/" (slashed thread (slashed text (edge phase)))),
        split-reference thread text phase valid written,
        parse_checkpoint_ref,
      )
      (parse_parts-read thread text turn phase (parse_u32-Reads text turn small (written, read)))

-- The reference of an edge of a turn, for a thread with an id that is allowed and a turn that is a
-- `u32`, is read as that turn and that edge.
pub parse_checkpoint_ref-turn_ref :
    (thread : String) (turn : ℕ) (phase : CheckpointPhase)
    → is_valid_thread thread ≡ true
    → turn < 2 ^ 32
    → parse_checkpoint_ref (turn_ref thread turn phase) ≡ some (turn, phase)
unfolding turn_ref numbers
parse_checkpoint_ref-turn_ref thread turn phase valid small =
    parse_checkpoint_ref-slashed thread (digits 10 turn) turn phase valid small
      (digits-Reads 9 turn (omega arith))
