-- ===== src/Git/Hunks/Lines.antt =====
-- crates/tethys-git/src/hunks.rs: the lines of a text, and how a line is shown and printed.
use tethys.Prelude.{
  nat_beq, is_some, Bool-cases, inl, inr, map, ℕ, ◌≡◌, refl, ap, subst, String, push_str, Bool,
  Option, none, some, List, [], ◌∷◌, if◌then◌else◌, unwrap_or, arith,
}
use Prim.Native.Char.{Char, code}
use mathlib.Core.Option
use text.Mathlib.TextLemmas.{cons-append, nil-append, append-nil}
use tethys.Git.Hunks.{PlanLine, ComputedHunk, token}

abbrev pub same_char : Char → Char → Bool
same_char a b = nat_beq (code a) (code b)

abbrev pub newline : Char
newline = "\n"

abbrev pub carriage_return : Char
carriage_return = "\r"

abbrev space : Char
space = " "

abbrev minus : Char
minus = "-"

abbrev plus : Char
plus = "+"

-- A character goes to the front of the first line.
unfoldable pub push_front : Char → List String → List String
push_front c [] = String.◌∷◌ c String.[] ∷ []
push_front c (t ∷ ts) = String.◌∷◌ c t ∷ ts

unfoldable pub line_tokens : String → List String
unfolding push_front
line_tokens String.[] = []
line_tokens (String.◌∷◌ c s) =
    let rest = line_tokens s in
    if same_char c newline then String.◌∷◌ c String.[] ∷ rest else push_front c rest

-- `strip_suffix` of a character
unfoldable pub strip_suffix : Char → String → Option String
strip_suffix c String.[] = none
strip_suffix c (String.◌∷◌ a String.[]) = if same_char a c then some String.[] else none
strip_suffix c (String.◌∷◌ a (String.◌∷◌ b s)) =
    Option.map (λ t. String.◌∷◌ a t) (strip_suffix c (String.◌∷◌ b s))

unfoldable pub strip_newline : List String → ℕ → String
unfolding strip_suffix token
strip_newline tokens i = unwrap_or "" (
    Option.map (λ line. unwrap_or line (strip_suffix carriage_return line))
      (strip_suffix newline (token tokens i)))

unfoldable pub push_patch_line : String → Char → String → String
unfolding strip_suffix
push_patch_line patch prefix t =
    let line = push_str patch (String.◌∷◌ prefix t) in
    if is_some (strip_suffix newline t)
    then line
    else push_str line "\n\\ No newline at end of file\n"

-- The lines of one hunk in a patch.
unfoldable pub push_plan : String → List String → List String → List PlanLine → String
unfolding push_patch_line token
push_plan patch old new [] = patch
push_plan patch old new (PlanLine.context o n ∷ ps) =
    push_plan (push_patch_line patch space (token old o)) old new ps
push_plan patch old new (PlanLine.remove o ∷ ps) =
    push_plan (push_patch_line patch minus (token old o)) old new ps
push_plan patch old new (PlanLine.add n ∷ ps) =
    push_plan (push_patch_line patch plus (token new n)) old new ps

pub data DiffLineKind : Type 0 where
  context addition deletion : DiffLineKind

pub record DiffLine : Type 0 where
  pub kind : DiffLineKind
  pub text : String

pub record DiffHunk : Type 0 where
  pub old_start : ℕ
  pub old_lines : ℕ
  pub new_start : ℕ
  pub new_lines : ℕ
  pub lines : List DiffLine

unfoldable pub display_line : List String → List String → PlanLine → DiffLine
unfolding strip_newline
display_line old new (PlanLine.context o n) = record {
  kind = DiffLineKind.context;
  text = strip_newline old o;
}
display_line old new (PlanLine.remove o) = record {
  kind = DiffLineKind.deletion;
  text = strip_newline old o;
}
display_line old new (PlanLine.add n) = record {
  kind = DiffLineKind.addition;
  text = strip_newline new n;
}

unfoldable pub to_display : ComputedHunk → List String → List String → DiffHunk
unfolding display_line
to_display hunk old new = record {
  old_start = hunk.old_start;
  old_lines = hunk.old_count;
  new_start = hunk.new_start;
  new_lines = hunk.new_count;
  lines = map (display_line old new) hunk.plan;
}

unfoldable pub concat : List String → String
concat [] = ""
concat (t ∷ ts) = push_str t (concat ts)

concat-push_front :
    (c : Char) (ts : List String) → concat (push_front c ts) ≡ String.◌∷◌ c (concat ts)
unfolding concat push_front
concat-push_front c [] = append-nil (String.◌∷◌ c "")
concat-push_front c (t ∷ ts) = cons-append c t (concat ts)

-- The lines of a text, put together again, are the text.
concat-line_tokens : (s : String) → concat (line_tokens s) ≡ s
unfolding line_tokens concat
concat-line_tokens String.[] = refl
concat-line_tokens (String.◌∷◌ c s) = elim (Bool-cases (same_char c newline)) [
  | inl ends ↦
      rw
        (
          ends,
          cons-append c "" (concat (line_tokens s)),
          nil-append (concat (line_tokens s)),
          concat-line_tokens s,
        )
        refl
  | inr inside ↦ rw (inside, concat-push_front c (line_tokens s), concat-line_tokens s) refl
]

strip_suffix-snoc : (c : Char) (s : String) → strip_suffix c (push_str s (String.◌∷◌ c "")) ≡ some s
unfolding strip_suffix
strip_suffix-snoc c String.[] = rw (nil-append (String.◌∷◌ c "")) (ground arith)
strip_suffix-snoc c (String.◌∷◌ a String.[]) =
    rw (cons-append a "" (String.◌∷◌ c ""), nil-append (String.◌∷◌ c "")) (ground arith)
strip_suffix-snoc c (String.◌∷◌ a (String.◌∷◌ b s)) =
    rw (cons-append a (String.◌∷◌ b s) (String.◌∷◌ c ""), cons-append b s (String.◌∷◌ c ""))
      (ap (Option.map (λ t. String.◌∷◌ a t)) (
        subst (λ t. strip_suffix c t ≡ some (String.◌∷◌ b s)) (cons-append b s (String.◌∷◌ c ""))
          (strip_suffix-snoc c (String.◌∷◌ b s))))

-- A line that ends in a newline is printed to a patch as it is, and is shown without its newline and
-- without a carriage return in front of that.
terminated_shown :
    (tokens : List String) (i : ℕ) (patch body : String) (prefix : Char)
    → token tokens i ≡ push_str body "\n"
    → (push_patch_line patch prefix (token tokens i)
        ≡ push_str patch (String.◌∷◌ prefix (push_str body "\n")))
      × (strip_newline tokens i ≡ unwrap_or body (strip_suffix carriage_return body))
unfolding push_patch_line strip_newline
terminated_shown tokens i patch body prefix h =
    (rw (h, strip_suffix-snoc newline body) refl, rw (h, strip_suffix-snoc newline body) refl)
