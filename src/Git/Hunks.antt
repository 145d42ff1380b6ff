-- ===== src/Git/Hunks.antt =====
-- crates/tethys-git/src/hunks.rs: how the raw hunks of `imara-diff` become groups with context, and
-- what the patch and the display show of them. The diff itself is not modelled: a raw hunk is two
-- ranges of line numbers.
pub mod Aligned
pub mod Sides
pub mod Counts
pub mod Texts
pub mod Applying
pub mod Patching
pub mod Lines
use tethys.Prelude.{
  ℕ, zero, suc, ◌+◌, ◌-◌, ◌*◌, ◌%◌, ◌^◌, min, String, push_str, Bool, true, false, Option, none,
  some, List, [], ◌∷◌, ◌++◌, leb, if◌then◌else◌, unwrap_or, get_elem?, map,
}

-- `Range<u32>`
pub record Range : Type 0 where
  pub start : ℕ
  pub end : ℕ

-- `imara_diff::Hunk`
pub record Hunk : Type 0 where
  pub before : Range
  pub after : Range

pub data PlanLine : Type 0 where
  context : ℕ → ℕ → PlanLine
  remove add : ℕ → PlanLine

pub record ComputedHunk : Type 0 where
  pub old_start : ℕ
  pub old_count : ℕ
  pub new_start : ℕ
  pub new_count : ℕ
  pub plan : List PlanLine

abbrev pub context_lines : ℕ
context_lines = 3

abbrev u32_max : ℕ
u32_max = 2 ^ 32 - 1

-- `saturating_add` on a `u32`
abbrev pub saturating_add : ℕ → ℕ → ℕ
saturating_add a b = min (a + b) u32_max

-- A group is a list that is not empty: its first hunks, and the last one.
pub record Group : Type 0 where
  pub init : List Hunk
  pub last : Hunk

abbrev pub merges : Group → Hunk → Bool
merges g h = leb h.before.start (saturating_add g.last.before.end (2 * context_lines))

-- The loop over the raw hunks, with the group that is open.
unfoldable pub grow : Group → List Hunk → List Group
grow g [] = g ∷ []
grow g (h ∷ rest) =
    let joined = grow (record { init = g.init ++ g.last ∷ []; last = h }) rest in
    let apart = grow (record { init = []; last = h }) rest in
    if merges g h then joined else g ∷ apart

unfoldable pub groups : List Hunk → List Group
unfolding grow
groups [] = []
groups (h ∷ rest) = grow (record { init = []; last = h }) rest

abbrev pub hunks_of : Group → List Hunk
hunks_of g = g.init ++ g.last ∷ []

abbrev pub first_of : Group → Hunk
first_of g = elim g.init [ [] ↦ g.last | h ∷ rest ↦ h ]

-- `while old_cursor < to`, which takes `n` turns.
unfoldable pub contexts : ℕ → ℕ → ℕ → List PlanLine
contexts zero old new = []
contexts (suc n) old new = PlanLine.context old new ∷ contexts n (old + 1) (new + 1)

-- `for i in start..end`, with `n` of them left.
unfoldable pub each : (ℕ → PlanLine) → ℕ → ℕ → List PlanLine
each f zero i = []
each f (suc n) i = f i ∷ each f n (i + 1)

abbrev pub size : Range → ℕ
size r = r.end - r.start

unfoldable pub plan_from : ℕ → ℕ → List Hunk → ℕ → List PlanLine
unfolding contexts each
plan_from old new [] hi = contexts (hi - old) old new
plan_from old new (h ∷ rest) hi =
    contexts (h.before.start - old) old new
    ++ each PlanLine.remove (size h.before) h.before.start
    ++ each PlanLine.add (size h.after) h.after.start
    ++ plan_from h.before.end h.after.end rest hi

unfoldable pub computed : ℕ → ℕ → Group → ComputedHunk
unfolding plan_from
computed old_len new_len g =
    let old_lo = (first_of g).before.start - context_lines in
    let old_hi = min (saturating_add g.last.before.end context_lines) old_len in
    let new_lo = (first_of g).after.start - context_lines in
    let new_hi = min (saturating_add g.last.after.end context_lines) new_len in
    record {
      old_start = old_lo + 1;
      old_count = old_hi - old_lo;
      new_start = new_lo + 1;
      new_count = new_hi - new_lo;
      plan = plan_from old_lo new_lo (hunks_of g) old_hi;
    }

unfoldable pub group_hunks : List Hunk → ℕ → ℕ → List ComputedHunk
unfolding groups computed
group_hunks raw old_len new_len = map (computed old_len new_len) (groups raw)

unfoldable pub token : List String → ℕ → String
token tokens i = unwrap_or "" (get_elem? tokens i)
