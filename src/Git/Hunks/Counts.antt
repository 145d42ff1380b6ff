-- ===== src/Git/Hunks/Counts.antt =====
-- The header of a hunk counts the lines of its plan, on each side.
use tethys.Prelude.{
  ℕ, ◌+◌, ◌-◌, ◌^◌, ◌≤◌, ◌<◌, min, ◌≡◌, refl, List, [], ◌∷◌, ◌++◌, arith, All, map,
}
use tethys.Git.Hunks.{
  Hunk, Group, ComputedHunk, saturating_add, context_lines, hunks_of, first_of, computed, groups,
  group_hunks,
}
use tethys.Git.Hunks.Aligned.{Aligned, Level, groups-Level}
use tethys.Git.Hunks.Sides.{span, old_side, new_side, end_of, old_side-plan, new_side-plan}

-- The plan of a hunk goes over just the lines that its header tells, in order, on both sides.
pub record IsCounted (c : ComputedHunk) : Type 0 where
  pub old_lines : old_side c.plan ≡ span c.old_count (c.old_start - 1)
  pub new_lines : new_side c.plan ≡ span c.new_count (c.new_start - 1)

pub end_of-snoc :
    (o n : ℕ) (init : List Hunk) (l : Hunk)
    → end_of o n (init ++ l ∷ []) ≡ (l.before.end, l.after.end)
end_of-snoc o n [] l = refl
end_of-snoc o n (h ∷ init) l = end_of-snoc h.before.end h.after.end init l

minus_one : (n : ℕ) → n + 1 - 1 ≡ n
minus_one n = omega arith

pub computed-IsCounted :
    (old_len new_len : ℕ) (g : Group)
    → old_len < 2 ^ 32
    → new_len < 2 ^ 32
    → Level old_len new_len g
    → IsCounted (computed old_len new_len g)
unfolding computed
computed-IsCounted old_len new_len g small small' v = record {
  old_lines =
      rw (minus_one old_lo) (old_side-plan old_lo new_lo (hunks_of g) old_hi v.chain bound).1;
  new_lines =
      rw (minus_one new_lo)
        (new_side-plan old_lo new_lo (hunks_of g) old_hi new_hi v.chain bound even).1;
}
  where
    old_lo : ℕ
    old_lo = (first_of g).before.start - context_lines

    new_lo : ℕ
    new_lo = (first_of g).after.start - context_lines

    old_hi : ℕ
    old_hi = min (saturating_add g.last.before.end context_lines) old_len

    new_hi : ℕ
    new_hi = min (saturating_add g.last.after.end context_lines) new_len

    last_end : end_of old_lo new_lo (hunks_of g) ≡ (g.last.before.end, g.last.after.end)
    last_end = end_of-snoc old_lo new_lo g.init g.last

    bound : (end_of old_lo new_lo (hunks_of g)).0 ≤ old_hi
    bound = rw last_end (ground (arith, v.old_fits, small))

    even :
        old_hi + (end_of old_lo new_lo (hunks_of g)).1
        ≡ new_hi + (end_of old_lo new_lo (hunks_of g)).0
    even = rw last_end (ground (arith, v.old_fits, v.new_fits, v.tail, small, small'))

map-IsCounted :
    (old_len new_len : ℕ) (gs : List Group)
    → old_len < 2 ^ 32
    → new_len < 2 ^ 32
    → All (Level old_len new_len) gs
    → All IsCounted (map (computed old_len new_len) gs)
map-IsCounted old_len new_len [] small small' v = tt
map-IsCounted old_len new_len (g ∷ gs) small small' (v, vs) = (
  computed-IsCounted old_len new_len g small small' v,
  map-IsCounted old_len new_len gs small small' vs,
)

-- Each hunk that `group_hunks` makes of an aligned diff of two texts of under 2 ^ 32 lines goes over
-- just the lines that its header tells, in order, on both sides.
pub group_hunks-IsCounted :
    (old_len new_len : ℕ) (raw : List Hunk)
    → old_len < 2 ^ 32
    → new_len < 2 ^ 32
    → Aligned old_len new_len 0 0 raw
    → All IsCounted (group_hunks raw old_len new_len)
unfolding group_hunks
group_hunks-IsCounted old_len new_len raw small small' v =
    map-IsCounted old_len new_len (groups raw) small small'
      (groups-Level old_len new_len raw small v)
