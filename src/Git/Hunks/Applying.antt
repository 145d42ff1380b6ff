-- ===== src/Git/Hunks/Applying.antt =====
-- The patch of one hunk, on the texts from where it starts.
use tethys.Prelude.{
  ℕ, ◌+◌, ◌-◌, ◌^◌, ◌≤◌, ◌<◌, min, ◌≡◌, sym, ◌∙◌, ap, subst, String, List, ◌++◌, arith, map, length,
}
use tethys.Git.Hunks.{
  Hunk, Group, ComputedHunk, token, saturating_add, context_lines, hunks_of, first_of, computed,
}
use tethys.Git.Hunks.Aligned.{Link, Level, alone}
use tethys.Git.Hunks.Sides.{span, span-join, Chain-ordered}
use tethys.Git.Hunks.Counts.{end_of-snoc, computed-IsCounted}
use tethys.Git.Hunks.Texts.{
  Same-fewer, Same-lines, Same-later, map_append, plan-IsShown, Between-later, Between-first,
  old_lines, new_lines, plan_output, Same, Between,
}

module _ (old new : List String) where
  -- A group whose hunk the patch is to apply, with the old text left from `at` on, and of the new from `n` on.
  pub record Ready (at n : ℕ) (g : Group) : Type 0 where
    pub start : at ≤ (first_of g).before.start - 3
    pub level : (first_of g).before.start - 3 + n ≡ (first_of g).after.start - 3 + at
    pub between : Between old new at n (hunks_of g)

  abbrev pub end_at : Group → ℕ
  end_at g = min (saturating_add g.last.before.end context_lines) (length old)

  module _ (at n : ℕ) (g : Group) (r : Ready at n g) (v : Level (length old) (length new) g)
      (small : length old < 2 ^ 32) (small' : length new < 2 ^ 32)
      (tail : Same old new g.last.before.end g.last.after.end (end_at g - g.last.before.end)) where
    abbrev pub old_lo : ℕ
    old_lo = (first_of g).before.start - context_lines

    abbrev pub new_lo : ℕ
    new_lo = (first_of g).after.start - context_lines

    abbrev pub new_hi : ℕ
    new_hi = min (saturating_add g.last.after.end context_lines) (length new)

    abbrev pub c : ComputedHunk
    c = computed (length old) (length new) g

    Between-group : Between old new old_lo new_lo (hunks_of g)
    Between-group =
        subst (λ m. Between old new m new_lo (hunks_of g)) (omega (arith, r.start))
          (subst (λ m. Between old new (at + (old_lo - at)) m (hunks_of g))
            (omega (arith, r.start, r.level))
            (Between-later old new at n (old_lo - at) g.init g.last (omega (arith, r.start))
              r.between))

    shown : plan_output old new c.plan ≡ new_lines old new c.new_count (c.new_start - 1)
    unfolding computed
    shown =
        plan-IsShown old new old_lo new_lo (hunks_of g) (end_at g) Between-group
          (rw (end_of-snoc old_lo new_lo g.init g.last) tail)
        ∙ ap (map (token new))
            (computed-IsCounted (length old) (length new) g small small' v).new_lines

    copied : old_lines old new (c.old_start - 1 - at) at ≡ new_lines old new (c.new_start - 1 - n) n
    unfolding computed
    copied =
        subst (λ k. old_lines old new (c.old_start - 1 - at) at ≡ new_lines old new k n)
          (omega (arith, r.start, r.level))
          (Same-lines old new (c.old_start - 1 - at) at n (
            Same-fewer old new at n _ _ (omega arith)
              (Between-first old new at n g.init g.last r.between)))

    group_patched :
        old_lines old new (c.old_start - 1 - at) at ++ plan_output old new c.plan
        ≡ new_lines old new (new_hi - n) n
    unfolding computed
    group_patched =
        rw
          (
            copied,
            shown,
            sym (
                map_append old new (span (c.new_start - 1 - n) n)
                  (span c.new_count (c.new_start - 1))),
          )
          (ap (map (token new)) (
            rw (count)
              (span-join n (c.new_start - 1) new_hi (omega (arith, r.start, r.level)) fits)))
      where
        count : c.new_count ≡ new_hi - (c.new_start - 1)
        count = omega arith

        last_end : new_lo ≤ g.last.after.end
        last_end =
            subst (λ e. new_lo ≤ e.1) (end_of-snoc old_lo new_lo g.init g.last)
              (Chain-ordered old_lo new_lo (hunks_of g) v.chain).1

        fits : c.new_start - 1 ≤ new_hi
        fits = ground (arith, v.new_fits, small', last_end)

    pub record Ends : Type 0 where
      pub reaches : c.old_start - 1 + c.old_count ≡ end_at g
      pub level : end_at g + g.last.after.end ≡ new_hi + g.last.before.end
      pub old_end : g.last.before.end ≤ end_at g
      pub new_end : n ≤ new_hi
      pub old_fits : end_at g ≤ length old
      pub new_fits : new_hi ≤ length new

    pub ends : Ends
    unfolding computed
    ends = record {
      reaches = ground (arith, lasts.0, v.old_fits, small);
      level = ground (arith, v.old_fits, v.new_fits, v.tail, small, small');
      old_end = ground (arith, v.old_fits, small);
      new_end = ground (arith, r.start, r.level, lasts.1, v.new_fits, small');
      old_fits = omega arith;
      new_fits = omega arith;
    }
      where
        lasts : (old_lo ≤ g.last.before.end) × (new_lo ≤ g.last.after.end)
        lasts =
            subst (λ e. (old_lo ≤ e.0) × (new_lo ≤ e.1)) (end_of-snoc old_lo new_lo g.init g.last)
              (Chain-ordered old_lo new_lo (hunks_of g) v.chain)

    Same-after :
        (j k : ℕ)
        → Same old new g.last.before.end g.last.after.end k
        → end_at g - g.last.before.end + j ≤ k
        → Same old new (end_at g) new_hi j
    Same-after j k s less =
        subst (λ m. Same old new m new_hi j) (omega (arith, ends.level, ends.old_end))
          (subst (λ m. Same old new (g.last.before.end + (end_at g - g.last.before.end)) m j)
            (omega (arith, ends.level, ends.old_end))
            (Same-later old new g.last.before.end g.last.after.end k (end_at g - g.last.before.end)
              j less s))

    pub finished :
        (x : List String)
        → x ≡ new_lines old new (length new - new_hi) new_hi
        → old_lines old new (c.old_start - 1 - at) at ++ plan_output old new c.plan ++ x
          ≡ new_lines old new (length new - n) n
    finished x e =
        rw
          (
            group_patched,
            e,
            sym (map_append old new (span (new_hi - n) n) (span (length new - new_hi) new_hi)),
          )
          (ap (map (token new)) (span-join n new_hi (length new) ends.new_end ends.new_fits))

    pub last_lines :
        Same old new g.last.before.end g.last.after.end (length old - g.last.before.end)
        → length old + g.last.after.end ≡ length new + g.last.before.end
        → old_lines old new
            (length old - (c.old_start - 1 + c.old_count))
            (c.old_start - 1 + c.old_count)
          ≡ new_lines old new (length new - new_hi) new_hi
    last_lines s even = rw ends.reaches (
        subst
          (λ k. old_lines old new (length old - end_at g) (end_at g) ≡ new_lines old new k new_hi)
          (omega (arith, even, ends.level, ends.old_fits, ends.new_fits))
          (Same-lines old new (length old - end_at g) (end_at g) new_hi
            (Same-after _ _ s (omega (arith, ends.old_end, ends.old_fits)))))

    -- The next hunk, where it starts a group of its own.
    pub Ready-alone :
        (h : Hunk)
        → Same old new g.last.before.end g.last.after.end (h.before.start - g.last.before.end)
        → Link g.last.before.end g.last.after.end h
        → g.last.before.end + 6 < h.before.start
        → Ready (end_at g) new_hi (alone h)
    Ready-alone h s l away = record {
      start = ground (arith, away);
      level = omega (arith, away, l.level, ends.level, ends.old_end);
      between = (Same-after _ _ s (omega (arith, away, near, ends.old_end)), tt);
    }
      where
        near : end_at g ≤ g.last.before.end + 3
        near = ground arith
