-- ===== src/Git/Hunks/Patching.antt =====
-- A patch of all hunks turns the old text into the new one.
use tethys.Prelude.{
  ℕ, zero, suc, ◌+◌, ◌-◌, ◌^◌, ◌<◌, ◌≡◌, refl, ◌∙◌, ap, subst, inl, inr, Bool-cases, String, List,
  [], ◌∷◌, ◌++◌, arith, map, length, get_elem?, unwrap_or,
}
use tethys.Git.Hunks.{Hunk, Group, token, merges, computed, grow, groups, group_hunks}
use tethys.Git.Hunks.Aligned.{
  Aligned, Level, Open, join, alone, first-joined, Open-Level, Open-join, Open-apart, Open-first,
  far,
}
use tethys.Git.Hunks.Sides.{span}
use tethys.Git.Hunks.Texts.{Same-fewer, Same-lines, new_lines, patched, Same, Between, Agree}
use tethys.Git.Hunks.Applying.{Ready, Ready-alone, end_at, finished, last_lines, Ends, ends}

module _ (old new : List String) where
  Between-snoc :
      (o n : ℕ) (init : List Hunk) (l h : Hunk)
      → Between old new o n (init ++ l ∷ [])
      → Same old new l.before.end l.after.end (h.before.start - l.before.end)
      → Between old new o n ((init ++ l ∷ []) ++ h ∷ [])
  Between-snoc o n [] l h (first, tt) s = (first, (s, tt))
  Between-snoc o n (x ∷ init) l h (first, b) s =
      (first, Between-snoc x.before.end x.after.end init l h b s)

  Ready-join :
      (at n : ℕ) (g : Group) (h : Hunk)
      → Ready old new at n g
      → Same old new g.last.before.end g.last.after.end (h.before.start - g.last.before.end)
      → Ready old new at n (join g h)
  Ready-join at n g h r s = record {
    start = rw (first-joined g.init g.last h) r.start;
    level = rw (first-joined g.init g.last h) r.level;
    between = Between-snoc at n g.init g.last h r.between s;
  }

  record Pending (at n : ℕ) (g : Group) (rest : List Hunk) : Type 0 where
    ready : Ready old new at n g
    opened : Open (length old) (length new) g rest
    agree : Agree old new g.last.before.end g.last.after.end rest

  patched-grow :
      (at n : ℕ) (g : Group) (rest : List Hunk)
      → length old < 2 ^ 32
      → length new < 2 ^ 32
      → Pending at n g rest
      → patched old new at (map (computed (length old) (length new)) (grow g rest))
        ≡ new_lines old new (length new - n) n
  unfolding grow patched
  patched-grow at n g [] small small' p =
      finished old new at n g p.ready level small small' tail _
        (last_lines old new at n g p.ready level small small' tail p.agree p.opened.left.1)
    where
      level : Level (length old) (length new) g
      level = Open-Level _ _ g p.opened

      tail : Same old new g.last.before.end g.last.after.end (end_at old new g - g.last.before.end)
      tail = Same-fewer old new _ _ _ _ (ground (arith, p.opened.left.0)) p.agree
  patched-grow at n g (h ∷ rest) small small' p = elim (Bool-cases (merges g h)) [
    | inl m ↦ rw m (
        patched-grow at n (join g h) rest small small' (record {
          ready = Ready-join at n g h p.ready p.agree.0;
          opened = Open-join _ _ g h rest p.opened;
          agree = p.agree.1;
        }))
    | inr m ↦
        let away = far _ _ g h rest p.opened small m in
        let (level, opened) = Open-apart _ _ g h rest p.opened small m in
        let tail =
          Same-fewer old new _ _ _ (end_at old new g - g.last.before.end) (ground (arith, away))
            p.agree.0 in
        let link = p.opened.left.0 in
        rw m (
          finished old new at n g p.ready level small small' tail _ (
            rw (Ends.reaches (ends old new at n g p.ready level small small' tail)) (
              patched-grow (end_at old new g) _ (alone h) rest small small' (record {
                ready =
                    Ready-alone old new at n g p.ready level small small' tail h p.agree.0 link
                      away;
                opened = opened;
                agree = p.agree.1;
              }))))
  ]

lines_later :
    (x : String) (xs : List String) (k i : ℕ)
    → map (token (x ∷ xs)) (span k (i + 1)) ≡ map (token xs) (span k i)
unfolding span token
lines_later x xs zero i = refl
lines_later x xs (suc k) i =
    rw (next) (ap (λ l. unwrap_or "" (get_elem? xs i) ∷ l) (lines_later x xs k (i + 1)))
  where
    next : get_elem? (x ∷ xs) (i + 1) ≡ get_elem? xs i
    next = ground arith

all_lines : (xs : List String) → map (token xs) (span (length xs) 0) ≡ xs
unfolding span token
all_lines [] = refl
all_lines (x ∷ xs) = ap (λ l. x ∷ l) (lines_later x xs (length xs) 0 ∙ all_lines xs)

all_lines_from : (xs : List String) → map (token xs) (span (length xs - 0) 0) ≡ xs
all_lines_from xs = rw (nothing_less) (all_lines xs)
  where
    nothing_less : length xs - 0 ≡ length xs
    nothing_less = omega arith

-- A diff of two texts of under 2 ^ 32 lines, whose raw hunks are aligned and outside of whose hunks
-- the texts agree: the patch of all the hunks that `group_hunks` makes of it turns the old text into
-- the new one.
pub patched-group_hunks :
    (old new : List String) (raw : List Hunk)
    → length old < 2 ^ 32
    → length new < 2 ^ 32
    → Aligned (length old) (length new) 0 0 raw
    → Agree old new 0 0 raw
    → patched old new 0 (group_hunks raw (length old) (length new)) ≡ new
unfolding group_hunks groups patched
patched-group_hunks old new [] small small' v s =
    subst (λ k. map (token old) (span (length old - 0) 0) ≡ map (token new) (span k 0))
      (omega (arith, v.1)) (Same-lines old new (length old - 0) 0 0 s)
    ∙ all_lines new
patched-group_hunks old new (h ∷ rest) small small' v s =
    patched-grow old new 0 0 (alone h) rest small small' (record {
      ready = record { start = omega arith; level = omega (arith, v.0.level); between = (s.0, tt) };
      opened = Open-first _ _ h rest v;
      agree = s.1;
    })
    ∙ all_lines_from new
