-- ===== src/Git/Hunks/Texts.antt =====
-- Two texts and the lines on which they agree, and what a plan makes of the old one.
use tethys.Prelude.{
  ℕ, zero, suc, ◌+◌, ◌-◌, ◌≤◌, ◌<◌, ◌≡◌, refl, ap, String, List, [], ◌∷◌, ◌++◌, arith, map, length,
}
use tethys.Git.Hunks.{
  Hunk, PlanLine, ComputedHunk, token, first_of, contexts, each, size, plan_from,
}
use tethys.Git.Hunks.Sides.{span, new_side, new_side-append, end_of}

module _ (old new : List String) where
  abbrev pub old_lines : ℕ → ℕ → List String
  old_lines n i = map (token old) (span n i)

  abbrev pub new_lines : ℕ → ℕ → List String
  new_lines n i = map (token new) (span n i)

  -- The lines that a plan keeps or adds.
  unfoldable pub plan_output : List PlanLine → List String
  unfolding token
  plan_output [] = []
  plan_output (PlanLine.context o n ∷ ps) = token old o ∷ plan_output ps
  plan_output (PlanLine.remove o ∷ ps) = plan_output ps
  plan_output (PlanLine.add n ∷ ps) = token new n ∷ plan_output ps

  -- The old text patched: its lines from `at` on, with each hunk's own in the place of those that the hunk's header tells.
  unfoldable pub patched : ℕ → List ComputedHunk → List String
  unfolding plan_output
  patched at [] = map (token old) (span (length old - at) at)
  patched at (c ∷ cs) =
      map (token old) (span (c.old_start - 1 - at) at)
      ++ plan_output c.plan
      ++ patched (c.old_start - 1 + c.old_count) cs

  -- `k` lines of the texts agree, from `o` and `n` on.
  abbrev pub Same : ℕ → ℕ → ℕ → Type 0
  Same o n k = (i : ℕ) → i < k → token old (o + i) ≡ token new (n + i)

  -- The texts agree between the hunks.
  abbrev pub Between : ℕ → ℕ → List Hunk → Type 0
  Between o n [] = Unit
  Between o n (h ∷ hs) = Same o n (h.before.start - o) × Between h.before.end h.after.end hs

  -- The texts agree outside of the hunks.
  abbrev pub Agree : ℕ → ℕ → List Hunk → Type 0
  Agree o n [] = Same o n (length old - o)
  Agree o n (h ∷ hs) = Same o n (h.before.start - o) × Agree h.before.end h.after.end hs

  Same-head : (k o n : ℕ) → Same o n (suc k) → token old o ≡ token new n
  Same-head k o n s = ground (arith, s 0 (omega arith))

  pub Same-later : (o n k d j : ℕ) → d + j ≤ k → Same o n k → Same (o + d) (n + d) j
  Same-later o n k d j fits s i less = ground (arith, s (d + i) (omega (arith, fits, less)))

  pub Same-fewer : (o n k j : ℕ) → j ≤ k → Same o n k → Same o n j
  Same-fewer o n k j fits s i less = s i (omega (arith, less, fits))

  pub Same-lines : (k o n : ℕ) → Same o n k → old_lines k o ≡ new_lines k n
  unfolding span
  Same-lines zero o n s = refl
  Same-lines (suc k) o n s = rw (Same-head k o n s) (
      ap (λ l. token new n ∷ l)
        (Same-lines k (o + 1) (n + 1) (Same-later o n (suc k) 1 k (omega arith) s)))

  pub map_append :
      (xs ys : List ℕ) → map (token new) (xs ++ ys) ≡ map (token new) xs ++ map (token new) ys
  map_append [] ys = refl
  map_append (x ∷ xs) ys = ap (λ l. token new x ∷ l) (map_append xs ys)

  plan_output-append :
      (ps qs : List PlanLine) → plan_output (ps ++ qs) ≡ plan_output ps ++ plan_output qs
  unfolding plan_output
  plan_output-append [] qs = refl
  plan_output-append (PlanLine.context o n ∷ ps) qs =
      ap (λ l. token old o ∷ l) (plan_output-append ps qs)
  plan_output-append (PlanLine.remove o ∷ ps) qs = plan_output-append ps qs
  plan_output-append (PlanLine.add n ∷ ps) qs = ap (λ l. token new n ∷ l) (plan_output-append ps qs)

  -- The output of a plan is its new side.
  abbrev IsShown : List PlanLine → Type 0
  IsShown ps = plan_output ps ≡ map (token new) (new_side ps)

  IsShown-append : (ps qs : List PlanLine) → IsShown ps → IsShown qs → IsShown (ps ++ qs)
  IsShown-append ps qs p q =
      rw
        (
          plan_output-append ps qs,
          new_side-append ps qs,
          map_append (new_side ps) (new_side qs),
          p,
          q,
        )
        refl

  contexts-IsShown : (k o n : ℕ) → Same o n k → IsShown (contexts k o n)
  unfolding contexts plan_output new_side
  contexts-IsShown zero o n s = refl
  contexts-IsShown (suc k) o n s = rw (Same-head k o n s) (
      ap (λ l. token new n ∷ l)
        (contexts-IsShown k (o + 1) (n + 1) (Same-later o n (suc k) 1 k (omega arith) s)))

  removed-IsShown : (k i : ℕ) → IsShown (each PlanLine.remove k i)
  unfolding each plan_output new_side
  removed-IsShown zero i = refl
  removed-IsShown (suc k) i = removed-IsShown k (i + 1)

  added-IsShown : (k i : ℕ) → IsShown (each PlanLine.add k i)
  unfolding each plan_output new_side
  added-IsShown zero i = refl
  added-IsShown (suc k) i = ap (λ l. token new i ∷ l) (added-IsShown k (i + 1))

  pub plan-IsShown :
      (o n : ℕ) (hs : List Hunk) (hi : ℕ)
      → Between o n hs
      → Same (end_of o n hs).0 (end_of o n hs).1 (hi - (end_of o n hs).0)
      → IsShown (plan_from o n hs hi)
  unfolding plan_from
  plan-IsShown o n [] hi b s = contexts-IsShown (hi - o) o n s
  plan-IsShown o n (h ∷ hs) hi (first, b) s =
      let kept = contexts-IsShown (h.before.start - o) o n first in
      let removed = removed-IsShown (size h.before) h.before.start in
      let added = added-IsShown (size h.after) h.after.start in
      IsShown-append _ _ (IsShown-append _ _ (IsShown-append _ _ kept removed) added)
        (plan-IsShown h.before.end h.after.end hs hi b s)

  pub Between-later :
      (o n d : ℕ) (init : List Hunk) (l : Hunk)
      → o + d ≤ (first_of (record { init = init; last = l })).before.start
      → Between o n (init ++ l ∷ [])
      → Between (o + d) (n + d) (init ++ l ∷ [])
  Between-later o n d [] l less (s, b) = (Same-later o n _ d _ (omega (arith, less)) s, b)
  Between-later o n d (h ∷ init) l less (s, b) = (Same-later o n _ d _ (omega (arith, less)) s, b)

  pub Between-first :
      (o n : ℕ) (init : List Hunk) (l : Hunk)
      → Between o n (init ++ l ∷ [])
      → Same o n ((first_of (record { init = init; last = l })).before.start - o)
  Between-first o n [] l b = b.0
  Between-first o n (h ∷ init) l b = b.0
