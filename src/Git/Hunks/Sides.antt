-- ===== src/Git/Hunks/Sides.antt =====
-- The lines that a plan goes over, on each side.
use tethys.Prelude.{
  ℕ, zero, suc, ◌+◌, ◌-◌, ◌≤◌, ◌≡◌, refl, ap, subst, List, [], ◌∷◌, ◌++◌, append-nil, arith,
}
use tethys.Git.Hunks.{Hunk, PlanLine, contexts, each, size, plan_from}
use tethys.Git.Hunks.Aligned.{Chain}

-- `n` numbers from `i` on.
unfoldable pub span : ℕ → ℕ → List ℕ
span zero i = []
span (suc n) i = i ∷ span n (i + 1)

pub span-add : (a b i : ℕ) → span (a + b) i ≡ span a i ++ span b (i + a)
unfolding span
span-add zero b i = ground arith
span-add (suc a) b i = rw (shift, same) (ap (λ l. i ∷ l) (span-add a b (i + 1)))
  where
    shift : suc a + b ≡ suc (a + b)
    shift = omega arith

    same : i + suc a ≡ i + 1 + a
    same = omega arith

pub span-join :
    (lo mid hi : ℕ)
    → lo ≤ mid
    → mid ≤ hi
    → span (mid - lo) lo ++ span (hi - mid) mid ≡ span (hi - lo) lo
span-join lo mid hi p q = ground (arith, p, q, span-add (mid - lo) (hi - mid) lo)

pub span-join3 :
    (lo a b hi : ℕ)
    → lo ≤ a
    → a ≤ b
    → b ≤ hi
    → span (a - lo) lo ++ span (b - a) a ++ span (hi - b) b ≡ span (hi - lo) lo
span-join3 lo a b hi p q r = rw (span-join lo a b p q) (span-join lo b hi (omega (arith, p, q)) r)

-- The lines of the old text that a plan goes over: those it keeps and those it removes.
unfoldable pub old_side : List PlanLine → List ℕ
old_side [] = []
old_side (PlanLine.context o n ∷ ps) = o ∷ old_side ps
old_side (PlanLine.remove o ∷ ps) = o ∷ old_side ps
old_side (PlanLine.add n ∷ ps) = old_side ps

unfoldable pub new_side : List PlanLine → List ℕ
new_side [] = []
new_side (PlanLine.context o n ∷ ps) = n ∷ new_side ps
new_side (PlanLine.remove o ∷ ps) = new_side ps
new_side (PlanLine.add n ∷ ps) = n ∷ new_side ps

old_side-append : (ps qs : List PlanLine) → old_side (ps ++ qs) ≡ old_side ps ++ old_side qs
unfolding old_side
old_side-append [] qs = refl
old_side-append (PlanLine.context o n ∷ ps) qs = ap (λ l. o ∷ l) (old_side-append ps qs)
old_side-append (PlanLine.remove o ∷ ps) qs = ap (λ l. o ∷ l) (old_side-append ps qs)
old_side-append (PlanLine.add n ∷ ps) qs = old_side-append ps qs

pub new_side-append : (ps qs : List PlanLine) → new_side (ps ++ qs) ≡ new_side ps ++ new_side qs
unfolding new_side
new_side-append [] qs = refl
new_side-append (PlanLine.context o n ∷ ps) qs = ap (λ l. n ∷ l) (new_side-append ps qs)
new_side-append (PlanLine.remove o ∷ ps) qs = new_side-append ps qs
new_side-append (PlanLine.add n ∷ ps) qs = ap (λ l. n ∷ l) (new_side-append ps qs)

sides-contexts :
    (n o m : ℕ) → (old_side (contexts n o m) ≡ span n o) × (new_side (contexts n o m) ≡ span n m)
unfolding contexts old_side new_side span
sides-contexts zero o m = (refl, refl)
sides-contexts (suc n) o m =
    let (a, b) = sides-contexts n (o + 1) (m + 1) in (ap (λ l. o ∷ l) a, ap (λ l. m ∷ l) b)

sides-removed :
    (n i : ℕ)
    → (old_side (each PlanLine.remove n i) ≡ span n i) × (new_side (each PlanLine.remove n i) ≡ [])
unfolding each old_side new_side span
sides-removed zero i = (refl, refl)
sides-removed (suc n) i = let (a, b) = sides-removed n (i + 1) in (ap (λ l. i ∷ l) a, b)

sides-added :
    (n i : ℕ)
    → (old_side (each PlanLine.add n i) ≡ []) × (new_side (each PlanLine.add n i) ≡ span n i)
unfolding each old_side new_side span
sides-added zero i = (refl, refl)
sides-added (suc n) i = let (a, b) = sides-added n (i + 1) in (a, ap (λ l. i ∷ l) b)

old_side-hunk :
    (a b c d : List PlanLine)
    → old_side (a ++ b ++ c ++ d) ≡ old_side a ++ old_side b ++ old_side c ++ old_side d
old_side-hunk a b c d =
    rw (old_side-append (a ++ b ++ c) d, old_side-append (a ++ b) c, old_side-append a b) refl

new_side-hunk :
    (a b c d : List PlanLine)
    → new_side (a ++ b ++ c ++ d) ≡ new_side a ++ new_side b ++ new_side c ++ new_side d
new_side-hunk a b c d =
    rw (new_side-append (a ++ b ++ c) d, new_side-append (a ++ b) c, new_side-append a b) refl

-- The line after the last change of a chain.
abbrev pub end_of : ℕ → ℕ → List Hunk → ℕ × ℕ
end_of o n [] = (o, n)
end_of o n (h ∷ hs) = end_of h.before.end h.after.end hs

pub Chain-ordered :
    (o n : ℕ) (hs : List Hunk) → Chain o n hs → (o ≤ (end_of o n hs).0) × (n ≤ (end_of o n hs).1)
Chain-ordered o n [] c = (omega arith, omega arith)
Chain-ordered o n (h ∷ hs) (l, c) =
    let (a, b) = Chain-ordered h.before.end h.after.end hs c in
    (
      omega (arith, l.ordered, l.before_valid, a),
      omega (arith, l.ordered, l.level, l.after_valid, b),
    )

-- A plan goes over all lines between its bounds, once and in order, on both sides.
pub old_side-plan :
    (o n : ℕ) (hs : List Hunk) (hi : ℕ)
    → Chain o n hs
    → (end_of o n hs).0 ≤ hi
    → (o ≤ hi) × (old_side (plan_from o n hs hi) ≡ span (hi - o) o)
unfolding plan_from
old_side-plan o n [] hi c e = (e, (sides-contexts (hi - o) o n).0)
old_side-plan o n (h ∷ hs) hi (l, c) e =
    let (le, rest) = old_side-plan h.before.end h.after.end hs hi c e in
    (
      omega (arith, l.ordered, l.before_valid, le),
      rw
          (
            old_side-hunk (contexts (h.before.start - o) o n)
                (each PlanLine.remove (size h.before) h.before.start)
                (each PlanLine.add (size h.after) h.after.start)
                (plan_from h.before.end h.after.end hs hi),
            (sides-contexts (h.before.start - o) o n).0,
            (sides-removed (size h.before) h.before.start).0,
            (sides-added (size h.after) h.after.start).0,
            rest,
            append-nil (span (h.before.start - o) o ++ span (size h.before) h.before.start),
          )
          (span-join3 o h.before.start h.before.end hi l.ordered l.before_valid le),
    )

pub new_side-plan :
    (o n : ℕ) (hs : List Hunk) (hi hi' : ℕ)
    → Chain o n hs
    → (end_of o n hs).0 ≤ hi
    → hi + (end_of o n hs).1 ≡ hi' + (end_of o n hs).0
    → (n ≤ hi') × (new_side (plan_from o n hs hi) ≡ span (hi' - n) n)
unfolding plan_from
new_side-plan o n [] hi hi' c e even = (
  omega (arith, e, even),
  subst (λ k. new_side (contexts (hi - o) o n) ≡ span k n) (omega (arith, e, even))
      (sides-contexts (hi - o) o n).1,
)
new_side-plan o n (h ∷ hs) hi hi' (l, c) e even =
    let (le, rest) = new_side-plan h.before.end h.after.end hs hi hi' c e even in
    (
      omega (arith, l.ordered, l.level, l.after_valid, le),
      rw
          (
            new_side-hunk (contexts (h.before.start - o) o n)
                (each PlanLine.remove (size h.before) h.before.start)
                (each PlanLine.add (size h.after) h.after.start)
                (plan_from h.before.end h.after.end hs hi),
            (sides-contexts (h.before.start - o) o n).1,
            (sides-removed (size h.before) h.before.start).1,
            (sides-added (size h.after) h.after.start).1,
            rest,
            same_gap,
            append-nil (span (h.after.start - n) n),
          )
          (span-join3 n h.after.start h.after.end hi' (omega (arith, l.ordered, l.level))
            l.after_valid le),
    )
  where
    same_gap : h.before.start - o ≡ h.after.start - n
    same_gap = omega (arith, l.ordered, l.level)
