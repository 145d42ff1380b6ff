-- ===== src/Git/Hunks/Aligned.antt =====
-- What the diff promises of its raw hunks, and what the grouping makes of it.
use tethys.Prelude.{
  ℕ, ◌+◌, ◌-◌, ◌^◌, ◌≤◌, ◌<◌, min, ◌≡◌, refl, inl, inr, Bool-cases, false, List, [], ◌∷◌, ◌++◌,
  arith, All,
}
use tethys.Git.Hunks.{Hunk, Group, merges, grow, groups, hunks_of, first_of}

-- Between the lines `o` and `n`, where the last change ended, and the hunk nothing differs: the
-- same number of lines is left out on both sides.
pub record Link (o n : ℕ) (h : Hunk) : Type 0 where
  pub ordered : o ≤ h.before.start
  pub level : h.before.start + n ≡ h.after.start + o
  pub before_valid : h.before.start ≤ h.before.end
  pub after_valid : h.after.start ≤ h.after.end

abbrev pub Chain : ℕ → ℕ → List Hunk → Type 0
Chain o n [] = Unit
Chain o n (h ∷ hs) = Link o n h × Chain h.before.end h.after.end hs

-- The hunks of a diff between texts of `old_len` and `new_len` lines, from the lines `o` and `n` on.
abbrev pub Aligned : ℕ → ℕ → ℕ → ℕ → List Hunk → Type 0
Aligned old_len new_len o n [] = (o ≤ old_len) × (old_len + n ≡ new_len + o)
Aligned old_len new_len o n (h ∷ hs) =
    Link o n h × Aligned old_len new_len h.before.end h.after.end hs

pub Aligned-fits :
    (old_len new_len o n : ℕ) (hs : List Hunk)
    → Aligned old_len new_len o n hs
    → (o ≤ old_len) × (n ≤ new_len)
Aligned-fits old_len new_len o n [] (fits, even) = (fits, omega (arith, fits, even))
Aligned-fits old_len new_len o n (h ∷ hs) (l, rest) =
    let (a, b) = Aligned-fits old_len new_len h.before.end h.after.end hs rest in
    (
      omega (arith, a, l.ordered, l.before_valid),
      ground (arith, a, b, l.level, l.ordered, l.after_valid),
    )

-- A group whose context lines have the same number on both sides, at both ends.
pub record Level (old_len new_len : ℕ) (g : Group) : Type 0 where
  pub chain : Chain ((first_of g).before.start - 3) ((first_of g).after.start - 3) (hunks_of g)
  pub old_fits : g.last.before.end ≤ old_len
  pub new_fits : g.last.after.end ≤ new_len
  pub tail :
      min (g.last.before.end + 3) old_len + g.last.after.end
      ≡ min (g.last.after.end + 3) new_len + g.last.before.end

Chain-snoc :
    (o n : ℕ) (init : List Hunk) (l h : Hunk)
    → Chain o n (init ++ l ∷ [])
    → Link l.before.end l.after.end h
    → Chain o n ((init ++ l ∷ []) ++ h ∷ [])
Chain-snoc o n [] l h (first, tt) k = (first, (k, tt))
Chain-snoc o n (x ∷ init) l h (first, rest) k =
    (first, Chain-snoc x.before.end x.after.end init l h rest k)

pub first-joined :
    (init : List Hunk) (l h : Hunk)
    → first_of (record { init = init ++ l ∷ []; last = h })
      ≡ first_of (record { init = init; last = l })
first-joined [] l h = refl
first-joined (x ∷ init) l h = refl

-- The state of the grouping loop: the open group, and the hunks that are left.
pub record Open (old_len new_len : ℕ) (g : Group) (rest : List Hunk) : Type 0 where
  pub chain : Chain ((first_of g).before.start - 3) ((first_of g).after.start - 3) (hunks_of g)
  pub left : Aligned old_len new_len g.last.before.end g.last.after.end rest

abbrev pub join : Group → Hunk → Group
join g h = record { init = g.init ++ g.last ∷ []; last = h }

abbrev pub alone : Hunk → Group
alone h = record { init = []; last = h }

pub Open-Level :
    (old_len new_len : ℕ) (g : Group) → Open old_len new_len g [] → Level old_len new_len g
Open-Level old_len new_len g v = record {
  chain = v.chain;
  old_fits = v.left.0;
  new_fits = omega (arith, v.left.0, v.left.1);
  tail = ground (arith, v.left.0, v.left.1);
}

-- The next hunk joins the group, or starts one of its own.
module _ (old_len new_len : ℕ) (g : Group) (h : Hunk) (rest : List Hunk)
    (v : Open old_len new_len g (h ∷ rest)) where
  pub Open-join : Open old_len new_len (join g h) rest
  Open-join = record { chain = joined; left = v.left.1 }
    where
      joined :
          Chain
            ((first_of (join g h)).before.start - 3)
            ((first_of (join g h)).after.start - 3)
            (hunks_of (join g h))
      joined = rw (first-joined g.init g.last h) (Chain-snoc _ _ g.init g.last h v.chain v.left.0)

  fits : (h.before.end ≤ old_len) × (h.after.end ≤ new_len)
  fits = Aligned-fits old_len new_len h.before.end h.after.end rest v.left.1

  pub far : old_len < 2 ^ 32 → merges g h ≡ false → g.last.before.end + 6 < h.before.start
  far small m = ground (arith, m, fits.0, v.left.0.before_valid)

  pub Open-apart :
      old_len < 2 ^ 32
      → merges g h ≡ false
      → Level old_len new_len g × Open old_len new_len (alone h) rest
  Open-apart small m = (
    record {
      chain = v.chain;
      old_fits = omega (arith, fits.0, far small m, v.left.0.before_valid);
      new_fits = omega (arith, fits.1, far small m, v.left.0.level, v.left.0.after_valid);
      tail = ground (
        arith,
        far small m,
        fits.0,
        fits.1,
        v.left.0.level,
        v.left.0.after_valid,
        v.left.0.before_valid,
      );
    },
    record { chain = (link, tt); left = v.left.1 },
  )
    where
      link : Link (h.before.start - 3) (h.after.start - 3) h
      link = record {
        ordered = omega arith;
        level = omega (arith, far small m, v.left.0.level);
        before_valid = v.left.0.before_valid;
        after_valid = v.left.0.after_valid;
      }

grow-Level :
    (old_len new_len : ℕ) (g : Group) (rest : List Hunk)
    → old_len < 2 ^ 32
    → Open old_len new_len g rest
    → All (Level old_len new_len) (grow g rest)
unfolding grow
grow-Level old_len new_len g [] small v = (Open-Level old_len new_len g v, tt)
grow-Level old_len new_len g (h ∷ rest) small v = elim (Bool-cases (merges g h)) [
  | inl m ↦
      rw m (grow-Level old_len new_len (join g h) rest small (Open-join old_len new_len g h rest v))
  | inr m ↦
      let (level, opened) = Open-apart old_len new_len g h rest v small m in
      rw m (level, grow-Level old_len new_len (alone h) rest small opened)
]

-- The group of the first hunk.
pub Open-first :
    (old_len new_len : ℕ) (h : Hunk) (rest : List Hunk)
    → Aligned old_len new_len 0 0 (h ∷ rest)
    → Open old_len new_len (alone h) rest
Open-first old_len new_len h rest (l, left) = record { chain = (first, tt); left = left }
  where
    first : Link (h.before.start - 3) (h.after.start - 3) h
    first = record {
      ordered = omega arith;
      level = omega (arith, l.level);
      before_valid = l.before_valid;
      after_valid = l.after_valid;
    }

-- Every group of an aligned diff has the same number of context lines on both sides.
pub groups-Level :
    (old_len new_len : ℕ) (raw : List Hunk)
    → old_len < 2 ^ 32
    → Aligned old_len new_len 0 0 raw
    → All (Level old_len new_len) (groups raw)
unfolding groups
groups-Level old_len new_len [] small v = tt
groups-Level old_len new_len (h ∷ rest) small v =
    grow-Level old_len new_len (alone h) rest small (Open-first old_len new_len h rest v)
