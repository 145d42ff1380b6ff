-- ===== src/Git/Examples.antt =====
-- Tests of the hunks and of their cache, and the theorems at concrete inputs.
use tethys.Prelude.{◌≡◌, refl, String, List, [], ◌∷◌, string_eq, arith, length, All}
use tethys.Git.Hunks.{
  Hunk, PlanLine, token, group_hunks, groups, grow, computed, plan_from, contexts, each,
}
use tethys.Git.Hunks.Aligned.{Aligned}
use tethys.Git.Hunks.Counts.{IsCounted, group_hunks-IsCounted}
use tethys.Git.Hunks.Texts.{Agree, patched}
use tethys.Git.Hunks.Patching.{patched-group_hunks}
use tethys.Git.Hunks.Lines.{strip_suffix, strip_newline}
use tethys.Git.Cache.{DiffCache, insert}
use tethys.Git.Cache.Invariant.{IsValid, insert-IsValid}

abbrev old : List String
old = "a\n" ∷ "b\n" ∷ "c\n" ∷ []

abbrev new : List String
new = "a\n" ∷ "x\n" ∷ "y\n" ∷ "c\n" ∷ []

-- Line 1 of the old text gives way to lines 1 and 2 of the new one.
abbrev change : Hunk
change = record { before = record { start = 1; end = 2 }; after = record { start = 1; end = 3 } }

change-Aligned : Aligned 3 4 0 0 (change ∷ [])
change-Aligned = (
  record {
    ordered = omega arith;
    level = refl;
    before_valid = omega arith;
    after_valid = omega arith;
  },
  (omega arith, refl),
)

change-Agree : Agree old new 0 0 (change ∷ [])
unfolding token
change-Agree = (λ i less. ground (arith, less), λ i less. ground (arith, less))

group_hunks-IsCounted_example : All IsCounted (group_hunks (change ∷ []) 3 4)
group_hunks-IsCounted_example =
    group_hunks-IsCounted 3 4 (change ∷ []) (omega arith) (omega arith) change-Aligned

patched-group_hunks_example :
    patched old new 0 (group_hunks (change ∷ []) (length old) (length new)) ≡ new
patched-group_hunks_example =
    patched-group_hunks old new (change ∷ []) (omega arith) (omega arith) change-Aligned
      change-Agree

one_group :
    group_hunks (change ∷ []) 3 4
    ≡ record {
      old_start = 1;
      old_count = 3;
      new_start = 1;
      new_count = 4;
      plan =
          PlanLine.context 0 0
          ∷ PlanLine.remove 1
          ∷ PlanLine.add 1
          ∷ PlanLine.add 2
          ∷ PlanLine.context 2 3
          ∷ [];
    }
      ∷ []
unfolding group_hunks groups grow computed plan_from contexts each
one_group = refl

abbrev unterminated : List String
unterminated = "a\n" ∷ "b" ∷ []

-- A line without a newline at its end is shown as an empty text.
unterminated_shown : strip_newline unterminated 1 ≡ ""
unfolding strip_newline token strip_suffix
unterminated_shown = refl

abbrev full : DiffCache
full = record { entries = ("k1", []) ∷ ("k2", []) ∷ []; order = "k1" ∷ "k2" ∷ []; capacity = 2 }

insert-IsValid_example : IsValid (insert full "k3" [])
insert-IsValid_example =
    insert-IsValid full "k3" [] (omega arith)
      (record { queued = refl; distinct = ((refl, tt), (tt, tt)); bounded = omega arith })

abbrev known : String
known = "k1"

abbrev fresh : String
fresh = "k3"
