-- ===== src/Sync/Files/Backups.antt =====
-- How many backups a path keeps, and which is the newest.
use tethys.Prelude.{
  ℕ, zero, suc, ◌-◌, ◌≤◌, ◌<◌, ◌≡◌, refl, String, some, List, [], ◌∷◌, length, drop, arith,
  length-drop, All, ◌∙◌,
}
use tethys.Sync.Files.{backup_retention, add_backup, prune_backups, last}

-- A pruning leaves at most five backups, however many there were.
length-prune_backups :
    (backups : List (ℕ × String)) → length (prune_backups backups) ≤ backup_retention
unfolding prune_backups
length-prune_backups backups =
    omega (arith, length-drop (length backups - backup_retention) backups)

-- Every backup is earlier than the stamp.
abbrev pub Before : ℕ → List (ℕ × String) → Type 0
Before now backups = All (λ (b : ℕ × String). b.0 < now) backups

last-drop : (n : ℕ) (bs : List (ℕ × String)) → n < length bs → last (drop n bs) ≡ last bs
unfolding last
last-drop zero bs h = refl
last-drop (suc n) [] h = absurd (omega arith)
last-drop (suc n) (b ∷ []) h = absurd (omega arith)
last-drop (suc n) (b ∷ c ∷ bs) h = last-drop n (c ∷ bs) (omega arith)

length-add_backup_pos :
    (now : ℕ) (text : String) (bs : List (ℕ × String)) → 0 < length (add_backup now text bs)
unfolding add_backup
length-add_backup_pos now text [] = omega arith
length-add_backup_pos now text ((t, old) ∷ bs) = ground arith

last-cons : (b : ℕ × String) (bs : List (ℕ × String)) → 0 < length bs → last (b ∷ bs) ≡ last bs
unfolding last
last-cons b [] h = absurd (omega arith)
last-cons b (c ∷ bs) h = refl

last-add_backup :
    (now : ℕ) (text : String) (bs : List (ℕ × String))
    → Before now bs
    → last (add_backup now text bs) ≡ some text
unfolding last add_backup
last-add_backup now text [] u = refl
last-add_backup now text ((t, old) ∷ []) (le, u) = ground arith
last-add_backup now text ((t, old) ∷ c ∷ bs) (le, u) = ground (
  arith,
  last-cons (t, old) (add_backup now text (c ∷ bs)) (length-add_backup_pos now text (c ∷ bs)),
  last-add_backup now text (c ∷ bs) u,
)

-- The newest backup after one that is later than all the old ones.
pub last-prune_backups :
    (now : ℕ) (text : String) (bs : List (ℕ × String))
    → Before now bs
    → last (prune_backups (add_backup now text bs)) ≡ some text
unfolding prune_backups
last-prune_backups now text bs u =
    last-drop (length (add_backup now text bs) - 5) (add_backup now text bs)
      (omega (arith, length-add_backup_pos now text bs))
    ∙ last-add_backup now text bs u
