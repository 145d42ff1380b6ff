-- ===== src/Git/Checkpoints/Clean.antt =====
-- A restore that asks for a clean state loses nothing.
use tethys.Prelude.{
  String, Bool, true, false, ◌&&◌, ◌≡◌, refl, sym, ap, ◌∙◌, subst, Option, none, some, string_eq,
  ◌==◌, if◌then◌else◌, arith, eq_iff,
}
use tethys.Git.Error.{GitError, GitResult, ok, pure, fail, >>=-eq-ok}
use tethys.Git.Checkpoints.{
  Git, RestorePolicy, RestoreTarget, RestoreOutcome, snapshot_worktree, latest_end_tree,
}
use tethys.Git.Checkpoints.Restore.{or_fail, guard_clean, restore}
use tethys.Git.Checkpoints.Reading.{latest_end_tree-IsReading}
use tethys.Git.Checkpoints.Undo.{IsGit, snapshot_worktree-files}
use tethys.Git.Checkpoints.Reversal.{thread_of, thread-resolve_target, restore-inverted}

both_true : (a b : Bool) → (a && b) ≡ true → (a ≡ true) × (b ≡ true)
both_true true true h = (refl, refl)
both_true true false h = (refl, h)
both_true false b h = absurd (ground (arith, h))

module _ {R : Type 0} (git : Git R) where
  or_fail-ok :
      {A : Type 0} (e : GitError) (o : Option A) (r r' : R) (a : A)
      → or_fail e o r ≡ (r', ok a)
      → (o ≡ some a) × (r ≡ r')
  or_fail-ok e none r r' a h = absurd (ground (arith, h))
  or_fail-ok e (some b) r r' a h = (ground (arith, h), ground (arith, h))

  module _ (files index : R → String → Option String) (tree : String → String → Option String)
      (laws : IsGit git files index tree) where
    guard_clean-clean :
        (thread : String) (r r' : R)
        → guard_clean git RestorePolicy.require_clean thread 0 r ≡ (r', ok tt)
        → (reference : String) × (latest_end_tree git thread r ≡ (r, ok (some reference)))
          × ((p : String) → (files r p ≡ tree reference p) × (index r p ≡ tree reference p))
    unfolding guard_clean
    guard_clean-clean thread r r' h =
        let (r₁, latest, ended, h₁) = >>=-eq-ok (latest_end_tree git thread r) _ h in
        let (r₂, reference, given, h₂) =
          >>=-eq-ok
            (or_fail (GitError.restore_blocked "no end checkpoint to compare against") latest r₁) _
            h₁ in
        let (r₃, current, snapped, h₃) = >>=-eq-ok (snapshot_worktree git 0 r₂) _ h₂ in
        let (r₄, i, indexed, h₄) = >>=-eq-ok (r₃, git.index_tree r₃) _ h₃ in
        let (is_latest, same₂) = or_fail-ok _ latest r₁ r₂ reference given in
        let (same₃, holds) =
          snapshot_worktree-files git files index tree laws r₂ r₃ current snapped in
        let same₁ : r₁ ≡ r =
          sym (ap (λ (x : R × GitResult (Option String)). x.0) ended)
          ∙ latest_end_tree-IsReading git thread r in
        let (worktree_same, index_same) =
          both_true (current.tree == reference) (i == reference)
            (go (current.tree == reference && i == reference) r₄ r' h₄) in
        (
          reference,
          subst (λ (x : R). latest_end_tree git thread r ≡ (x, ok (some reference))) same₁
              (subst (λ o. latest_end_tree git thread r ≡ (r₁, ok o)) is_latest ended),
          λ p.
              let before : r₂ ≡ r = sym same₂ ∙ same₁ in
              (
                sym (ap (λ (x : R). files x p) before)
                    ∙ sym (holds p)
                    ∙ ap (λ u. tree u p) ((eq_iff current.tree reference).0 worktree_same),
                sym (ap (λ (x : R). index x p) (same₃ ∙ before))
                    ∙ sym (
                        laws.index_tree-index r₃ i (ap (λ (x : R × GitResult String). x.1) indexed)
                          p)
                    ∙ ap (λ u. tree u p) ((eq_iff i reference).0 index_same),
              ),
        )
      where
        go :
            (b : Bool) (a s : R)
            → (if b
                  then pure tt
                  else fail (
                      GitError.restore_blocked
                        "worktree or index differs from the latest end checkpoint"))
                a
              ≡ (s, ok tt)
            → b ≡ true
        go true a s e = refl
        go false a s e = absurd (ground (arith, e))

    -- Where git behaves as documented and no binary is skipped: if a restore that requires a clean
    -- state succeeds, the thread of its target had a latest end checkpoint, and every file and every
    -- entry of the index were as in the tree of that checkpoint.
    pub restore-clean :
        (target : RestoreTarget) (r r' : R) (outcome : RestoreOutcome)
        → restore git target RestorePolicy.require_clean 0 r ≡ (r', ok outcome)
        → (reference : String) × (latest_end_tree git (thread_of target) r
            ≡ (r, ok (some reference)))
          × ((p : String) → (files r p ≡ tree reference p) × (index r p ≡ tree reference p))
    restore-clean target r r' outcome h =
        let (trees, c, resolved, guarded, _, _) =
          restore-inverted git target RestorePolicy.require_clean r r' outcome h in
        let (reference, ended, same) = guard_clean-clean trees.thread r r guarded in
        (
          reference,
          subst (λ thread. latest_end_tree git thread r ≡ (r, ok (some reference)))
              (thread-resolve_target git target r r trees resolved) ended,
          same,
        )
