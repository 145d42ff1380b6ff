-- ===== src/Git/Checkpoints/Reversal.antt =====
-- What a restore does to the worktree and the index, and that it can be undone.
use tethys.Prelude.{ℕ, String, ◌≡◌, refl, sym, ap, ◌∙◌, subst, Option, none, some, string_eq, arith}
use tethys.Git.Error.{GitError, GitResult, ok, >>=-eq-ok}
use tethys.Git.Checkpoints.Names.{CheckpointPhase, turn_ref}
use tethys.Git.Checkpoints.{
  Git, RestorePolicy, RestoreTarget, UndoCapture, RestoreOutcome, validate_thread, rev_tree,
}
use tethys.Git.Checkpoints.Restore.{
  Target, or_fail, resolve_target, guard_clean, capture, put_back, restore,
}
use tethys.Git.Checkpoints.Reading.{resolve_target-IsReading, guard_clean-IsReading}
use tethys.Git.Checkpoints.Undo.{IsGit, checked_out, capture-holds, put_back-files}

-- The thread that a target names.
abbrev pub thread_of : RestoreTarget → String
thread_of (RestoreTarget.checkpoint thread turn phase) = thread
thread_of (RestoreTarget.trees thread worktree_tree index_tree) = thread

module _ {R : Type 0} (git : Git R) where
  -- The parts of a restore that succeeded: they start from the repository as it was.
  pub restore-inverted :
      (target : RestoreTarget) (policy : RestorePolicy) (r r' : R) (outcome : RestoreOutcome)
      → restore git target policy 0 r ≡ (r', ok outcome)
      → (trees : Target) × (r₁ : R) × (resolve_target git target r ≡ (r, ok trees))
        × (guard_clean git policy trees.thread 0 r ≡ (r, ok tt))
        × (capture git trees.thread 0 r ≡ (r₁, ok outcome.undo))
        × (put_back git trees.worktree_tree trees.index_tree r₁ ≡ (r', ok tt))
  unfolding restore
  restore-inverted target policy r r' outcome h =
      let (r₁, trees, resolved, h₁) = >>=-eq-ok (resolve_target git target r) _ h in
      let (r₂, _, guarded, h₂) = >>=-eq-ok (guard_clean git policy trees.thread 0 r₁) _ h₁ in
      let (r₃, undo, captured, h₃) = >>=-eq-ok (capture git trees.thread 0 r₂) _ h₂ in
      let (r₄, _, put, h₄) =
        >>=-eq-ok (put_back git trees.worktree_tree trees.index_tree r₃) _ h₃ in
      let same₁ : r₁ ≡ r =
        sym (ap (λ (x : R × GitResult Target). x.0) resolved)
        ∙ resolve_target-IsReading git target r in
      let same₂ : r₂ ≡ r₁ =
        sym (ap (λ (x : R × GitResult (Unit {0})). x.0) guarded)
        ∙ guard_clean-IsReading git policy trees.thread 0 r₁ in
      let is_undo : undo ≡ outcome.undo = ground (arith, h₄) in
      let is_last : r₄ ≡ r' = ap (λ (x : R × GitResult RestoreOutcome). x.0) h₄ in
      (
        trees,
        r₃,
        subst (λ (x : R). resolve_target git target r ≡ (x, ok trees)) same₁ resolved,
        subst (λ (x : R). guard_clean git policy trees.thread 0 x ≡ (x, ok tt)) same₁
            (subst (λ (x : R). guard_clean git policy trees.thread 0 r₁ ≡ (x, ok tt)) same₂
              guarded),
        subst (λ (x : R). capture git trees.thread 0 x ≡ (r₃, ok outcome.undo)) (same₂ ∙ same₁)
            (subst (λ (u : UndoCapture). capture git trees.thread 0 r₂ ≡ (r₃, ok u)) is_undo
              captured),
        subst (λ (x : R). put_back git trees.worktree_tree trees.index_tree r₃ ≡ (x, ok tt)) is_last
            put,
      )

  -- A checkpoint has one tree for the worktree and the index.
  checkpoint_target :
      (thread : String) (turn : ℕ) (phase : CheckpointPhase) (r r' : R) (trees : Target)
      → resolve_target git (RestoreTarget.checkpoint thread turn phase) r ≡ (r', ok trees)
      → trees.index_tree ≡ trees.worktree_tree
  unfolding resolve_target
  checkpoint_target thread turn phase r r' trees h =
      let (r₁, _, _, h₁) = >>=-eq-ok (validate_thread git thread r) _ h in
      let (r₂, found, _, h₂) = >>=-eq-ok (r₁, git.rev_parse r₁ (turn_ref thread turn phase)) _ h₁ in
      let (r₃, commit, _, h₃) =
        >>=-eq-ok (or_fail (GitError.checkpoint_not_found (turn_ref thread turn phase)) found r₂) _
          h₂ in
      let (r₄, found_tree, _, h₄) = >>=-eq-ok (rev_tree git commit r₃) _ h₃ in
      let (r₅, tree, _, h₅) =
        >>=-eq-ok
          (or_fail (GitError.checkpoint_not_found (turn_ref thread turn phase)) found_tree r₄) _
          h₄ in
      ground (arith, h₅)

  -- The thread of a target is the one that it names.
  pub thread-resolve_target :
      (target : RestoreTarget) (r r' : R) (trees : Target)
      → resolve_target git target r ≡ (r', ok trees)
      → trees.thread ≡ thread_of target
  unfolding resolve_target
  thread-resolve_target (RestoreTarget.checkpoint thread turn phase) r r' trees h =
      let (r₁, _, _, h₁) = >>=-eq-ok (validate_thread git thread r) _ h in
      let (r₂, found, _, h₂) = >>=-eq-ok (r₁, git.rev_parse r₁ (turn_ref thread turn phase)) _ h₁ in
      let (r₃, commit, _, h₃) =
        >>=-eq-ok (or_fail (GitError.checkpoint_not_found (turn_ref thread turn phase)) found r₂) _
          h₂ in
      let (r₄, found_tree, _, h₄) = >>=-eq-ok (rev_tree git commit r₃) _ h₃ in
      let (r₅, tree, _, h₅) =
        >>=-eq-ok
          (or_fail (GitError.checkpoint_not_found (turn_ref thread turn phase)) found_tree r₄) _
          h₄ in
      ground (arith, h₅)
  thread-resolve_target (RestoreTarget.trees thread w i) r r' trees h =
      let (r₁, _, _, h₁) = >>=-eq-ok (validate_thread git thread r) _ h in ground (arith, h₁)

  trees_target :
      (thread w i : String) (r r' : R) (trees : Target)
      → resolve_target git (RestoreTarget.trees thread w i) r ≡ (r', ok trees)
      → (trees.worktree_tree ≡ w) × (trees.index_tree ≡ i)
  unfolding resolve_target
  trees_target thread w i r r' trees h =
      let (r₁, _, _, h₁) = >>=-eq-ok (validate_thread git thread r) _ h in
      (ground (arith, h₁), ground (arith, h₁))

  module _ (files index : R → String → Option String) (tree : String → String → Option String)
      (laws : IsGit git files index tree) where
    -- Where git behaves as documented and no binary is skipped: once a restore of a checkpoint
    -- succeeded, a restore of the trees that it captured, if it succeeds, brings back every file and
    -- every entry of the index as they were.
    pub restore-undone :
        (thread : String) (turn : ℕ) (phase : CheckpointPhase) (policy policy' : RestorePolicy)
        (r r₁ r₂ : R) (outcome outcome' : RestoreOutcome)
        → restore git (RestoreTarget.checkpoint thread turn phase) policy 0 r ≡ (r₁, ok outcome)
        → restore git
            (RestoreTarget.trees thread outcome.undo.worktree_tree outcome.undo.index_tree)
            policy'
            0
            r₁
          ≡ (r₂, ok outcome')
        → (p : String) → (files r₂ p ≡ files r p) × (index r₂ p ≡ index r p)
    restore-undone thread turn phase policy policy' r r₁ r₂ outcome outcome' first second p =
        let (trees, c₁, resolved, _, captured, put) =
          restore-inverted (RestoreTarget.checkpoint thread turn phase) policy r r₁ outcome first in
        let (trees', c₂, resolved', _, captured', put') =
          restore-inverted
            (RestoreTarget.trees thread outcome.undo.worktree_tree outcome.undo.index_tree) policy'
            r₁ r₂ outcome' second in
        let one = checkpoint_target thread turn phase r r trees resolved in
        let (is_worktree, is_index) =
          trees_target thread outcome.undo.worktree_tree outcome.undo.index_tree r₁ r₁ trees'
            resolved' in
        let (same, holds) =
          capture-holds git files index tree laws trees.thread r c₁ outcome.undo captured in
        let (same', _) =
          capture-holds git files index tree laws trees'.thread r₁ c₂ outcome'.undo captured' in
        let (files₁, index₁) =
          put_back-files git files index tree laws trees.worktree_tree trees.index_tree c₁ r₁ put
            p in
        let (files₂, index₂) =
          put_back-files git files index tree laws trees'.worktree_tree trees'.index_tree c₂ r₂ put'
            p in
        let kept : tree trees'.worktree_tree p ≡ files r p =
          ap (λ t. tree t p) is_worktree ∙ (holds p).0 in
        (
          files₂
              ∙ back (tree trees.worktree_tree p) (index r p) (files r p)
                  (tree trees'.worktree_tree p) (index c₂ p) (files c₂ p) kept
                  ((same' p).1 ∙ index₁ ∙ ap (λ t. tree t p) one)
                  ((same' p).0
                    ∙ files₁
                    ∙ ap (λ i. checked_out (tree trees.worktree_tree p) i (files c₁ p)) (same p).1
                    ∙ ap (λ f. checked_out (tree trees.worktree_tree p) (index r p) f) (same p).0),
          index₂ ∙ ap (λ t. tree t p) is_index ∙ (holds p).1,
        )
      where
        back :
            (t i f w i' f' : Option String)
            → w ≡ f
            → i' ≡ t
            → f' ≡ checked_out t i f
            → checked_out w i' f' ≡ f
        back t i (some x) w i' f' is_f is_t is_out = rw is_f refl
        back (some y) i none w i' f' is_f is_t is_out = rw (is_f, is_t) refl
        back none (some z) none w i' f' is_f is_t is_out = rw (is_f, is_t, is_out) refl
        back none none none w i' f' is_f is_t is_out = rw (is_f, is_t, is_out) refl
