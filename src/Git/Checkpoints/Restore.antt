-- ===== src/Git/Checkpoints/Restore.antt =====
-- crates/tethys-git/src/checkpoint.rs: how a worktree and its index are put back.
use tethys.Prelude.{
  ℕ, String, true, false, ◌&&◌, Option, none, some, string_eq, ◌==◌, if◌then◌else◌,
}
use tethys.Git.Error.{GitError, Run, ◌>>=◌, ◌>>◌, pure, fail, reading}
use tethys.Git.Checkpoints.Names.{turn_ref, restore_ref}
use tethys.Git.Checkpoints.{
  Git, RestorePolicy, RestoreTarget, UndoCapture, RestoreOutcome, validate_thread,
  snapshot_worktree, rev_tree, latest_end_tree, next_restore_index,
}

pub record Target : Type 0 where
  pub thread : String
  pub worktree_tree : String
  pub index_tree : String

abbrev pub or_fail : {R A : Type 0} → GitError → Option A → Run R A
or_fail e none = fail e
or_fail e (some a) = pure a

module _ {R : Type 0} (git : Git R) where
  unfoldable pub resolve_target : RestoreTarget → Run R Target
  unfolding validate_thread turn_ref
  resolve_target (RestoreTarget.checkpoint thread turn phase) = do
    validate_thread git thread
    found ← reading (λ r. git.rev_parse r (turn_ref thread turn phase))
    commit ← or_fail (GitError.checkpoint_not_found (turn_ref thread turn phase)) found
    found_tree ← rev_tree git commit
    tree ← or_fail (GitError.checkpoint_not_found (turn_ref thread turn phase)) found_tree
    pure (record { thread = thread; worktree_tree = tree; index_tree = tree })
  resolve_target (RestoreTarget.trees thread worktree_tree index_tree) = do
    validate_thread git thread
    pure (record { thread = thread; worktree_tree = worktree_tree; index_tree = index_tree })

  -- The guard of a policy.
  unfoldable pub guard_clean : RestorePolicy → String → ℕ → Run R (Unit {0})
  unfolding snapshot_worktree
  guard_clean RestorePolicy.force thread bytes = pure tt
  guard_clean RestorePolicy.require_clean thread bytes = do
    latest ← latest_end_tree git thread
    reference ← or_fail (GitError.restore_blocked "no end checkpoint to compare against") latest
    current ← snapshot_worktree git bytes
    current_index ← reading git.index_tree
    if current.tree == reference && current_index == reference
        then pure tt
        else fail
            (GitError.restore_blocked "worktree or index differs from the latest end checkpoint")

  -- Two trees as commits, under references of their own.
  unfoldable pub write_undo : String → ℕ → String → String → Run R (Unit {0})
  unfolding restore_ref
  write_undo thread next worktree_tree index_tree = do
    worktree_commit ← git.commit_tree worktree_tree none "tethys restore undo (worktree)"
    index_commit ← git.commit_tree index_tree none "tethys restore undo (index)"
    git.update_ref (restore_ref thread next "worktree") worktree_commit
    git.update_ref (restore_ref thread next "index") index_commit

  -- The state before the restore, which is kept.
  unfoldable pub capture : String → ℕ → Run R UndoCapture
  unfolding snapshot_worktree next_restore_index restore_ref write_undo
  capture thread bytes = do
    worktree ← snapshot_worktree git bytes
    index ← reading git.index_tree
    next ← next_restore_index git thread
    write_undo thread next worktree.tree index
    pure (record {
      worktree_ref = restore_ref thread next "worktree";
      index_ref = restore_ref thread next "index";
      worktree_tree = worktree.tree;
      index_tree = index;
    })

  unfoldable pub put_back : String → String → Run R (Unit {0})
  put_back worktree_tree index_tree = do
    git.read_tree true worktree_tree
    if index_tree == worktree_tree then pure tt else git.read_tree false index_tree

  unfoldable pub restore : RestoreTarget → RestorePolicy → ℕ → Run R RestoreOutcome
  unfolding resolve_target guard_clean capture put_back
  restore target policy bytes = do
    trees ← resolve_target target
    guard_clean policy trees.thread bytes
    undo ← capture trees.thread bytes
    put_back trees.worktree_tree trees.index_tree
    pure (record {
      restored_worktree_tree = trees.worktree_tree;
      restored_index_tree = trees.index_tree;
      undo = undo;
    })
