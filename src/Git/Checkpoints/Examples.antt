-- ===== src/Git/Checkpoints/Examples.antt =====
-- A restore of a checkpoint, and of what it captured.
use tethys.Prelude.{arith, String, ◌≡◌, refl, some, [], ◌∷◌, string_eq}
use tethys.Prelude.Assoc.{Assoc}
use tethys.Sync.Document.Sample.Maps.{map_text}
use tethys.Sync.Document.Sample.Spelling.{write_text, read_text}
use tethys.Prelude.Text.{contains_char}
use tethys.Git.Error.{ok, continue}
use tethys.Git.Checkpoints.Names.{
  CheckpointPhase, turn_ref, is_valid_thread, parse_checkpoint_ref, parse_restore_index,
}
use tethys.Git.Checkpoints.RoundTrip.{parse_checkpoint_ref-turn_ref}
use tethys.Git.Checkpoints.{
  RestorePolicy, RestoreTarget, UndoCapture, RestoreOutcome, latest_end_tree, latest_end,
}
use tethys.Git.Checkpoints.Restore.{restore}
use tethys.Git.Checkpoints.Sample.{Repo, sample, files_of, index_of, tree_of, sample-IsGit}
use tethys.Git.Checkpoints.Reversal.{restore-undone}
use tethys.Git.Checkpoints.Clean.{restore-clean}

abbrev one : Assoc String String
one = ("a", "1") ∷ []

abbrev two : Assoc String String
two = ("a", "2") ∷ ("b", "3") ∷ []

abbrev before : Repo
before = record {
  files = two;
  index = one;
  refs = ("refs/tethys/checkpoints/t1/1/end", map_text one) ∷ [];
}

abbrev target : RestoreTarget
target = RestoreTarget.checkpoint "t1" 1 CheckpointPhase.end

abbrev undo : UndoCapture
undo = record {
  worktree_ref = "refs/tethys/checkpoints/t1/restores/0/worktree";
  index_ref = "refs/tethys/checkpoints/t1/restores/0/index";
  worktree_tree = map_text two;
  index_tree = map_text one;
}

abbrev outcome : RestoreOutcome
outcome = record {
  restored_worktree_tree = map_text one;
  restored_index_tree = map_text one;
  undo = undo;
}

abbrev restored : Repo
restored = record {
  files = ("a", "1") ∷ ("b", "3") ∷ [];
  index = one;
  refs =
      ("refs/tethys/checkpoints/t1/1/end", map_text one)
      ∷ ("refs/tethys/checkpoints/t1/restores/0/worktree", map_text two)
      ∷ ("refs/tethys/checkpoints/t1/restores/0/index", map_text one)
      ∷ [];
}

abbrev redo : UndoCapture
redo = record {
  worktree_ref = "refs/tethys/checkpoints/t1/restores/1/worktree";
  index_ref = "refs/tethys/checkpoints/t1/restores/1/index";
  worktree_tree = map_text restored.files;
  index_tree = map_text one;
}

abbrev undone : Repo
undone = record {
  files = two;
  index = one;
  refs =
      ("refs/tethys/checkpoints/t1/1/end", map_text one)
      ∷ ("refs/tethys/checkpoints/t1/restores/0/worktree", map_text two)
      ∷ ("refs/tethys/checkpoints/t1/restores/0/index", map_text one)
      ∷ ("refs/tethys/checkpoints/t1/restores/1/worktree", map_text restored.files)
      ∷ ("refs/tethys/checkpoints/t1/restores/1/index", map_text one)
      ∷ [];
}

restored_from : restore sample target RestorePolicy.force 0 before ≡ (restored, ok outcome)
unfolding restore continue contains_char sample write_text latest_end read_text parse_restore_index
    map_text
restored_from = refl

undone_from :
    restore sample
      (RestoreTarget.trees "t1" (map_text two) (map_text one))
      RestorePolicy.force
      0
      restored
    ≡ (
      undone,
      ok (record {
        restored_worktree_tree = map_text two;
        restored_index_tree = map_text one;
        undo = redo;
      }),
    )
unfolding restore continue contains_char sample write_text latest_end read_text parse_restore_index
    map_text
undone_from = refl

restore-undone_example :
    (files_of undone "a" ≡ files_of before "a") × (index_of undone "a" ≡ index_of before "a")
restore-undone_example =
    restore-undone sample files_of index_of tree_of sample-IsGit "t1" 1 CheckpointPhase.end
      RestorePolicy.force RestorePolicy.force before restored undone outcome
      (record {
        restored_worktree_tree = map_text two;
        restored_index_tree = map_text one;
        undo = redo;
      })
      restored_from undone_from "a"

-- The state is that of the checkpoint.
abbrev clean : Repo
clean = record before { files = one }

abbrev clean_outcome : RestoreOutcome
clean_outcome = record outcome { undo = record undo { worktree_tree = map_text one } }

abbrev clean_after : Repo
clean_after = record restored {
  files = one;
  refs =
      ("refs/tethys/checkpoints/t1/1/end", map_text one)
      ∷ ("refs/tethys/checkpoints/t1/restores/0/worktree", map_text one)
      ∷ ("refs/tethys/checkpoints/t1/restores/0/index", map_text one)
      ∷ [];
}

clean_from :
    restore sample target RestorePolicy.require_clean 0 clean ≡ (clean_after, ok clean_outcome)
unfolding restore continue contains_char sample write_text latest_end read_text parse_restore_index
    map_text
clean_from = refl

restore-clean_example :
    (reference : String) × (latest_end_tree sample "t1" clean ≡ (clean, ok (some reference)))
    × ((p : String)
        → (files_of clean p ≡ tree_of reference p) × (index_of clean p ≡ tree_of reference p))
restore-clean_example =
    restore-clean sample files_of index_of tree_of sample-IsGit target clean clean_after
      clean_outcome clean_from

parse_checkpoint_ref-turn_ref_example :
    parse_checkpoint_ref (turn_ref "t1" 4294967295 CheckpointPhase.end)
    ≡ some (4294967295, CheckpointPhase.end)
unfolding is_valid_thread contains_char
parse_checkpoint_ref-turn_ref_example =
    parse_checkpoint_ref-turn_ref "t1" 4294967295 CheckpointPhase.end refl (omega arith)
