-- ===== src/Git/Checkpoints.antt =====
-- crates/tethys-git/src/checkpoint.rs: the checkpoints of a thread's turns, and how a worktree is put
-- back to one. A `Git` is what the code asks git for, over repositories of a type `R`.
pub mod Names
pub mod Restore
pub mod Undo
pub mod Reading
pub mod RoundTrip
pub mod Reversal
pub mod Clean
pub mod Sample
mod Examples
use tethys.Prelude.{
  ℕ, ◌%◌, ◌^◌, zero, suc, ◌+◌, ◌*◌, String, push_str, Bool, true, false, not, ◌&&◌, ◌||◌, Option,
  none, some, List, [], ◌∷◌, ltb, leb, max, string_eq, ◌==◌, if◌then◌else◌, map, unwrap_or,
}
use tethys.Prelude.Assoc.{first_some}
use tethys.Git.Error.{GitError, GitResult, ok, err, Run, ◌>>=◌, ◌>>◌, pure, fail, reading}
use tethys.Git.Checkpoints.Names.{
  CheckpointPhase, checkpoint_prefix, turn_ref, restore_ref, thread_prefix, restore_prefix,
  parse_checkpoint_ref, parse_restore_index, is_valid_thread,
}

pub record StatusEntry : Type 0 where
  pub path : String
  pub untracked : Bool
  pub staged : Bool
  pub worktree_changed : Bool

pub record RefEntry : Type 0 where
  pub refname : String
  pub oid : Option String
  pub tree : Option String
  pub created_at_unix : ℕ

-- What the code sees of an untracked file: whether it is a regular file, its length, and what the
-- first read returns, if it can be opened and read.
pub record FileFacts : Type 0 where
  pub is_file : Bool
  pub len : ℕ
  pub sniffed : Option (List ℕ)

pub record Git (R : Type 0) : Type 0 where
  -- `git check-ref-format`
  pub check_ref_format : String → Bool
  -- `git status`, of every changed path
  pub status_entries : R → GitResult (List StatusEntry)
  pub metadata : R → String → Option FileFacts
  -- `git add -A` of paths over a copy of the index, and `git write-tree` of it
  pub snapshot_tree : R → List String → GitResult String
  -- `git write-tree`
  pub index_tree : R → GitResult String
  -- `git rev-parse`
  pub rev_parse : R → String → GitResult (Option String)
  -- `git for-each-ref`, of the references with a prefix
  pub list_refs : R → String → GitResult (List RefEntry)
  -- `git commit-tree`
  pub commit_tree : String → Option String → String → Run R String
  -- `git update-ref`
  pub update_ref : String → String → Run R (Unit {0})
  -- `git read-tree --reset`, with `-u` or without
  pub read_tree : Bool → String → Run R (Unit {0})

pub record Snapshot : Type 0 where
  pub tree : String
  pub skipped : List String

pub record CheckpointInfo : Type 0 where
  pub thread_id : String
  pub turn : ℕ
  pub phase : CheckpointPhase
  pub commit_oid : String
  pub tree_oid : String
  pub created_at_ms : ℕ

pub record CheckpointResult : Type 0 where
  pub thread_id : String
  pub turn : ℕ
  pub phase : CheckpointPhase
  pub ref_name : String
  pub commit_oid : String
  pub tree_oid : String
  pub skipped : List String

pub data RestorePolicy : Type 0 where
  require_clean force : RestorePolicy

pub data RestoreTarget : Type 0 where
  checkpoint : String → ℕ → CheckpointPhase → RestoreTarget
  trees : String → String → String → RestoreTarget

pub record UndoCapture : Type 0 where
  pub worktree_ref : String
  pub index_ref : String
  pub worktree_tree : String
  pub index_tree : String

pub record RestoreOutcome : Type 0 where
  pub restored_worktree_tree : String
  pub restored_index_tree : String
  pub undo : UndoCapture

unfoldable pub holds_zero : List ℕ → Bool
holds_zero [] = false
holds_zero (b ∷ bytes) = if leb b 0 then true else holds_zero bytes

abbrev pub is_large_binary : ℕ → FileFacts → Bool
is_large_binary threshold facts =
    if not facts.is_file || leb facts.len threshold
    then false
    else elim facts.sniffed [ none ↦ false | some bytes ↦ holds_zero bytes ]

unfoldable pub phase_rank : CheckpointPhase → ℕ
phase_rank CheckpointPhase.start = 0
phase_rank CheckpointPhase.end = 1

abbrev pub is_end : CheckpointPhase → Bool
is_end CheckpointPhase.start = false
is_end CheckpointPhase.end = true

-- The order of the pairs of turn and phase.
unfoldable pub info_le : CheckpointInfo → CheckpointInfo → Bool
unfolding phase_rank
info_le a b =
    if ltb a.turn b.turn
    then true
    else if ltb b.turn a.turn
    then false
    else leb (phase_rank a.phase) (phase_rank b.phase)

-- `sort_by_key` keeps the order of equal keys.
unfoldable pub insert_info : CheckpointInfo → List CheckpointInfo → List CheckpointInfo
unfolding info_le
insert_info a [] = a ∷ []
insert_info a (b ∷ infos) =
    let rest = insert_info a infos in if info_le a b then a ∷ b ∷ infos else b ∷ rest

unfoldable pub sort_infos : List CheckpointInfo → List CheckpointInfo
unfolding insert_info
sort_infos [] = []
sort_infos (a ∷ infos) = insert_info a (sort_infos infos)

-- `rfind`, of the end checkpoints.
unfoldable pub last_end : List CheckpointInfo → Option CheckpointInfo
last_end [] = none
last_end (a ∷ infos) = first_some (last_end infos) (if is_end a.phase then some a else none)

-- The greatest index of the references of restores, so far.
unfoldable pub greatest_index : String → List RefEntry → Option ℕ → Option ℕ
greatest_index prefix [] greatest = greatest
greatest_index prefix (entry ∷ entries) greatest =
    greatest_index prefix entries (elim (parse_restore_index prefix entry.refname) [
      | none ↦ greatest
      | some index ↦ some (elim greatest [ none ↦ index | some current ↦ max current index ])
    ])

module _ {R : Type 0} (git : Git R) where
  unfoldable pub validate_thread : String → Run R (Unit {0})
  unfolding is_valid_thread
  validate_thread thread =
      if is_valid_thread thread && git.check_ref_format (turn_ref thread 0 CheckpointPhase.end)
      then pure tt
      else fail (GitError.invalid_argument (push_str "invalid thread id: " thread))

  unfoldable pub should_skip_untracked : R → String → ℕ → Bool
  unfolding holds_zero
  should_skip_untracked r path threshold = elim (git.metadata r path) [
    | none ↦ false
    | some facts ↦ is_large_binary threshold facts
  ]

  -- The paths that are added, and those that are skipped.
  unfoldable pub divide : R → ℕ → List StatusEntry → List String × List String
  unfolding should_skip_untracked
  divide r bytes [] = ([], [])
  divide r bytes (entry ∷ entries) =
      let (paths, skipped) = divide r bytes entries in
      if entry.untracked && ltb 0 bytes && should_skip_untracked r entry.path bytes
      then (paths, entry.path ∷ skipped)
      else (entry.path ∷ paths, skipped)

  unfoldable pub snapshot_worktree : ℕ → Run R Snapshot
  unfolding divide
  snapshot_worktree bytes = do
    entries ← reading git.status_entries
    tree ← reading (λ r. git.snapshot_tree r (divide r bytes entries).0)
    reading (λ r. ok (record { tree = tree; skipped = (divide r bytes entries).1 }))

  abbrev pub rev_tree : String → Run R (Option String)
  rev_tree rev = reading (λ r. git.rev_parse r (push_str rev "^{tree}"))

  abbrev pub tree_oid : RefEntry → String → Run R String
  tree_oid entry commit = elim entry.tree [
    | some tree ↦ pure tree
    | none ↦ (rev_tree commit >>= λ tree. pure (unwrap_or "" tree))
  ]

  unfoldable pub infos_of : String → List RefEntry → Run R (List CheckpointInfo)
  unfolding parse_checkpoint_ref
  infos_of thread [] = pure []
  infos_of thread (entry ∷ entries) =
      let others = infos_of thread entries in
      elim (parse_checkpoint_ref entry.refname) [
        | none ↦ others
        | some (turn, phase) ↦ elim entry.oid [
          | none ↦ others
          | some commit ↦ do
            tree ← tree_oid entry commit
            infos ← others
            pure (
                record {
                  thread_id = thread;
                  turn = turn;
                  phase = phase;
                  commit_oid = commit;
                  tree_oid = tree;
                  created_at_ms = entry.created_at_unix * 1000;
                }
                ∷ infos)
        ]
      ]

  unfoldable pub list : String → Run R (List CheckpointInfo)
  unfolding validate_thread infos_of sort_infos
  list thread = do
    validate_thread thread
    entries ← reading (λ r. git.list_refs r (thread_prefix thread))
    infos ← infos_of thread entries
    pure (sort_infos infos)

  unfoldable pub latest_end : String → Run R (Option CheckpointInfo)
  unfolding list last_end
  latest_end thread = list thread >>= λ infos. pure (last_end infos)

  abbrev pub latest_end_commit : String → Run R (Option String)
  latest_end_commit thread =
      latest_end thread >>= λ info. pure (elim info [ none ↦ none | some i ↦ some i.commit_oid ])

  abbrev pub latest_end_tree : String → Run R (Option String)
  latest_end_tree thread =
      latest_end thread >>= λ info. pure (elim info [ none ↦ none | some i ↦ some i.tree_oid ])

  unfoldable pub parent_of : String → ℕ → CheckpointPhase → Run R (Option String)
  unfolding latest_end turn_ref
  parent_of thread turn CheckpointPhase.start = latest_end_commit thread
  parent_of thread turn CheckpointPhase.end = do
    start ← reading (λ r. git.rev_parse r (turn_ref thread turn CheckpointPhase.start))
    elim start [ none ↦ latest_end_commit thread | some oid ↦ pure (some oid) ]

  -- `head` is the commit of HEAD when the repository was opened, `message` the commit's.
  unfoldable pub create :
      Option String
      → (String → ℕ → CheckpointPhase → String)
      → String
      → ℕ
      → CheckpointPhase
      → ℕ
      → Run R CheckpointResult
  unfolding validate_thread parent_of snapshot_worktree turn_ref
  create head message thread turn phase bytes = do
    validate_thread thread
    parent ← parent_of thread turn phase
    snapshot ← snapshot_worktree bytes
    commit ← git.commit_tree snapshot.tree (first_some parent head) (message thread turn phase)
    git.update_ref (turn_ref thread turn phase) commit
    pure (record {
      thread_id = thread;
      turn = turn;
      phase = phase;
      ref_name = turn_ref thread turn phase;
      commit_oid = commit;
      tree_oid = snapshot.tree;
      skipped = snapshot.skipped;
    })

  -- A `u32`, that is added to.
  unfoldable pub next_restore_index : String → Run R ℕ
  unfolding greatest_index
  next_restore_index thread = do
    entries ← reading (λ r. git.list_refs r (restore_prefix thread))
    pure (elim (greatest_index (restore_prefix thread) entries none) [
      | none ↦ 0
      | some greatest ↦ (greatest + 1) % 2 ^ 32
    ])
