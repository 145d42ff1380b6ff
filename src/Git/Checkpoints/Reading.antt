-- ===== src/Git/Checkpoints/Reading.antt =====
-- The runs that only read the repository.
use tethys.Prelude.{
  ℕ, String, ◌&&◌, ◌≡◌, refl, ◌∙◌, Option, none, some, List, [], ◌∷◌, inl, inr, Bool-cases,
  Option-cases, string_eq, ◌==◌, unwrap_or,
}
use tethys.Git.Error.{GitError, GitResult, ok, err, Run, ◌>>=◌, pure, reading, continue}
use tethys.Git.Checkpoints.Names.{
  CheckpointPhase, turn_ref, parse_checkpoint_ref, is_valid_thread, thread_prefix,
}
use tethys.Git.Checkpoints.{
  Git, RefEntry, RestorePolicy, RestoreTarget, validate_thread, snapshot_worktree, rev_tree,
  tree_oid, infos_of, list, latest_end, latest_end_tree, divide,
}
use tethys.Git.Checkpoints.Restore.{or_fail, resolve_target, guard_clean}

-- Whatever it returns, the repository is as before.
abbrev pub IsReading : {R A : Type 0} → Run R A → Type 0
IsReading {R = R} m = (r : R) → (m r).0 ≡ r

bind-IsReading :
    {R A B : Type 0} (m : Run R A) (f : A → Run R B)
    → IsReading m
    → ((a : A) → IsReading (f a))
    → IsReading (m >>= f)
unfolding continue
bind-IsReading {R = R} {A} {B} m f reads rest r = go (m r) (reads r)
  where
    go : (x : R × GitResult A) → x.0 ≡ r → (continue f x).0 ≡ r
    go (s, err e) same = same
    go (s, ok a) same = rest a s ∙ same

module _ {R : Type 0} (git : Git R) where
  validate_thread-IsReading : (thread : String) → IsReading (validate_thread git thread)
  unfolding validate_thread
  validate_thread-IsReading thread r =
      elim (Bool-cases
        (is_valid_thread thread && git.check_ref_format (turn_ref thread 0 CheckpointPhase.end))) [
          | inl valid ↦ rw valid refl
          | inr invalid ↦ rw invalid refl
        ]

  tree_oid-IsReading : (entry : RefEntry) (commit : String) → IsReading (tree_oid git entry commit)
  tree_oid-IsReading entry commit = go entry.tree
    where
      go :
          (t : Option String)
          → IsReading {R = R} (elim t [
            | some tree ↦ pure tree
            | none ↦ (rev_tree git commit >>= λ tree. pure (unwrap_or "" tree))
          ])
      go (some tree) = λ r. refl
      go none = bind-IsReading (rev_tree git commit) _ (λ r. refl) (λ tree r. refl)

  infos_of-IsReading :
      (thread : String) (entries : List RefEntry) → IsReading (infos_of git thread entries)
  unfolding infos_of
  infos_of-IsReading thread [] = λ r. refl
  infos_of-IsReading thread (entry ∷ entries) =
      let others = infos_of-IsReading thread entries in
      elim (Option-cases (parse_checkpoint_ref entry.refname)) [
        | inl other ↦ rw other others
        | inr ((turn, phase), named) ↦ elim (Option-cases entry.oid) [
          | inl without ↦ rw (named, without) others
          | inr (commit, with_oid) ↦
              rw (named, with_oid)
                (bind-IsReading (tree_oid git entry commit) _ (tree_oid-IsReading entry commit)
                  (λ tree. bind-IsReading (infos_of git thread entries) _ others (λ infos r. refl)))
        ]
      ]

  list-IsReading : (thread : String) → IsReading (list git thread)
  unfolding list
  list-IsReading thread =
      bind-IsReading (validate_thread git thread) _ (validate_thread-IsReading thread) λ _.
        bind-IsReading (reading (λ r. git.list_refs r (thread_prefix thread))) _ (λ r. refl)
          λ entries.
            bind-IsReading (infos_of git thread entries) _ (infos_of-IsReading thread entries)
              (λ infos r. refl)

  pub latest_end_tree-IsReading : (thread : String) → IsReading (latest_end_tree git thread)
  unfolding latest_end
  latest_end_tree-IsReading thread =
      bind-IsReading (latest_end git thread) _
        (bind-IsReading (list git thread) _ (list-IsReading thread) (λ infos r. refl))
        (λ info r. refl)

  pub snapshot_worktree-IsReading : (bytes : ℕ) → IsReading (snapshot_worktree git bytes)
  unfolding snapshot_worktree
  snapshot_worktree-IsReading bytes =
      bind-IsReading (reading git.status_entries) _ (λ r. refl)
        λ entries.
          bind-IsReading (reading (λ r. git.snapshot_tree r (divide git r bytes entries).0)) _
            (λ r. refl) (λ tree r. refl)

  or_fail-IsReading : {A : Type 0} (e : GitError) (o : Option A) → IsReading {R = R} (or_fail e o)
  or_fail-IsReading e none r = refl
  or_fail-IsReading e (some a) r = refl

  pub resolve_target-IsReading : (target : RestoreTarget) → IsReading (resolve_target git target)
  unfolding resolve_target
  resolve_target-IsReading (RestoreTarget.checkpoint thread turn phase) =
      bind-IsReading (validate_thread git thread) _ (validate_thread-IsReading thread) λ _.
        bind-IsReading (reading (λ r. git.rev_parse r (turn_ref thread turn phase))) _ (λ r. refl)
          λ found. bind-IsReading (or_fail _ found) _ (or_fail-IsReading _ found) λ commit.
            bind-IsReading (rev_tree git commit) _ (λ r. refl)
              λ found_tree.
                bind-IsReading (or_fail _ found_tree) _ (or_fail-IsReading _ found_tree)
                  (λ tree r. refl)
  resolve_target-IsReading (RestoreTarget.trees thread w i) =
      bind-IsReading (validate_thread git thread) _ (validate_thread-IsReading thread) (λ _ r. refl)

  pub guard_clean-IsReading :
      (policy : RestorePolicy) (thread : String) (bytes : ℕ)
      → IsReading (guard_clean git policy thread bytes)
  unfolding guard_clean
  guard_clean-IsReading RestorePolicy.force thread bytes = λ r. refl
  guard_clean-IsReading RestorePolicy.require_clean thread bytes =
      bind-IsReading (latest_end_tree git thread) _ (latest_end_tree-IsReading thread) λ latest.
        bind-IsReading (or_fail _ latest) _ (or_fail-IsReading _ latest) λ reference.
          bind-IsReading (snapshot_worktree git bytes) _ (snapshot_worktree-IsReading bytes)
            λ current.
              bind-IsReading (reading git.index_tree) _ (λ r. refl)
                λ index r. elim (Bool-cases (current.tree == reference && index == reference)) [
                  | inl clean ↦ rw clean refl
                  | inr dirty ↦ rw dirty refl
                ]
