-- ===== src/Git/Checkpoints/Undo.antt =====
-- A restore can be undone.
use tethys.Prelude.{
  ℕ, String, true, false, ◌≡◌, refl, sym, ap, ◌∙◌, subst, inl, inr, Option, none, some, List, [],
  ◌∷◌, map, string_eq, ◌==◌, arith, eq_iff, Bool-cases,
}
use tethys.Git.Error.{GitResult, ok, continue, >>=-eq-ok, Result-cases}
use tethys.Git.Checkpoints.Names.{restore_ref, restore_prefix}
use tethys.Git.Checkpoints.{
  Git, StatusEntry, Snapshot, UndoCapture, snapshot_worktree, next_restore_index, divide,
}
use tethys.Git.Checkpoints.Restore.{capture, put_back, write_undo}

-- A path after `git read-tree -u --reset` of a tree: as in the tree; or gone, where the index had it;
-- or left alone.
abbrev pub checked_out : Option String → Option String → Option String → Option String
checked_out (some blob) index file = some blob
checked_out none (some blob) file = none
checked_out none none file = file

-- What git documents of its commands: `files` and `index` are the contents of the worktree, less the
-- ignored files, and of the index, and `tree` those of a tree, by path.
pub record IsGit {R : Type 0} (git : Git R) (files index : R → String → Option String)
    (tree : String → String → Option String) : Type 0 where
  pub snapshot-files :
      (r : R) (entries : List StatusEntry) (t : String)
      → git.status_entries r ≡ ok entries
      → git.snapshot_tree r (map (λ (e : StatusEntry). e.path) entries) ≡ ok t
      → (p : String) → tree t p ≡ files r p
  pub index_tree-index :
      (r : R) (t : String) → git.index_tree r ≡ ok t → (p : String) → tree t p ≡ index r p
  pub commit_tree-kept :
      (r : R) (t : String) (parent : Option String) (message p : String)
      → let r' = (git.commit_tree t parent message r).0 in
        (files r' p ≡ files r p) × (index r' p ≡ index r p)
  pub update_ref-kept :
      (r : R) (name oid p : String)
      → let r' = (git.update_ref name oid r).0 in
        (files r' p ≡ files r p) × (index r' p ≡ index r p)
  pub read_tree-update :
      (r r' : R) (t : String)
      → git.read_tree true t r ≡ (r', ok tt)
      → (p : String)
      → (files r' p ≡ checked_out (tree t p) (index r p) (files r p)) × (index r' p ≡ tree t p)
  pub read_tree-index :
      (r r' : R) (t : String)
      → git.read_tree false t r ≡ (r', ok tt)
      → (p : String) → (files r' p ≡ files r p) × (index r' p ≡ tree t p)

module _ {R : Type 0} (git : Git R) (files index : R → String → Option String)
    (tree : String → String → Option String) (laws : IsGit git files index tree) where
  -- Without a limit on binaries no path is skipped.
  divide-all :
      (r : R) (entries : List StatusEntry)
      → (divide git r 0 entries).0 ≡ map (λ (e : StatusEntry). e.path) entries
  unfolding divide
  divide-all r [] = refl
  divide-all r (e ∷ entries) = elim (Bool-cases e.untracked) [
    | inl u ↦ rw u (ap (λ ps. e.path ∷ ps) (divide-all r entries))
    | inr t ↦ rw t (ap (λ ps. e.path ∷ ps) (divide-all r entries))
  ]

  pub snapshot_worktree-files :
      (r r' : R) (s : Snapshot)
      → snapshot_worktree git 0 r ≡ (r', ok s)
      → (r' ≡ r) × ((p : String) → tree s.tree p ≡ files r p)
  unfolding snapshot_worktree continue
  snapshot_worktree-files r r' s h = elim (Result-cases (git.status_entries r)) [
    | inl (e, failed) ↦ absurd (ground (arith, failed, h))
    | inr (entries, status) ↦ elim (Result-cases (git.snapshot_tree r (divide git r 0 entries).0)) [
      | inl (e, failed) ↦ absurd (ground (arith, status, failed, h))
      | inr (t, snapped) ↦ (
        ground (arith, status, snapped, h),
        λ p.
            let is_tree : s.tree ≡ t = ground (arith, status, snapped, h) in
            ap (λ u. tree u p) is_tree
            ∙ laws.snapshot-files r entries t status
                (subst (λ ps. git.snapshot_tree r ps ≡ ok t) (divide-all r entries) snapped) p,
      )
    ]
  ]

  -- Both contents are the same, path by path.
  abbrev pub Same : R → R → Type 0
  Same r r' = (p : String) → (files r' p ≡ files r p) × (index r' p ≡ index r p)

  Same-then : (a b c : R) → Same a b → Same b c → Same a c
  Same-then a b c x y p = ((y p).0 ∙ (x p).0, (y p).1 ∙ (x p).1)

  next_restore_index-kept :
      (thread : String) (r r' : R) (n : ℕ) → next_restore_index git thread r ≡ (r', ok n) → r' ≡ r
  unfolding next_restore_index continue
  next_restore_index-kept thread r r' n h =
      elim (Result-cases (git.list_refs r (restore_prefix thread))) [
        | inl (e, failed) ↦ absurd (ground (arith, failed, h))
        | inr (entries, found) ↦ ground (arith, found, h)
      ]

  write_undo-kept :
      (thread : String) (n : ℕ) (w i : String) (r r' : R)
      → write_undo git thread n w i r ≡ (r', ok tt)
      → Same r r'
  unfolding write_undo
  write_undo-kept thread n w i r r' h =
      let (r₁, c, committed, h₁) =
        >>=-eq-ok (git.commit_tree w none "tethys restore undo (worktree)" r) _ h in
      let (r₂, d, committed', h₂) =
        >>=-eq-ok (git.commit_tree i none "tethys restore undo (index)" r₁) _ h₁ in
      let (r₃, _, named, h₃) =
        >>=-eq-ok (git.update_ref (restore_ref thread n "worktree") c r₂) _ h₂ in
      Same-then r r₁ r' (commit r r₁ w _ c committed) (
        Same-then r₁ r₂ r' (commit r₁ r₂ i _ d committed')
          (Same-then r₂ r₃ r' (name r₂ r₃ _ c named) (name r₃ r' _ d h₃)))
    where
      commit :
          (a b : R) (t message oid : String)
          → git.commit_tree t none message a ≡ (b, ok oid)
          → Same a b
      commit a b t message oid e p =
          subst (λ (x : R). (files x p ≡ files a p) × (index x p ≡ index a p))
            (ap (λ (x : R × GitResult String). x.0) e) (laws.commit_tree-kept a t none message p)

      name : (a b : R) (ref oid : String) → git.update_ref ref oid a ≡ (b, ok tt) → Same a b
      name a b ref oid e p =
          subst (λ (x : R). (files x p ≡ files a p) × (index x p ≡ index a p))
            (ap (λ (x : R × GitResult (Unit {0})). x.0) e) (laws.update_ref-kept a ref oid p)

  -- What is captured is the state before, which stays.
  pub capture-holds :
      (thread : String) (r r' : R) (undo : UndoCapture)
      → capture git thread 0 r ≡ (r', ok undo)
      → Same r r'
        × ((p : String)
            → (tree undo.worktree_tree p ≡ files r p) × (tree undo.index_tree p ≡ index r p))
  unfolding capture
  capture-holds thread r r' undo h =
      let (r₁, s, snapped, h₁) = >>=-eq-ok (snapshot_worktree git 0 r) _ h in
      let (r₂, i, indexed, h₂) = >>=-eq-ok (r₁, git.index_tree r₁) _ h₁ in
      let (r₃, n, next, h₃) = >>=-eq-ok (next_restore_index git thread r₂) _ h₂ in
      let (r₄, _, wrote, h₄) = >>=-eq-ok (write_undo git thread n s.tree i r₃) _ h₃ in
      let (same₁, holds) = snapshot_worktree-files r r₁ s snapped in
      let same₂ : r₂ ≡ r₁ = ap (λ (x : R × GitResult String). x.0) (sym indexed) in
      let same₃ : r₃ ≡ r₂ = next_restore_index-kept thread r₂ r₃ n next in
      let same₄ : r' ≡ r₄ = ap (λ (x : R × GitResult UndoCapture). x.0) (sym h₄) in
      let before : r₃ ≡ r = same₃ ∙ same₂ ∙ same₁ in
      let made : record {
        worktree_ref = restore_ref thread n "worktree";
        index_ref = restore_ref thread n "index";
        worktree_tree = s.tree;
        index_tree = i;
      }
          ≡ undo =
        ground (arith, h₄) in
      (
        subst (λ (x : R). Same x r') before
            (subst (λ (x : R). Same r₃ x) (sym same₄)
              (write_undo-kept thread n s.tree i r₃ r₄ wrote)),
        λ p.
            subst
              (λ (u : UndoCapture).
                (tree u.worktree_tree p ≡ files r p) × (tree u.index_tree p ≡ index r p))
              made
              (
                holds p,
                laws.index_tree-index r₁ i (ap (λ (x : R × GitResult String). x.1) indexed) p
                    ∙ ap (λ (x : R). index x p) same₁,
              ),
      )

  pub put_back-files :
      (w i : String) (r r' : R)
      → put_back git w i r ≡ (r', ok tt)
      → (p : String)
      → (files r' p ≡ checked_out (tree w p) (index r p) (files r p)) × (index r' p ≡ tree i p)
  unfolding put_back
  put_back-files w i r r' h p =
      let (r₁, _, updated, h₁) = >>=-eq-ok (git.read_tree true w r) _ h in
      let (files₁, index₁) = laws.read_tree-update r r₁ w updated p in
      elim (Bool-cases (i == w)) [
        | inl one ↦
            let is_w = (eq_iff i w).0 one in
            let same : r₁ ≡ r' = ground (arith, one, h₁) in
            subst
              (λ (x : R).
                (files x p ≡ checked_out (tree w p) (index r p) (files r p))
                × (index x p ≡ tree i p))
              same (files₁, index₁ ∙ ap (λ u. tree u p) (sym is_w))
        | inr two ↦
            let second : git.read_tree false i r₁ ≡ (r', ok tt) = ground (arith, two, h₁) in
            let (files₂, index₂) = laws.read_tree-index r₁ r' i second p in
            (files₂ ∙ files₁, index₂)
      ]
