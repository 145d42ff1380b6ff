-- ===== src/Git/Checkpoints/Sample.antt =====
-- A repository that behaves as the laws say: a tree is named by the text of its map from paths to
-- contents, and a commit by its tree.
use tethys.Prelude.{
  String, true, ◌≡◌, refl, ap, ◌∙◌, subst, inl, inr, Option, none, some, List, [], ◌∷◌, ◌++◌,
  string_eq, ◌==◌, if◌then◌else◌, is_some, arith, eq_iff, Bool-cases, Option-cases,
}
use tethys.Prelude.Assoc.{Assoc, lookup, insert, first_some}
use tethys.Prelude.Text.{strip_suffix}
use tethys.Sync.Document.Sample.Maps.{map_text, map_of, map_of-map_text}
use tethys.Git.Error.{GitResult, Result, ok, err}
use tethys.Git.Checkpoints.{Git, RefEntry}
use tethys.Git.Checkpoints.Undo.{IsGit, checked_out}

pub record Repo : Type 0 where
  pub files : Assoc String String
  pub index : Assoc String String
  pub refs : Assoc String String

abbrev pub or_empty : {E : Type 0} → Result E (Assoc String String) → Assoc String String
or_empty (err e) = []
or_empty (ok entries) = entries

unfoldable pub without : Assoc String String → Assoc String String → Assoc String String
unfolding lookup
without gone [] = []
without gone ((path, blob) ∷ files) =
    let rest = without gone files in
    if is_some (lookup path gone) then rest else (path, blob) ∷ rest

unfoldable pub entries_with : String → Assoc String String → List RefEntry
entries_with prefix [] = []
entries_with prefix ((name, oid) ∷ refs) =
    record { refname = name; oid = some oid; tree = some oid; created_at_unix = 0 }
    ∷ entries_with prefix refs

unfoldable pub contents : String → Assoc String String
unfolding map_of
contents tree = or_empty (map_of tree)

unfoldable pub update_files : Repo → String → Repo
unfolding contents without
update_files r t = record r {
  files = contents t ++ without (contents t) (without r.index r.files);
  index = contents t;
}

unfoldable pub update_index : Repo → String → Repo
unfolding contents
update_index r t = record r { index = contents t }

unfoldable pub sample : Git Repo
unfolding strip_suffix lookup insert map_text entries_with update_files update_index
sample = record {
  check_ref_format = λ name. true;
  status_entries = λ r. ok [];
  metadata = λ r path. none;
  snapshot_tree = λ r paths. ok (map_text r.files);
  index_tree = λ r. ok (map_text r.index);
  rev_parse = λ r rev.
      ok (elim (strip_suffix "^{tree}" rev) [ some oid ↦ some oid | none ↦ lookup rev r.refs ]);
  list_refs = λ r prefix. ok (entries_with prefix r.refs);
  commit_tree = λ t parent message r. (r, ok t);
  update_ref = λ name oid r. (record r { refs = insert name oid r.refs }, ok tt);
  read_tree = λ update t r. (if update then update_files r t else update_index r t, ok tt);
}

abbrev pub files_of : Repo → String → Option String
files_of r p = lookup p r.files

abbrev pub index_of : Repo → String → Option String
index_of r p = lookup p r.index

abbrev pub tree_of : String → String → Option String
tree_of t p = lookup p (contents t)

contents-map_text : (m : Assoc String String) → contents (map_text m) ≡ m
unfolding contents
contents-map_text m = ap or_empty (map_of-map_text m)

lookup-append :
    (p : String) (a b : Assoc String String)
    → lookup p (a ++ b) ≡ first_some (lookup p a) (lookup p b)
unfolding lookup
lookup-append p [] b = refl
lookup-append p ((k, v) ∷ a) b = ground (arith, lookup-append p a b)

lookup-without :
    (p : String) (gone files : Assoc String String)
    → lookup p (without gone files) ≡ (if is_some (lookup p gone) then none else lookup p files)
unfolding lookup without
lookup-without p gone [] = ground arith
lookup-without p gone ((k, v) ∷ files) = elim (Bool-cases (k == p)) [
  | inl same ↦
      let gone_too : is_some (lookup k gone) ≡ is_some (lookup p gone) =
        ap (λ (x : String). is_some (lookup x gone)) ((eq_iff k p).0 same) in
      ground (arith, same, gone_too, lookup-without p gone files)
  | inr other ↦ ground (arith, other, lookup-without p gone files)
]

checked_out-lookup :
    (p : String) (t index files : Assoc String String)
    → lookup p (t ++ without t (without index files))
      ≡ checked_out (lookup p t) (lookup p index) (lookup p files)
checked_out-lookup p t index files =
    lookup-append p t (without t (without index files)) ∙ elim (Option-cases (lookup p t)) [
      | inl absent ↦ elim (Option-cases (lookup p index)) [
        | inl untracked ↦ ground (
          arith,
          absent,
          untracked,
          lookup-without p t (without index files),
          lookup-without p index files,
        )
        | inr (blob, tracked) ↦ ground (
          arith,
          absent,
          tracked,
          lookup-without p t (without index files),
          lookup-without p index files,
        )
      ]
      | inr (blob, there) ↦ ground (arith, there)
    ]

pub sample-IsGit : IsGit sample files_of index_of tree_of
unfolding sample update_files update_index
sample-IsGit = record {
  snapshot-files = λ r entries t h snapped p.
      let is_tree : map_text r.files ≡ t = ground (arith, snapped) in
      subst (λ u. tree_of u p ≡ files_of r p) is_tree
        (ap (λ m. lookup p m) (contents-map_text r.files));
  index_tree-index = λ r t h p.
      let is_tree : map_text r.index ≡ t = ground (arith, h) in
      subst (λ u. tree_of u p ≡ index_of r p) is_tree
        (ap (λ m. lookup p m) (contents-map_text r.index));
  commit_tree-kept = λ r t parent message p. (refl, refl);
  update_ref-kept = λ r name oid p. (refl, refl);
  read_tree-update = λ r r' t h p.
      subst
        (λ (x : Repo).
          (files_of x p ≡ checked_out (tree_of t p) (index_of r p) (files_of r p))
          × (index_of x p ≡ tree_of t p))
        (ap (λ (x : Repo × GitResult (Unit {0})). x.0) h)
        (checked_out-lookup p (contents t) r.index r.files, refl);
  read_tree-index = λ r r' t h p.
      subst (λ (x : Repo). (files_of x p ≡ files_of r p) × (index_of x p ≡ tree_of t p))
        (ap (λ (x : Repo × GitResult (Unit {0})). x.0) h) (refl, refl);
}
