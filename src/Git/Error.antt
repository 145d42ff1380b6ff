-- ===== src/Git/Error.antt =====
-- crates/tethys-git/src/error.rs: the errors of the git engine, and runs that change the repository
-- and return a result.
pub use tethys.Prelude.Result.{Result, ok, err, Result-cases}
use tethys.Prelude.{ℕ, String, Bool, Option, List, ◌≡◌, refl}

pub data GitError : Type 0 where
  not_a_repo io checkpoint_not_found restore_blocked : String → GitError
  patch_failed invalid_path invalid_argument worktree_not_found : String → GitError
  command_failed : String → Option ℕ → String → GitError
  delete_blocked : List String → List String → Bool → GitError
  nothing_to_commit : GitError

abbrev pub GitResult {ℓ} : Type ℓ → Type ℓ
GitResult A = Result GitError A

-- A run on a repository.
abbrev pub Run : Type 0 → Type 0 → Type 0
Run R A = R → R × GitResult A

unfoldable pub continue : {R A B : Type 0} → (A → Run R B) → R × GitResult A → R × GitResult B
continue f (r, err e) = (r, err e)
continue f (r, ok a) = f a r

infixl 5 ◌>>=◌
infixl 5 ◌>>◌
abbrev pub ◌>>=◌ : {R A B : Type 0} → Run R A → (A → Run R B) → Run R B
m >>= f = λ r. continue f (m r)

abbrev pub ◌>>◌ : {R A B : Type 0} → Run R A → Run R B → Run R B
m >> k = m >>= λ _. k

abbrev pub pure : {R A : Type 0} → A → Run R A
pure a = λ r. (r, ok a)

abbrev pub fail : {R A : Type 0} → GitError → Run R A
fail e = λ r. (r, err e)

-- A run that only reads.
abbrev pub reading : {R A : Type 0} → (R → GitResult A) → Run R A
reading f = λ r. (r, f r)

-- The parts of a run that succeeded.
pub >>=-eq-ok :
    {R A B : Type 0} (first : R × GitResult A) (next : A → Run R B) {s : R} {b : B}
    → continue next first ≡ (s, ok b)
    → (r : R) × (a : A) × (first ≡ (r, ok a)) × (next a r ≡ (s, ok b))
unfolding continue
>>=-eq-ok (r, err e) next h = absurd (cc h)
>>=-eq-ok (r, ok a) next h = (r, a, refl, h)
