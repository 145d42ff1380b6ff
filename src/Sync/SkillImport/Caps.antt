-- ===== src/Sync/SkillImport/Caps.antt =====
-- What a tar archive puts on the disk, however its extraction ends.
use tethys.Prelude.{
  ℕ, ◌+◌, ◌%◌, ◌^◌, ◌≤◌, ◌<◌, String, Bool, true, false, not, ◌||◌, if◌then◌else◌, ◌≡◌, refl, sym,
  ◌∙◌, ap, subst, Option, none, some, List, [], ◌∷◌, ltb, length, All, arith, inl, inr,
  Option-cases,
}
use tethys.Sync.Error.{SyncError, SyncResult, Result, ok, err, Result-cases, ok_inj}
use tethys.Sync.SkillImport.Archives.{
  EntryType, TarEntry, EntryPath, is_link, escapes, check_entry, unpack_all, extract_tar,
  max_archive_entries, max_archive_bytes,
}

-- The size that the header of an entry declares.
abbrev pub declared : TarEntry → ℕ
declared entry = elim entry.size [ ok size ↦ size | err error ↦ 0 ]

abbrev pub all_declared : List TarEntry → ℕ
all_declared [] = 0
all_declared (entry ∷ entries) = declared entry + all_declared entries

abbrev pub is_inside : Result String EntryPath → Bool
is_inside (err error) = false
is_inside (ok path) = not (escapes path)

-- No link, and no path that leads out of the directory.
abbrev pub IsSafe : TarEntry → Type 0
IsSafe entry = (is_link entry.entry_type ≡ false) × (is_inside entry.path ≡ true)

-- No sum of such a size with a total below the cap is beyond a `u64`.
abbrev pub Fits : Result String TarEntry → Type 0
Fits (err error) = Unit
Fits (ok entry) = declared entry < 2 ^ 63

abbrev read_entry : EntryType → EntryPath → ℕ → TarEntry
read_entry entry_type path size = record { entry_type = entry_type; path = ok path; size = ok size }

passed :
    {A : Type 0} (b : Bool) (message : String) (r : SyncResult A) (a : A)
    → (if b then err (SyncError.unsafe_archive message) else r) ≡ ok a
    → (b ≡ false) × (r ≡ ok a)
passed true message r a h = absurd (cc h)
passed false message r a h = (refl, h)

check_entry-read :
    (count total : ℕ) (k : EntryType) (path : EntryPath) (size c t : ℕ)
    → count ≤ max_archive_entries
    → total ≤ max_archive_bytes
    → size < 2 ^ 63
    → check_entry count total (read_entry k path size) ≡ ok (c, t)
    → (c ≡ count + 1)
      × (t ≡ total + size)
      × (c ≤ max_archive_entries)
      × (t ≤ max_archive_bytes)
      × (is_link k ≡ false)
      × (escapes path ≡ false)
unfolding check_entry
check_entry-read count total k path size c t few small fits h =
    let count' : (count + 1) % 2 ^ 64 ≡ count + 1 = omega arith in
    let total' : (total + size) % 2 ^ 64 ≡ total + size = omega arith in
    let (plain, h1) = passed (is_link k) _ _ (c, t) h in
    let (inside, h2) = passed (escapes path) _ _ (c, t) h1 in
    let (capped, h3) =
      passed
        (ltb max_archive_entries ((count + 1) % 2 ^ 64)
          || ltb max_archive_bytes ((total + size) % 2 ^ 64))
        _ (ok ((count + 1) % 2 ^ 64, (total + size) % 2 ^ 64)) (c, t) h2 in
    let same : ((count + 1) % 2 ^ 64, (total + size) % 2 ^ 64) ≡ (c, t) =
      ok_inj {E = SyncError} h3 in
    let c_is : c ≡ count + 1 = sym (ap (λ p. p.0) same) ∙ count' in
    let t_is : t ≡ total + size = sym (ap (λ p. p.1) same) ∙ total' in
    (
      c_is,
      t_is,
      ground (arith, capped, count', c_is),
      ground (arith, capped, total', t_is),
      plain,
      inside,
    )

check_entry-Passes :
    (count total : ℕ) (entry : TarEntry) (c t : ℕ)
    → count ≤ max_archive_entries
    → total ≤ max_archive_bytes
    → declared entry < 2 ^ 63
    → check_entry count total entry ≡ ok (c, t)
    → (c ≡ count + 1)
      × (t ≡ total + declared entry)
      × (c ≤ max_archive_entries)
      × (t ≤ max_archive_bytes)
      × IsSafe entry
unfolding check_entry
check_entry-Passes count total entry c t few small fits h =
    by_parts entry.entry_type entry.path entry.size fits h
  where
    by_parts :
        (k : EntryType) (path : Result String EntryPath) (size : Result String ℕ)
        → let e : TarEntry = record { entry_type = k; path = path; size = size } in
          declared e < 2 ^ 63
          → check_entry count total e ≡ ok (c, t)
          → (c ≡ count + 1)
            × (t ≡ total + declared e)
            × (c ≤ max_archive_entries)
            × (t ≤ max_archive_bytes)
            × IsSafe e
    by_parts k (ok path) (ok size) fits h =
        let (counted, summed, few', small', plain, inside) =
          check_entry-read count total k path size c t few small fits h in
        (counted, summed, few', small', (plain, ap not inside))
    by_parts k (ok path) (err error) fits h =
        let h1 = (passed (is_link k) _ _ (c, t) h).1 in
        absurd (cc ((passed (escapes path) _ _ (c, t) h1).1))
    by_parts k (err error) size fits h = absurd (cc ((passed (is_link k) _ _ (c, t) h).1))

-- What may still be unpacked when so much has been.
abbrev pub Bounded : ℕ → ℕ → List TarEntry → Type 0
Bounded count total unpacked =
    (count + length unpacked ≤ max_archive_entries)
    × (total + all_declared unpacked ≤ max_archive_bytes)
    × All IsSafe unpacked

module _ (unpack_in : TarEntry → Option String) where
  unpack_all-refused :
      (count total : ℕ) (entry : TarEntry) (rest : List (Result String TarEntry))
      (error : SyncError)
      → check_entry count total entry ≡ err error
      → (unpack_all unpack_in count total (ok entry ∷ rest)).0 ≡ []
  unfolding unpack_all
  unpack_all-refused count total entry rest error refused = rw (refused, unpack_all) refl

  unpack_all-failed :
      (count total c t : ℕ) (entry : TarEntry) (rest : List (Result String TarEntry))
      (error : String)
      → check_entry count total entry ≡ ok (c, t)
      → unpack_in entry ≡ some error
      → (unpack_all unpack_in count total (ok entry ∷ rest)).0 ≡ []
  unfolding unpack_all
  unpack_all-failed count total c t entry rest error checks failed =
      rw (checks, unpack_all) (rw (failed) refl)

  unpack_all-done :
      (count total c t : ℕ) (entry : TarEntry) (rest : List (Result String TarEntry))
      → check_entry count total entry ≡ ok (c, t)
      → unpack_in entry ≡ none
      → (unpack_all unpack_in count total (ok entry ∷ rest)).0
        ≡ entry ∷ (unpack_all unpack_in c t rest).0
  unfolding unpack_all
  unpack_all-done count total c t entry rest checks done = rw (checks, unpack_all) (rw (done) refl)

  unpack_all-Bounded :
      (count total : ℕ) (entries : List (Result String TarEntry))
      → count ≤ max_archive_entries
      → total ≤ max_archive_bytes
      → All Fits entries
      → Bounded count total (unpack_all unpack_in count total entries).0
  unfolding unpack_all
  unpack_all-Bounded count total [] few small fits = (omega arith, omega arith, tt)
  unpack_all-Bounded count total (err error ∷ rest) few small fits = (omega arith, omega arith, tt)
  unpack_all-Bounded count total (ok entry ∷ rest) few small (fit, fits) =
      let nothing : Bounded count total [] = (omega arith, omega arith, tt) in
      elim (Result-cases (check_entry count total entry))
        as (λ _. Bounded count total (unpack_all unpack_in count total (ok entry ∷ rest)).0) [
          | inl (error, refused) ↦
              subst (Bounded count total)
                (sym (unpack_all-refused count total entry rest error refused)) nothing
          | inr ((c, t), checks) ↦
              elim (Option-cases (unpack_in entry))
                as (λ _.
                  Bounded count total (unpack_all unpack_in count total (ok entry ∷ rest)).0) [
                    | inl done ↦
                        let (counted, summed, few', small', safe) =
                          check_entry-Passes count total entry c t few small fit checks in
                        let (few_left, small_left, safe_left) =
                          unpack_all-Bounded c t rest few' small' fits in
                        subst (Bounded count total)
                          (sym (unpack_all-done count total c t entry rest checks done))
                          (
                            omega (arith, counted, few_left),
                            omega (arith, summed, small_left),
                            (safe, safe_left),
                          )
                    | inr (error, failed) ↦
                        subst (Bounded count total)
                          (sym (unpack_all-failed count total c t entry rest error checks failed))
                          nothing
                  ]
        ]

-- However the extraction of a tar archive ends, and whatever the unpacking of an entry answers, what
-- is unpacked are 5000 entries at most, their headers declare 100 MB at most in all, none is a
-- link and none has a path that is absolute or leads upwards, when each entry of the archive
-- declares less than 2 ^ 63 bytes.
pub extract_tar-Bounded :
    (unpack_in : TarEntry → Option String) (entries : List (Result String TarEntry))
    → All Fits entries
    → let unpacked = (extract_tar unpack_in (ok entries)).0 in
      (length unpacked ≤ max_archive_entries)
      × (all_declared unpacked ≤ max_archive_bytes)
      × All IsSafe unpacked
unfolding extract_tar
extract_tar-Bounded unpack_in entries fits =
    let (few, small, safe) =
      unpack_all-Bounded unpack_in 0 0 entries (omega arith) (omega arith) fits in
    (omega (arith, few), omega (arith, small), safe)
