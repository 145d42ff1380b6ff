-- ===== src/Sync/Trust/Digest.antt =====
-- What the facts of a directory tell of its files.
use tethys.Prelude.{ℕ, String, Bool, true, false, ◌≡◌, List, ◌∷◌, ◌++◌, arith, ap, append_assoc}
use tethys.Prelude.Text.{as_bytes}
use tethys.Sync.Trust.{SkillFile, as_bytes, fed, has_scripts, inspect}

module _ (digest : List ℕ → String) (a b : String) (text rest : List ℕ) (executable : Bool)
    (files : List SkillFile) where
  -- A file that holds zero bytes.
  abbrev pub joined : List SkillFile
  joined =
      record { relative = a; bytes = text ++ 0 ∷ as_bytes b ++ 0 ∷ rest; executable = false }
      ∷ files

  -- The same bytes as two files, of which the second may be a script.
  abbrev pub parted : List SkillFile
  parted =
      record { relative = a; bytes = text; executable = false }
      ∷ record { relative = b; bytes = rest; executable = executable }
      ∷ files

  fed-joined : fed joined ≡ fed parted
  unfolding fed
  fed-joined = simp append_assoc

  has_scripts-more :
      (file : SkillFile) (others : List SkillFile)
      → has_scripts others ≡ true
      → has_scripts (file ∷ others) ≡ true
  unfolding has_scripts
  has_scripts-more file others h = ground (arith, h)

  -- Whatever the hash function, in a skill that has scripts a file that holds zero bytes can be
  -- exchanged for two files, a new script among them, and the facts of the skill stay the same.
  pub inspect-joined : has_scripts files ≡ true → inspect digest joined ≡ inspect digest parted
  unfolding inspect
  inspect-joined scripts =
      let before =
        has_scripts-more
          (record { relative = a; bytes = text ++ 0 ∷ as_bytes b ++ 0 ∷ rest; executable = false })
          files scripts in
      let after =
        has_scripts-more (record { relative = a; bytes = text; executable = false })
          (record { relative = b; bytes = rest; executable = executable } ∷ files)
          (has_scripts-more (record { relative = b; bytes = rest; executable = executable }) files
            scripts) in
      rw (before, after)
        (ap (λ bytes. record { content_hash = digest bytes; requires_trust = true }) fed-joined)
