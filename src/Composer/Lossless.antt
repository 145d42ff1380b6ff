-- ===== src/Composer/Lossless.antt =====
-- The scanner loses no byte, and what refers to nothing stays as it is.
use tethys.Prelude.{
  ℕ, zero, suc, ◌≤◌, Bool, true, false, Bool-cases, Option, none, some, Option-cases, inl, inr,
  List, [], ◌∷◌, ◌++◌, append_assoc, length, List-cases, ◌≡◌, refl, ap, ◌∙◌, arith, nat_eq,
}
use tethys.Composer.{
  Text, Token, take_while, flush, ends_at, token_of, starts, scan, scan_tokens, split_path_token,
  resolve_token, resolve_all, resolve_tokens,
}

-- The bytes that a token was read from.
unfoldable pub source : Token → Text
source (Token.text segment) = segment
source (Token.skill name) = b'$' ∷ name
source (Token.path raw) = b'@' ∷ raw

unfoldable pub sources : List Token → Text
unfolding source
sources [] = []
sources (t ∷ ts) = source t ++ sources ts

take_while-append :
    (test : ℕ → Bool) (bs : Text) → (take_while test bs).0 ++ (take_while test bs).1 ≡ bs
unfolding take_while
take_while-append test [] = refl
take_while-append test (b ∷ bs) = elim (Bool-cases (test b)) [
  | inl more ↦ rw more (ap (λ l. b ∷ l) (take_while-append test bs))
  | inr stop ↦ rw stop refl
]

length-take_while : (test : ℕ → Bool) (bs : Text) → length (take_while test bs).1 ≤ length bs
unfolding take_while
length-take_while test [] = omega arith
length-take_while test (b ∷ bs) = elim (Bool-cases (test b)) [
  | inl more ↦ rw more (omega (arith, length-take_while test bs))
  | inr stop ↦ rw stop (omega arith)
]

sources-flush :
    (segment : Text) (ts : List Token) → sources (flush segment ts) ≡ segment ++ sources ts
unfolding sources
sources-flush [] ts = refl
sources-flush (b ∷ segment) ts = refl

starts-token :
    (b : ℕ) (is_skill : Bool) (name : Text)
    → starts b ≡ some is_skill
    → source (token_of is_skill name) ≡ b ∷ name
unfolding source
starts-token b true name h = ground (arith, h)
starts-token b false name h = ground (arith, h)

sources-scan :
    (fuel : ℕ) (segment bytes : Text)
    → length bytes ≤ fuel
    → sources (scan fuel segment bytes) ≡ segment ++ bytes
unfolding scan sources
sources-scan zero segment [] h = sources-flush segment []
sources-scan zero segment (b ∷ bytes) h = absurd (omega (arith, h))
sources-scan (suc fuel) segment [] h = sources-flush segment []
sources-scan (suc fuel) segment (b ∷ bytes) h = elim (Option-cases (starts b)) [
  | inl plain ↦ ground (
    arith,
    plain,
    h,
    sources-scan fuel (segment ++ b ∷ []) bytes (omega (arith, h)),
    append_assoc segment (b ∷ []) bytes,
  )
  | inr (is_skill, start) ↦ elim (List-cases (take_while (ends_at is_skill) bytes).0) [
    | inl nameless ↦ ground (
      arith,
      start,
      nameless,
      h,
      sources-scan fuel (segment ++ b ∷ []) bytes (omega (arith, h)),
      append_assoc segment (b ∷ []) bytes,
    )
    | inr (c, cs, named) ↦
        let rest = (take_while (ends_at is_skill) bytes).1 in
        let next =
          sources-scan fuel [] rest
            (omega (arith, h, length-take_while (ends_at is_skill) bytes)) in
        ground (
          arith,
          start,
          named,
          next,
          sources-flush segment (token_of is_skill (c ∷ cs) ∷ scan fuel [] rest),
          starts-token b is_skill (c ∷ cs) start,
          take_while-append (ends_at is_skill) bytes,
        )
  ]
]

-- A path token and its punctuation make up what was read.
pub split_path_token-append :
    (raw : Text) → (split_path_token raw).0 ++ (split_path_token raw).1 ≡ raw
unfolding split_path_token
split_path_token-append [] = refl
split_path_token-append (b ∷ bs) = elim (List-cases (split_path_token bs).0) [
  | inl bare ↦ ground (arith, bare, split_path_token-append bs)
  | inr (c, cs, more) ↦ ground (arith, more, split_path_token-append bs)
]

-- The tokens of a text, each with its sign, make up the text.
pub sources-scan_tokens : (bytes : Text) → sources (scan_tokens bytes) ≡ bytes
unfolding scan_tokens
sources-scan_tokens bytes = sources-scan (length bytes) [] bytes (omega arith)

module _ {R : Type 0} where
  abbrev pub nowhere : Text → Option (Text × R)
  nowhere name = none

  unresolved : (ts : List Token) → resolve_all {R = R} nowhere nowhere ts ≡ (sources ts, [])
  unfolding resolve_all resolve_token sources source
  unresolved [] = refl
  unresolved (Token.text segment ∷ ts) = ground (arith, unresolved ts)
  unresolved (Token.skill name ∷ ts) = ground (arith, unresolved ts)
  unresolved (Token.path raw ∷ ts) = ground (arith, unresolved ts)

  -- Where no skill and no path is found, a command's text stays as it is, and nothing is referred to.
  resolve_tokens-nowhere :
      (bytes : Text) → resolve_tokens {R = R} nowhere nowhere bytes ≡ (bytes, [])
  unfolding resolve_tokens
  resolve_tokens-nowhere bytes =
      unresolved (scan_tokens bytes) ∙ ap (λ (t : Text). (t, [])) (sources-scan_tokens bytes)
