-- ===== src/Sync/Session/Secrets.antt =====
-- Secrets are resolved all or none, in order.
use tethys.Prelude.{
  String, Bool, true, false, Option, none, some, Option-cases, inl, inr, List, [], ◌∷◌, ◌++◌,
  append-nil, append_assoc, ◌≡◌, refl, ◌∙◌, sym, subst, arith, All,
}
use tethys.Prelude.Assoc.{Assoc}
use tethys.Schema.Sync.{RegistryValue, SessionServer}
use tethys.Sync.Error.{ok_inj, SyncError, SyncResult, ok, err}
use tethys.Sync.Session.{
  parse_secret_ref, resolve_value, resolve_values, resolve_servers, resolve_secrets,
}

abbrev pub is_plain : RegistryValue → Bool
is_plain (RegistryValue.plain v) = true
is_plain (RegistryValue.secret reference) = false

abbrev pub AllPlain : Assoc String RegistryValue → Type 0
AllPlain m = All (λ (p : String × RegistryValue). is_plain p.1 ≡ true) m

abbrev pub IsOpen : SessionServer → Type 0
IsOpen s = AllPlain s.env × AllPlain s.headers

-- A keychain that always answers.
module _ (keychain : String → Option String) where
  -- The secret of a reference, if it has one.
  unfoldable pub secret_of : String → Option String
  unfolding parse_secret_ref
  secret_of reference = elim (parse_secret_ref reference) [
    | none ↦ none
    | some account ↦ keychain account
  ]

  abbrev value_of : RegistryValue → Option String → RegistryValue
  value_of v none = v
  value_of v (some secret) = RegistryValue.plain secret

  -- A value with its secret in its place, and its reference if it has no secret.
  unfoldable pub revealed : RegistryValue → RegistryValue
  unfolding secret_of
  revealed (RegistryValue.plain v) = RegistryValue.plain v
  revealed (RegistryValue.secret reference) =
      value_of (RegistryValue.secret reference) (secret_of reference)

  unfoldable pub unknown : RegistryValue → List String
  unfolding secret_of
  unknown (RegistryValue.plain v) = []
  unknown (RegistryValue.secret reference) = elim (secret_of reference) [
    | none ↦ reference ∷ []
    | some secret ↦ []
  ]

  unfoldable pub revealed_values : Assoc String RegistryValue → Assoc String RegistryValue
  unfolding revealed
  revealed_values [] = []
  revealed_values ((k, v) ∷ m) = (k, revealed v) ∷ revealed_values m

  unfoldable pub unknown_values : Assoc String RegistryValue → List String
  unfolding unknown
  unknown_values [] = []
  unknown_values ((k, v) ∷ m) = unknown v ++ unknown_values m

  unfoldable pub revealed_servers : List SessionServer → List SessionServer
  unfolding revealed_values
  revealed_servers [] = []
  revealed_servers (s ∷ ss) =
      record s { env = revealed_values s.env; headers = revealed_values s.headers }
      ∷ revealed_servers ss

  unfoldable pub unknown_servers : List SessionServer → List String
  unfolding unknown_values
  unknown_servers [] = []
  unknown_servers (s ∷ ss) = unknown_values s.env ++ unknown_values s.headers ++ unknown_servers ss

  answer : String → SyncResult (Option String)
  answer account = ok (keychain account)

  values-resolved :
      (m : Assoc String RegistryValue) (missing : List String)
      → resolve_values answer m missing ≡ ok (revealed_values m, missing ++ unknown_values m)
  unfolding resolve_values resolve_value revealed_values unknown_values revealed unknown secret_of
      answer
  values-resolved [] missing = ground (arith, append-nil missing)
  values-resolved ((k, RegistryValue.plain v) ∷ m) missing =
      ground (arith, values-resolved m missing)
  values-resolved ((k, RegistryValue.secret reference) ∷ m) missing =
      elim (Option-cases (parse_secret_ref reference)) [
        | inl bad ↦ ground (
          arith,
          bad,
          values-resolved m (missing ++ reference ∷ []),
          append_assoc missing (reference ∷ []) (unknown_values m),
        )
        | inr (account, good) ↦ elim (Option-cases (keychain account)) [
          | inl gone ↦ ground (
            arith,
            good,
            gone,
            values-resolved m (missing ++ reference ∷ []),
            append_assoc missing (reference ∷ []) (unknown_values m),
          )
          | inr (secret, there) ↦ ground (arith, good, there, values-resolved m missing)
        ]
      ]

  servers-resolved :
      (ss : List SessionServer) (missing : List String)
      → resolve_servers answer ss missing ≡ ok (revealed_servers ss, missing ++ unknown_servers ss)
  unfolding resolve_servers revealed_servers unknown_servers
  servers-resolved [] missing = ground (arith, append-nil missing)
  servers-resolved (s ∷ ss) missing = ground (
    arith,
    values-resolved s.env missing,
    values-resolved s.headers (missing ++ unknown_values s.env),
    servers-resolved ss (missing ++ unknown_values s.env ++ unknown_values s.headers),
    append_assoc missing (unknown_values s.env) (unknown_values s.headers),
    append_assoc missing (unknown_values s.env ++ unknown_values s.headers) (unknown_servers ss),
  )

  -- All or none: with no reference missing the servers have every secret in its place, and else the
  -- error lists each missing reference, in the order of the servers and their values.
  abbrev pub all_or_none : List String → List SessionServer → SyncResult (List SessionServer)
  all_or_none [] servers = ok servers
  all_or_none (m ∷ ms) servers = err (SyncError.missing_secrets (m ∷ ms))

  -- With a keychain that always answers, the result is the servers with every secret in its place if
  -- no reference is unknown, and else the error with each unknown reference, in the order of the
  -- servers, of their environments before their headers, and of the values.
  pub resolve_secrets-all_or_none :
      (servers : List SessionServer)
      → resolve_secrets servers (λ account. ok (keychain account))
        ≡ all_or_none (unknown_servers servers) (revealed_servers servers)
  unfolding resolve_secrets answer
  resolve_secrets-all_or_none servers =
      outcome (unknown_servers servers) (servers-resolved servers [])
    where
      outcome :
          (us : List String)
          → resolve_servers (λ account. ok (keychain account)) servers []
            ≡ ok (revealed_servers servers, us)
          → resolve_secrets servers (λ account. ok (keychain account))
            ≡ all_or_none us (revealed_servers servers)
      outcome [] e = ground (arith, e)
      outcome (u ∷ us) e = ground (arith, e)

  values-AllPlain :
      (m : Assoc String RegistryValue) → unknown_values m ≡ [] → AllPlain (revealed_values m)
  unfolding unknown_values revealed_values unknown revealed
  values-AllPlain [] h = tt
  values-AllPlain ((k, RegistryValue.plain v) ∷ m) h = (refl, values-AllPlain m h)
  values-AllPlain ((k, RegistryValue.secret reference) ∷ m) h =
      elim (Option-cases (secret_of reference)) [
        | inl gone ↦ absurd (ground (arith, h, gone))
        | inr (secret, there) ↦
            (ground (arith, there), values-AllPlain m (ground (arith, h, there)))
      ]

  empty_left : (xs ys : List String) → xs ++ ys ≡ [] → (xs ≡ []) × (ys ≡ [])
  empty_left [] ys h = (refl, h)
  empty_left (x ∷ xs) ys h = absurd (ground (arith, h))

  servers-IsOpen :
      (ss : List SessionServer) → unknown_servers ss ≡ [] → All IsOpen (revealed_servers ss)
  unfolding unknown_servers revealed_servers
  servers-IsOpen [] h = tt
  servers-IsOpen (s ∷ ss) h =
      let (values, rest) =
        empty_left (unknown_values s.env ++ unknown_values s.headers) (unknown_servers ss) h in
      let (env, headers) = empty_left (unknown_values s.env) (unknown_values s.headers) values in
      ((values-AllPlain s.env env, values-AllPlain s.headers headers), servers-IsOpen ss rest)

  -- Servers that are handed out hold no reference any more, only plain values.
  resolve_secrets-IsOpen :
      (servers out : List SessionServer)
      → resolve_secrets servers (λ account. ok (keychain account)) ≡ ok out
      → All IsOpen out
  resolve_secrets-IsOpen servers out h =
      given (unknown_servers servers) refl (sym (resolve_secrets-all_or_none servers) ∙ h)
    where
      given :
          (us : List String)
          → unknown_servers servers ≡ us
          → all_or_none us (revealed_servers servers) ≡ ok out
          → All IsOpen out
      given [] e r = subst (All IsOpen) (ok_inj r) (servers-IsOpen servers e)
      given (u ∷ us) e r = absurd (ground (arith, r))
