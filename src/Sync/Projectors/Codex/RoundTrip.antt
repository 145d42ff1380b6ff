-- ===== src/Sync/Projectors/Codex/RoundTrip.antt =====
-- What the Codex projector writes is read again.
use tethys.Prelude.{
  String, true, ◌≡◌, refl, ap, sym, Option, none, some, List, [], ◌∷◌, string_eq, arith, subst,
}
use tethys.Prelude.Assoc.{Assoc}
use tethys.Prelude.Text.{is_blank}
use tethys.Schema.Sync.{TransportKind, RegistryValue, RegistryEntry, as_plain}
use tethys.Sync.Error.{ok, >>=-eq-ok, ok_inj}
use tethys.Sync.Document.{
  Format, Value, str, obj, Fields, end, field, get, set, root_object, table_or_insert,
  object_or_set,
}
use tethys.Sync.Document.Lookup.{set-DistinctFields, strings-of_strings}
use tethys.Sync.Projectors.{default_meta, secret_env_key, entries_of}
use tethys.Sync.Projectors.ClaudeCode.{args_field}
use tethys.Sync.Projectors.Law.{
  IsFormat, IsRegular, IsProjector, render-IsRegular, root_object-ok, object_or_set-Distinct,
  lookup-entries_of-set, read_rendered, read_text-servers,
}
use tethys.Sync.Projectors.Codex.{
  plain_fields, table_field, bearer_field, entry_table, plain_values, with_bearer, entry_from_table,
  entry_from_item, source_of, inject, inject_into, read_entries, codex,
}

-- The plain values of an `env`: a secret is left out of the file.
unfoldable pub plain_env : Assoc String RegistryValue → Assoc String RegistryValue
plain_env [] = []
plain_env ((key, value) ∷ env) =
    let rest = plain_env env in
    elim (as_plain value) [ none ↦ rest | some text ↦ (key, RegistryValue.plain text) ∷ rest ]

-- What the file keeps of an entry.
abbrev pub written : RegistryEntry → RegistryEntry
written e = elim e.transport [
  | TransportKind.stdio ↦ record {
    transport = TransportKind.stdio;
    command = e.command;
    args = e.args;
    env = plain_env e.env;
    url = none;
    headers = [];
    meta = default_meta;
  }
  | _ ↦ record {
    transport = TransportKind.http;
    command = none;
    args = [];
    env = with_bearer (secret_env_key e.env) [];
    url = e.url;
    headers = [];
    meta = default_meta;
  }
]

plain_values-plain_fields :
    (env : Assoc String RegistryValue) → plain_values (plain_fields env) ≡ plain_env env
unfolding plain_values plain_fields plain_env
plain_values-plain_fields [] = refl
plain_values-plain_fields ((k, RegistryValue.plain v) ∷ env) =
    ap (λ l. (k, RegistryValue.plain v) ∷ l) (plain_values-plain_fields env)
plain_values-plain_fields ((k, RegistryValue.secret v) ∷ env) = plain_values-plain_fields env

stdio-reads :
    (c : String) (args : List String) (fs : Fields)
    → entry_from_table (field "command" (str c) (args_field args (table_field "env" fs))) ≡ record {
      transport = TransportKind.stdio;
      command = some c;
      args = args;
      env = plain_values fs;
      url = none;
      headers = [];
      meta = default_meta;
    }
unfolding entry_from_table
stdio-reads c [] end = refl
stdio-reads c [] (field k v fs) = refl
stdio-reads c (x ∷ args) end = cc (strings-of_strings (x ∷ args))
stdio-reads c (x ∷ args) (field k v fs) = cc (strings-of_strings (x ∷ args))

http-reads :
    (u : String) (bearer : Option String)
    → entry_from_table (field "url" (str u) (bearer_field bearer)) ≡ record {
      transport = TransportKind.http;
      command = none;
      args = [];
      env = with_bearer bearer [];
      url = some u;
      headers = [];
      meta = default_meta;
    }
unfolding entry_from_table
http-reads u none = refl
http-reads u (some key) = refl

pub entry_table-reads :
    (t : TransportKind) (command url : Option String) (e : RegistryEntry) (v : Value)
    → e.transport ≡ t
    → e.command ≡ command
    → e.url ≡ url
    → entry_table e ≡ ok v
    → entry_from_item v ≡ some (written e)
unfolding entry_table
entry_table-reads TransportKind.stdio none url e v t c u h = absurd (ground (arith, t, c, h))
entry_table-reads TransportKind.stdio (some command) url e v t c u h = ground (
  arith,
  t,
  c,
  h,
  stdio-reads command e.args (plain_fields e.env),
  plain_values-plain_fields e.env,
)
entry_table-reads TransportKind.http command none e v t c u h = absurd (ground (arith, t, u, h))
entry_table-reads TransportKind.http command (some url) e v t c u h =
    ground (arith, t, c, u, h, http-reads url (secret_env_key e.env))
entry_table-reads TransportKind.sse command url e v t c u h = absurd (ground (arith, t, h))

-- A table that is there, or a new one, is the object that `object_or_set` finds.
table_or_insert-ok :
    (fs servers : Fields) (name : String)
    → table_or_insert fs name ≡ ok servers
    → servers ≡ object_or_set fs name
unfolding table_or_insert object_or_set
table_or_insert-ok fs servers name h = go (get fs name) refl
  where
    go : (o : Option Value) → get fs name ≡ o → servers ≡ object_or_set fs name
    go none e = ground (arith, e, h)
    go (some (obj inner)) e = ground (arith, e, h)
    go (some (Value.str s)) e = absurd (ground (arith, e, h))
    go (some (Value.scalar s)) e = absurd (ground (arith, e, h))
    go (some (Value.arr xs)) e = absurd (ground (arith, e, h))

module _ (format : Format) (laws : IsFormat format "") where
  inject-inverted :
      (original name out : String) (entry : RegistryEntry)
      → inject format original name entry ≡ ok out
      → (fs : Fields) × (v : Value) × (format.parse true (source_of original) ≡ ok (obj fs))
        × (entry_table entry ≡ ok v)
        × (out
            ≡ format.render
                (source_of original)
                (obj (set fs "mcp_servers" (obj (set (object_or_set fs "mcp_servers") name v)))))
  unfolding inject
  inject-inverted original name out entry h =
      let (root, parsed, h₁) =
        >>=-eq-ok (format.parse true (source_of original)) _ (into entry.transport refl) in
      let (fs, rooted, h₂) = >>=-eq-ok (root_object root) _ h₁ in
      let (servers, opened, h₃) = >>=-eq-ok (table_or_insert fs "mcp_servers") _ h₂ in
      let (v, valued, h₄) = >>=-eq-ok (entry_table entry) _ h₃ in
      (
        fs,
        v,
        subst (λ d. format.parse true (source_of original) ≡ ok d) (root_object-ok root fs rooted)
            parsed,
        valued,
        subst
            (λ s.
              out
              ≡ format.render (source_of original)
                  (obj (set fs "mcp_servers" (obj (set s name v)))))
            (table_or_insert-ok fs servers "mcp_servers" opened) (ok_inj (sym h₄)),
      )
    where
      into :
          (t : TransportKind)
          → entry.transport ≡ t
          → inject_into format original name entry ≡ ok out
      into TransportKind.stdio e = ground (arith, e, h)
      into TransportKind.http e = ground (arith, e, h)
      into TransportKind.sse e = absurd (ground (arith, e, h))

  read_blank : (text : String) → is_blank text ≡ true → read_entries format text ≡ ok []
  unfolding read_entries
  read_blank text blank = rw blank refl

  -- The Codex projector is lawful on the texts in whose document the objects right below the root
  -- have each key once: after an injection the name reads as what was written of the entry, every
  -- other name as before, and the text is such a text still.
  pub codex-IsProjector : IsProjector (codex format) (IsRegular format true "") written
  unfolding read_entries
  codex-IsProjector = record {
    inject-reads = λ original name out entry m h r regular.
        let (fs, v, p, w, e) = inject-inverted original name out entry h in
        let servers = object_or_set fs "mcp_servers" in
        let proper = regular (obj fs) p in
        let distinct = object_or_set-Distinct fs "mcp_servers" proper in
        let distinct' = set-DistinctFields servers name v distinct in
        (
          rw e (
              render-IsRegular format "" laws true "mcp_servers" (source_of original) fs
                (set servers name v) p proper distinct'),
          entries_of entry_from_item (set servers name v) [],
          rw e (
              read_rendered format "" laws true "mcp_servers" (source_of original) fs
                (set servers name v) p proper distinct' entry_from_item),
          λ k.
              rw
                (read_text-servers format "" laws true "mcp_servers" entry_from_item original fs m p
                  r)
                (lookup-entries_of-set entry_from_item servers name k v (written entry) distinct (
                  entry_table-reads entry.transport entry.command entry.url entry v refl refl refl
                    w)),
        );
    read-blank = read_blank;
  }
