-- ===== src/Sync/Projectors/ClaudeCode/RoundTrip.antt =====
-- What the Claude Code projector writes is read again.
use tethys.Prelude.{
  String, true, false, ◌≡◌, refl, sym, Option, none, some, List, [], ◌∷◌, string_eq, arith, subst,
}
use tethys.Prelude.Assoc.{Assoc}
use tethys.Prelude.Text.{is_blank}
use tethys.Schema.Sync.{TransportKind, RegistryValue, RegistryEntry, transport_str}
use tethys.Sync.Error.{ok, >>=-eq-ok, ok_inj}
use tethys.Sync.Document.{
  Format, Value, str, obj, Fields, end, field, set, root_object, object_or_set,
}
use tethys.Sync.Document.Lookup.{set-DistinctFields, strings-of_strings}
use tethys.Sync.Projectors.{default_meta, claude_ref, refs, entries_of}
use tethys.Sync.Projectors.Law.{
  IsFormat, IsRegular, IsProjector, render-IsRegular, reread, root_object-ok,
  object_or_set-Distinct, lookup-entries_of-set, read_rendered, read_text-servers, values_of-refs,
}
use tethys.Sync.Projectors.ClaudeCode.{
  entry_from_value, entry_value, stdio_fields, args_field, refs_field, source_of, inject,
  inject_into, read_entries, claude_code,
}

-- What the file keeps of an entry: the fields of its transport, the values as they read again.
abbrev pub written : RegistryEntry → RegistryEntry
written e = elim e.transport [
  | TransportKind.stdio ↦ record {
    transport = TransportKind.stdio;
    command = e.command;
    args = e.args;
    env = reread claude_ref e.env;
    url = none;
    headers = [];
    meta = default_meta;
  }
  | _ ↦ record {
    transport = TransportKind.http;
    command = none;
    args = [];
    env = [];
    url = e.url;
    headers = reread claude_ref e.headers;
    meta = default_meta;
  }
]

stdio-reads :
    (c : String) (args : List String) (env : Assoc String RegistryValue)
    → entry_from_value (
        obj (
          field "type" (str "stdio") (
            field "command"
              (str c)
              (args_field args (refs_field "env" (refs claude_ref env) end)))))
      ≡ some (record {
        transport = TransportKind.stdio;
        command = some c;
        args = args;
        env = reread claude_ref env;
        url = none;
        headers = [];
        meta = default_meta;
      })
unfolding entry_from_value refs
stdio-reads c [] [] = refl
stdio-reads c [] ((k, v) ∷ env) = cc (values_of-refs claude_ref env)
stdio-reads c (x ∷ args) [] = cc (strings-of_strings (x ∷ args))
stdio-reads c (x ∷ args) ((k, v) ∷ env) =
    cc (strings-of_strings (x ∷ args), values_of-refs claude_ref env)

http-reads :
    (u : String) (headers : Assoc String RegistryValue)
    → entry_from_value (
        obj (
          field "type"
            (str "http")
            (field "url" (str u) (refs_field "headers" (refs claude_ref headers) end))))
      ≡ some (record {
        transport = TransportKind.http;
        command = none;
        args = [];
        env = [];
        url = some u;
        headers = reread claude_ref headers;
        meta = default_meta;
      })
unfolding entry_from_value refs
http-reads u [] = refl
http-reads u ((k, v) ∷ headers) = cc (values_of-refs claude_ref headers)

-- What is written of an entry reads as `written` says.
pub entry_value-reads :
    (t : TransportKind) (command url : Option String) (e : RegistryEntry) (v : Value)
    → e.transport ≡ t
    → e.command ≡ command
    → e.url ≡ url
    → entry_value e ≡ ok v
    → entry_from_value v ≡ some (written e)
unfolding entry_value stdio_fields transport_str
entry_value-reads TransportKind.stdio none url e v t c u h = absurd (ground (arith, t, c, h))
entry_value-reads TransportKind.stdio (some command) url e v t c u h =
    ground (arith, t, c, u, h, stdio-reads command e.args e.env)
entry_value-reads TransportKind.http command none e v t c u h = absurd (ground (arith, t, u, h))
entry_value-reads TransportKind.http command (some url) e v t c u h =
    ground (arith, t, c, u, h, http-reads url e.headers)
entry_value-reads TransportKind.sse command url e v t c u h = absurd (ground (arith, t, h))

module _ (format : Format) (laws : IsFormat format "{}") where
  read_blank : (text : String) → is_blank text ≡ true → read_entries format text ≡ ok []
  unfolding read_entries
  read_blank text blank = rw blank refl

  inject-inverted :
      (original name out : String) (entry : RegistryEntry)
      → inject format original name entry ≡ ok out
      → (fs : Fields) × (v : Value) × (format.parse false (source_of original) ≡ ok (obj fs))
        × (entry_value entry ≡ ok v)
        × (out
            ≡ format.render
                (source_of original)
                (obj (set fs "mcpServers" (obj (set (object_or_set fs "mcpServers") name v)))))
  unfolding inject
  inject-inverted original name out entry h =
      let (root, parsed, h₁) =
        >>=-eq-ok (format.parse false (source_of original)) _ (into entry.transport refl) in
      let (fs, rooted, h₂) = >>=-eq-ok (root_object root) _ h₁ in
      let (v, valued, h₃) = >>=-eq-ok (entry_value entry) _ h₂ in
      (
        fs,
        v,
        subst (λ d. format.parse false (source_of original) ≡ ok d) (root_object-ok root fs rooted)
            parsed,
        valued,
        ok_inj (sym h₃),
      )
    where
      into :
          (t : TransportKind)
          → entry.transport ≡ t
          → inject_into format original name entry ≡ ok out
      into TransportKind.stdio e = ground (arith, e, h)
      into TransportKind.http e = ground (arith, e, h)
      into TransportKind.sse e = absurd (ground (arith, e, h))

  -- The Claude Code projector is lawful on the texts in whose document the objects right below the
  -- root have each key once: after an injection the name reads as what was written of the entry,
  -- every other name as before, and the text is such a text still.
  pub claude_code-IsProjector :
      IsProjector (claude_code format) (IsRegular format false "{}") written
  unfolding read_entries
  claude_code-IsProjector = record {
    inject-reads = λ original name out entry m h r regular.
        let (fs, v, p, w, e) = inject-inverted original name out entry h in
        let servers = object_or_set fs "mcpServers" in
        let proper = regular (obj fs) p in
        let distinct = object_or_set-Distinct fs "mcpServers" proper in
        let distinct' = set-DistinctFields servers name v distinct in
        (
          rw e (
              render-IsRegular format "{}" laws false "mcpServers" (source_of original) fs
                (set servers name v) p proper distinct'),
          entries_of entry_from_value (set servers name v) [],
          rw e (
              read_rendered format "{}" laws false "mcpServers" (source_of original) fs
                (set servers name v) p proper distinct' entry_from_value),
          λ k.
              rw
                (read_text-servers format "{}" laws false "mcpServers" entry_from_value original fs
                  m p r)
                (lookup-entries_of-set entry_from_value servers name k v (written entry) distinct (
                  entry_value-reads entry.transport entry.command entry.url entry v refl refl refl
                    w)),
        );
    read-blank = read_blank;
  }
