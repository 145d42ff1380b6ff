-- ===== src/Sync/Projectors/Law.antt =====
-- What the projections need of a projector and of a file format.
use tethys.Prelude.{
  String, Bool, true, false, ◌≡◌, refl, sym, ◌∙◌, subst, ap, Option, none, some, [], ◌∷◌, string_eq,
  ◌==◌, if◌then◌else◌, arith, map, inl, inr, Bool-cases, Option-cases, eq_iff,
}
use tethys.Prelude.Assoc.{Assoc, lookup, insert, lookup-insert, first_some}
use tethys.Prelude.Text.{is_blank}
use tethys.Schema.Sync.{RegistryValue, RegistryEntry}
use tethys.Sync.Error.{SyncError, ok, ok_inj, ◌>>=◌}
use tethys.Sync.Document.{
  Format, Value, obj, Fields, end, field, get, set, and_then, as_object, root_object, object,
  object_or_set,
}
use tethys.Sync.Document.Lookup.{
  DistinctFields, set-DistinctFields, get-set, IsProper, get-IsInner, set-AllInner,
}
use tethys.Sync.Projectors.{Projector, import_value, values_of, refs, entries_of, read_under}

-- `empty` is the text that stands for a blank one. A parser reads what was rendered, a rendered text
-- is not blank. A document that is rendered has each key of the objects right below its root once.
pub record IsFormat (format : Format) (empty : String) : Type 0 where
  pub parse-render :
      (loose : Bool) (text : String) (d v : Value)
      → format.parse loose text ≡ ok d
      → IsProper v
      → format.parse loose (format.render text v) ≡ ok v
  pub render-visible : (text : String) (v : Value) → is_blank (format.render text v) ≡ false
  pub parse_empty : (loose : Bool) → format.parse loose empty ≡ ok (obj end)

-- The objects right below the root of the text's document have each key once, which a parser need
-- not ask for.
abbrev pub IsRegular : Format → Bool → String → String → Type 0
IsRegular format loose empty text =
    (v : Value) → format.parse loose (if is_blank text then empty else text) ≡ ok v → IsProper v

-- After an injection into a regular text the injected name reads as what was written, and every other
-- name as before, and the text is regular still.
pub record IsProjector (p : Projector) (Regular : String → Type 0)
    (written : RegistryEntry → RegistryEntry) : Type 0 where
  pub inject-reads :
      (original name out : String) (entry : RegistryEntry) (m : Assoc String RegistryEntry)
      → p.inject original name entry ≡ ok out
      → p.read_entries original ≡ ok m
      → Regular original
      → Regular out
        × (m' : Assoc String RegistryEntry) × (p.read_entries out ≡ ok m')
        × ((k : String) → lookup k m' ≡ (if name == k then some (written entry) else lookup k m))
  pub read-blank : (text : String) → is_blank text ≡ true → p.read_entries text ≡ ok []

-- The entries of an object by name.
pub lookup-entries_of :
    (decode : Value → Option RegistryEntry) (fs : Fields) (m : Assoc String RegistryEntry)
    (k : String)
    → DistinctFields fs
    → lookup k (entries_of decode fs m) ≡ first_some (and_then decode (get fs k)) (lookup k m)
unfolding entries_of get
lookup-entries_of decode end m k d = refl
lookup-entries_of decode (field name v fs) m k (new, d) = elim (Bool-cases (name == k)) [
  | inl same ↦
      let absent = ap (get fs) ((eq_iff name k).0 same) in
      elim (Option-cases (decode v)) [
        | inl nothing ↦ ground (arith, same, nothing, absent, lookup-entries_of decode fs m k d)
        | inr (e, found) ↦ ground (
          arith,
          same,
          found,
          absent,
          lookup-entries_of decode fs (insert name e m) k d,
          lookup-insert name k e m,
        )
      ]
  | inr other ↦ elim (Option-cases (decode v)) [
    | inl nothing ↦ ground (arith, other, nothing, lookup-entries_of decode fs m k d)
    | inr (e, found) ↦ ground (
      arith,
      other,
      found,
      lookup-entries_of decode fs (insert name e m) k d,
      lookup-insert name k e m,
    )
  ]
]

-- The values of a map, once written and read again.
abbrev pub reread :
    (String → RegistryValue → String) → Assoc String RegistryValue → Assoc String RegistryValue
reread ref values = map (λ (p : String × RegistryValue). (p.0, import_value (ref p.0 p.1))) values

pub values_of-refs :
    (ref : String → RegistryValue → String) (values : Assoc String RegistryValue)
    → values_of (refs ref values) ≡ reread ref values
unfolding values_of refs
values_of-refs ref [] = refl
values_of-refs ref ((k, v) ∷ values) =
    ap (λ l. (k, import_value (ref k v)) ∷ l) (values_of-refs ref values)

pub root_object-ok : (d : Value) (fs : Fields) → root_object d ≡ ok fs → d ≡ obj fs
unfolding root_object
root_object-ok (obj gs) fs h = cc
root_object-ok (Value.str s) fs h = cc
root_object-ok (Value.scalar s) fs h = cc
root_object-ok (Value.arr xs) fs h = cc

-- The object of one name in a proper document, or a new one, has each key once.
pub object_or_set-Distinct :
    (fs : Fields) (name : String) → IsProper (obj fs) → DistinctFields (object_or_set fs name)
unfolding object_or_set
object_or_set-Distinct fs name proper = go (get fs name) refl
  where
    go :
        (o : Option Value)
        → get fs name ≡ o
        → DistinctFields (elim (and_then as_object o) [ none ↦ end | some inner ↦ inner ])
    go none e = tt
    go (some (obj inner)) e = get-IsInner fs name (obj inner) proper e
    go (some (Value.str s)) e = tt
    go (some (Value.scalar s)) e = tt
    go (some (Value.arr xs)) e = tt

-- Where the documents before and after an injection hold these objects of entries, the entries read
-- as the law of a projector says.
pub lookup-entries_of-set :
    (decode : Value → Option RegistryEntry) (inner : Fields) (name k : String) (v : Value)
    (e : RegistryEntry)
    → DistinctFields inner
    → decode v ≡ some e
    → lookup k (entries_of decode (set inner name v) [])
      ≡ (if name == k then some e else lookup k (entries_of decode inner []))
lookup-entries_of-set decode inner name k v e d h = ground (
  arith,
  lookup-entries_of decode (set inner name v) [] k (set-DistinctFields inner name v d),
  lookup-entries_of decode inner [] k d,
  get-set inner name k v,
)

pub object_or_set-set :
    (fs : Fields) (name : String) (inner : Fields)
    → object_or_set (set fs name (obj inner)) name ≡ inner
unfolding object_or_set object
object_or_set-set fs name inner = ground (arith, get-set fs name name (obj inner), eq_iff name name)

pub read_under-servers :
    (key : String) (decode : Value → Option RegistryEntry) (fs : Fields)
    → read_under key decode (obj fs) ≡ entries_of decode (object_or_set fs key) []
unfolding read_under object_or_set entries_of
read_under-servers key decode fs = elim (Option-cases (object fs key)) [
  | inl e ↦ ground (arith, e)
  | inr (servers, e) ↦ ground (arith, e)
]

module _ (format : Format) (empty : String) (laws : IsFormat format empty) (loose : Bool)
    (key : String) (source : String) (fs servers : Fields)
    (parsed : format.parse loose source ≡ ok (obj fs)) (proper : IsProper (obj fs))
    (distinct : DistinctFields servers) where
  abbrev edited : Value
  edited = obj (set fs key (obj servers))

  edited-IsProper : IsProper edited
  edited-IsProper = set-AllInner fs key (obj servers) distinct proper

  -- A text whose document is edited to hold these servers reads as these servers.
  pub read_rendered :
      (decode : Value → Option RegistryEntry)
      → let out = format.render source edited in
        (if is_blank out
          then ok []
          else (format.parse loose out >>= λ root. ok (read_under key decode root)))
        ≡ ok (entries_of decode servers [])
  read_rendered decode =
      rw
        (
          laws.render-visible source edited,
          laws.parse-render loose source (obj fs) edited parsed edited-IsProper,
          read_under-servers key decode (set fs key (obj servers)),
        )
        (ap (λ inner. ok (entries_of decode inner [])) (object_or_set-set fs key servers))

  pub render-IsRegular : IsRegular format loose empty (format.render source edited)
  render-IsRegular v h =
      let same : edited ≡ v = ok_inj {E = SyncError} (
        sym (laws.parse-render loose source (obj fs) edited parsed edited-IsProper)
        ∙ sym (
            ap (λ b. format.parse loose (if b then empty else format.render source edited))
              (laws.render-visible source edited))
        ∙ h) in
      subst IsProper same edited-IsProper

-- The servers of the document of a text, where a blank text stands for an empty document.
pub read_text-servers :
    (format : Format) (empty : String) (laws : IsFormat format empty) (loose : Bool) (key : String)
    (decode : Value → Option RegistryEntry) (original : String) (fs : Fields)
    (m : Assoc String RegistryEntry)
    → format.parse loose (if is_blank original then empty else original) ≡ ok (obj fs)
    → (if is_blank original
        then ok []
        else (format.parse loose original >>= λ root. ok (read_under key decode root)))
      ≡ ok m
    → m ≡ entries_of decode (object_or_set fs key) []
unfolding object_or_set entries_of
read_text-servers format empty laws loose key decode original fs m p r =
    elim (Bool-cases (is_blank original)) [
      | inl blank ↦ ground (arith, blank, p, r, laws.parse_empty loose, object_end)
      | inr visible ↦ ground (arith, visible, p, r, read_under-servers key decode fs)
    ]
  where
    object_end : object end key ≡ none
    object_end = ground arith
