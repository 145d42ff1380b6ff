-- ===== src/Sync/Document/Sample.antt =====
-- A format that meets what the projectors need of one: documents by their spelling, of which those
-- with a repeated key are refused.
pub mod Spelling
pub mod Maps
use Prim.Native.Char.{Char, code}
use tethys.Prelude.{
  ℕ, zero, suc, ◌+◌, ◌≤◌, ◌<◌, subst, String, Bool, true, false, ◌&&◌, not, ◌≡◌, refl, ap, ◌∙◌,
  Option, none, some, string_eq, nat_beq, ◌==◌, if◌then◌else◌, is_some, arith, eq_iff, inl, inr,
  Bool-cases, Option-cases,
}
use tethys.Prelude.Text.{is_blank}
use tethys.Sync.Error.{SyncError, SyncResult, ok, err, ok_inj}
use tethys.Sync.Document.{
  Format, Value, str, scalar, arr, obj, Items, nil, cons, Fields, end, field, get, and_then,
}
use tethys.Sync.Document.Lookup.{DistinctFields, IsInner, AllInner, IsProper}
use tethys.Sync.Projectors.Law.{IsFormat, IsRegular}
use tethys.Sync.Document.Sample.Spelling.{
  write, write_text, write_items, write_fields, read, read_items, read_fields, read_text, chars,
  size, size-le-chars, read-write, is_char, Read,
}

distinct : Fields → Bool
distinct end = true
distinct (field k v fs) = not (is_some (get fs k)) && distinct fs

inner : Value → Bool
inner (obj fs) = distinct fs
inner _ = true

all_inner : Fields → Bool
all_inner end = true
all_inner (field k v fs) = inner v && all_inner fs

proper : Value → Bool
proper (obj fs) = all_inner fs
proper _ = true

distinct-DistinctFields : (fs : Fields) → distinct fs ≡ true → DistinctFields fs
unfolding distinct
distinct-DistinctFields end h = tt
distinct-DistinctFields (field k v fs) h =
    (ground (arith, h), distinct-DistinctFields fs (ground (arith, h)))

DistinctFields-distinct : (fs : Fields) → DistinctFields fs → distinct fs ≡ true
unfolding distinct
DistinctFields-distinct end d = refl
DistinctFields-distinct (field k v fs) (new, d) = ground (arith, new, DistinctFields-distinct fs d)

inner-IsInner : (v : Value) → inner v ≡ true → IsInner v
unfolding inner
inner-IsInner (obj fs) h = distinct-DistinctFields fs h
inner-IsInner (str s) h = tt
inner-IsInner (scalar s) h = tt
inner-IsInner (arr xs) h = tt

IsInner-inner : (v : Value) → IsInner v → inner v ≡ true
unfolding inner
IsInner-inner (obj fs) d = DistinctFields-distinct fs d
IsInner-inner (str s) d = refl
IsInner-inner (scalar s) d = refl
IsInner-inner (arr xs) d = refl

all_inner-AllInner : (fs : Fields) → all_inner fs ≡ true → AllInner fs
unfolding all_inner
all_inner-AllInner end h = tt
all_inner-AllInner (field k v fs) h =
    (inner-IsInner v (ground (arith, h)), all_inner-AllInner fs (ground (arith, h)))

AllInner-all_inner : (fs : Fields) → AllInner fs → all_inner fs ≡ true
unfolding all_inner
AllInner-all_inner end a = refl
AllInner-all_inner (field k v fs) (i, a) =
    ground (arith, IsInner-inner v i, AllInner-all_inner fs a)

proper-IsProper : (v : Value) → proper v ≡ true → IsProper v
unfolding proper
proper-IsProper (obj fs) h = all_inner-AllInner fs h
proper-IsProper (str s) h = tt
proper-IsProper (scalar s) h = tt
proper-IsProper (arr xs) h = tt

IsProper-proper : (v : Value) → IsProper v → proper v ≡ true
unfolding proper
IsProper-proper (obj fs) a = AllInner-all_inner fs a
IsProper-proper (str s) a = refl
IsProper-proper (scalar s) a = refl
IsProper-proper (arr xs) a = refl

abbrev checked : Read Value → SyncResult Value
checked none = err (SyncError.parse "" "no document")
checked (some (v, rest)) = if proper v then ok v else err (SyncError.parse "" "repeated key")

-- A text that is nothing, or that starts with a brace, stands for an empty document.
no_document : String → Bool
no_document String.[] = true
no_document (String.◌∷◌ c s) = is_char c "{"

parse : String → SyncResult Value
parse text = if no_document text then ok (obj end) else checked (read (chars text) text)

unfoldable pub sample : Format
unfolding parse write write_text write_items write_fields read read_items read_fields read_text
    chars proper all_inner inner distinct no_document
sample = record { parse = λ loose text. parse text; render = λ text v. write v "" }

write-document : (v : Value) → no_document (write v "") ≡ false
unfolding write no_document
write-document (str s) = refl
write-document (scalar s) = refl
write-document (arr xs) = refl
write-document (obj fs) = refl

parse-write : (v : Value) → IsProper v → parse (write v "") ≡ ok v
unfolding parse
parse-write v p =
    ground
      (arith, write-document v, read-write v (chars (write v "")) "" enough, IsProper-proper v p)
  where
    enough : size v ≤ chars (write v "")
    enough = omega (arith, size-le-chars v "")

parse-IsProper : (text : String) (v : Value) → parse text ≡ ok v → IsProper v
unfolding parse
parse-IsProper text v h = elim (Bool-cases (no_document text)) [
  | inl empty ↦
      let same : obj end ≡ v = ok_inj {E = SyncError} (ground (arith, empty, h)) in
      subst IsProper same tt
  | inr other ↦ elim (Option-cases (read (chars text) text)) [
    | inl nothing ↦ absurd (ground (arith, other, nothing, h))
    | inr ((u, rest), found) ↦ elim (Bool-cases (proper u)) [
      | inl good ↦
          let same : u ≡ v = ok_inj {E = SyncError} (ground (arith, other, found, good, h)) in
          subst IsProper same (proper-IsProper u good)
      | inr bad ↦ absurd (ground (arith, other, found, bad, h))
    ]
  ]
]

write-visible : (v : Value) → is_blank (write v "") ≡ false
unfolding write is_blank
write-visible (str s) = refl
write-visible (scalar s) = refl
write-visible (arr xs) = refl
write-visible (obj fs) = refl

pub json-IsFormat : IsFormat sample "{}"
unfolding sample
json-IsFormat = record {
  parse-render = λ loose text d v h p. parse-write v p;
  render-visible = λ text v. write-visible v;
  parse_empty = λ loose. refl;
}

pub toml-IsFormat : IsFormat sample ""
unfolding sample
toml-IsFormat = record {
  parse-render = λ loose text d v h p. parse-write v p;
  render-visible = λ text v. write-visible v;
  parse_empty = λ loose. refl;
}

-- It reads no text in which such a key stands twice.
pub sample-IsRegular : (loose : Bool) (empty text : String) → IsRegular sample loose empty text
unfolding sample
sample-IsRegular loose empty text v h = parse-IsProper (if is_blank text then empty else text) v h
