-- ===== src/Sync/Document/Lookup.antt =====
-- Laws of the fields of an object.
use tethys.Prelude.{
  String, false, ◌≡◌, refl, ap, some, List, [], ◌∷◌, string_eq, ◌==◌, if◌then◌else◌, is_some, arith,
  eq_iff, inl, inr, Bool-cases, subst, some_inj,
}
use tethys.Sync.Document.{Value, obj, Fields, end, field, get, set, strings, of_strings}

pub get-set :
    (fs : Fields) (name k : String) (v : Value)
    → get (set fs name v) k ≡ (if name == k then some v else get fs k)
unfolding get set
get-set end name k v = refl
get-set (field j w fs) name k v =
    ground (arith, eq_iff name k, eq_iff j name, eq_iff j k, get-set fs name k v)

-- Each key once.
abbrev pub DistinctFields : Fields → Type 0
DistinctFields end = Unit
DistinctFields (field k v fs) = (is_some (get fs k) ≡ false) × DistinctFields fs

pub set-DistinctFields :
    (fs : Fields) (name : String) (v : Value) → DistinctFields fs → DistinctFields (set fs name v)
unfolding get set
set-DistinctFields end name v d = (refl, tt)
set-DistinctFields (field k w fs) name v (new, d) = elim (Bool-cases (k == name)) [
  | inl same ↦ rw same (new, d)
  | inr other ↦ rw other (
    ground (arith, new, other, get-set fs name k v, eq_iff k name, eq_iff name k),
    set-DistinctFields fs name v d,
  )
]

pub strings-of_strings : (ss : List String) → strings (of_strings ss) ≡ ss
unfolding strings of_strings
strings-of_strings [] = refl
strings-of_strings (s ∷ ss) = ap (λ l. s ∷ l) (strings-of_strings ss)

-- The objects right below the root have each key once.
abbrev pub IsInner : Value → Type 0
IsInner (obj fs) = DistinctFields fs
IsInner _ = Unit

abbrev pub AllInner : Fields → Type 0
AllInner end = Unit
AllInner (field k v fs) = IsInner v × AllInner fs

abbrev pub IsProper : Value → Type 0
IsProper (obj fs) = AllInner fs
IsProper _ = Unit

pub get-IsInner :
    (fs : Fields) (name : String) (v : Value) → AllInner fs → get fs name ≡ some v → IsInner v
unfolding get
get-IsInner end name v a h = absurd (ground (arith, h))
get-IsInner (field k w fs) name v (first, a) h = elim (Bool-cases (k == name)) [
  | inl same ↦ subst IsInner (some_inj (ground (arith, same, h))) first
  | inr other ↦ get-IsInner fs name v a (ground (arith, other, h))
]

pub set-AllInner :
    (fs : Fields) (name : String) (v : Value) → IsInner v → AllInner fs → AllInner (set fs name v)
unfolding set
set-AllInner end name v i a = (i, tt)
set-AllInner (field k w fs) name v i (first, a) = elim (Bool-cases (k == name)) [
  | inl same ↦ rw same (i, a)
  | inr other ↦ rw other (first, set-AllInner fs name v i a)
]
