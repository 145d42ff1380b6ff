-- ===== src/Sync/Document/Sample/Spelling.antt =====
-- A spelling of documents that reads back: in prefix form, `s` and its characters for a text, `a` for
-- an array, `o` for an object, and so on, each list ended by `e`.
use Prim.Native.Char.{Char, code}
use tethys.Prelude.{
  ℕ, zero, suc, ◌+◌, ◌≤◌, ◌<◌, String, Bool, ◌≡◌, refl, Option, none, some, string_eq, nat_beq,
  if◌then◌else◌, arith,
}
use tethys.Sync.Document.{Value, str, scalar, arr, obj, Items, nil, cons, Fields, end, field}

abbrev spell : Char → String → String
spell c s = String.◌∷◌ c s

abbrev pub is_char : Char → Char → Bool
is_char c d = nat_beq (code c) (code d)

unfoldable pub write_text : String → String → String
write_text String.[] rest = spell "e" rest
write_text (String.◌∷◌ c s) rest = spell "c" (spell c (write_text s rest))

unfoldable mutual
  pub write : Value → String → String
  write (str s) rest = spell "s" (write_text s rest)
  write (scalar s) rest = spell "n" (write_text s rest)
  write (arr xs) rest = spell "a" (write_items xs rest)
  write (obj fs) rest = spell "o" (write_fields fs rest)

  pub write_items : Items → String → String
  write_items nil rest = spell "e" rest
  write_items (cons v xs) rest = spell "c" (write v (write_items xs rest))

  pub write_fields : Fields → String → String
  write_fields end rest = spell "e" rest
  write_fields (field k v fs) rest = spell "c" (write_text k (write v (write_fields fs rest)))

abbrev pub Read {ℓ} : Type ℓ → Type ℓ
Read A = Option (A × String)

abbrev then_read {ℓ κ} : {A : Type ℓ} {B : Type κ} → (A → String → Read B) → Read A → Read B
then_read f none = none
then_read f (some (a, rest)) = f a rest

unfoldable pub read_text : String → Read String
read_text String.[] = none
read_text (String.◌∷◌ c String.[]) = if is_char c "e" then some ("", "") else none
read_text (String.◌∷◌ c (String.◌∷◌ d s)) =
    let more = then_read (λ t rest. some (spell d t, rest)) (read_text s) in
    if is_char c "e" then some ("", spell d s) else more

unfoldable mutual
  pub read : ℕ → String → Read Value
  read zero s = none
  read (suc f) String.[] = none
  read (suc f) (String.◌∷◌ c s) =
      let items = then_read (λ xs rest. some (arr xs, rest)) (read_items f s) in
      let fields = then_read (λ fs rest. some (obj fs, rest)) (read_fields f s) in
      if is_char c "s"
      then then_read (λ t rest. some (str t, rest)) (read_text s)
      else if is_char c "n"
      then then_read (λ t rest. some (scalar t, rest)) (read_text s)
      else if is_char c "a"
      then items
      else if is_char c "o"
      then fields
      else none

  pub read_items : ℕ → String → Read Items
  read_items zero s = none
  read_items (suc f) String.[] = none
  read_items (suc f) (String.◌∷◌ c s) =
      let more =
        then_read (λ v rest. then_read (λ xs rest'. some (cons v xs, rest')) (read_items f rest))
          (read f s) in
      if is_char c "e" then some (nil, s) else more

  pub read_fields : ℕ → String → Read Fields
  read_fields zero s = none
  read_fields (suc f) String.[] = none
  read_fields (suc f) (String.◌∷◌ c s) =
      let more =
        then_read
          (λ k rest.
            then_read
              (λ v rest'.
                then_read (λ fs rest''. some (field k v fs, rest'')) (read_fields f rest'))
              (read f rest))
          (read_text s) in
      if is_char c "e" then some (end, s) else more

unfoldable mutual
  pub size : Value → ℕ
  size (str s) = 1
  size (scalar s) = 1
  size (arr xs) = suc (size_items xs)
  size (obj fs) = suc (size_fields fs)

  pub size_items : Items → ℕ
  size_items nil = 1
  size_items (cons v xs) = suc (size v + size_items xs)

  pub size_fields : Fields → ℕ
  size_fields end = 1
  size_fields (field k v fs) = suc (size v + size_fields fs)

pub read_text-write_text : (t rest : String) → read_text (write_text t rest) ≡ some (t, rest)
unfolding read_text write_text
read_text-write_text String.[] String.[] = refl
read_text-write_text String.[] (String.◌∷◌ c s) = refl
read_text-write_text (String.◌∷◌ c t) rest = ground (arith, read_text-write_text t rest)

size_pos : (v : Value) → 0 < size v
unfolding size
size_pos (str s) = omega arith
size_pos _ = omega arith

size_items_pos : (xs : Items) → 0 < size_items xs
unfolding size
size_items_pos nil = omega arith
size_items_pos (cons v xs) = omega arith

size_fields_pos : (fs : Fields) → 0 < size_fields fs
unfolding size
size_fields_pos end = omega arith
size_fields_pos (field k v fs) = omega arith

unfoldable pub chars : String → ℕ
chars String.[] = 0
chars (String.◌∷◌ c s) = suc (chars s)

chars-write_text : (t rest : String) → chars rest < chars (write_text t rest)
unfolding chars write_text
chars-write_text String.[] rest = omega arith
chars-write_text (String.◌∷◌ c t) rest = omega (arith, chars-write_text t rest)

-- As many turns as a text has characters are enough to read it.
mutual
  unfolding chars write size

  pub size-le-chars : (v : Value) (rest : String) → size v + chars rest ≤ chars (write v rest)
  size-le-chars (str s) rest = omega (arith, chars-write_text s rest)
  size-le-chars (scalar s) rest = omega (arith, chars-write_text s rest)
  size-le-chars (arr xs) rest = omega (arith, items-le-chars xs rest)
  size-le-chars (obj fs) rest = omega (arith, fields-le-chars fs rest)

  items-le-chars :
      (xs : Items) (rest : String) → size_items xs + chars rest ≤ chars (write_items xs rest)
  items-le-chars nil rest = omega arith
  items-le-chars (cons v xs) rest =
      omega (arith, size-le-chars v (write_items xs rest), items-le-chars xs rest)

  pub fields-le-chars :
      (fs : Fields) (rest : String) → size_fields fs + chars rest ≤ chars (write_fields fs rest)
  fields-le-chars end rest = omega arith
  fields-le-chars (field k v fs) rest = omega (
    arith,
    chars-write_text k (write v (write_fields fs rest)),
    size-le-chars v (write_fields fs rest),
    fields-le-chars fs rest,
  )

mutual
  unfolding read write size

  pub read-write :
      (v : Value) (f : ℕ) (rest : String) → size v ≤ f → read f (write v rest) ≡ some (v, rest)
  read-write v zero rest h = absurd (omega (arith, size_pos v))
  read-write (str s) (suc f) rest h = ground (arith, read_text-write_text s rest)
  read-write (scalar s) (suc f) rest h = ground (arith, read_text-write_text s rest)
  read-write (arr xs) (suc f) rest h = ground (arith, read_items-write xs f rest (omega arith))
  read-write (obj fs) (suc f) rest h = ground (arith, read_fields-write fs f rest (omega arith))

  read_items-write :
      (xs : Items) (f : ℕ) (rest : String)
      → size_items xs ≤ f
      → read_items f (write_items xs rest) ≡ some (xs, rest)
  read_items-write xs zero rest h = absurd (omega (arith, size_items_pos xs))
  read_items-write nil (suc f) rest h = refl
  read_items-write (cons v xs) (suc f) rest h = ground (
    arith,
    read-write v f (write_items xs rest) (omega arith),
    read_items-write xs f rest (omega arith),
  )

  pub read_fields-write :
      (fs : Fields) (f : ℕ) (rest : String)
      → size_fields fs ≤ f
      → read_fields f (write_fields fs rest) ≡ some (fs, rest)
  read_fields-write fs zero rest h = absurd (omega (arith, size_fields_pos fs))
  read_fields-write end (suc f) rest h = refl
  read_fields-write (field k v fs) (suc f) rest h = ground (
    arith,
    read_text-write_text k (write v (write_fields fs rest)),
    read-write v f (write_fields fs rest) (omega arith),
    read_fields-write fs f rest (omega arith),
  )
