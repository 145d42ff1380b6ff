-- ===== src/Connections/Accounting.antt =====
-- Leases are counted right under every interleaving, and a draining entry has none.
use mathlib.Core.Option
use tethys.Prelude.{
  subst, ℕ, ◌+◌, ◌^◌, ◌<◌, ◌≡◌, refl, ◌==◌, ◌⊎◌, Bool, true, false, Option, none, some, List, [],
  ◌∷◌, ◌++◌, if◌then◌else◌, is_some, arith,
}
use tethys.Prelude.Assoc.{lookup, modify, lookup-modify, Assoc}
use tethys.Schema.Connection.{ConnectionKey, key_eq, key_beq_iff}
use tethys.Connections.{
  ConnectionLease, Entry, refresh_all, give_back, refresh_liveness, is_draining, is_connected, lend,
  count_spawn, fail_closed,
}
use tethys.Connections.World.{World, held_of}

-- An entry with `n` leases outstanding.
pub record IsCounted (n : ℕ) (e : Entry) : Type 0 where
  pub counted : e.leases ≡ n
  pub idle : is_draining e.state ≡ true → n ≡ 0
  pub attached :
      is_some e.connection ≡ true → (is_connected e.state ≡ true) ⊎ (is_draining e.state ≡ true)

abbrev pub IsCountedAt : ℕ → Option Entry → Type 0
IsCountedAt n none = n ≡ 0
IsCountedAt n (some e) = IsCounted n e

abbrev Counts : World → ConnectionKey → Type 0
Counts w k = IsCountedAt (held_of k w.held) (lookup k w.store.entries)

-- The number of leases outstanding is below 2 ^ 32 for each key, and the key of a spawn is known.
pub record Inv (w : World) : Type 0 where
  pub counts : (k : ConnectionKey) → IsCountedAt (held_of k w.held) (lookup k w.store.entries)
  pub known : (k : ConnectionKey) → w.spawning ≡ some k → is_some (lookup k w.store.entries) ≡ true

pub give_back-IsCounted :
    (now n : ℕ) (e : Entry) → IsCounted (n + 1) e → IsCounted n (give_back now e)
unfolding give_back
give_back-IsCounted now n e h = ground (arith, h.idle, h.attached)

pub refresh-IsCounted :
    (exited : ℕ → Bool) (n : ℕ) (e : Entry)
    → IsCounted n e
    → IsCounted n (refresh_liveness exited e)
unfolding refresh_liveness
refresh-IsCounted exited n e h = ground (arith, h.idle, h.attached)

pub lend-IsCounted :
    (now n : ℕ) (e : Entry)
    → n + 1 < 2 ^ 32
    → is_connected e.state ≡ true
    → IsCounted n e
    → IsCounted (n + 1) (lend now e)
lend-IsCounted now n e b c h = ground (arith, h.idle, h.attached)

pub count_spawn-IsCounted : (n : ℕ) (e : Entry) → IsCounted n e → IsCounted n (count_spawn e)
unfolding count_spawn
count_spawn-IsCounted n e h = ground (arith, h.idle, h.attached)

pub fail_closed-IsCounted : (c n : ℕ) (e : Entry) → IsCounted n e → IsCounted n (fail_closed c e)
unfolding fail_closed
fail_closed-IsCounted c n e h = ground (arith, h.idle, h.attached)

-- A change by `f` where `b` holds, and of the number of leases with it.
changed-IsCountedAt :
    (f : Entry → Entry) (b : Bool) (o : Option Entry) (n n' : ℕ)
    → IsCountedAt n o
    → ((e : Entry) → b ≡ true → o ≡ some e → IsCounted n e → IsCounted n' (f e))
    → (b ≡ true → o ≡ none → n' ≡ 0)
    → (b ≡ false → n' ≡ n)
    → IsCountedAt n' (if b then Option.map f o else o)
changed-IsCountedAt f true none n n' h hit gone miss = gone refl refl
changed-IsCountedAt f true (some e) n n' h hit gone miss = hit e refl refl h
changed-IsCountedAt f false o n n' h hit gone miss = rw (miss refl) h

-- One entry is changed by `f`, and the number of leases of its key with it.
modify-IsCountedAt :
    (m : Assoc ConnectionKey Entry) (key k : ConnectionKey) (f : Entry → Entry) (n n' : ℕ)
    → IsCountedAt n (lookup k m)
    → ((e : Entry) → key ≡ k → lookup k m ≡ some e → IsCounted n e → IsCounted n' (f e))
    → (key ≡ k → lookup k m ≡ none → n' ≡ 0)
    → ((key == k) ≡ false → n' ≡ n)
    → IsCountedAt n' (lookup k (modify key f m))
modify-IsCountedAt m key k f n n' h hit gone miss = rw (lookup-modify key k f m) (
    changed-IsCountedAt f (key == k) (lookup k m) n n' h (λ e b. hit e ((key_beq_iff key k).0 b))
      (λ b. gone ((key_beq_iff key k).0 b)) miss)

held_of-drop :
    (k : ConnectionKey) (before after : List ConnectionLease) (l : ConnectionLease)
    → held_of k (before ++ l ∷ after) ≡ held_of k (before ++ after) + (if l.key == k then 1 else 0)
unfolding held_of
held_of-drop k [] after l = ground arith
held_of-drop k (b ∷ before) after l = ground (arith, held_of-drop k before after l)

module _ (w : World) (v : Inv w) where
  -- A step that changes one entry and no lease.
  pub keeps :
      (key : ConnectionKey) (f : Entry → Entry) (k : ConnectionKey)
      → ((e : Entry) (n : ℕ)
          → lookup key w.store.entries ≡ some e
          → IsCounted n e
          → IsCounted n (f e))
      → IsCountedAt (held_of k w.held) (lookup k (modify key f w.store.entries))
  keeps key f k h =
      modify-IsCountedAt w.store.entries key k f _ _ (v.counts k)
        (λ e same found. h e (held_of k w.held) (rw same found)) (λ _. none_left) (λ _. refl)
    where
      none_left : lookup k w.store.entries ≡ none → held_of k w.held ≡ 0
      none_left e = subst (IsCountedAt (held_of k w.held)) e (v.counts k)

  -- A step that lends a connection of `key`.
  pub lends :
      (key : ConnectionKey) (connection : ℕ) (f : Entry → Entry) (k : ConnectionKey)
      → is_some (lookup key w.store.entries) ≡ true
      → ((e : Entry) (n : ℕ)
          → lookup key w.store.entries ≡ some e
          → n ≡ held_of key w.held
          → IsCounted n e
          → IsCounted (n + 1) (f e))
      → IsCountedAt
          (held_of k (record { key = key; connection = connection } ∷ w.held))
          (lookup k (modify key f w.store.entries))
  unfolding held_of
  lends key connection f k there h =
      modify-IsCountedAt w.store.entries key k f (held_of k w.held) _ (v.counts k)
        (λ e same found c.
          rw ((key_beq_iff key k).1 same) (h e (held_of k w.held) (rw same found) (rw same) c))
        (λ same gone. absurd (present same gone)) (λ miss. rw miss)
    where
      present : key ≡ k → lookup k w.store.entries ≡ none → ⊥
      present same gone = cc (subst (λ j. is_some (lookup j w.store.entries) ≡ true) same there)

  -- The drop of one lease.
  pub drops :
      (now : ℕ) (before after : List ConnectionLease) (l : ConnectionLease) (k : ConnectionKey)
      → w.held ≡ before ++ l ∷ after
      → IsCountedAt
          (held_of k (before ++ after))
          (lookup k (modify l.key (give_back now) w.store.entries))
  drops now before after l k h =
      modify-IsCountedAt w.store.entries l.key k (give_back now) (held_of k w.held) _ (v.counts k)
        (λ e same found c.
          give_back-IsCounted now (held_of k (before ++ after)) e
            (subst (λ n. IsCounted n e) (one_more ((key_beq_iff l.key k).1 same)) c))
        (λ same gone. ground (arith, one_more ((key_beq_iff l.key k).1 same), none_left gone))
        (λ miss. ground (arith, total, miss))
    where
      total : held_of k w.held ≡ held_of k (before ++ after) + (if l.key == k then 1 else 0)
      total = rw h (held_of-drop k before after l)

      one_more : (l.key == k) ≡ true → held_of k w.held ≡ held_of k (before ++ after) + 1
      one_more b = ground (arith, total, b)

      none_left : lookup k w.store.entries ≡ none → held_of k w.held ≡ 0
      none_left e = subst (IsCountedAt (held_of k w.held)) e (v.counts k)

  pub known-modify :
      (key k : ConnectionKey) (f : Entry → Entry)
      → is_some (lookup k (modify key f w.store.entries)) ≡ is_some (lookup k w.store.entries)
  known-modify key k f = ground (arith, lookup-modify key k f w.store.entries)

pub refresh_all-lookup :
    (exited : ℕ → Bool) (k : ConnectionKey) (m : Assoc ConnectionKey Entry)
    → lookup k (refresh_all exited m) ≡ Option.map (refresh_liveness exited) (lookup k m)
unfolding refresh_all lookup
refresh_all-lookup exited k [] = refl
refresh_all-lookup exited k ((j, e) ∷ m) = ground (arith, refresh_all-lookup exited k m)
