-- ===== src/Supervisor/Ring.antt =====
-- The buffer is the end of what was written.
use tethys.Prelude.{
  ℕ, ◌+◌, ◌-◌, ◌≤◌, ◌≡◌, ap, ◌∙◌, sym, inl, inr, Bool-cases, List, [], ◌∷◌, ◌++◌, append-nil,
  append_assoc, arith, leb, length, drop, length-append, length-drop, drop-append_left,
  drop-append_right, drop-drop,
}
use tethys.Supervisor.{StderrRingBuffer, len, write_bytes}

-- The last `n` elements.
unfoldable pub last : ℕ → List ℕ → List ℕ
last n xs = drop (length xs - n) xs

last-all : (n : ℕ) (xs : List ℕ) → length xs ≤ n → last n xs ≡ xs
unfolding last
last-all n xs h = ap (λ k. drop k xs) none_over
  where
    none_over : length xs - n ≡ 0
    none_over = omega (arith, h)

last-append : (n : ℕ) (xs ys : List ℕ) → last n (last n xs ++ ys) ≡ last n (xs ++ ys)
unfolding last
last-append n xs ys =
    rw
      (
        length-append (drop (length xs - n) xs) ys,
        length-drop (length xs - n) xs,
        length-append xs ys,
        sym (drop-append_left (length xs - n) xs ys (omega arith)),
      )
      (drop-drop (length xs - (length xs - n) + length ys - n) (length xs - n) (xs ++ ys)
        ∙ ap (λ k. drop k (xs ++ ys)) (omega arith))

-- One write keeps the last `capacity` bytes of the buffer and the new bytes, whichever branch it takes.
write_bytes-last :
    (r : StderrRingBuffer) (bytes : List ℕ)
    → (write_bytes r bytes).buffer ≡ last r.capacity (r.buffer ++ bytes)
unfolding write_bytes last
write_bytes-last r bytes = elim (Bool-cases (leb (length r.buffer + length bytes) r.capacity)) [
  | inl fits ↦ rw fits (
      sym (
        last-all r.capacity (r.buffer ++ bytes)
          (ground (arith, fits, length-append r.buffer bytes))))
  | inr full ↦
      elim (Bool-cases (leb (length r.buffer) (length r.buffer + length bytes - r.capacity))) [
        | inl all ↦
            rw (full, all)
              (rw (length-append r.buffer bytes) (
                ap (λ k. drop k bytes) (ground (arith, full, all))
                ∙ sym (
                    drop-append_right (length r.buffer + length bytes - r.capacity) r.buffer bytes
                      (ground (arith, all)))))
        | inr some_left ↦
            rw (full, some_left)
              (rw (length-append r.buffer bytes) (
                sym (
                  drop-append_left (length r.buffer + length bytes - r.capacity) r.buffer bytes
                    (ground (arith, some_left)))))
      ]
]

unfoldable pub write_all : StderrRingBuffer → List (List ℕ) → StderrRingBuffer
unfolding write_bytes
write_all r [] = r
write_all r (b ∷ bs) = write_all (write_bytes r b) bs

unfoldable pub joined : List (List ℕ) → List ℕ
joined [] = []
joined (b ∷ bs) = b ++ joined bs

capacity-write_bytes :
    (r : StderrRingBuffer) (bytes : List ℕ) → (write_bytes r bytes).capacity ≡ r.capacity
unfolding write_bytes
capacity-write_bytes r bytes = ground arith

length-last : (n : ℕ) (xs : List ℕ) → length (last n xs) ≤ n
unfolding last
length-last n xs = omega (arith, length-drop (length xs - n) xs)

write_bytes-bounded :
    (r : StderrRingBuffer) (bytes : List ℕ)
    → len (write_bytes r bytes) ≤ (write_bytes r bytes).capacity
write_bytes-bounded r bytes =
    rw (write_bytes-last r bytes, capacity-write_bytes r bytes)
      (length-last r.capacity (r.buffer ++ bytes))

-- Whatever writes arrive, and however they are cut, a buffer that is within its capacity holds the
-- last `capacity` bytes of its content and of all that was written.
pub write_all-last :
    (r : StderrRingBuffer) (writes : List (List ℕ))
    → len r ≤ r.capacity
    → (write_all r writes).buffer ≡ last r.capacity (r.buffer ++ joined writes)
unfolding write_all joined
write_all-last r [] h = rw (append-nil r.buffer) (sym (last-all r.capacity r.buffer h))
write_all-last r (b ∷ bs) h =
    write_all-last (write_bytes r b) bs (write_bytes-bounded r b)
    ∙ rw (capacity-write_bytes r b, write_bytes-last r b)
        (last-append r.capacity (r.buffer ++ b) (joined bs)
          ∙ ap (last r.capacity) (append_assoc r.buffer b (joined bs)))
