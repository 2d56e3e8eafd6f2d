-- ===== src/PcmFeed/Contents.antt =====
-- The bytes that stand between two positions of the ring, and what a copy in pieces does to them.
use reai_board_sdk.Prelude.{
  ℕ, ◌+◌, ◌-◌, ◌%◌, ◌<◌, ◌≤◌, ◌≡◌, ◌⊎◌, inl, inr, ap, ap₂, ◌∙◌, List, ◌++◌, arith, min, le→ltb,
  lt→ltb, append-nil, length, take_all, length-take, length-drop, length-append, get_or, take, drop,
  copy_to, length-copy_to, dec_lt, dec_le, get_or-copy_to_at, get_or-copy_to_before,
  get_or-copy_to_behind, get_or-take, get_or-drop, get_or_index, get_or-append_left,
  get_or-append_right, tabulate, tabulate-add, tabulate_congr, eq-tabulate, tabulate-get_or,
  add_assoc, mod-step, mod-lt,
}
use reai_board_sdk.PcmFeed.{write_pieces, read_pieces}

-- `m` bytes from position `r` on, in a ring of `n`.
abbrev pub window : List ℕ → ℕ → ℕ → ℕ → List ℕ
window b n r m = tabulate m (λ i. get_or b ((r + i) % n) 0)

-- A copy that does not reach the end is one piece,
pub write_pieces_whole :
    (b : List ℕ) (n pos : ℕ) (xs : List ℕ)
    → pos + length xs ≤ n
    → write_pieces b pos (min (length xs) (n - pos)) xs ≡ copy_to b pos xs
unfolding write_pieces
write_pieces_whole b n pos xs h =
    ground (arith, ap (copy_to b pos) (take_all (min (length xs) (n - pos)) xs (omega arith)))

-- and any other goes on at the front.
pub write_pieces_split :
    (b : List ℕ) (n pos : ℕ) (xs : List ℕ)
    → n < pos + length xs
    → pos < n
    → write_pieces b pos (min (length xs) (n - pos)) xs
      ≡ copy_to (copy_to b pos (take (n - pos) xs)) 0 (drop (n - pos) xs)
unfolding write_pieces
write_pieces_split b n pos xs h p =
    let first : min (length xs) (n - pos) ≡ n - pos = omega arith in rw first (ground arith)

pub length-write_pieces :
    (b : List ℕ) (pos first : ℕ) (xs : List ℕ) → length (write_pieces b pos first xs) ≡ length b
unfolding write_pieces
length-write_pieces b pos first xs = ground (
  arith,
  length-copy_to (copy_to b pos (take first xs)) 0 (drop first xs),
  length-copy_to b pos (take first xs),
)

module _ (b : List ℕ) (n : ℕ) (fits : n ≤ length b) (pos : ℕ) (inside : pos < n) (xs : List ℕ)
    (small : length xs ≤ n) where
  -- What was written stands at its position.
  get_or-write_pieces_at :
      (j k : ℕ)
      → j < length xs
      → (k ≡ pos + j) ⊎ (k + n ≡ pos + j)
      → k < n
      → get_or (write_pieces b pos (min (length xs) (n - pos)) xs) k 0 ≡ get_or xs j 0
  get_or-write_pieces_at j k h (inl at) kn = elim (dec_le (pos + length xs) n) [
    | yes whole ↦
        rw (write_pieces_whole b n pos xs whole)
          (get_or-copy_to_at b pos xs j k 0 (omega arith) h at)
    | no split ↦ rw (write_pieces_split b n pos xs (omega arith) inside) (
        get_or-copy_to_behind (copy_to b pos (take (n - pos) xs)) 0 (drop (n - pos) xs) k 0
          (omega (arith, length-drop (n - pos) xs))
        ∙ get_or-copy_to_at b pos (take (n - pos) xs) j k 0
            (omega (arith, length-take (n - pos) xs)) (omega (arith, length-take (n - pos) xs)) at
        ∙ get_or-take (n - pos) xs j 0 (omega arith))
  ]
  get_or-write_pieces_at j k h (inr at) kn =
      rw (write_pieces_split b n pos xs (omega arith) inside) (
        get_or-copy_to_at (copy_to b pos (take (n - pos) xs)) 0 (drop (n - pos) xs) k k 0
          (omega (arith, length-drop (n - pos) xs, length-copy_to b pos (take (n - pos) xs)))
          (omega (arith, length-drop (n - pos) xs)) (omega arith)
        ∙ get_or-drop (n - pos) xs k 0
        ∙ get_or_index xs 0 (n - pos + k) j (omega arith))

  -- What was not written over is as it was.
  get_or-write_pieces_else :
      (k : ℕ)
      → k < n
      → ((k < pos) × (pos + length xs ≤ k + n)) ⊎ (pos + length xs ≤ k)
      → get_or (write_pieces b pos (min (length xs) (n - pos)) xs) k 0 ≡ get_or b k 0
  get_or-write_pieces_else k kn away = elim (dec_le (pos + length xs) n) [
    | yes whole ↦ rw (write_pieces_whole b n pos xs whole) (outside away)
    | no split ↦ rw (write_pieces_split b n pos xs (omega arith) inside) (
        get_or-copy_to_behind (copy_to b pos (take (n - pos) xs)) 0 (drop (n - pos) xs) k 0
          (omega (arith, length-drop (n - pos) xs))
        ∙ get_or-copy_to_before b pos (take (n - pos) xs) k 0 (omega arith))
  ]
    where
      outside :
          ((k < pos) × (pos + length xs ≤ k + n)) ⊎ (pos + length xs ≤ k)
          → get_or (copy_to b pos xs) k 0 ≡ get_or b k 0
      outside (inl h) = get_or-copy_to_before b pos xs k 0 h.0
      outside (inr h) = get_or-copy_to_behind b pos xs k 0 h

-- A write in pieces behind a window extends it by the bytes written.
pub window-write_pieces :
    (b : List ℕ) (n r m pos : ℕ) (xs : List ℕ)
    → n ≤ length b
    → 0 < n
    → m + length xs ≤ n
    → pos ≡ (r + m) % n
    → window (write_pieces b pos (min (length xs) (n - pos)) xs) n r (m + length xs)
      ≡ window b n r m ++ xs
window-write_pieces b n r m pos xs fits some_room room at =
    tabulate-add m (length xs) _ (λ j. get_or xs j 0) new
    ∙ ap₂ ◌++◌ (tabulate_congr m _ _ old) (tabulate-get_or xs 0)
  where
    inside : pos < n
    inside = omega (arith, mod-lt (r + m) some_room)

    place :
        (j : ℕ) → j < length xs → ((r + (m + j)) % n ≡ pos + j) ⊎ ((r + (m + j)) % n + n ≡ pos + j)
    place j h =
        let same : (r + m + j) % n ≡ (r + (m + j)) % n = ap (λ k. k % n) (add_assoc r m j) in
        omega (arith, mod-step (r + m) j n some_room (omega arith))

    new :
        (j : ℕ)
        → j < length xs
        → get_or (write_pieces b pos (min (length xs) (n - pos)) xs) ((r + (m + j)) % n) 0
          ≡ get_or xs j 0
    new j h =
        get_or-write_pieces_at b n fits pos inside xs (omega arith) j ((r + (m + j)) % n) h
          (place j h) (mod-lt (r + (m + j)) some_room)

    away :
        (i : ℕ)
        → i < m
        → (((r + i) % n < pos) × (pos + length xs ≤ (r + i) % n + n))
          ⊎ (pos + length xs ≤ (r + i) % n)
    away i h =
        let same : (r + i + (m - i)) % n ≡ (r + m) % n = ap (λ k. k % n) (rejoin i h) in
        grind (arith, same, mod-step (r + i) (m - i) n some_room (omega arith))
      where
        rejoin : (i : ℕ) → i < m → r + i + (m - i) ≡ r + m
        rejoin i h = omega arith

    old :
        (i : ℕ)
        → i < m
        → get_or (write_pieces b pos (min (length xs) (n - pos)) xs) ((r + i) % n) 0
          ≡ get_or b ((r + i) % n) 0
    old i h =
        get_or-write_pieces_else b n fits pos inside xs (omega arith) ((r + i) % n)
          (mod-lt (r + i) some_room) (away i h)

-- A read in pieces gives the bytes of the window.
module _ (b : List ℕ) (n r m pos : ℕ) (fits : length b ≡ n) (some_room : 0 < n) (small : m ≤ n)
    (at : pos ≡ r % n) where
  place : (i : ℕ) → i < m → (pos + i ≡ (r + i) % n) ⊎ (pos + i ≡ (r + i) % n + n)
  place i h = rw at (mod-step r i n some_room (omega arith))

  read_whole : m ≤ n - pos → take m (drop pos b) ≡ window b n r m
  read_whole h =
      eq-tabulate (take m (drop pos b)) 0 m _
        (omega (arith, length-take m (drop pos b), length-drop pos b))
        (λ i p.
          get_or-take m (drop pos b) i 0 p
          ∙ get_or-drop pos b i 0
          ∙ get_or_index b 0 (pos + i) ((r + i) % n)
              (omega (arith, p, place i p, mod-lt r some_room)))

  read_split : n - pos < m → take (n - pos) (drop pos b) ++ take (m - (n - pos)) b ≡ window b n r m
  read_split h =
      eq-tabulate (take (n - pos) (drop pos b) ++ take (m - (n - pos)) b) 0 m _
        (omega (
          arith,
          length-append (take (n - pos) (drop pos b)) (take (m - (n - pos)) b),
          front,
          length-take (m - (n - pos)) b,
          mod-lt r some_room,
        ))
        entry
    where
      front : length (take (n - pos) (drop pos b)) ≡ n - pos
      front = omega (arith, length-take (n - pos) (drop pos b), length-drop pos b)

      entry :
          (i : ℕ)
          → i < m
          → get_or (take (n - pos) (drop pos b) ++ take (m - (n - pos)) b) i 0
            ≡ get_or b ((r + i) % n) 0
      entry i p = elim (dec_lt i (n - pos)) [
        | yes l ↦
            get_or-append_left (take (n - pos) (drop pos b)) _ i 0 (omega (arith, front))
            ∙ get_or-take (n - pos) (drop pos b) i 0 l
            ∙ get_or-drop pos b i 0
            ∙ get_or_index b 0 (pos + i) ((r + i) % n) (omega (arith, place i p))
        | no l ↦
            get_or-append_right (take (n - pos) (drop pos b)) _ i (i - (n - pos)) 0
              (omega (arith, front))
            ∙ get_or-take (m - (n - pos)) b (i - (n - pos)) 0 (omega arith)
            ∙ get_or_index b 0 (i - (n - pos)) ((r + i) % n)
                (omega (arith, place i p, mod-lt r some_room, mod-lt (r + i) some_room))
      ]

  pub read_pieces-eq-window : read_pieces b pos (min m (n - pos)) m ≡ window b n r m
  unfolding read_pieces
  read_pieces-eq-window = elim (dec_le m (n - pos)) [
    | yes h ↦
        let first : min m (n - pos) ≡ m = omega arith in
        rw (first, le→ltb m m (omega arith), append-nil) (read_whole h)
    | no h ↦
        let first : min m (n - pos) ≡ n - pos = omega arith in
        rw (first, lt→ltb (n - pos) m (omega arith)) (read_split (omega arith))
  ]
