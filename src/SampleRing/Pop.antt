-- ===== src/SampleRing/Pop.antt =====
-- `SampleRing::Pop`: the skip past the high water mark, the loop, and the latency that is left.
use reai_board_sdk.Prelude.{
  ℕ, zero, suc, ◌+◌, ◌-◌, ◌%◌, ◌<◌, ◌≡◌, sym, ap, ap₂, ◌∙◌, List, [], ◌∷◌, inl, inr, arith, ltb,
  ◌==◌, if◌then◌else◌, ltb→lt, Bool-cases, length, get_or, take, drop, min, get_or_index,
  tabulate_congr, tabulate_resize, take-tabulate, drop-tabulate,
}
use reai_board_sdk.SampleRing.{
  SampleRing, ring_capacity, high_water, low_water, next_index, level_of, pop_start, pop_loop, pop,
}
use reai_board_sdk.SampleRing.Contents.{
  IsValid, level, contents, window, window-suc, length-contents,
}

-- The samples and the index at which a loop that reads `n` of them from `t` on stops.
abbrev read_out : List ℕ → ℕ → ℕ → List ℕ × ℕ
read_out buffer t n = (window buffer t n, (t + n) % ring_capacity)

read_out-suc :
    (buffer : List ℕ) (t m n : ℕ)
    → t < ring_capacity
    → suc m ≡ n
    → (
      get_or buffer t 0 ∷ (read_out buffer (next_index t) m).0,
      (read_out buffer (next_index t) m).1,
    )
      ≡ read_out buffer t n
read_out-suc buffer t m n h e =
    ap₂ (λ w i. (w, i)) (sym (window-suc buffer t m h)) stops ∙ ap (read_out buffer t) e
  where
    stops : (next_index t + m) % ring_capacity ≡ (t + suc m) % ring_capacity
    stops = omega arith

read_out-zero :
    (buffer : List ℕ) (t n : ℕ) → t < ring_capacity → n ≡ 0 → ([], t) ≡ read_out buffer t n
read_out-zero buffer t n h e = ap (λ i. ([], i)) stops ∙ ap (read_out buffer t) (sym e)
  where
    stops : t ≡ (t + 0) % ring_capacity
    stops = omega arith

-- The loop reads `count` samples, or all up to the head if there are fewer.
pub pop_loop_lem :
    (buffer : List ℕ) (count tail head : ℕ)
    → head < ring_capacity
    → tail < ring_capacity
    → pop_loop buffer count tail head ≡ read_out buffer tail (min count (level_of head tail))
unfolding pop_loop
pop_loop_lem buffer zero tail head h t = read_out-zero buffer tail _ t (omega arith)
pop_loop_lem buffer (suc count) tail head h t = elim (Bool-cases (tail == head)) [
  | inl stop ↦ rw stop (read_out-zero buffer tail _ t (ground arith))
  | inr go ↦
      rw (go, pop_loop_lem buffer count (next_index tail) head h (omega arith))
        (read_out-suc buffer tail (min count (level_of head (next_index tail))) _ t (ground arith))
]

-- `Pop` starts inside the buffer; the samples ahead of it are the old level, or `low_water` of them
-- if the level was past the high water mark.
pub pop_start_lem :
    (head tail : ℕ)
    → head < ring_capacity
    → tail < ring_capacity
    → (pop_start head tail < ring_capacity)
      × (level_of head (pop_start head tail)
          ≡ (if ltb high_water (level_of head tail) then low_water else level_of head tail))
      × (pop_start head tail
          ≡ (tail + (level_of head tail - level_of head (pop_start head tail))) % ring_capacity)
unfolding pop_start
pop_start_lem head tail h t = ground arith

-- `Pop` keeps the invariant.
pub pop-IsValid : {r : SampleRing} (count : ℕ) → IsValid r → IsValid (pop r count).1
unfolding pop
pop-IsValid {r} count v =
    let start = pop_start_lem r.head r.tail v.head_in v.tail_in in
    record {
      full_buffer = v.full_buffer;
      head_in = v.head_in;
      tail_in =
          rw (pop_loop_lem r.buffer count (pop_start r.head r.tail) r.head v.head_in start.0)
            (omega arith);
    }

-- What a `Pop` serves from: past the high water mark the oldest samples are dropped down to the low
-- water mark.
abbrev pub kept : List ℕ → List ℕ
kept xs = if ltb high_water (length xs) then drop (length xs - low_water) xs else xs

pub kept-contents :
    {r : SampleRing}
    → IsValid r
    → kept (contents r)
      ≡ window r.buffer (pop_start r.head r.tail) (level_of r.head (pop_start r.head r.tail))
unfolding pop_start
kept-contents {r} v = rw (length-contents r) (elim (Bool-cases (ltb high_water (level r))) [
  | inl skip ↦ rw skip (
      drop-tabulate (level r - low_water) (level r) _
      ∙ tabulate_congr _ _ _
          (λ i p. get_or_index r.buffer 0 _ _ (omega (arith, ltb→lt high_water (level r) skip, p)))
      ∙ tabulate_resize _ _ _ (ground arith))
  | inr stay ↦ rw stay
])

-- A window less its first `count` samples is the window that starts behind them.
window-drop :
    (buffer : List ℕ) (s count head : ℕ)
    → head < ring_capacity
    → s < ring_capacity
    → (let stop = (s + min count (level_of head s)) % ring_capacity in
        window buffer stop (level_of head stop))
      ≡ drop count (window buffer s (level_of head s))
window-drop buffer s count head h t =
    tabulate_resize _ (level_of head s - count) _ (omega arith)
    ∙ tabulate_congr _ _ _ (λ i p. get_or_index buffer 0 _ _ (omega (arith, p)))
    ∙ sym (drop-tabulate count (level_of head s) _)

-- On a valid ring, `Pop` serves the oldest of the kept samples, `count` of them or as many as there
-- are, in order, and leaves the others.
pub pop_refines :
    {r : SampleRing} (count : ℕ)
    → IsValid r
    → ((pop r count).0 ≡ take count (kept (contents r)))
      × (contents (pop r count).1 ≡ drop count (kept (contents r)))
unfolding pop
pop_refines {r} count v =
    rw (kept-contents v, pop_loop_lem r.buffer count start r.head v.head_in in_range)
      (
        sym (take-tabulate count (level_of r.head start) _),
        window-drop r.buffer start count r.head v.head_in in_range,
      )
  where
    start : ℕ
    start = pop_start r.head r.tail

    in_range : start < ring_capacity
    in_range = (pop_start_lem r.head r.tail v.head_in v.tail_in).0
