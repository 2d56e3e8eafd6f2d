-- ===== src/SampleRing/Contents.antt =====
-- The samples that a ring holds, oldest first, and the invariant of its indices.
use reai_board_sdk.Prelude.{
  ℕ, suc, ◌+◌, ◌%◌, ◌<◌, ◌≡◌, ap₂, List, ◌∷◌, arith, length, get_or, tabulate, length-tabulate,
  length-replicate, tabulate_congr, get_or_index,
}
use reai_board_sdk.SampleRing.{SampleRing, ring_capacity, init, level_of, next_index}

pub record IsValid (r : SampleRing) : Type 0 where
  pub full_buffer : length r.buffer ≡ ring_capacity
  pub head_in : r.head < ring_capacity
  pub tail_in : r.tail < ring_capacity

pub init-IsValid : IsValid init
unfolding init
init-IsValid = record {
  full_buffer = length-replicate {A = ℕ} ring_capacity 0;
  head_in = omega arith;
  tail_in = omega arith;
}

-- `n` samples from index `t` on.
abbrev pub window : List ℕ → ℕ → ℕ → List ℕ
window buffer t n = tabulate n (λ i. get_or buffer ((t + i) % ring_capacity) 0)

abbrev pub level : SampleRing → ℕ
level r = level_of r.head r.tail

abbrev pub contents : SampleRing → List ℕ
contents r = window r.buffer r.tail (level r)

pub length-contents : (r : SampleRing) → length (contents r) ≡ level r
length-contents r = length-tabulate (level r) _

-- A window from the next index on is the tail of the window.
pub window-suc :
    (buffer : List ℕ) (t n : ℕ)
    → t < ring_capacity
    → window buffer t (suc n) ≡ get_or buffer t 0 ∷ window buffer (next_index t) n
window-suc buffer t n h =
    ap₂ ◌∷◌ (get_or_index buffer 0 ((t + 0) % ring_capacity) t (omega arith)) (
      tabulate_congr n _ _ λ i p.
        get_or_index buffer 0 ((t + suc i) % ring_capacity) ((next_index t + i) % ring_capacity)
          (omega arith))
