-- ===== src/SampleRing/Push.antt =====
-- `SampleRing::Push`.
use reai_board_sdk.Prelude.{
  ℕ, ◌+◌, ◌-◌, ◌%◌, ◌<◌, ◌≡◌, ap, ◌∙◌, List, [], ◌∷◌, ◌++◌, inl, inr, arith, ◌==◌, if◌then◌else◌,
  Bool-cases, length, length-set, get_or, set, get_or-set_ne, get_or-set_self, get_or_index,
  tabulate-add, tabulate_congr, tabulate_resize,
}
use reai_board_sdk.SampleRing.{SampleRing, ring_capacity, next_index, level_of, push}
use reai_board_sdk.SampleRing.Contents.{IsValid, level, contents, window}

-- `Push` keeps the invariant.
pub push-IsValid : {r : SampleRing} (x : ℕ) → IsValid r → IsValid (push r x)
unfolding push
push-IsValid {r} x v = ground (arith, length-set r.buffer r.head x)

-- A write at the head extends the window that ends there.
pub window-set :
    (buffer : List ℕ) (t n h x : ℕ)
    → length buffer ≡ ring_capacity
    → t < ring_capacity
    → n + 1 < ring_capacity
    → h ≡ (t + n) % ring_capacity
    → window (set buffer h x) t (n + 1) ≡ window buffer t n ++ x ∷ []
window-set buffer t n h x full t_in room e =
    tabulate-add n 1 _ (λ _. x) last ∙ ap (λ w. w ++ x ∷ []) (tabulate_congr n _ _ earlier)
  where
    last : (i : ℕ) → i < 1 → get_or (set buffer h x) ((t + (n + i)) % ring_capacity) 0 ≡ x
    last i p =
        get_or_index (set buffer h x) 0 ((t + (n + i)) % ring_capacity) h (omega arith)
        ∙ get_or-set_self buffer h x 0 (omega arith)

    earlier :
        (i : ℕ)
        → i < n
        → get_or (set buffer h x) ((t + i) % ring_capacity) 0
          ≡ get_or buffer ((t + i) % ring_capacity) 0
    earlier i p = get_or-set_ne buffer x 0 (omega arith)

-- The test of `Push` recognises the full ring.
full_test :
    (head tail : ℕ)
    → head < ring_capacity
    → tail < ring_capacity
    → (next_index head == tail) ≡ (level_of head tail == ring_capacity - 1)
full_test head tail h t = ground arith

-- On a valid ring, `Push` drops the new sample if the ring is full, one sample short of the capacity,
-- and appends it otherwise.
pub push_refines :
    {r : SampleRing} (x : ℕ)
    → IsValid r
    → contents (push r x)
      ≡ (if level r == ring_capacity - 1 then contents r else contents r ++ x ∷ [])
unfolding push
push_refines {r} x v =
    rw (← full_test r.head r.tail v.head_in v.tail_in)
      (elim (Bool-cases (next_index r.head == r.tail)) [
        | inl stop ↦ rw stop
        | inr go ↦ rw go (
            tabulate_resize _ (level r + 1) _ (ground arith)
            ∙ window-set r.buffer r.tail (level r) r.head x v.full_buffer v.tail_in (ground arith)
                (ground arith))
      ])
