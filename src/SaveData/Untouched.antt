-- ===== src/SaveData/Untouched.antt =====
-- WriteData and the frames that wait for a worker: their bytes stay until they are saved.
use reai_board_sdk.Prelude.{
  ℕ, suc, ◌+◌, ◌-◌, ◌*◌, ◌≤◌, ◌<◌, ◌≡◌, ◌≢◌, ◌⊎◌, inl, inr, refl, sym, ap, ◌∙◌, arith, List, Bool,
  true, false, length, take, drop, get_or, set, length-take, length-drop, Bool-cases,
  length-copy_to, ◌==◌, mul-le-mul_right, dec_lt, ℕ_discrete, get_or-set_ne,
}
use reai_board_sdk.SaveData.{Frames, WorkItem}
use reai_board_sdk.SaveData.Write.{left_over, write_frame, write_data}
use reai_board_sdk.SaveData.Invariant.{IsValid, suc-mul, next_start}
use reai_board_sdk.SaveData.Cases.{after_copy, after_save, write_frame_cases}
use reai_board_sdk.SaveData.WriteLaws.{kept_bytes, length-kept_bytes, write_data_cases}
use reai_board_sdk.SaveData.Windows.{window, window-copy_to_outside}

-- The bytes of a frame.
abbrev pub frame_bytes : Frames → ℕ → List ℕ
frame_bytes f k = window f.buffer (k * f.frame_size) f.frame_size

true-ne_false : true ≢ false
true-ne_false e = ground (arith, e)

true_not_false :
    (xs : List Bool) (i j : ℕ) → get_or xs i false ≡ true → get_or xs j false ≡ false → i ≢ j
true_not_false xs i j t f e = true-ne_false (sym t ∙ ap (λ k. get_or xs k false) e ∙ f)

-- The left over goes to the front frame, if that is free.
left_over-frame_bytes :
    (g : Frames) (rest : List ℕ) (k : ℕ)
    → g.buffer_offset ≡ 0
    → length rest ≤ g.frame_size
    → (get_or g.frame_used g.frame_index false ≡ true) ⊎ (g.frame_size ≤ k * g.frame_size)
    → k * g.frame_size + g.frame_size ≤ length g.buffer
    → frame_bytes (left_over g rest) k ≡ frame_bytes g k
left_over-frame_bytes g rest k front few apart in_buffer = elim (Bool-cases (length rest == 0)) [
  | inl a ↦ rw a refl
  | inr a ↦ elim (Bool-cases (get_or g.frame_used g.frame_index false)) [
    | inl b ↦ rw a (rw b refl)
    | inr b ↦ elim apart [
      | inl used ↦ absurd (true-ne_false (sym used ∙ b))
      | inr behind ↦ rw a (
          rw b (
            window-copy_to_outside g.buffer g.buffer_offset rest (k * g.frame_size) g.frame_size 0
              in_buffer (inr (omega arith))))
    ]
  ]
]

module _ {f : Frames} {start end : ℕ} (v : IsValid f start end) (k : ℕ)
    (k_in : k < f.frame_count) where
  frame_in_buffer : k * f.frame_size + f.frame_size ≤ length f.buffer
  frame_in_buffer =
      omega (arith, v.whole, v.sized, suc-mul k f.frame_size, mul-le-mul_right f.frame_size k_in)

  -- Where a frame that is not the current one lies.
  frame_apart :
      k ≢ f.frame_index
      → (k * f.frame_size + f.frame_size ≤ start)
        ⊎ (k ≡ suc f.frame_index)
        ⊎ (end + f.frame_size ≤ k * f.frame_size)
  frame_apart other = elim (dec_lt k f.frame_index) [
    | yes h ↦ inl (omega (arith, suc-mul k f.frame_size, mul-le-mul_right f.frame_size h, v.starts))
    | no h ↦ elim (ℕ_discrete k (suc f.frame_index)) [
      | yes e ↦ inr (inl e)
      | no e ↦
          let far : suc (suc f.frame_index) ≤ k = omega (arith, h, e, other) in
          inr (
            inr (
              omega (
                arith,
                next_start v,
                suc-mul (suc f.frame_index) f.frame_size,
                mul-le-mul_right f.frame_size far,
              )))
    ]
  ]

  -- A copy that does not get past the next frame leaves the others.
  copy-frame_bytes :
      (bytes : List ℕ)
      → k ≢ f.frame_index
      → (k ≢ suc f.frame_index) ⊎ (f.buffer_offset + length bytes ≤ end)
      → length bytes ≤ f.frame_size
      → frame_bytes (after_copy f bytes) k ≡ frame_bytes f k
  copy-frame_bytes bytes other free few =
      window-copy_to_outside f.buffer f.buffer_offset bytes (k * f.frame_size) f.frame_size 0
        frame_in_buffer (side (frame_apart other) free)
    where
      side :
          (k * f.frame_size + f.frame_size ≤ start)
            ⊎ (k ≡ suc f.frame_index)
            ⊎ (end + f.frame_size ≤ k * f.frame_size)
          → (k ≢ suc f.frame_index) ⊎ (f.buffer_offset + length bytes ≤ end)
          → (k * f.frame_size + f.frame_size ≤ f.buffer_offset)
            ⊎ (f.buffer_offset + length bytes ≤ k * f.frame_size)
      side (inl before) _ = inl (omega (arith, v.low))
      side (inr (inr behind)) _ = inr (omega (arith, v.high))
      side (inr (inl e)) (inl ne) = absurd (ne e)
      side (inr (inl e)) (inr h) = inr (omega (arith, next_start v, ap (λ n. n * f.frame_size) e))

  write_frame-frame_bytes :
      (items : List WorkItem) (bytes : List ℕ)
      → length bytes ≤ f.frame_size
      → get_or f.frame_used k false ≡ true
      → get_or f.frame_used f.frame_index false ≡ false
      → get_or f.frame_used (suc f.frame_index) false ≡ false
      → frame_bytes (write_frame f items bytes).0 k ≡ frame_bytes f k
  write_frame-frame_bytes items bytes few used current next =
      elim (write_frame_cases v items bytes few) [
        | inl (h, e) ↦ rw e (copy-frame_bytes bytes other (inl not_next) few)
        | inr (inl (h, more, e)) ↦ rw e (copy-frame_bytes bytes other (inl not_next) few)
        | inr (inr (h, is_last, e)) ↦ rw e (
            left_over-frame_bytes (after_save f 0 0 (take (f.buffer_size - f.buffer_offset) bytes))
              (drop (f.buffer_size - f.buffer_offset) bytes) k refl
              (omega (arith, length-drop (f.buffer_size - f.buffer_offset) bytes)) (front is_last)
              (omega (
                arith,
                frame_in_buffer,
                length-copy_to f.buffer f.buffer_offset
                    (take (f.buffer_size - f.buffer_offset) bytes),
              ))
            ∙ copy-frame_bytes (take (f.buffer_size - f.buffer_offset) bytes) other (inl not_next)
                (omega (arith, length-take (f.buffer_size - f.buffer_offset) bytes)))
      ]
    where
      other : k ≢ f.frame_index
      other = true_not_false f.frame_used k f.frame_index used current

      not_next : k ≢ suc f.frame_index
      not_next = true_not_false f.frame_used k (suc f.frame_index) used next

      front :
          suc f.frame_index ≡ f.frame_count
          → (get_or (set f.frame_used f.frame_index true) 0 false ≡ true)
            ⊎ (f.frame_size ≤ k * f.frame_size)
      front is_last = elim (ℕ_discrete k 0) [
        | yes e ↦ inl (
            get_or-set_ne f.frame_used {i = f.frame_index} {j = 0} true false
              (omega (arith, is_last, v.several))
            ∙ sym (ap (λ i. get_or f.frame_used i false) e)
            ∙ used)
        | no e ↦
            let one : 1 ≤ k = omega (arith, e) in
            inr (omega (arith, mul-le-mul_right f.frame_size one))
      ]

  -- WriteData does not change the bytes of a frame that is in use, provided that the frame which
  -- follows the current one is free.
  pub write_data-frame_bytes :
      (items : List WorkItem) (bytes : List ℕ)
      → get_or f.frame_used k false ≡ true
      → get_or f.frame_used (suc f.frame_index) false ≡ false
      → frame_bytes (write_data f items bytes).0 k ≡ frame_bytes f k
  write_data-frame_bytes items bytes used next = elim (write_data_cases f items bytes) [
    | inl e ↦ rw e refl
    | inr (current, e) ↦ rw e (
        write_frame-frame_bytes items (kept_bytes f bytes) (length-kept_bytes f bytes) used current
          next)
  ]
