-- ===== src/SaveData/Cases.antt =====
-- WriteData by cases: inside a frame, across the end of a frame, and around the end of the buffer.
use reai_board_sdk.Prelude.{
  dec_lt, ◌⊎◌, inl, inr, ℕ, suc, ◌+◌, ◌-◌, ◌%◌, ◌≤◌, ◌<◌, ◌≡◌, refl, ap, ap₂, ◌∙◌, arith,
  Bool-cases, List, [], true, false, length, take, drop, get_or, set, copy_to, length-take,
  take_all, drop_all, ◌==◌, eq→eqb, mod-eq_of_lt, mod_self, if◌then◌else◌,
}
use reai_board_sdk.Stream.Words.{add32}
use reai_board_sdk.SaveData.{Frames, WorkItem}
use reai_board_sdk.SaveData.Write.{
  copy_in, finish_write, saves, turn, left_over, save_frame, write_frame,
}
use reai_board_sdk.SaveData.Invariant.{
  end_last, IsValid, index-add32, write_bytes_fits, write_bytes_cut, step_fits, saves_lem, end-le,
  next_end-le,
}

save_frame-left_over :
    (g : Frames) (rest : List ℕ) (items : List WorkItem) (k : ℕ)
    → save_frame (left_over g rest) items k (left_over g rest).frame_size
      ≡ save_frame g items k g.frame_size
unfolding save_frame
save_frame-left_over g rest items k = elim (Bool-cases (length rest == 0)) [
  | inl a ↦ rw a refl
  | inr a ↦ elim (Bool-cases (get_or g.frame_used g.frame_index false)) [
    | inl b ↦ rw a (rw b refl)
    | inr b ↦ rw a (rw b refl)
  ]
]

-- The frames after a first copy of `bytes`.
abbrev pub after_copy : Frames → List ℕ → Frames
after_copy f bytes = record f {
  buffer = copy_to f.buffer f.buffer_offset bytes;
  buffer_offset = f.buffer_offset + length bytes;
}

-- The frames with the current one saved, and the next begun at `index`, with the offset `o`.
abbrev pub after_save : Frames → ℕ → ℕ → List ℕ → Frames
after_save f index o bytes = record f {
  buffer = copy_to f.buffer f.buffer_offset bytes;
  buffer_offset = o;
  frame_used = set f.frame_used f.frame_index true;
  frame_index = index;
}

module _ {f : Frames} {start end : ℕ} (v : IsValid f start end) where
  copy_in_lem :
      (bytes : List ℕ)
      → f.buffer_offset + length bytes ≤ f.buffer_size
      → copy_in f bytes ≡ after_copy f bytes
  copy_in_lem bytes h = rw ((step_fits v) (length bytes) h) refl

  write_frame_fits :
      (items : List WorkItem) (bytes : List ℕ)
      → f.buffer_offset + length bytes ≤ f.buffer_size
      → write_frame f items bytes ≡ finish_write (after_copy f bytes) items []
  unfolding write_frame
  write_frame_fits items bytes h =
      ap (λ w. finish_write (copy_in f (take w bytes)) items (drop w bytes))
        ((write_bytes_fits v) (length bytes) h)
      ∙ ap₂ (λ xs rest. finish_write (copy_in f xs) items rest)
          (take_all (length bytes) bytes (omega arith))
          (drop_all (length bytes) bytes (omega arith))
      ∙ ap (λ g. finish_write g items []) (copy_in_lem bytes h)

  -- Inside the frame.
  pub write_frame_within :
      (items : List WorkItem) (bytes : List ℕ)
      → f.buffer_offset + length bytes < end
      → write_frame f items bytes ≡ (after_copy f bytes, items)
  unfolding finish_write
  write_frame_within items bytes h = write_frame_fits items bytes (omega (arith, (end-le v))) ∙ last
    where
      last : finish_write (after_copy f bytes) items [] ≡ (after_copy f bytes, items)
      last = rw kept (rw within refl)
        where
          kept : saves (after_copy f bytes) ≡ false
          kept =
              (saves_lem v) (f.buffer_offset + length bytes)
                (copy_to f.buffer f.buffer_offset bytes) (omega (arith, (end-le v)))
              ∙ ground (arith, h)

          within : (f.buffer_offset + length bytes == f.buffer_size) ≡ false
          within = ground (arith, (end-le v))

  saves_full :
      (bytes : List ℕ)
      → end ≤ f.buffer_offset + length bytes
      → f.buffer_offset + length bytes ≤ f.buffer_size
      → saves (after_copy f bytes) ≡ true
  saves_full bytes h in_buffer =
      (saves_lem v) (f.buffer_offset + length bytes) (copy_to f.buffer f.buffer_offset bytes)
        in_buffer
      ∙ ground (arith, h)

  -- Across the end of a frame that is not the last.
  pub write_frame_across :
      (items : List WorkItem) (bytes : List ℕ)
      → end ≤ f.buffer_offset + length bytes
      → length bytes ≤ f.frame_size
      → suc f.frame_index < f.frame_count
      → write_frame f items bytes ≡ (
        after_save f (suc f.frame_index) (f.buffer_offset + length bytes) bytes,
        save_frame f items f.frame_index f.frame_size,
      )
  unfolding finish_write save_frame
  write_frame_across items bytes full few more =
      write_frame_fits items bytes (omega (arith, in_buffer)) ∙ last
    where
      in_buffer : f.buffer_offset + length bytes < f.buffer_size
      in_buffer = omega (arith, (next_end-le v) more, v.high)

      within : (f.buffer_offset + length bytes == f.buffer_size) ≡ false
      within = ground (arith, in_buffer)

      index : add32 f.frame_index 1 % f.frame_count ≡ suc f.frame_index
      index = ap (λ n. n % f.frame_count) (index-add32 v) ∙ mod-eq_of_lt more

      last : finish_write (after_copy f bytes) items [] ≡ (
        after_save f (suc f.frame_index) (f.buffer_offset + length bytes) bytes,
        save_frame f items f.frame_index f.frame_size,
      )
      last = rw (saves_full bytes full (omega (arith, in_buffer))) (rw within (rw index refl))

  -- Around the end of the buffer.
  pub write_frame_around :
      (items : List WorkItem) (bytes : List ℕ)
      → f.buffer_size ≤ f.buffer_offset + length bytes
      → suc f.frame_index ≡ f.frame_count
      → let w = f.buffer_size - f.buffer_offset in
        write_frame f items bytes ≡ (
          left_over (after_save f 0 0 (take w bytes)) (drop w bytes),
          save_frame f items f.frame_index f.frame_size,
        )
  unfolding write_frame finish_write save_frame
  write_frame_around items bytes full is_last =
      ap (λ n. finish_write (copy_in f (take n bytes)) items (drop n bytes))
        ((write_bytes_cut v) (length bytes) full)
      ∙ ap (λ g. finish_write g items rest) (copy_in_lem first (omega (arith, reached)))
      ∙ ap
          (λ b. (
            left_over (turn (after_copy f first)) rest,
            if b
                then save_frame (left_over (turn (after_copy f first)) rest) items f.frame_index
                    (left_over (turn (after_copy f first)) rest).frame_size
                else items,
          ))
          (saves_full first (omega (arith, reached, end-le v)) (omega (arith, reached)))
      ∙ ap
          (λ g. (
            left_over g rest,
            save_frame (left_over g rest) items f.frame_index (left_over g rest).frame_size,
          ))
          turned
      ∙ ap (λ js. (left_over next rest, js)) (save_frame-left_over next rest items f.frame_index)
    where
      first : List ℕ
      first = take (f.buffer_size - f.buffer_offset) bytes

      rest : List ℕ
      rest = drop (f.buffer_size - f.buffer_offset) bytes

      next : Frames
      next = after_save f 0 0 first

      reached : f.buffer_offset + length first ≡ f.buffer_size
      reached =
          omega
            (arith, full, v.high, (end-le v), length-take (f.buffer_size - f.buffer_offset) bytes)

      turned : turn (after_copy f first) ≡ next
      turned =
          rw (saves_full first (omega (arith, reached, end-le v)) (omega (arith, reached)))
            (rw at_end (rw index refl))
        where
          at_end : (f.buffer_offset + length first == f.buffer_size) ≡ true
          at_end = eq→eqb (f.buffer_offset + length first) f.buffer_size reached

          index : add32 f.frame_index 1 % f.frame_count ≡ 0
          index = ap (λ n. n % f.frame_count) ((index-add32 v) ∙ is_last) ∙ mod_self f.frame_count

  -- One of the three.
  pub write_frame_cases :
      (items : List WorkItem) (bytes : List ℕ)
      → length bytes ≤ f.frame_size
      → let w = f.buffer_size - f.buffer_offset in
        ((f.buffer_offset + length bytes < end)
          × (write_frame f items bytes ≡ (after_copy f bytes, items)))
        ⊎ ((end ≤ f.buffer_offset + length bytes)
            × (suc f.frame_index < f.frame_count)
            × (write_frame f items bytes ≡ (
              after_save f (suc f.frame_index) (f.buffer_offset + length bytes) bytes,
              save_frame f items f.frame_index f.frame_size,
            )))
        ⊎ ((f.buffer_size ≤ f.buffer_offset + length bytes)
            × (suc f.frame_index ≡ f.frame_count)
            × (write_frame f items bytes ≡ (
              left_over (after_save f 0 0 (take w bytes)) (drop w bytes),
              save_frame f items f.frame_index f.frame_size,
            )))
  write_frame_cases items bytes few = elim (dec_lt (f.buffer_offset + length bytes) end) [
    | yes h ↦ inl (h, write_frame_within items bytes h)
    | no h ↦ elim (dec_lt (suc f.frame_index) f.frame_count) [
      | yes k ↦ inr (inl (omega arith, k, write_frame_across items bytes (omega arith) few k))
      | no k ↦
          let is_last : suc f.frame_index ≡ f.frame_count = omega (arith, v.index_in) in
          let full : f.buffer_size ≤ f.buffer_offset + length bytes =
            omega (arith, (end_last v) is_last) in
          inr (inr (full, is_last, write_frame_around items bytes full is_last))
    ]
  ]
