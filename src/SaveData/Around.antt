-- ===== src/SaveData/Around.antt =====
-- A write around the end of the buffer, and what every write of up to a frame keeps.
use reai_board_sdk.Prelude.{
  ℕ, suc, ◌+◌, ◌-◌, ◌≤◌, ◌≡◌, ◌⊎◌, inl, inr, refl, ap, ap₂, ◌∙◌, arith, List, [], ◌∷◌, ◌++◌, true,
  false, length, take, drop, get_or, copy_to, length-take, length-drop, Bool-cases, length-copy_to,
  length-set, ◌%◌, ◌^◌, append_assoc, ◌==◌, eqb→eq, mul-le-mul_right, get_or-set_ne,
}
use reai_board_sdk.SaveData.{Frames, WorkItem}
use reai_board_sdk.SaveData.Write.{left_over, write_frame, save_frame}
use reai_board_sdk.SaveData.Invariant.{IsValid, end-le, end_last}
use reai_board_sdk.SaveData.Cases.{after_copy, after_save, write_frame_cases}
use reai_board_sdk.SaveData.Windows.{window, window-copy_to_outside}
use reai_board_sdk.SaveData.Contents.{
  partial, Fills, Ends, take-drop, copy-partial, after_copy-Fills, after_save-Ends,
}

module _ {f : Frames} {start end : ℕ} (v : IsValid f start end) where
  -- Around the end: the frames with what is left over at the front.
  around : List ℕ → Frames
  around bytes =
      let w = f.buffer_size - f.buffer_offset in
      record (after_save f 0 0 (take w bytes)) {
        buffer = copy_to (copy_to f.buffer f.buffer_offset (take w bytes)) 0 (drop w bytes);
        buffer_offset = length (drop w bytes);
      }

  left_over-around :
      (bytes : List ℕ)
      → length bytes ≤ f.frame_size
      → suc f.frame_index ≡ f.frame_count
      → get_or f.frame_used 0 false ≡ false
      → left_over
          (after_save f 0 0 (take (f.buffer_size - f.buffer_offset) bytes))
          (drop (f.buffer_size - f.buffer_offset) bytes)
        ≡ around bytes
  unfolding around
  left_over-around bytes few is_last free = elim (Bool-cases (length rest == 0)) [
    | inl a ↦ rw a (empty rest (eqb→eq (length rest) 0 a))
    | inr a ↦ rw a (
        rw
          (get_or-set_ne f.frame_used {i = f.frame_index} {j = 0} true false
              (omega (arith, is_last, v.several))
            ∙ free)
          (rw short refl))
  ]
    where
      rest : List ℕ
      rest = drop (f.buffer_size - f.buffer_offset) bytes

      g : Frames
      g = after_save f 0 0 (take (f.buffer_size - f.buffer_offset) bytes)

      short : (0 + length rest) % 2 ^ 32 ≡ length rest
      short = omega (
        arith,
        length-drop (f.buffer_size - f.buffer_offset) bytes,
        end-le v,
        v.small,
        v.ends,
        few,
      )

      empty :
          (r : List ℕ)
          → length r ≡ 0
          → g ≡ record g { buffer = copy_to g.buffer 0 r; buffer_offset = length r }
      empty [] e = refl
      empty (x ∷ r) e = absurd (omega arith)

  around-Ends :
      (bytes : List ℕ)
      → f.buffer_size ≤ f.buffer_offset + length bytes
      → length bytes ≤ f.frame_size
      → suc f.frame_index ≡ f.frame_count
      → Ends f (around bytes) start 0 bytes
  unfolding around
  around-Ends bytes full few is_last = record {
    ends_valid = record {
      several = v.several;
      a_byte = v.a_byte;
      sized = v.sized;
      small = v.small;
      whole = length-copy_to b1 0 rest ∙ b1_length ∙ v.whole;
      flags = length-set f.frame_used f.frame_index true ∙ v.flags;
      index_in = omega (arith, v.several);
      starts = omega arith;
      ends = refl;
      low = omega arith;
      high = omega (arith, rest_length, v.high, at_end);
    };
    ends_partial =
        ap₂ (λ a b. a ++ b)
          (window-copy_to_outside b1 0 rest start f.frame_size 0
              (omega (arith, b1_length, v.whole, at_end, v.ends))
              (inr (omega (arith, rest_length, v.high, at_end, before)))
            ∙ ap (λ n. window b1 start n) frame
            ∙ copy-partial f.buffer start f.buffer_offset first v.low
                (omega (arith, first_length, v.whole)))
          (front
            ∙ copy-partial b1 0 0 rest (omega arith)
                (omega (arith, rest_length, v.high, at_end, before, b1_length, v.whole)))
        ∙ rejoin;
    ends_in = omega (arith, length-copy_to b1 0 rest, b1_length, v.whole, at_end, v.ends);
    ends_used = refl;
    ends_size = refl;
    ends_enabled = refl;
  }
    where
      w : ℕ
      w = f.buffer_size - f.buffer_offset

      first : List ℕ
      first = take w bytes

      rest : List ℕ
      rest = drop w bytes

      b1 : List ℕ
      b1 = copy_to f.buffer f.buffer_offset first

      b1_length : length b1 ≡ length f.buffer
      b1_length = length-copy_to f.buffer f.buffer_offset first

      at_end : end ≡ f.buffer_size
      at_end = end_last v is_last

      before : f.frame_size ≤ start
      before = omega (arith, v.starts, mul-le-mul_right f.frame_size one)
        where
          one : 1 ≤ f.frame_index
          one = omega (arith, is_last, v.several)

      rest_length : length rest ≡ length bytes - w
      rest_length = length-drop w bytes

      first_length : f.buffer_offset + length first ≡ f.buffer_size
      first_length = omega (arith, length-take w bytes, at_end, v.high)

      frame : f.frame_size ≡ f.buffer_offset + length first - start
      frame = omega (arith, first_length, at_end, v.ends)

      front :
          window (copy_to b1 0 rest) 0 (length rest - 0)
          ≡ window (copy_to b1 0 rest) 0 (0 + length rest - 0)
      front = ap (window (copy_to b1 0 rest) 0) (omega arith)

      rejoin : partial f start ++ first ++ ([] ++ rest) ≡ partial f start ++ bytes
      rejoin =
          append_assoc (partial f start) first rest
          ∙ ap (λ r. partial f start ++ r) (take-drop w bytes)

  -- A write of at most a frame, where no frame is in use, is kept whole.
  pub write_frame-Contents :
      (items : List WorkItem) (bytes : List ℕ)
      → length bytes ≤ f.frame_size
      → get_or f.frame_used 0 false ≡ false
      → ((g : Frames) × (write_frame f items bytes ≡ (g, items)) × Fills f g start end bytes)
        ⊎ ((g : Frames) × (start' : ℕ) × (write_frame f items bytes
              ≡ (g, save_frame f items f.frame_index f.frame_size))
            × Ends f g start start' bytes)
  write_frame-Contents items bytes few free = elim (write_frame_cases v items bytes few) [
    | inl (h, e) ↦ inl (after_copy f bytes, e, after_copy-Fills v bytes h)
    | inr (inl (h, more, e)) ↦ inr (
      after_save f (suc f.frame_index) (f.buffer_offset + length bytes) bytes,
      end,
      e,
      after_save-Ends v bytes h few more,
    )
    | inr (inr (h, is_last, e)) ↦ inr (
      around bytes,
      0,
      e
          ∙ ap (λ g. (g, save_frame f items f.frame_index f.frame_size))
              (left_over-around bytes few is_last free),
      around-Ends bytes h few is_last,
    )
  ]
