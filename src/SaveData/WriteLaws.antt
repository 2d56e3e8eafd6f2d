-- ===== src/SaveData/WriteLaws.antt =====
-- WriteData keeps the invariant of the frames, and leaves the frames in use alone.
use reai_board_sdk.Prelude.{
  ℕ, suc, ◌+◌, ◌-◌, ◌*◌, ◌≤◌, ◌<◌, ◌≡◌, ◌⊎◌, inl, inr, refl, ◌∙◌, arith, List, true, false, length,
  take, drop, get_or, length-take, length-drop, length-set, length-copy_to, ◌==◌, Bool-cases,
}
use reai_board_sdk.SaveData.{Frames, WorkItem}
use reai_board_sdk.SaveData.Write.{left_over, byte_count, write_frame, write_data}
use reai_board_sdk.SaveData.Invariant.{next_start, IsValid, end-le}
use reai_board_sdk.SaveData.Cases.{after_copy, after_save, write_frame_cases}

-- What of the bytes WriteData keeps: at most a frame.
pub kept_bytes : Frames → List ℕ → List ℕ
kept_bytes f bytes = take (byte_count f bytes) bytes

pub length-kept_bytes : (f : Frames) (bytes : List ℕ) → length (kept_bytes f bytes) ≤ f.frame_size
unfolding kept_bytes
length-kept_bytes f bytes = ground (arith, length-take (byte_count f bytes) bytes)

-- WriteData drops the bytes, or writes what it keeps of them.
pub write_data_cases :
    (f : Frames) (items : List WorkItem) (bytes : List ℕ)
    → (write_data f items bytes ≡ (f, items))
      ⊎ ((get_or f.frame_used f.frame_index false ≡ false)
          × (write_data f items bytes ≡ write_frame f items (kept_bytes f bytes)))
unfolding write_data kept_bytes
write_data_cases f items bytes = elim (Bool-cases f.write_disabled) [
  | inl a ↦ inl (rw a refl)
  | inr a ↦ elim (Bool-cases (length bytes == 0)) [
    | inl b ↦ inl (rw a (rw b refl))
    | inr b ↦ elim (Bool-cases (get_or f.frame_used f.frame_index false)) [
      | inl c ↦ inl (rw a (rw b (rw c refl)))
      | inr c ↦ inr (c, rw a (rw b (rw c refl)))
    ]
  ]
]

pub left_over-IsValid :
    {g : Frames} {end : ℕ} (rest : List ℕ)
    → IsValid g 0 end
    → g.buffer_offset ≡ 0
    → length rest < end
    → IsValid (left_over g rest) 0 end
left_over-IsValid {g} {end} rest v front few = elim (Bool-cases (length rest == 0)) [
  | inl a ↦ rw a v
  | inr a ↦ elim (Bool-cases (get_or g.frame_used g.frame_index false)) [
    | inl b ↦ rw a (rw b v)
    | inr b ↦ rw a (
        rw b (record {
          several = v.several;
          a_byte = v.a_byte;
          sized = v.sized;
          small = v.small;
          whole = length-copy_to g.buffer g.buffer_offset rest ∙ v.whole;
          flags = v.flags;
          index_in = v.index_in;
          starts = v.starts;
          ends = v.ends;
          low = omega arith;
          high = omega (arith, end-le v, v.small);
        }))
  ]
]

module _ {f : Frames} {start end : ℕ} (v : IsValid f start end) where
  pub after_copy-IsValid :
      (bytes : List ℕ)
      → f.buffer_offset + length bytes < end
      → IsValid (after_copy f bytes) start end
  after_copy-IsValid bytes h = record {
    several = v.several;
    a_byte = v.a_byte;
    sized = v.sized;
    small = v.small;
    whole = length-copy_to f.buffer f.buffer_offset bytes ∙ v.whole;
    flags = v.flags;
    index_in = v.index_in;
    starts = v.starts;
    ends = v.ends;
    low = omega (arith, v.low);
    high = h;
  }

  pub after_save-IsValid :
      (index o start' : ℕ) (bytes : List ℕ)
      → index < f.frame_count
      → index * f.frame_size ≡ start'
      → start' ≤ o
      → o < start' + f.frame_size
      → IsValid (after_save f index o bytes) start' (start' + f.frame_size)
  after_save-IsValid index o start' bytes index_in starts low high = record {
    several = v.several;
    a_byte = v.a_byte;
    sized = v.sized;
    small = v.small;
    whole = length-copy_to f.buffer f.buffer_offset bytes ∙ v.whole;
    flags = length-set f.frame_used f.frame_index true ∙ v.flags;
    index_in = index_in;
    starts = starts;
    ends = refl;
    low = low;
    high = high;
  }

  write_frame-IsValid :
      (items : List WorkItem) (bytes : List ℕ)
      → length bytes ≤ f.frame_size
      → (start' end' : ℕ) × IsValid (write_frame f items bytes).0 start' end'
  write_frame-IsValid items bytes few = elim (write_frame_cases v items bytes few) [
    | inl (h, e) ↦ (start, end, rw e (after_copy-IsValid bytes h))
    | inr (inl (h, more, e)) ↦ (
      end,
      end + f.frame_size,
      rw e (
          after_save-IsValid (suc f.frame_index) (f.buffer_offset + length bytes) end bytes more
            (next_start v) h (omega (arith, v.high))),
    )
    | inr (inr (h, is_last, e)) ↦ (
      0,
      0 + f.frame_size,
      rw e (
          left_over-IsValid (drop (f.buffer_size - f.buffer_offset) bytes)
            (after_save-IsValid 0 0 0 (take (f.buffer_size - f.buffer_offset) bytes)
              (omega (arith, v.several)) (omega arith) (omega arith) (omega (arith, v.a_byte)))
            refl
            (omega (
              arith,
              length-drop (f.buffer_size - f.buffer_offset) bytes,
              v.high,
              end-le v,
              v.a_byte,
              h,
            ))),
    )
  ]

  -- WriteData keeps the current offset in the current frame, and the buffer and the flags whole,
  -- whatever it is given and whichever frames are in use.
  pub write_data-IsValid :
      (items : List WorkItem) (bytes : List ℕ)
      → (start' end' : ℕ) × IsValid (write_data f items bytes).0 start' end'
  write_data-IsValid items bytes = elim (write_data_cases f items bytes) [
    | inl e ↦ (start, end, rw e v)
    | inr (_, e) ↦ rw e (write_frame-IsValid items (kept_bytes f bytes) (length-kept_bytes f bytes))
  ]
