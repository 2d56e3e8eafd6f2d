-- ===== src/SaveData/Invariant.antt =====
-- Utilities/savedata.cpp: the invariant of the frames, and its arithmetic.
use reai_board_sdk.Prelude.{
  ℕ, suc, ◌+◌, ◌-◌, ◌*◌, ◌^◌, ◌≤◌, ◌<◌, ◌≡◌, ap, ◌∙◌, arith, List, length, leb, mul-le-mul_right,
  mod-eq_of_lt,
}
use reai_board_sdk.Stream.Words.{add32, sub32, mul32}
use reai_board_sdk.SaveData.{Frames}
use reai_board_sdk.SaveData.Write.{saves, first_bytes}

-- The buffer is whole frames, and the current offset is in the current frame. `start` and `end` are the
-- frame's offsets.
pub record IsValid (f : Frames) (start end : ℕ) : Type 0 where
  pub several : 2 ≤ f.frame_count
  pub a_byte : 0 < f.frame_size
  pub sized : f.buffer_size ≡ f.frame_count * f.frame_size
  pub small : f.buffer_size < 2 ^ 32
  pub whole : length f.buffer ≡ f.buffer_size
  pub flags : length f.frame_used ≡ f.frame_count
  pub index_in : f.frame_index < f.frame_count
  pub starts : f.frame_index * f.frame_size ≡ start
  pub ends : end ≡ start + f.frame_size
  pub low : start ≤ f.buffer_offset
  pub high : f.buffer_offset < end

pub suc-mul : (i n : ℕ) → suc i * n ≡ i * n + n
suc-mul i n = omega arith

module _ {f : Frames} {start end : ℕ} (v : IsValid f start end) where
  pub next_start : suc f.frame_index * f.frame_size ≡ end
  next_start = omega (arith, suc-mul f.frame_index f.frame_size, v.starts, v.ends)

  -- A frame ends in the buffer.
  pub end-le : end ≤ f.buffer_size
  end-le = omega (arith, v.sized, next_start, mul-le-mul_right f.frame_size v.index_in)

  -- The last frame ends with it.
  pub end_last : suc f.frame_index ≡ f.frame_count → end ≡ f.buffer_size
  end_last e = omega (arith, v.sized, next_start, ap (λ n. n * f.frame_size) e)

  -- Any other is followed by a frame.
  pub next_end-le : suc f.frame_index < f.frame_count → end + f.frame_size ≤ f.buffer_size
  next_end-le h = omega (
    arith,
    v.sized,
    next_start,
    suc-mul (suc f.frame_index) f.frame_size,
    mul-le-mul_right f.frame_size h,
  )

  pub count-lt : f.frame_count < 2 ^ 32
  count-lt = omega (arith, v.sized, v.small, mul-le-mul_right f.frame_count v.a_byte)

  pub index-add32 : add32 f.frame_index 1 ≡ suc f.frame_index
  index-add32 = omega (arith, count-lt, v.index_in)

  pub mul32-next : mul32 (add32 f.frame_index 1) f.frame_size ≡ end
  mul32-next = rw index-add32 (
      mod-eq_of_lt {n = suc f.frame_index * f.frame_size}
        (omega (arith, next_start, end-le, v.small))
      ∙ next_start)

  pub mul32-start : mul32 f.frame_index f.frame_size ≡ start
  mul32-start =
      mod-eq_of_lt {n = f.frame_index * f.frame_size}
        (omega (arith, end-le, v.small, v.starts, v.ends))
      ∙ v.starts

  -- The current frame is full when its end is reached.
  pub saves_lem :
      (o : ℕ) (b : List ℕ)
      → o ≤ f.buffer_size
      → saves (record f { buffer = b; buffer_offset = o }) ≡ leb end o
  saves_lem o b h = rw mul32-next (ground (arith, end-le))

  pub room : sub32 f.buffer_size f.buffer_offset ≡ f.buffer_size - f.buffer_offset
  room = omega (arith, v.small, v.high, end-le)

  pub write_bytes_fits : (n : ℕ) → f.buffer_offset + n ≤ f.buffer_size → first_bytes f n ≡ n
  write_bytes_fits n h = rw room (ground (arith, h))

  pub write_bytes_cut :
      (n : ℕ)
      → f.buffer_size ≤ f.buffer_offset + n
      → first_bytes f n ≡ f.buffer_size - f.buffer_offset
  write_bytes_cut n h = rw room (ground (arith, h, v.high, end-le))

  pub step_fits :
      (n : ℕ) → f.buffer_offset + n ≤ f.buffer_size → add32 f.buffer_offset n ≡ f.buffer_offset + n
  step_fits n h = omega (arith, v.small)
