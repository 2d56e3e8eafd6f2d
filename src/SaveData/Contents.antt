-- ===== src/SaveData/Contents.antt =====
-- What WriteData does to the bytes that are not yet saved.
use reai_board_sdk.Prelude.{
  ℕ, zero, suc, ◌+◌, ◌-◌, ◌≤◌, ◌<◌, ◌≡◌, refl, sym, ap, ◌∙◌, arith, List, [], ◌∷◌, ◌++◌, true,
  length, take, drop, set, copy_to, length-copy_to,
}
use reai_board_sdk.SaveData.{Frames}
use reai_board_sdk.SaveData.Invariant.{IsValid, end-le, next_start, next_end-le}
use reai_board_sdk.SaveData.Cases.{after_copy, after_save}
use reai_board_sdk.SaveData.WriteLaws.{after_copy-IsValid, after_save-IsValid}
use reai_board_sdk.SaveData.Windows.{window, window-copy_to_end, window-add}

-- The bytes of the current frame so far.
abbrev pub partial : Frames → ℕ → List ℕ
partial f start = window f.buffer start (f.buffer_offset - start)

-- The frames `g` that a write to `f` leaves, where it fills no frame.
pub record Fills (f g : Frames) (start end : ℕ) (bytes : List ℕ) : Type 0 where
  pub fills_valid : IsValid g start end
  pub fills_partial : partial g start ≡ partial f start ++ bytes
  pub fills_used : g.frame_used ≡ f.frame_used
  pub fills_size : g.frame_size ≡ f.frame_size
  pub fills_enabled : g.write_disabled ≡ f.write_disabled

-- The same, where it ends the current frame.
pub record Ends (f g : Frames) (start start' : ℕ) (bytes : List ℕ) : Type 0 where
  pub ends_valid : IsValid g start' (start' + g.frame_size)
  pub ends_partial :
      window g.buffer start f.frame_size ++ partial g start' ≡ partial f start ++ bytes
  pub ends_in : start + f.frame_size ≤ length g.buffer
  pub ends_used : g.frame_used ≡ set f.frame_used f.frame_index true
  pub ends_size : g.frame_size ≡ f.frame_size
  pub ends_enabled : g.write_disabled ≡ f.write_disabled

pub take-drop : (n : ℕ) (xs : List ℕ) → take n xs ++ drop n xs ≡ xs
take-drop zero xs = refl
take-drop (suc n) [] = refl
take-drop (suc n) (x ∷ xs) = ap (◌∷◌ x) (take-drop n xs)

pub copy-partial :
    (b : List ℕ) (start o : ℕ) (xs : List ℕ)
    → start ≤ o
    → o + length xs ≤ length b
    → window (copy_to b o xs) start (o + length xs - start) ≡ window b start (o - start) ++ xs
copy-partial b start o xs low high =
    ap (λ i. window (copy_to b i xs) start (o + length xs - start)) same
    ∙ window-copy_to_end b start (o - start) xs (o + length xs - start) 0 (omega arith)
        (omega arith)
  where
    same : o ≡ start + (o - start)
    same = omega arith

module _ {f : Frames} {start end : ℕ} (v : IsValid f start end) where
  pub after_copy-Fills :
      (bytes : List ℕ)
      → f.buffer_offset + length bytes < end
      → Fills f (after_copy f bytes) start end bytes
  after_copy-Fills bytes h = record {
    fills_valid = after_copy-IsValid v bytes h;
    fills_partial =
        copy-partial f.buffer start f.buffer_offset bytes v.low (omega (arith, v.whole, end-le v));
    fills_used = refl;
    fills_size = refl;
    fills_enabled = refl;
  }

  pub after_save-Ends :
      (bytes : List ℕ)
      → end ≤ f.buffer_offset + length bytes
      → length bytes ≤ f.frame_size
      → suc f.frame_index < f.frame_count
      → Ends f
          (after_save f (suc f.frame_index) (f.buffer_offset + length bytes) bytes)
          start
          end
          bytes
  after_save-Ends bytes full few more = record {
    ends_valid =
        after_save-IsValid v (suc f.frame_index) (f.buffer_offset + length bytes) end bytes more
          (next_start v) full (omega (arith, v.high));
    ends_partial =
        sym (
          window-add (copy_to f.buffer f.buffer_offset bytes) start f.frame_size
            (f.buffer_offset + length bytes - end) end (f.buffer_offset + length bytes - start) 0
            v.ends (omega (arith, v.ends))
            (omega (arith, in_buffer, length-copy_to f.buffer f.buffer_offset bytes, v.low)))
        ∙ copy-partial f.buffer start f.buffer_offset bytes v.low in_buffer;
    ends_in =
        omega (arith, length-copy_to f.buffer f.buffer_offset bytes, end-le v, v.ends, v.whole);
    ends_used = refl;
    ends_size = refl;
    ends_enabled = refl;
  }
    where
      in_buffer : f.buffer_offset + length bytes ≤ length f.buffer
      in_buffer = omega (arith, next_end-le v more, v.high, v.whole)
