-- ===== src/SaveData/Idle.antt =====
-- The calls of WriteData and of the worker where no frame is in use.
use reai_board_sdk.Prelude.{
  ℕ, zero, suc, ◌≤◌, ◌≡◌, ◌⊎◌, inl, inr, refl, ap, ◌∙◌, arith, List, [], ◌∷◌, Bool, true, false,
  length, take, get_or, set, length-set, take_all, ◌==◌,
}
use reai_board_sdk.Stream.Words.{mul32}
use reai_board_sdk.SaveData.{Frames, WorkItem, idle}
use reai_board_sdk.SaveData.Write.{
  write_data, write_frame, save_frame, queue_item, get_new_work_item, byte_count,
}
use reai_board_sdk.SaveData.Invariant.{IsValid}
use reai_board_sdk.SaveData.Windows.{window}
use reai_board_sdk.SaveData.Disk.{Files, Output}
use reai_board_sdk.SaveData.Worker.{Saver, save_bytes, run_item, save_frame_worker_callback}

-- No frame is in use.
abbrev pub AllFree : List Bool → Type 0
AllFree used = (k : ℕ) → get_or used k false ≡ false

pub set-AllFree :
    (used : List Bool) (i : ℕ) → AllFree used → AllFree (set (set used i true) i false)
set-AllFree [] i free k = refl
set-AllFree (b ∷ used) zero free zero = refl
set-AllFree (b ∷ used) zero free (suc k) = free (suc k)
set-AllFree (b ∷ used) (suc i) free zero = free 0
set-AllFree (b ∷ used) (suc i) free (suc k) = set-AllFree used i (λ j. free (suc j)) k

-- The flags' values are no part of the invariant.
pub flags-IsValid :
    {g : Frames} {start end : ℕ}
    → IsValid g start end
    → (i : ℕ) (b : Bool) → IsValid (record g { frame_used = set g.frame_used i b }) start end
flags-IsValid {g} v i b = record {
  several = v.several;
  a_byte = v.a_byte;
  sized = v.sized;
  small = v.small;
  whole = v.whole;
  flags = length-set g.frame_used i b ∙ v.flags;
  index_in = v.index_in;
  starts = v.starts;
  ends = v.ends;
  low = v.low;
  high = v.high;
}

-- A call on a free frame writes all of up to a frame.
pub write_data_free :
    (f : Frames) (items : List WorkItem) (bytes : List ℕ)
    → f.write_disabled ≡ false
    → get_or f.frame_used f.frame_index false ≡ false
    → length bytes ≤ f.frame_size
    → ((bytes ≡ []) × (write_data f items bytes ≡ (f, items)))
      ⊎ (write_data f items bytes ≡ write_frame f items bytes)
unfolding write_data
write_data_free f items [] enabled free few = inl (refl, rw enabled refl)
write_data_free f items (x ∷ bytes) enabled free few =
    inr (simp (enabled, filled, free) (ap (write_frame f items) whole))
  where
    filled : (suc (length bytes) == 0) ≡ false
    filled = ground arith

    whole : take (byte_count f (x ∷ bytes)) (x ∷ bytes) ≡ x ∷ bytes
    whole = take_all (byte_count f (x ∷ bytes)) (x ∷ bytes) (ground (arith, few))

module _ {F : Type 0} (files : Files F) where
  pub callback_idle :
      (t : Saver F) (others : List WorkItem)
      → t.items ≡ idle ∷ others
      → save_frame_worker_callback files t 0 ≡ t
  unfolding save_frame_worker_callback run_item
  callback_idle t others e =
      ap (λ items. run_item files t 0 (get_or items 0 idle) (get_or items 0 idle).job) e

  pub callback_queued :
      (f g : Frames) (others : List WorkItem) (o : Output) (disk : F) (k n : ℕ)
      → let after = save_bytes files o disk (window g.buffer (mul32 k f.frame_size) n) in
        save_frame_worker_callback files
          (record { frames = g; items = save_frame f (idle ∷ others) k n; output = o; disk = disk })
          0
        ≡ record {
          frames = record g { frame_used = set g.frame_used k false };
          items = idle ∷ others;
          output = after.0;
          disk = after.1;
        }
  unfolding save_frame_worker_callback run_item save_frame queue_item get_new_work_item
  callback_queued f g others o disk k n = refl
