-- ===== src/SaveData/Tests.antt =====
-- Runs of savedata.cpp's model, and inputs for its theorems.
use reai_board_sdk.Prelude.{
  ℕ, ◌≡◌, refl, inr, arith, List, [], ◌∷◌, true, false, some, if◌then◌else◌, get_or,
}
use reai_board_sdk.Status.{success}
use reai_board_sdk.SaveData.{Frames, WorkItem, idle, new_frames}
use reai_board_sdk.SaveData.Write.{
  get_new_work_item, queue_item, save_frame, write_frame, finish_write, write_data,
}
use reai_board_sdk.SaveData.Invariant.{IsValid}
use reai_board_sdk.SaveData.WriteLaws.{write_data-IsValid}
use reai_board_sdk.SaveData.Untouched.{frame_bytes, write_data-frame_bytes}
use reai_board_sdk.SaveData.Disk.{Files, new_output}
use reai_board_sdk.SaveData.Worker.{
  Saver, FileAnswers, initialize_saver, write_saver, save_frame_worker_callback, run_workers,
  wait_all_work_items, destroy,
}
use reai_board_sdk.SaveData.DiskLaws.{IsReliable, splice}
use reai_board_sdk.SaveData.Recording.{IsRecording, recorded, write-Recording}
use reai_board_sdk.SaveData.Session.{joined, record_all}
use reai_board_sdk.SaveData.Start.{replicate-AllFree, IsNew, AllGood}
use reai_board_sdk.SaveData.Wav.{read_wav}
use reai_board_sdk.SaveData.Roundtrip.{recording-roundtrip}
use reai_board_sdk.SaveData.Waiting.{run_workers-signals}

-- Four frames of two bytes, with a byte in the second and the first waiting for its worker.
abbrev small_frames : Frames
small_frames = record {
  buffer = 1 ∷ 2 ∷ 3 ∷ 0 ∷ 0 ∷ 0 ∷ 0 ∷ 0 ∷ [];
  buffer_size = 8;
  frame_index = 1;
  frame_count = 4;
  frame_size = 2;
  buffer_offset = 3;
  frame_used = true ∷ false ∷ false ∷ false ∷ [];
  write_disabled = false;
}

abbrev busy : WorkItem
busy = record {
  has_work_item = true;
  event_done = false;
  job = some (record { frame_no = 0; data_size = 2; data_at = 0 });
}

-- A write that fills the second frame queues it to the first idle item.
across :
    (write_data small_frames (busy ∷ idle ∷ []) (4 ∷ 5 ∷ [])).1
    ≡ busy
      ∷ record {
        has_work_item = true;
        event_done = false;
        job = some (record { frame_no = 1; data_size = 2; data_at = 2 });
      }
      ∷ []
unfolding write_data write_frame finish_write save_frame queue_item get_new_work_item
across = refl

-- Without an idle item the frame is marked as in use, and nothing is queued that would free it.
lost_frame :
    let (frames, items) = write_data small_frames (busy ∷ []) (4 ∷ 5 ∷ []) in
    (items ≡ busy ∷ []) × (get_or frames.frame_used 1 false ≡ true)
unfolding write_data write_frame finish_write save_frame queue_item get_new_work_item
lost_frame = (refl, refl)

-- A write across the end of a frame does not look whether the next one is in use.
overwritten :
    let next_used : Frames = record small_frames {
      frame_used = false ∷ false ∷ true ∷ false ∷ [];
    } in
    frame_bytes (write_data next_used (idle ∷ []) (4 ∷ 5 ∷ [])).0 2 ≡ 5 ∷ 0 ∷ []
unfolding write_data write_frame finish_write save_frame queue_item get_new_work_item
overwritten = refl

abbrev small_frames-IsValid : IsValid small_frames 2 4
small_frames-IsValid = record {
  several = omega arith;
  a_byte = omega arith;
  sized = refl;
  small = omega arith;
  whole = refl;
  flags = refl;
  index_in = omega arith;
  starts = refl;
  ends = refl;
  low = omega arith;
  high = omega arith;
}

write_data-IsValid_example :
    (start end : ℕ) × IsValid (write_data small_frames (idle ∷ []) (4 ∷ 5 ∷ [])).0 start end
write_data-IsValid_example = write_data-IsValid small_frames-IsValid (idle ∷ []) (4 ∷ 5 ∷ [])

write_data-frame_bytes_example :
    frame_bytes (write_data small_frames (idle ∷ []) (4 ∷ 5 ∷ [])).0 0 ≡ frame_bytes small_frames 0
write_data-frame_bytes_example =
    write_data-frame_bytes small_frames-IsValid 0 (omega arith) (idle ∷ []) (4 ∷ 5 ∷ []) refl refl

-- A disk of one file.
abbrev memory : Files (List ℕ)
memory = record {
  create_file = λ over_write disk. (success, if over_write then [] else disk);
  write_file = λ bytes at disk. (success, splice disk at bytes);
  close_file = λ disk. (success, disk);
}

memory-IsReliable : IsReliable memory (λ disk. disk)
memory-IsReliable = record {
  opens = λ disk. refl;
  opens_same = λ disk. refl;
  creates = λ disk. refl;
  creates_empty = λ disk. refl;
  writes = λ bytes at disk. refl;
  splices = λ bytes at disk h. refl;
  closes_same = λ disk. refl;
}

-- PCM, two channels, 16 bits at 48 kHz.
abbrev pcm : List ℕ
pcm = 1 ∷ 0 ∷ 2 ∷ 0 ∷ 128 ∷ 187 ∷ 0 ∷ 0 ∷ 0 ∷ 238 ∷ 2 ∷ 0 ∷ 4 ∷ 0 ∷ 16 ∷ 0 ∷ []

abbrev fresh : Saver (List ℕ)
fresh = record {
  frames = record new_frames { buffer_size = 8; frame_size = 2 };
  items = idle ∷ idle ∷ [];
  output = record new_output { wave_format = some pcm };
  disk = [];
}

abbrev eight : List ℕ
eight = 0 ∷ 0 ∷ 0 ∷ 0 ∷ 0 ∷ 0 ∷ 0 ∷ 0 ∷ []

fresh-IsNew : IsNew fresh pcm eight
fresh-IsNew = record {
  several = omega arith;
  a_byte = omega arith;
  sized = refl;
  small = omega arith;
  whole = refl;
  first_frame = refl;
  first_byte = refl;
  enabled = refl;
  others = idle ∷ [];
  idle_item = refl;
  closed = refl;
  has_format = refl;
  format_whole = refl;
  format_small = omega arith;
  riff = refl;
  wave = refl;
  fmt = refl;
  tag = refl;
}

abbrev good_answers : FileAnswers
good_answers = record {
  first_folder = success;
  second_folder = success;
  name = success;
  name_memory = true;
  buffer_memory = some eight;
  flags_memory = true;
}

good_answers-AllGood : AllGood good_answers eight
good_answers-AllGood = record {
  first_good = refl;
  second_good = refl;
  name_good = refl;
  name_got = refl;
  buffer_got = refl;
  flags_got = refl;
}

abbrev calls : List (List ℕ)
calls = (1 ∷ []) ∷ (2 ∷ 3 ∷ []) ∷ (4 ∷ 5 ∷ []) ∷ (6 ∷ 7 ∷ []) ∷ (8 ∷ 9 ∷ []) ∷ []

recording-roundtrip_example :
    let recording = record_all memory (initialize_saver memory good_answers fresh).1 calls in
    let (_, disk) = destroy memory (wait_all_work_items memory recording (0 ∷ [])) in
    read_wav disk ≡ some (pcm, joined calls)
recording-roundtrip_example =
    recording-roundtrip memory-IsReliable fresh-IsNew good_answers calls good_answers-AllGood refl
      (omega arith)

-- Between two calls, with one byte in the first frame and a file of two bytes.
abbrev between : Saver (List ℕ)
between = record {
  frames = record small_frames {
    frame_index = 0;
    buffer_offset = 1;
    frame_used = false ∷ false ∷ false ∷ false ∷ [];
  };
  items = idle ∷ [];
  output = record new_output { initialized = true; file_ptr = some 2 };
  disk = 7 ∷ 7 ∷ [];
}

between-IsRecording : IsRecording (λ disk. disk) between.output between 0 2
between-IsRecording = record {
  framed = record {
    several = omega arith;
    a_byte = omega arith;
    sized = refl;
    small = omega arith;
    whole = refl;
    flags = refl;
    index_in = omega arith;
    starts = refl;
    ends = refl;
    low = omega arith;
    high = omega arith;
  };
  free = replicate-AllFree 4;
  enabled = refl;
  others = [];
  idle_item = refl;
  created = refl;
  closed = refl;
  at_end = refl;
}

write-Recording_example :
    let s' = save_frame_worker_callback memory (write_saver between (8 ∷ 9 ∷ [])) 0 in
    (start' end' : ℕ) × IsRecording (λ disk. disk) between.output s' start' end'
    × (s'.frames.frame_size ≡ 2)
    × (recorded (λ disk. disk) s' start' ≡ 7 ∷ 7 ∷ 1 ∷ 8 ∷ 9 ∷ [])
write-Recording_example =
    write-Recording memory-IsReliable between-IsRecording (8 ∷ 9 ∷ []) (omega arith) (omega arith)

run_workers-signals_example :
    (get_or
      (run_workers memory (record between { items = idle ∷ busy ∷ [] }) (0 ∷ 1 ∷ [])).items
      1
      idle).event_done
    ≡ true
run_workers-signals_example =
    run_workers-signals memory (record between { items = idle ∷ busy ∷ [] }) (0 ∷ []) 1 []
      (inr (record { frame_no = 0; data_size = 2; data_at = 0 }, refl))
