-- ===== src/SaveData/Worker.antt =====
-- Utilities/savedata.cpp: the worker that saves a frame, the wait for the workers, and the life of the
-- object. The wait for the file mutex and the order of the workers are the system's.
use reai_board_sdk.Prelude.{
  ℕ, ◌+◌, List, [], ◌∷◌, Bool, true, false, not, Option, none, some, if◌then◌else◌, get_or, set,
  replicate,
}
use reai_board_sdk.Status.{Status, success, insufficient_resources, nt_success}
use reai_board_sdk.Stream.Words.{sub32, low32}
use reai_board_sdk.SaveData.{Frames, Job, WorkItem, idle, max_worker_item_count}
use reai_board_sdk.SaveData.Write.{write_data, save_last_frame}
use reai_board_sdk.SaveData.Windows.{window}
use reai_board_sdk.SaveData.Disk.{
  Files, Output, file_open, file_close, file_write, file_write_header,
}

-- CSaveData with its work items and the disk.
pub record Saver (F : Type 0) : Type 0 where
  pub frames : Frames
  pub items : List WorkItem
  pub output : Output
  pub disk : F

-- The allocation of InitializeWorkItems: IoAllocateWorkItem as `allocate`, of the item's index. It
-- stops at the first that fails.
unfoldable pub allocate_items : (ℕ → Bool) → ℕ → ℕ → Status × List WorkItem
allocate_items allocate i Prim.Native.Nat.zero = (success, [])
allocate_items allocate i (Prim.Native.Nat.suc n) =
    let (status, rest) = allocate_items allocate (i + 1) n in
    let missing : WorkItem = record { has_work_item = false; event_done = false; job = none } in
    if allocate i
    then (status, idle ∷ rest)
    else (insufficient_resources, replicate (n + 1) missing)

-- InitializeWorkItems; m_pWorkItems that is NULL is `none`.
unfoldable pub initialize_work_items :
    Bool → (ℕ → Bool) → Option (List WorkItem) → Status × Option (List WorkItem)
initialize_work_items got_memory allocate (some items) = (success, some items)
initialize_work_items got_memory allocate none =
    let (status, items) = allocate_items allocate 0 max_worker_item_count in
    if got_memory then (status, some items) else (insufficient_resources, none)

-- DestroyWorkItems
unfoldable pub destroy_work_items : Option (List WorkItem) → Option (List WorkItem)
destroy_work_items _ = none

-- What the system answers to Initialize: to the two folders and the name of the file, and whether the
-- pool has the memory for the name, the buffer and the flags.
pub record FileAnswers : Type 0 where
  pub first_folder : Status
  pub second_folder : Status
  pub name : Status
  pub name_memory : Bool
  pub buffer_memory : Option (List ℕ)
  pub flags_memory : Bool

module _ {F : Type 0} where
  -- WriteData on the whole object.
  unfoldable pub write_saver : Saver F → List ℕ → Saver F
  write_saver s bytes =
      let (frames, items) = write_data s.frames s.items bytes in
      record s { frames = frames; items = items }

module _ {F : Type 0} (files : Files F) where
  -- What SaveFrameWorkerCallback does to the file, under the mutex.
  unfoldable pub save_bytes : Output → F → List ℕ → Output × F
  save_bytes o disk bytes =
      let (status, o', opened) = file_open files o disk false in
      let (_, o'', written) = file_write files o' opened bytes in
      let (_, after, closed) = file_close files o'' written in
      if nt_success status then (after, closed) else (o', opened)

  -- SaveFrameWorkerCallback on an item that has been queued with a job, or not.
  unfoldable pub run_item : Saver F → ℕ → WorkItem → Option Job → Saver F
  run_item s i w none = s
  run_item s i w (some j) =
      let bytes = window s.frames.buffer j.data_at j.data_size in
      let (output, disk) = save_bytes s.output s.disk bytes in
      record s {
        frames = record s.frames { frame_used = set s.frames.frame_used j.frame_no false };
        items = set s.items i (record w { event_done = true; job = none });
        output = output;
        disk = disk;
      }

  -- SaveFrameWorkerCallback on the item `i`. Only an item with a WorkItem is ever queued.
  unfoldable pub save_frame_worker_callback : Saver F → ℕ → Saver F
  save_frame_worker_callback s i = let w = get_or s.items i idle in run_item s i w w.job

  -- WaitAllWorkItems, where the workers run in the order `order` until the events are signalled.
  unfoldable pub run_workers : Saver F → List ℕ → Saver F
  run_workers s [] = s
  run_workers s (i ∷ order) = run_workers (save_frame_worker_callback s i) order

  unfoldable pub wait_all_work_items : Saver F → List ℕ → Saver F
  wait_all_work_items s order =
      run_workers (record s { items = save_last_frame s.frames s.items }) order

  -- The header into the file that is opened, and the file closed, by Initialize and the destructor.
  unfoldable pub write_header_once : Output → F → Bool → Status × Output × F
  write_header_once o disk over_write =
      let (opened_status, o', opened) = file_open files o disk over_write in
      let (status, o'', headed) = file_write_header files o' opened in
      let (_, after, closed) = file_close files o'' headed in
      if nt_success opened_status then (status, after, closed) else (opened_status, o', opened)

  -- The end of Initialize, when the memory is there: `b` is the buffer.
  unfoldable pub create_data_file : Saver F → List ℕ → Status × Saver F
  create_data_file s b =
      let ready : Output = record s.output { file_ptr = some 0; initialized = true } in
      let (status, o, disk) = write_header_once ready s.disk true in
      let frames : Frames = record s.frames {
        buffer = b;
        frame_used = replicate s.frames.frame_count false;
      } in
      (status, record s { frames = frames; output = o; disk = disk })

  unfoldable pub with_buffer : Option (List ℕ) → Bool → Saver F → Status × Saver F
  with_buffer none flags_memory s = (insufficient_resources, s)
  with_buffer (some b) flags_memory s =
      if flags_memory
      then create_data_file s b
      else (insufficient_resources, record s { frames = record s.frames { buffer = b } })

  -- Initialize
  unfoldable pub initialize_saver : FileAnswers → Saver F → Status × Saver F
  initialize_saver answers s =
      if not (nt_success answers.first_folder)
      then (answers.first_folder, s)
      else (if not (nt_success answers.second_folder)
          then (answers.second_folder, s)
          else (if not (nt_success answers.name)
              then (answers.name, s)
              else (if answers.name_memory
                  then with_buffer answers.buffer_memory answers.flags_memory s
                  else (insufficient_resources, s))))

  -- What the destructor does to the file.
  unfoldable pub finish_header : Option ℕ → Output → F → Output × F
  finish_header none o disk = (o, disk)
  finish_header (some p) o disk =
      let sized : Output = record o {
        file_header = record o.file_header { dw_file_size = sub32 (low32 p) 8 };
        data_header = record o.data_header {
          dw_data_length = sub32 (sub32 (sub32 (low32 p) 20) o.file_header.dw_format_length) 8;
        };
      } in
      let (_, after, closed) = write_header_once sized disk false in (after, closed)

  -- ~CSaveData: the file that it leaves. The memory is freed.
  unfoldable pub destroy : Saver F → Output × F
  destroy s = finish_header s.output.file_ptr s.output s.disk
