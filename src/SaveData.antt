-- ===== src/SaveData.antt =====
-- virtual-mic/driver-windows/Source/Utilities/savedata.{h,cpp}: the data that a stream saves to a file.
-- A circular buffer of frames is filled by the stream; a full frame is queued to a work item, which
-- writes it to the file.
pub mod Write
pub mod Disk
pub mod Worker
pub mod Windows
pub mod Invariant
pub mod Cases
pub mod WriteLaws
pub mod Untouched
pub mod DiskLaws
pub mod HeaderLaws
pub mod Contents
pub mod Around
pub mod Idle
pub mod Recording
pub mod Session
pub mod Start
pub mod Wav
pub mod Waiting
pub mod Roundtrip
mod Tests
use reai_board_sdk.Prelude.{ℕ, ◌*◌, List, Bool, true, false, Option, none, replicate}

-- DEFAULT_FRAME_COUNT, DEFAULT_FRAME_SIZE (with pages of 4096 bytes), DEFAULT_BUFFER_SIZE
abbrev pub default_frame_count : ℕ
default_frame_count = 4

abbrev pub default_frame_size : ℕ
default_frame_size = 4096 * 4

abbrev pub default_buffer_size : ℕ
default_buffer_size = default_frame_size * default_frame_count

-- MAX_WORKER_ITEM_COUNT
abbrev pub max_worker_item_count : ℕ
max_worker_item_count = 15

-- The members of CSaveData that deal with the buffer and its frames.
pub record Frames : Type 0 where
  pub buffer : List ℕ
  pub buffer_size : ℕ
  pub frame_index : ℕ
  pub frame_count : ℕ
  pub frame_size : ℕ
  pub buffer_offset : ℕ
  pub frame_used : List Bool
  pub write_disabled : Bool

-- What SaveFrame stores for the worker; `data_at` is `pData` as an offset in the buffer.
pub record Job : Type 0 where
  pub frame_no : ℕ
  pub data_size : ℕ
  pub data_at : ℕ

-- SAVEWORKER_PARAM: `has_work_item` if `WorkItem` is not NULL, `event_done` if EventDone is signalled,
-- and what is queued, if this object has queued it.
pub record WorkItem : Type 0 where
  pub has_work_item : Bool
  pub event_done : Bool
  pub job : Option Job

-- A work item as InitializeWorkItems leaves it.
abbrev pub idle : WorkItem
idle = record { has_work_item = true; event_done = true; job = none }

-- The frames as the constructor sets them, before Initialize allocates the buffer and the flags.
abbrev pub new_frames : Frames
new_frames = record {
  buffer = replicate 0 0;
  buffer_size = default_buffer_size;
  frame_index = 0;
  frame_count = default_frame_count;
  frame_size = default_frame_size;
  buffer_offset = 0;
  frame_used = replicate 0 false;
  write_disabled = false;
}
