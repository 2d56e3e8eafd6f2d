-- ===== src/SaveData/Write.antt =====
-- Utilities/savedata.cpp: WriteData, SaveFrame and GetNewWorkItem, and the sizes of the frames. A call
-- of WriteData is one step; no worker runs inside it.
use reai_board_sdk.Prelude.{
  ℕ, suc, ◌*◌, ◌%◌, ◌^◌, List, [], ◌∷◌, Bool, true, false, ◌||◌, Option, none, some, ltb, leb, ◌==◌,
  if◌then◌else◌, length, get_or, set, take, drop, copy_to,
}
use reai_board_sdk.Status.{Status, success, insufficient_resources}
use reai_board_sdk.Stream.Words.{add32, sub32, mul32}
use reai_board_sdk.SaveData.{Frames, Job, WorkItem, idle, default_frame_count}

-- Option.map suc
abbrev pub next : Option ℕ → Option ℕ
next none = none
next (some i) = some (suc i)

-- GetNewWorkItem: the index of the first item whose event is signalled, if it has a work item.
unfoldable pub get_new_work_item : List WorkItem → Option ℕ
get_new_work_item [] = none
get_new_work_item (w ∷ ws) =
    let rest = next (get_new_work_item ws) in
    if w.event_done then (if w.has_work_item then some 0 else none) else rest

-- What SaveFrame does with the item.
unfoldable pub queue_item : Option ℕ → List WorkItem → Job → List WorkItem
queue_item none items j = items
queue_item (some i) items j =
    set items i (record (get_or items i idle) { event_done = false; job = some j })

-- SaveFrame
unfoldable pub save_frame : Frames → List WorkItem → ℕ → ℕ → List WorkItem
save_frame f items frame_no data_size =
    queue_item (get_new_work_item items) items
      (record { frame_no = frame_no; data_size = data_size; data_at = mul32 frame_no f.frame_size })

-- RtlCopyMemory to the current offset, and the step of the offset.
abbrev pub copy_in : Frames → List ℕ → Frames
copy_in f bytes = record f {
  buffer = copy_to f.buffer f.buffer_offset bytes;
  buffer_offset = add32 f.buffer_offset (length bytes);
}

-- `fSaveFrame`
abbrev pub saves : Frames → Bool
saves f =
    leb (mul32 (add32 f.frame_index 1) f.frame_size) f.buffer_offset
    || f.buffer_offset == f.buffer_size

-- The offset behind the end goes to the front; a frame that is full is marked, and the next begins.
abbrev pub turn : Frames → Frames
turn f =
    let offset = if f.buffer_offset == f.buffer_size then 0 else f.buffer_offset in
    if saves f
    then record f {
      buffer_offset = offset;
      frame_used = set f.frame_used f.frame_index true;
      frame_index = add32 f.frame_index 1 % f.frame_count;
    }
    else record f { buffer_offset = offset }

-- `Write the left over if the next frame is available.`
abbrev pub left_over : Frames → List ℕ → Frames
left_over f bytes =
    if length bytes == 0
    then f
    else (if get_or f.frame_used f.frame_index false then f else copy_in f bytes)

-- `ulByteCount`, cut to a frame, and `ulWriteBytes`.
abbrev pub byte_count : Frames → List ℕ → ℕ
byte_count f bytes = if ltb f.frame_size (length bytes) then f.frame_size else length bytes

abbrev pub first_bytes : Frames → ℕ → ℕ
first_bytes f n = let room = sub32 f.buffer_size f.buffer_offset in if ltb room n then room else n

-- WriteData after the first copy, which gave `f`, with the bytes that are still to be copied.
unfoldable pub finish_write : Frames → List WorkItem → List ℕ → Frames × List WorkItem
finish_write f items rest =
    let f' = left_over (turn f) rest in
    (f', if saves f then save_frame f' items f.frame_index f'.frame_size else items)

-- WriteData where the current frame is not in use, on the bytes that are left after the cut.
unfoldable pub write_frame : Frames → List WorkItem → List ℕ → Frames × List WorkItem
write_frame f items bytes =
    let w = first_bytes f (length bytes) in
    finish_write (copy_in f (take w bytes)) items (drop w bytes)

-- WriteData
unfoldable pub write_data : Frames → List WorkItem → List ℕ → Frames × List WorkItem
write_data f items bytes =
    if f.write_disabled
    then (f, items)
    else (if length bytes == 0
        then (f, items)
        else (if get_or f.frame_used f.frame_index false
            then (f, items)
            else write_frame f items (take (byte_count f bytes) bytes)))

-- The start of WaitAllWorkItems, before it waits for the events.
unfoldable pub save_last_frame : Frames → List WorkItem → List WorkItem
save_last_frame f items =
    let start = mul32 f.frame_index f.frame_size in
    if ltb start f.buffer_offset
    then save_frame f items f.frame_index (sub32 f.buffer_offset start)
    else items

-- Disable
unfoldable pub disable : Frames → Bool → Frames
disable f disabled = record f { write_disabled = disabled }

-- What SetMaxWriteSize does with the pool's answer.
unfoldable pub store_buffer : Option (List ℕ) → Frames → ℕ → Status × Frames
store_buffer none f n = (insufficient_resources, f)
store_buffer (some b) f n =
    (success, record f { buffer = b; buffer_size = n * default_frame_count; frame_size = n })

-- SetMaxWriteSize; RtlULongMult fails where the product is not a ULONG.
unfoldable pub set_max_write_size : (ℕ → Option (List ℕ)) → Frames → ℕ → Status × Frames
set_max_write_size allocate f n =
    if ltb (n * default_frame_count) (2 ^ 32)
    then store_buffer (allocate (n * default_frame_count)) f n
    else (insufficient_resources, f)
