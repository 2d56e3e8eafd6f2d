-- ===== src/PcmFeed.antt =====
-- virtual-mic/driver-windows/Source/Main/pcmfeed.cpp: the ring between the control device and the
-- capture stream. Its globals are a record; each operation runs under the spin lock, or at times when
-- no other can run, and is one step.
pub mod Invariant
pub mod Contents
pub mod Positions
pub mod Write
pub mod Read
pub mod Load
mod Tests
use reai_board_sdk.Prelude.{
  ℕ, zero, suc, ◌+◌, ◌-◌, ◌*◌, ◌/◌, ◌%◌, ◌^◌, min, bit_and, List, [], ◌∷◌, ◌++◌, Option, none, some,
  Bool, true, false, ◌&&◌, ltb, leb, ◌==◌, if◌then◌else◌, length, take, drop, copy_to, replicate,
}
use reai_board_sdk.Status.{Status, success, insufficient_resources}

-- VBM_PCM_FEED_RING_BYTES_DEFAULT
abbrev pub ring_bytes_default : ℕ
ring_bytes_default = 0x20000

-- The globals `g_Feed…`; a NULL buffer is `none`.
pub record Feed : Type 0 where
  pub buffer : Option (List ℕ)
  pub size : ℕ
  pub mask : ℕ
  pub total_written : ℕ
  pub total_read : ℕ

-- As the driver is loaded.
abbrev pub unloaded : Feed
unloaded = record { buffer = none; size = 0; mask = 0; total_written = 0; total_read = 0 }

-- `while (size > 1 && size / 2 >= RingBytes) size /= 2;` with fuel.
unfoldable pub shrink : ℕ → ℕ → ℕ → ℕ
shrink zero size ring_bytes = size
shrink (suc fuel) size ring_bytes =
    let rest = shrink fuel (size / 2) ring_bytes in
    if ltb 1 size && leb ring_bytes (size / 2) then rest else size

-- The size that VbmPcmFeedInitialize selects. The default is 2 ^ 17, so 17 rounds are enough.
unfoldable pub ring_size : ℕ → ℕ
unfolding shrink
ring_size ring_bytes =
    shrink 18 ring_bytes_default (if ring_bytes == 0 then ring_bytes_default else ring_bytes)

-- What VbmPcmFeedInitialize does with the pool's answer.
unfoldable pub store_ring : Option (List ℕ) → Feed → ℕ → Status × Feed
store_ring none f size = (insufficient_resources, f)
store_ring (some b) f size = (
  success,
  record { buffer = some b; size = size; mask = size - 1; total_written = 0; total_read = 0 },
)

-- VbmPcmFeedInitialize at each state of `g_FeedBuffer`, with ExAllocatePool2 as `allocate`.
unfoldable pub initialize_from : Option (List ℕ) → (ℕ → Option (List ℕ)) → Feed → ℕ → Status × Feed
unfolding store_ring
initialize_from (some _) allocate f ring_bytes = (success, f)
initialize_from none allocate f ring_bytes =
    store_ring (allocate (ring_size ring_bytes)) f (ring_size ring_bytes)

-- VbmPcmFeedInitialize
unfoldable pub initialize : (ℕ → Option (List ℕ)) → Feed → ℕ → Status × Feed
unfolding initialize_from
initialize allocate f ring_bytes = initialize_from f.buffer allocate f ring_bytes

-- VbmPcmFeedCleanup
unfoldable pub cleanup : Feed → Feed
cleanup f = elim f.buffer [ some _ ↦ unloaded | none ↦ f ]

-- VbmPcmFeedReset
unfoldable pub reset : Feed → Feed
reset f = record f { total_read = f.total_written }

-- `written - read` as ULONGLONG
abbrev pub buffered : Feed → ℕ
buffered f = (f.total_written + 2 ^ 64 - f.total_read) % 2 ^ 64

-- Differences of ULONGs.
abbrev pub sub_ulong : ℕ → ℕ → ℕ
sub_ulong a b = (a + 2 ^ 32 - b) % 2 ^ 32

-- The copies of VbmPcmFeedWrite: one piece at `pos`, and the rest, if any, at the front.
unfoldable pub write_pieces : List ℕ → ℕ → ℕ → List ℕ → List ℕ
write_pieces b pos first bytes =
    if ltb first (length bytes)
    then copy_to (copy_to b pos (take first bytes)) 0 (drop first bytes)
    else copy_to b pos (take first bytes)

-- `accepted`, if there is room
abbrev pub accepted : Feed → List ℕ → ℕ
accepted f bytes =
    let available = sub_ulong f.size (buffered f % 2 ^ 32) in
    if ltb (length bytes) available then length bytes else available

-- The part of VbmPcmFeedWrite under the lock.
unfoldable pub write_locked : Feed → List ℕ → List ℕ → ℕ × Feed
write_locked f b bytes =
    if ltb (buffered f) f.size
    then (
      accepted f bytes,
      record f {
        buffer = some (
            write_pieces b (bit_and f.total_written f.mask)
              (min (accepted f bytes) (sub_ulong f.size (bit_and f.total_written f.mask)))
              (take (accepted f bytes) bytes));
        total_written = (f.total_written + accepted f bytes) % 2 ^ 64;
      },
    )
    else (0, f)

-- VbmPcmFeedWrite at each state of `g_FeedBuffer`.
unfoldable pub write_to : Option (List ℕ) → Feed → List ℕ → ℕ × Feed
write_to none f bytes = (0, f)
write_to (some b) f bytes = if length bytes == 0 then (0, f) else write_locked f b bytes

-- VbmPcmFeedWrite on the `Length` bytes at `Data`: the number of bytes accepted, and the feed.
unfoldable pub write : Feed → List ℕ → ℕ × Feed
unfolding write_to write_locked write_pieces
write f bytes = write_to f.buffer f bytes

-- `copied` of VbmPcmFeedRead
abbrev pub copied : Feed → ℕ → ℕ
copied f n = if ltb (buffered f) n then buffered f % 2 ^ 32 else n

-- The copies of VbmPcmFeedRead: one piece from `pos`, and the rest, if any, from the front.
unfoldable pub read_pieces : List ℕ → ℕ → ℕ → ℕ → List ℕ
read_pieces b pos first n =
    take first (drop pos b) ++ (if ltb first n then take (n - first) b else [])

-- The part of VbmPcmFeedRead under the lock: the bytes copied, and the feed.
unfoldable pub read_locked : Feed → List ℕ → ℕ → List ℕ × Feed
read_locked f b n =
    if ltb 0 (copied f n)
    then (
      read_pieces b (bit_and f.total_read f.mask)
          (min (copied f n) (sub_ulong f.size (bit_and f.total_read f.mask))) (copied f n),
      record f { total_read = (f.total_read + copied f n) % 2 ^ 64 },
    )
    else ([], f)

-- VbmPcmFeedRead at each state of `g_FeedBuffer`. What is not copied is zeroed.
unfoldable pub read_from : Option (List ℕ) → Feed → ℕ → List ℕ × Feed
read_from none f n = (replicate n 0, f)
read_from (some b) f n =
    if ltb 0 n
    then ((read_locked f b n).0 ++ replicate (n - copied f n) 0, (read_locked f b n).1)
    else (replicate n 0, f)

-- VbmPcmFeedRead: the `n` bytes at `Dest` after it, and the feed.
unfoldable pub read : Feed → ℕ → List ℕ × Feed
unfolding read_from read_locked read_pieces
read f n = read_from f.buffer f n
