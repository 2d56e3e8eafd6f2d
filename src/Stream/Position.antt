-- ===== src/Stream/Position.antt =====
-- UpdatePosition, WriteBytes and ReadBytes of minwavertstream.cpp: the simulated DMA engine.
use reai_board_sdk.Prelude.{
  ℕ, zero, suc, ◌+◌, ◌-◌, ◌/◌, ◌%◌, min, List, [], ◌++◌, Bool, true, not, ◌&&◌, ltb, leb, ◌==◌,
  if◌then◌else◌, take, drop, copy_to,
}
use reai_board_sdk.PcmFeed
use reai_board_sdk.PcmFeed.{Feed}
use reai_board_sdk.Stream.Words.{add64, sub64, add32, sub32, mul32, low32}
use reai_board_sdk.Stream.{Stream}

-- KSCONVERT_PERFORMANCE_TIME of ks.h: the counter's frequency and value, to units of 100 ns.
abbrev pub Convert : Type 0
Convert = ℕ → ℕ → ℕ

-- The loop of WriteBytes, from an offset, for the bytes left. Each round moves a byte at least, so
-- `left` rounds are enough.
unfoldable pub write_loop : ℕ → ℕ → Feed → List ℕ → ℕ → ℕ → Feed × List ℕ
write_loop zero size feed buffer offset left = (feed, buffer)
write_loop (suc fuel) size feed buffer offset left =
    let run = min left (sub32 size offset) in
    let rest =
      write_loop fuel size (PcmFeed.read feed run).1
        (copy_to buffer offset (PcmFeed.read feed run).0) ((offset + run) % size) (left - run) in
    if ltb 0 left then rest else (feed, buffer)

-- WriteBytes
unfoldable pub write_bytes : Stream → ℕ → Stream
unfolding write_loop
write_bytes s n =
    let (feed, buffer) =
      write_loop n s.dma_buffer_size s.feed s.dma_buffer (s.linear_position % s.dma_buffer_size)
        n in
    record s { feed = feed; dma_buffer = buffer }

-- The loop of ReadBytes: what is handed to WriteData.
unfoldable pub read_loop : ℕ → ℕ → List ℕ → ℕ → ℕ → List ℕ
read_loop zero size buffer offset left = []
read_loop (suc fuel) size buffer offset left =
    let run = min left (sub32 size offset) in
    let rest = read_loop fuel size buffer ((offset + run) % size) (left - run) in
    if ltb 0 left then take run (drop offset buffer) ++ rest else []

-- ReadBytes
unfoldable pub read_bytes : Stream → ℕ → Stream
unfolding read_loop
read_bytes s n = record s {
  saved =
      s.saved
      ++ read_loop n s.dma_buffer_size s.dma_buffer (s.linear_position % s.dma_buffer_size) n;
}

-- The time since the last update with what was carried forward, in 100 ns.
abbrev pub elapsed : Stream → ℕ → ℕ
elapsed s now = add64 (sub64 now s.dma_time_stamp) s.elapsed_time_carry_forward

-- `TimeElapsedInMS`: the conversion to ULONG comes before the division.
abbrev pub elapsed_ms : Stream → ℕ → ℕ
elapsed_ms s now = low32 (elapsed s now) / 10000

-- `m_ulDmaMovementRate * TimeElapsedInMS + m_byteDisplacementCarryForward`, as ULONG.
abbrev pub scaled_bytes : Stream → ℕ → ℕ
scaled_bytes s now =
    add32 (mul32 s.dma_movement_rate (elapsed_ms s now)) s.byte_displacement_carry_forward

-- `ByteDisplacement` as it is first computed.
abbrev pub displacement : Stream → ℕ → ℕ
displacement s now = scaled_bytes s now / 1000

-- The clock part of UpdatePosition: carries and presentation position.
abbrev pub tick : Stream → ℕ → Stream
tick s now = record s {
  elapsed_time_carry_forward = elapsed s now % 10000;
  byte_displacement_carry_forward = scaled_bytes s now % 1000;
  presentation_position = add64 s.presentation_position (displacement s now);
}

-- Where a render stream would be after `n` bytes.
abbrev pub position_after : Stream → ℕ → ℕ
position_after s n = add64 s.write_position n % s.dma_buffer_size

-- A render stream that was told its last packet does not read past it.
unfoldable pub limit_to_eos : Stream → ℕ → ℕ
limit_to_eos s n =
    if leb s.write_position s.current_write_position
    then min n (sub32 s.current_write_position (low32 s.write_position))
    else (if ltb (position_after s n) s.write_position
          && ltb s.current_write_position (position_after s n)
        then sub32 n
            (sub32 (add32 (low32 s.write_position) n % s.dma_buffer_size) s.current_write_position)
        else n)

-- The render part of UpdatePosition, with `!g_DoNotCreateDataFiles`: the bytes moved, and the stream.
unfoldable pub render : Bool → Stream → ℕ → ℕ × Stream
unfolding limit_to_eos read_bytes
render data_files s n =
    let m = if s.eos_received then limit_to_eos s n else n in
    let s' =
      (if s.eos_received
          && not s.last_buffer_rendered
          && position_after s m == s.current_write_position
        then record s { last_buffer_rendered = true }
        else s) in
    (m, (if data_files then read_bytes s' m else s'))

-- The end of UpdatePosition, once `n` bytes are moved.
abbrev pub advance : Stream → ℕ → ℕ → Stream
advance s n now = record s {
  play_position = position_after s n;
  write_position = position_after s n;
  linear_position = add64 s.linear_position n;
  dma_time_stamp = now;
}

-- UpdatePosition at the time `hnsCurrentTime`.
unfoldable pub update_position_at : Bool → Stream → ℕ → Stream
unfolding write_bytes render
update_position_at data_files s now =
    if s.capture
    then advance (write_bytes (tick s now) (displacement s now)) (displacement s now) now
    else (let (n, s') = render data_files (tick s now) (displacement s now) in advance s' n now)

-- UpdatePosition
unfoldable pub update_position : Convert → Bool → Stream → ℕ → Stream
unfolding update_position_at
update_position convert data_files s qpc =
    update_position_at data_files s (convert s.performance_counter_frequency qpc)
