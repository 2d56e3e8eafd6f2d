-- ===== src/Stream/Buffers.antt =====
-- AllocateBufferWithNotification, AllocateAudioBuffer, FreeBufferWithNotification and FreeAudioBuffer
-- of minwavertstream.cpp, with SetMaxWriteSize of savedata.cpp. IPortWaveRTStream is a parameter: whether
-- AllocatePagesForMdl gives pages for a size, and the buffer that MapAllocatedPages gives, if any.
use reai_board_sdk.Prelude.{
  ℕ, ◌-◌, ◌/◌, ◌%◌, List, [], Bool, not, ◌&&◌, ◌||◌, ltb, ◌==◌, if◌then◌else◌, Option, none, some,
}
use reai_board_sdk.Status.{Status, success, unsuccessful, invalid_parameter, nt_success}
use reai_board_sdk.Stream.Words.{mul32}
use reai_board_sdk.Stream.{Stream}
use reai_board_sdk.SaveData.{Frames}
use reai_board_sdk.SaveData.Write.{set_max_write_size}

-- `RequestedSize_ == 0 || RequestedSize_ < nBlockAlign`
abbrev pub is_too_small : Stream → ℕ → Bool
is_too_small s requested = requested == 0 || ltb requested s.format.block_align

-- The size in whole blocks.
abbrev pub whole_blocks : Stream → ℕ → ℕ
whole_blocks s requested = requested - requested % s.format.block_align

-- What MapAllocatedPages gives, which the code does not test; NULL is no bytes.
abbrev pub mapped_bytes : Option (List ℕ) → List ℕ
mapped_bytes none = []
mapped_bytes (some b) = b

-- `m_ulNotificationIntervalMs` for a buffer of a size
abbrev pub notification_interval : Stream → ℕ → ℕ → ℕ
notification_interval s size count = mul32 size 1000 / s.dma_movement_rate / count

-- A stream that renders to a file.
abbrev pub saves_data : Bool → Stream → Bool
saves_data data_files s = not s.capture && data_files

-- SetMaxWriteSize of m_SaveData, with the pool, for a stream that renders to a file.
unfoldable pub save_size : Bool → (ℕ → Option (List ℕ)) → Stream → Frames → ℕ → Status × Frames
unfolding set_max_write_size
save_size data_files pool s f size =
    if saves_data data_files s then set_max_write_size pool f (mul32 size 4) else (success, f)

module _ (allocate_pages : ℕ → Bool) (map_pages : ℕ → Option (List ℕ)) where
  -- AllocateAudioBuffer: the status, ActualSize, if it succeeds, and the stream.
  unfoldable pub allocate_audio_buffer : Stream → ℕ → Status × Option ℕ × Stream
  allocate_audio_buffer s requested =
      let size = whole_blocks s requested in
      if is_too_small s requested
      then (unsuccessful, none, s)
      else (if not (allocate_pages size) then (unsuccessful, none, s) else (
        success,
        some size,
        record s {
          dma_buffer = mapped_bytes (map_pages size);
          dma_buffer_size = size;
          notifications_per_buffer = 0;
        },
      ))

  -- The rest of AllocateBufferWithNotification, with what SetMaxWriteSize gives.
  unfoldable pub allocate_saved :
      Stream → ℕ → ℕ → Status × Frames → Status × Option ℕ × Stream × Frames
  allocate_saved s count size (status, f) =
      if not (nt_success status)
      then (status, none, s, f)
      else (if not (allocate_pages size) then (unsuccessful, none, s, f) else (
        success,
        some size,
        record s {
          dma_buffer = mapped_bytes (map_pages size);
          dma_buffer_size = size;
          notifications_per_buffer = count;
          notification_interval_ms = notification_interval s size count;
        },
        f,
      ))

  -- AllocateBufferWithNotification: also the frames of m_SaveData.
  unfoldable pub allocate_buffer_with_notification :
      Bool → (ℕ → Option (List ℕ)) → Stream → Frames → ℕ → ℕ → Status × Option ℕ × Stream × Frames
  unfolding allocate_saved save_size
  allocate_buffer_with_notification data_files pool s f count requested =
      let size = whole_blocks s requested in
      if is_too_small s requested
      then (unsuccessful, none, s, f)
      else (if count == 0 || not (requested % count == 0)
          then (invalid_parameter, none, s, f)
          else allocate_saved s count size (save_size data_files pool s f size))

-- FreeAudioBuffer and FreeBufferWithNotification, which do the same. The pages are the port's.
unfoldable pub free_audio_buffer : Bool → Stream → Stream
free_audio_buffer has_mdl s = record s {
  dma_buffer = if has_mdl then [] else s.dma_buffer;
  dma_buffer_size = 0;
  notifications_per_buffer = 0;
}
