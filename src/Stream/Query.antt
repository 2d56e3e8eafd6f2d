-- ===== src/Stream/Query.antt =====
-- The queries of minwavertstream.cpp that bring the position up to date, and the ones that are not
-- supported. What the caller gets is returned beside the status and the stream.
use reai_board_sdk.Prelude.{ℕ, ◌/◌, Bool, ◌==◌, if◌then◌else◌, Option, none, some}
use reai_board_sdk.Status.{Status, success, not_supported, not_implemented}
use reai_board_sdk.Stream.Words.{mul64, low32}
use reai_board_sdk.Stream.Position.{Convert, update_position}
use reai_board_sdk.Stream.{Stream, run, rank}

module _ (convert : Convert) (data_files : Bool) where
  -- `if (m_KsState == KSSTATE_RUN) UpdatePosition(…)`
  abbrev pub brought_up_to_date : Stream → ℕ → Stream
  brought_up_to_date s qpc =
      if rank s.ks_state == rank run then update_position convert data_files s qpc else s

  -- GetPosition: PlayOffset and WriteOffset
  unfoldable pub get_position : Stream → ℕ → Status × ℕ × ℕ × Stream
  get_position s qpc =
      let s' = brought_up_to_date s qpc in (success, s'.play_position, s'.write_position, s')

  -- GetPositions: the linear and the presentation position, and the time
  unfoldable pub get_positions : Stream → ℕ → Status × ℕ × ℕ × ℕ × Stream
  get_positions s qpc =
      let s' = brought_up_to_date s qpc in
      (success, s'.linear_position, s'.presentation_position, qpc, s')

  -- GetPresentationPosition: u64PositionInBlocks and u64QPCPosition. GetPositions never fails.
  unfoldable pub get_presentation_position : Stream → ℕ → Status × ℕ × ℕ × Stream
  unfolding get_positions
  get_presentation_position s qpc =
      let (status, linear, presentation, time, s') = get_positions s qpc in
      (
        success,
        mul64 presentation s'.format.samples_per_sec / s'.format.avg_bytes_per_sec,
        time,
        s',
      )

  -- GetOutputStreamPresentationPosition: nothing is written unless the call succeeds.
  unfoldable pub get_output_stream_presentation_position :
      Stream → ℕ → Status × Option (ℕ × ℕ) × Stream
  unfolding get_presentation_position
  get_output_stream_presentation_position s qpc =
      if s.notifications_per_buffer == 0
      then (not_supported, none, s)
      else (let (status, blocks, time, s') = get_presentation_position s qpc in
          (status, some (blocks, time), s'))

  -- GetPacketCount
  unfoldable pub get_packet_count : Stream → ℕ → Status × Option ℕ × Stream
  get_packet_count s qpc =
      if s.notifications_per_buffer == 0
      then (not_supported, none, s)
      else (let s' = brought_up_to_date s qpc in (success, some (low32 s'.packet_counter), s'))

-- GetClockRegister and GetPositionRegister
unfoldable pub get_clock_register : Status
get_clock_register = not_implemented

unfoldable pub get_position_register : Status
get_position_register = not_implemented

-- SetFormat
unfoldable pub set_format : Stream → Status × Stream
set_format s = (not_supported, s)

-- GetHWLatency: ChipsetDelay, CodecDelay and FifoSize
unfoldable pub get_hw_latency : ℕ × ℕ × ℕ
get_hw_latency = (0, 0, 0)
