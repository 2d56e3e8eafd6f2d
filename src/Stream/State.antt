-- ===== src/Stream/State.antt =====
-- SetState of minwavertstream.cpp.
use reai_board_sdk.Prelude.{ℕ, Bool, true, false, ltb, if◌then◌else◌}
use reai_board_sdk.Status.{Status, success}
use reai_board_sdk.Stream.Words.{ulong_max, add64, sub64}
use reai_board_sdk.Stream.Position.{Convert}
use reai_board_sdk.Stream.Query.{get_positions}
use reai_board_sdk.Stream.{Stream, KsState, stop, acquire, pause, run, rank}

-- The counter as the call reads it: at first, again for GetPositions, and its frequency.
pub record Counter : Type 0 where
  pub first : ℕ
  pub second : ℕ
  pub frequency : ℕ

-- KSSTATE_STOP: the DMA and the positions of the OS are reset. (The wait for the file's work items
-- changes nothing of the stream.)
unfoldable pub reset_positions : Stream → Stream
reset_positions s = record s {
  packet_counter = 0;
  play_position = 0;
  write_position = 0;
  linear_position = 0;
  presentation_position = 0;
  last_os_read_packet = ulong_max;
  current_write_position = 0;
  last_os_write_packet = ulong_max;
  eos_received = false;
  last_buffer_rendered = false;
}

module _ (convert : Convert) (data_files : Bool) where
  -- Run to pause: the timer is cancelled, and the time since the last event kept.
  unfoldable pub pause_dma : Stream → ℕ → Stream
  pause_dma s qpc =
      if ltb 0 s.notification_interval_ms
      then (if ltb 0 s.last_dpc_time_stamp
          then record s {
            timer_running = false;
            dpc_time_carry_forward =
                add64 (sub64 (convert s.performance_counter_frequency qpc) s.last_dpc_time_stamp)
                  s.dpc_time_carry_forward;
          }
          else record s { timer_running = false })
      else s

  -- KSSTATE_RUN: the clocks start, and the timer if there are notifications.
  unfoldable pub start_dma : Stream → Counter → Stream
  start_dma s c =
      let now = convert c.frequency c.first in
      record s {
        performance_counter_frequency = c.frequency;
        dma_time_stamp = now;
        last_dpc_time_stamp = now;
        timer_running = if ltb 0 s.notification_interval_ms then true else s.timer_running;
      }

  -- The `switch` of SetState.
  unfoldable pub enter : KsState → Stream → Counter → Stream
  unfolding reset_positions pause_dma start_dma get_positions
  enter stop s c = reset_positions s
  enter acquire s c = s
  enter pause s c =
      let s' = if ltb (rank pause) (rank s.ks_state) then pause_dma s c.first else s in
      (get_positions convert data_files s' c.second).4
  enter run s c = start_dma s c

  -- SetState
  unfoldable pub set_state : KsState → Stream → Counter → Status × Stream
  unfolding enter
  set_state k s c = (success, record (enter k s c) { ks_state = k })
