-- ===== src/Stream/Clock.antt =====
-- What one UpdatePosition of minwavertstream.cpp does to the clocks and the positions.
use reai_board_sdk.Prelude.{ℕ, ◌%◌, ◌≡◌, Bool, true, false, arith}
use reai_board_sdk.Stream.Words.{add64}
use reai_board_sdk.Stream.{Stream}
use reai_board_sdk.Stream.Position.{
  elapsed, scaled_bytes, displacement, position_after, update_position_at,
}

-- The stream `s'` is `s` moved on by the bytes that fell due by the time `now`.
pub record Moved (s s' : Stream) (now : ℕ) : Type 0 where
  pub linear : s'.linear_position ≡ add64 s.linear_position (displacement s now)
  pub presentation : s'.presentation_position ≡ add64 s.presentation_position (displacement s now)
  pub write : s'.write_position ≡ position_after s (displacement s now)
  pub play : s'.play_position ≡ s'.write_position
  pub stamp : s'.dma_time_stamp ≡ now
  pub time_carry : s'.elapsed_time_carry_forward ≡ elapsed s now % 10000
  pub byte_carry : s'.byte_displacement_carry_forward ≡ scaled_bytes s now % 1000
  pub rate : s'.dma_movement_rate ≡ s.dma_movement_rate
  pub size : s'.dma_buffer_size ≡ s.dma_buffer_size
  pub state : s'.ks_state ≡ s.ks_state
  pub eos : s'.eos_received ≡ false
  pub rendered : s'.last_buffer_rendered ≡ s.last_buffer_rendered
  pub packets : s'.packet_counter ≡ s.packet_counter
  pub events : s'.events_set ≡ s.events_set
  pub list : s'.notification_list ≡ s.notification_list
  pub traces : s'.traced ≡ s.traced
  pub updated : s'.write_position_updated ≡ s.write_position_updated
  pub timer : s'.timer_running ≡ s.timer_running
  pub dpc_stamp : s'.last_dpc_time_stamp ≡ s.last_dpc_time_stamp
  pub dpc_carry : s'.dpc_time_carry_forward ≡ s.dpc_time_carry_forward

-- Without an end of stream every update moves a stream so, whether it captures or renders.
pub update-Moved :
    (data_files : Bool) (s : Stream) (now : ℕ)
    → s.eos_received ≡ false
    → Moved s (update_position_at data_files s now) now
unfolding update_position_at
update-Moved true s now e = ground arith
update-Moved false s now e = ground arith
