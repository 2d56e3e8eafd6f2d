-- ===== src/Stream/Timer.antt =====
-- TimerNotifyRT of minwavertstream.cpp, which runs every millisecond while the timer does.
use reai_board_sdk.Prelude.{
  ℕ, ◌/◌, [], ◌∷◌, ◌++◌, Bool, false, not, ◌&&◌, ◌||◌, leb, ◌==◌, if◌then◌else◌,
}
use reai_board_sdk.Stream.Words.{add64, sub64, mul32, low32}
use reai_board_sdk.Stream.Position.{Convert, update_position}
use reai_board_sdk.Stream.{Stream, glitch, run, rank}

-- The time since the timer last completed a buffer, with what was carried forward, in 100 ns.
abbrev pub dpc_elapsed : Stream → ℕ → ℕ
dpc_elapsed s now = add64 (sub64 now s.last_dpc_time_stamp) s.dpc_time_carry_forward

-- `bufferCompleted`
abbrev pub is_completed : Stream → ℕ → Bool
is_completed s now = leb s.notification_interval_ms (low32 (dpc_elapsed s now) / 10000)

-- The notification clock, once a buffer is completed.
unfoldable pub keep_time : Stream → ℕ → Stream
keep_time s now =
    if is_completed s now
    then record s {
      dpc_time_carry_forward = sub64 (dpc_elapsed s now) (mul32 s.notification_interval_ms 10000);
      last_dpc_time_stamp = now;
    }
    else s

-- `if (!m_bEoSReceived) m_llPacketCounter++`
abbrev pub count_packet : Stream → Stream
count_packet s =
    if s.eos_received then s else record s { packet_counter = add64 s.packet_counter 1 }

-- IsCurrentWaveRTWritePositionUpdated, which clears the flag, and the report of an underrun.
abbrev pub check_underrun : Stream → Stream
check_underrun s =
    if not s.write_position_updated && not s.eos_received
    then record s {
      write_position_updated = false;
      traced = s.traced ++ glitch s.linear_position s.current_write_position 1 0 ∷ [];
    }
    else record s { write_position_updated = false }

-- KeSetEvent for every registered event.
abbrev pub notify : Bool → Stream → Stream
notify completed s =
    if completed || s.last_buffer_rendered
    then record s { events_set = s.events_set ++ s.notification_list }
    else s

-- ExCancelTimer after the last buffer
abbrev pub end_timer : Stream → Stream
end_timer s = if s.last_buffer_rendered then record s { timer_running = false } else s

-- The part of TimerNotifyRT that a running stream goes on to.
unfoldable pub signal : Bool → Stream → Stream
signal completed s =
    if rank s.ks_state == rank run then end_timer (notify completed (check_underrun s)) else s

-- TimerNotifyRT
unfoldable pub timer_notify : Convert → Bool → Stream → ℕ → Stream
unfolding keep_time signal
timer_notify convert data_files s qpc =
    let now = convert s.performance_counter_frequency qpc in
    if not (is_completed s now) && not s.eos_received
    then keep_time s now
    else signal (is_completed s now)
        (count_packet (update_position convert data_files (keep_time s now) qpc))
