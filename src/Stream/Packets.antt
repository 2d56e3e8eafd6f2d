-- ===== src/Stream/Packets.antt =====
-- GetReadPacket, SetWritePacket and SetCurrentWritePositionInternal of minwavertstream.cpp.
use reai_board_sdk.Prelude.{
  ℕ, ◌/◌, ◌%◌, ◌^◌, [], ◌∷◌, ◌++◌, Bool, true, false, ltb, leb, ◌==◌, if◌then◌else◌, Option, none,
  some, ◌&&◌,
}
use reai_board_sdk.Status.{
  Status, success, not_supported, invalid_device_state, invalid_device_request, device_not_ready,
  data_late_error, data_overrun, invalid_parameter, nt_success,
}
use reai_board_sdk.Stream.Words.{add64, sub64, mul64, add32, sub32, mul32, low32}
use reai_board_sdk.Stream.{Stream, set_write_position, glitch, run, pause, rank}

-- What GetReadPacket writes through PacketNumber, PerformanceCounterValue and MoreData.
pub record ReadPacket : Type 0 where
  pub packet_number : ℕ
  pub performance_counter_value : ℕ
  pub more_data : Bool

-- All that it writes: Flags, and a packet; `none` where it writes nothing.
pub record ReadAnswer : Type 0 where
  pub flags : Option ℕ
  pub packet : Option ReadPacket

-- `availablePacketNumber`: the last packet that is complete, counted from 0.
abbrev pub available_packet : Stream → ℕ
available_packet s = low32 (sub64 s.packet_counter 1)

-- The time at the end of that packet, reckoned back from the last update of the position.
abbrev pub packet_time : Stream → ℕ
packet_time s =
    let linear_of_packet =
      mul64 s.packet_counter (s.dma_buffer_size / s.notifications_per_buffer) in
    let carry_bytes = mul64 s.elapsed_time_carry_forward s.dma_movement_rate / 10000000 in
    let delta = sub64 (add64 s.linear_position carry_bytes) linear_of_packet in
    let delta_hns = mul64 delta 10000000 / s.dma_movement_rate in
    mul64 (sub64 s.dma_time_stamp delta_hns) s.performance_counter_frequency / 10000000

-- The answers without a packet: before Flags is set, and after.
abbrev pub no_answer : ReadAnswer
no_answer = record { flags = none; packet = none }

abbrev pub only_flags : ReadAnswer
only_flags = record { flags = some 0; packet = none }

-- GetReadPacket. Where it gives a packet it sets Flags to 0 once more.
unfoldable pub get_read_packet : Stream → Status × ReadAnswer × Stream
get_read_packet s =
    if s.notifications_per_buffer == 0
    then (not_supported, no_answer, s)
    else (if ltb (rank s.ks_state) (rank pause)
        then (invalid_device_state, only_flags, s)
        else (if available_packet s == s.last_os_read_packet
            then (device_not_ready, only_flags, s)
            else (
              success,
              record {
                flags = some 0;
                packet = some (record {
                  packet_number = available_packet s;
                  performance_counter_value = packet_time s;
                  more_data = false;
                });
              },
              record s { last_os_read_packet = available_packet s },
            )))

-- SetCurrentWritePositionInternal. A second write to one position is reported as a glitch.
unfoldable pub set_current_write_position : Stream → ℕ → Status × Stream
set_current_write_position s position =
    if s.eos_received
    then (invalid_device_request, s)
    else (if ltb s.dma_buffer_size position then (invalid_device_request, s) else (
      success,
      record s {
        current_write_position = position;
        write_position_updated = true;
        traced =
            s.traced
            ++ (set_write_position s.linear_position s.current_write_position position
                ∷ (if ltb 0 s.notification_interval_ms && s.current_write_position == position
                    then glitch s.linear_position s.current_write_position 3 position ∷ []
                    else []));
      },
    ))

-- `expectedPacket`: the packet after the current one once the stream runs.
abbrev pub expected_packet : Stream → ℕ
expected_packet s =
    if rank s.ks_state == rank run then add32 (low32 s.packet_counter) 1 else low32 s.packet_counter

-- Where the packet begins in the buffer.
abbrev pub packet_offset : Stream → ℕ → ℕ
packet_offset s n =
    mul32 (n % s.notifications_per_buffer) (s.dma_buffer_size / s.notifications_per_buffer)

-- The end of SetWritePacket: a position that is refused restores the last packet.
abbrev pub accept_packet : Stream → ℕ → Status × Stream → Status × Stream
accept_packet s n (status, s') = (
  status,
  if nt_success status then s' else record s' { last_os_write_packet = s.last_os_write_packet },
)

-- SetWritePacket. `ends` is the flag KSSTREAM_HEADER_OPTIONSF_ENDOFSTREAM; a difference is negative as
-- a LONG from 2 ^ 31 on.
unfoldable pub set_write_packet : Stream → ℕ → Bool → Status × Stream
unfolding set_current_write_position
set_write_packet s n ends =
    let delta = sub32 n (expected_packet s) in
    if s.notifications_per_buffer == 0
    then (not_supported, s)
    else (if s.eos_received
        then (invalid_device_state, s)
        else (if leb (2 ^ 31) delta
            then (data_late_error, s)
            else (if ltb 0 delta
                then (data_overrun, s)
                else (if ends
                    then (invalid_parameter, s)
                    else accept_packet s n (
                        set_current_write_position (record s { last_os_write_packet = n })
                          (packet_offset s n))))))
