-- ===== src/Stream/Tests.antt =====
-- Runs of the stream of minwavertstream.cpp, and the theorems about it at concrete streams.
use reai_board_sdk.Prelude.{
  ℕ, ◌+◌, ◌*◌, ◌%◌, ◌^◌, ◌<◌, ◌≤◌, ◌≡◌, ◌⊎◌, refl, true, false, List, [], ◌∷◌, Option, none, some,
  arith, replicate, drop,
}
use reai_board_sdk.Status.{success, device_not_ready, nt_success}
use reai_board_sdk.PcmFeed.{Feed, read}
use reai_board_sdk.PcmFeed.Invariant.{IsLoaded}
use reai_board_sdk.PcmFeed.Contents.{window}
use reai_board_sdk.PcmFeed.Positions.{contents}
use reai_board_sdk.Stream.{Stream, pause, run}
use reai_board_sdk.Stream.Words.{ulong_max}
use reai_board_sdk.Stream.Position.{Convert, elapsed, elapsed_ms, write_bytes, update_position_at}
use reai_board_sdk.Stream.Drift.{IsClocked, Ran, update_all, no_drift, long_gap_loses_time}
use reai_board_sdk.Stream.Drain.{padded}
use reai_board_sdk.Stream.Capture.{write_bytes_lem}
use reai_board_sdk.Stream.Packets.{
  get_read_packet, set_write_packet, set_current_write_position, only_flags,
}
use reai_board_sdk.Stream.PacketLaws.{ReadsPacket, get_read_packet_lem}
use reai_board_sdk.Stream.WritePacketLaws.{TakesPacket, set_write_packet_lem}
use reai_board_sdk.Stream.Events.{
  is_registered, register_notification_event, unregister_notification_event,
}
use reai_board_sdk.Stream.EventLaws.{is_distinct, register_lem}
use reai_board_sdk.Stream.Timer.{timer_notify}
use reai_board_sdk.Stream.TimerLaws.{events_after, waited, timer_lem}
use reai_board_sdk.Stream.Buffers.{allocate_buffer_with_notification, allocate_saved, save_size}
use reai_board_sdk.SaveData.{Frames, new_frames}
use reai_board_sdk.SaveData.Write.{set_max_write_size, store_buffer}
use reai_board_sdk.Stream.Calls.{Call, ask_position, change_state, timer_fires, steps}
use reai_board_sdk.Stream.Effect.{IsSynced}
use reai_board_sdk.Stream.Session.{steps-IsSynced}

abbrev ring : List ℕ
ring = 7 ∷ 8 ∷ 9 ∷ 0 ∷ []

-- Three bytes are queued.
abbrev feed : Feed
feed = record { buffer = some ring; size = 4; mask = 3; total_written = 3; total_read = 0 }

feed-IsLoaded : IsLoaded feed 2 ring
feed-IsLoaded = record {
  stored = refl;
  small = omega arith;
  sized = refl;
  whole = refl;
  masked = refl;
  written_in = omega arith;
  read_in = omega arith;
  fill = omega arith;
}

-- A running capture stream, mono at 16 kHz, whose buffer of six bytes has three notifications
abbrev stream : Stream
stream = record {
  capture = true;
  format = record { block_align = 2; samples_per_sec = 16000; avg_bytes_per_sec = 32000 };
  dma_movement_rate = 32000;
  performance_counter_frequency = 10000000;
  ks_state = run;
  dma_buffer = 0 ∷ 0 ∷ 0 ∷ 0 ∷ 0 ∷ 0 ∷ [];
  dma_buffer_size = 6;
  notifications_per_buffer = 3;
  notification_interval_ms = 10;
  notification_list = 1 ∷ 2 ∷ [];
  timer_running = true;
  packet_counter = 4;
  play_position = 4;
  write_position = 4;
  linear_position = 10;
  presentation_position = 10;
  dma_time_stamp = 1000;
  elapsed_time_carry_forward = 0;
  byte_displacement_carry_forward = 0;
  last_dpc_time_stamp = 1000;
  dpc_time_carry_forward = 0;
  current_write_position = 0;
  write_position_updated = false;
  last_os_read_packet = ulong_max;
  last_os_write_packet = ulong_max;
  eos_received = false;
  last_buffer_rendered = false;
  feed = feed;
  traced = [];
  events_set = [];
  saved = [];
}

-- The counter ticks in units of 100 ns.
abbrev plain : Convert
plain frequency qpc = qpc

stream-IsClocked : IsClocked stream
stream-IsClocked = record {
  no_eos = refl;
  time_carry = omega arith;
  byte_carry = omega arith;
  stamped = omega arith;
  linear_in = omega arith;
  presentation_in = omega arith;
}

stream-IsSynced : IsSynced stream 1
stream-IsSynced = record {
  room = omega arith;
  small = omega arith;
  no_eos = refl;
  not_rendered = refl;
  together = refl;
  agree = refl;
  bound = omega arith;
}

write_bytes_run : (write_bytes stream 5).dma_buffer ≡ 9 ∷ 0 ∷ 0 ∷ 0 ∷ 7 ∷ 8 ∷ []
unfolding write_bytes read
write_bytes_run = refl

write_bytes_lem_example :
    (window (write_bytes stream 5).dma_buffer 6 10 5 ≡ padded 5 (7 ∷ 8 ∷ 9 ∷ []))
    × (contents (write_bytes stream 5).feed ≡ drop 5 (7 ∷ 8 ∷ 9 ∷ []))
write_bytes_lem_example =
    write_bytes_lem stream 5 feed-IsLoaded refl (omega arith) (omega arith) (omega arith)

abbrev times : List ℕ
times = 21000 ∷ 45000 ∷ []

no_drift_example :
    (ms : ℕ) × (bytes : ℕ) × Ran stream (update_all true stream times) 45000 ms bytes
    × IsClocked (update_all true stream times)
no_drift_example =
    no_drift true stream times 10 stream-IsClocked (omega arith, omega arith)
      (omega arith, omega arith, omega arith, (omega arith, omega arith, omega arith, tt))

long_gap_loses_time_example :
    10000 * elapsed_ms stream (2 ^ 32 + 1000)
      + (update_position_at true stream (2 ^ 32 + 1000)).elapsed_time_carry_forward
    < elapsed stream (2 ^ 32 + 1000)
long_gap_loses_time_example = long_gap_loses_time true stream (2 ^ 32 + 1000) refl (omega arith)

get_read_packet_lem_example :
    let answer = get_read_packet stream in
    ReadsPacket stream answer
    × (answer.0 ≡ success → get_read_packet answer.2 ≡ (device_not_ready, only_flags, answer.2))
get_read_packet_lem_example = get_read_packet_lem stream (omega arith) (omega arith)

get_read_packet_run : (get_read_packet stream).0 ≡ success
unfolding get_read_packet
get_read_packet_run = refl

set_write_packet_lem_example :
    let (status, s') = set_write_packet stream 5 false in
    (TakesPacket stream 5 false
      × (status ≡ success)
      × (s'.current_write_position ≡ 4)
      × (6 ≤ 6)
      × (s'.write_position_updated ≡ true)
      × (s'.last_os_write_packet ≡ 5))
    ⊎ (¬ TakesPacket stream 5 false × (nt_success status ≡ false) × (s' ≡ stream))
set_write_packet_lem_example = set_write_packet_lem stream 5 false (omega arith) (omega arith)

set_write_packet_run : (set_write_packet stream 5 false).0 ≡ success
unfolding set_write_packet set_current_write_position
set_write_packet_run = refl

register_lem_example :
    let (status, s') = register_notification_event true stream 3 in
    (is_distinct s'.notification_list ≡ true)
    × (((true ≡ true)
          × (is_registered 3 (1 ∷ 2 ∷ []) ≡ false)
          × (status ≡ success)
          × (is_registered 3 s'.notification_list ≡ true)
          × (unregister_notification_event s' 3 ≡ (success, stream)))
        ⊎ (((true ≡ false) ⊎ (is_registered 3 (1 ∷ 2 ∷ []) ≡ true))
            × (nt_success status ≡ false)
            × (s' ≡ stream)))
unfolding is_distinct is_registered
register_lem_example = register_lem true stream 3 refl

timer_lem_example :
    let s' = timer_notify plain true stream 101000 in
    ((waited stream 101000 % 2 ^ 32 < stream.notification_interval_ms * 10000) × (s' ≡ stream))
    ⊎ ((stream.notification_interval_ms * 10000 ≤ waited stream 101000 % 2 ^ 32)
        × (s'.packet_counter ≡ 5)
        × (s'.events_set ≡ 1 ∷ 2 ∷ [])
        × (s'.timer_running ≡ true)
        × (s'.linear_position ≡ 330)
        × (s'.last_dpc_time_stamp ≡ 101000)
        × (s'.dpc_time_carry_forward + stream.notification_interval_ms * 10000
            ≡ waited stream 101000))
unfolding events_after
timer_lem_example = timer_lem plain true stream 101000 refl refl (omega arith) (omega arith)

-- Pages for any size
abbrev pages : ℕ → Option (List ℕ)
pages n = some (replicate n 0)

abbrev frames : Frames
frames = new_frames

-- A stream that renders: its saved data gets frames of 36 bytes, in a buffer of 144.
abbrev rendering : Stream
rendering = record stream { capture = false }

-- The pages are there but not mapped: it succeeds, with no bytes at the buffer.
not_mapped_run :
    let (status, actual, s', f') =
      allocate_buffer_with_notification (λ n. true) (λ n. none) true pages rendering frames 3 9 in
    (status ≡ success) × (s'.dma_buffer ≡ [])
unfolding allocate_buffer_with_notification allocate_saved save_size set_max_write_size store_buffer
not_mapped_run = (refl, refl)

abbrev calls : List Call
calls =
    ask_position 21000
    ∷ timer_fires 101000
    ∷ change_state pause (record { first = 110000; second = 110000; frequency = 10000000 })
    ∷ []

steps-IsSynced_example : IsSynced (steps plain true calls stream) 4
steps-IsSynced_example = steps-IsSynced plain true calls stream 1 (omega arith) stream-IsSynced
