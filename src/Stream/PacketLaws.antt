-- ===== src/Stream/PacketLaws.antt =====
-- GetReadPacket of minwavertstream.cpp: which packet is given, and when.
use reai_board_sdk.Prelude.{
  ℕ, ◌+◌, ◌%◌, ◌^◌, ◌<◌, ◌≤◌, ◌≡◌, ◌≢◌, inl, inr, refl, some, arith, ltb, ◌==◌, subst, false,
  Bool-cases, eqb→ne, eqb→eq, ltb→lt, ltb→le, eq→eqb,
}
use reai_board_sdk.Status.{Status, success, not_supported, invalid_device_state, device_not_ready}
use reai_board_sdk.Stream.{Stream, pause, rank}
use reai_board_sdk.Stream.Packets.{
  ReadPacket, ReadAnswer, no_answer, only_flags, available_packet, packet_time, get_read_packet,
}

-- `n` is the ULONG before the count of packets: packet `n` is the last that is complete, and the
-- packet before the first is 2 ^ 32 - 1.
pub IsLast : Stream → ℕ → Type 0
IsLast s n = (n < 2 ^ 32) × ((n + 1) % 2 ^ 32 ≡ s.packet_counter % 2 ^ 32)

available-IsLast : (s : Stream) → s.packet_counter < 2 ^ 64 → IsLast s (available_packet s)
unfolding IsLast
available-IsLast s h = omega arith

-- The answers of GetReadPacket, with the last complete packet as `n`.
pub data ReadsPacket (s : Stream) : Status × ReadAnswer × Stream → Type 0 where
  without_notifications :
      s.notifications_per_buffer ≡ 0 → ReadsPacket s (not_supported, no_answer, s)
  before_pause :
      s.notifications_per_buffer ≢ 0
      → rank s.ks_state < rank pause
      → ReadsPacket s (invalid_device_state, only_flags, s)
  given_before :
      s.notifications_per_buffer ≢ 0
      → rank pause ≤ rank s.ks_state
      → IsLast s s.last_os_read_packet
      → ReadsPacket s (device_not_ready, only_flags, s)
  given :
      (n : ℕ) (p : ReadPacket)
      → s.notifications_per_buffer ≢ 0
      → rank pause ≤ rank s.ks_state
      → IsLast s n
      → n ≢ s.last_os_read_packet
      → p.packet_number ≡ n
      → ReadsPacket s (
        success,
        record { flags = some 0; packet = some p },
        record s { last_os_read_packet = n },
      )

-- For counts and numbers that fit their types, GetReadPacket answers without notifications with
-- STATUS_NOT_SUPPORTED and writes nothing, and before the pause state with
-- STATUS_INVALID_DEVICE_STATE; where the last complete packet has been given it answers with
-- STATUS_DEVICE_NOT_READY, and otherwise it succeeds with that packet's number and notes it. Except for
-- the note it changes nothing, and but for the first case it sets Flags to 0. A second call after one
-- that gave a packet is answered with STATUS_DEVICE_NOT_READY.
pub get_read_packet_lem :
    (s : Stream)
    → s.packet_counter < 2 ^ 64
    → s.last_os_read_packet < 2 ^ 32
    → let answer = get_read_packet s in
      ReadsPacket s answer
      × (answer.0 ≡ success → get_read_packet answer.2 ≡ (device_not_ready, only_flags, answer.2))
unfolding get_read_packet
get_read_packet_lem s bound small = elim (Bool-cases (s.notifications_per_buffer == 0)) [
  | inl a ↦ rw a (
    without_notifications (eqb→eq s.notifications_per_buffer 0 a),
    λ e. absurd (ground (arith, e)),
  )
  | inr a ↦ elim (Bool-cases (ltb (rank s.ks_state) (rank pause))) [
    | inl b ↦
        rw (a, b)
          (
            before_pause (eqb→ne s.notifications_per_buffer 0 a)
                (ltb→lt (rank s.ks_state) (rank pause) b),
            λ e. absurd (ground (arith, e)),
          )
    | inr b ↦ elim (Bool-cases (available_packet s == s.last_os_read_packet)) [
      | inl c ↦
          rw (a, b, c)
            (
              given_before (eqb→ne s.notifications_per_buffer 0 a)
                  (ltb→le (rank s.ks_state) (rank pause) b)
                  (subst (IsLast s) (eqb→eq (available_packet s) s.last_os_read_packet c)
                    (available-IsLast s bound)),
              λ e. absurd (ground (arith, e)),
            )
      | inr c ↦
          rw (a, b, c)
            (
              given (available_packet s)
                  (record {
                    packet_number = available_packet s;
                    performance_counter_value = packet_time s;
                    more_data = false;
                  })
                  (eqb→ne s.notifications_per_buffer 0 a) (ltb→le (rank s.ks_state) (rank pause) b)
                  (available-IsLast s bound) (eqb→ne (available_packet s) s.last_os_read_packet c)
                  refl,
              λ e. rw (a, b, eq→eqb (available_packet s) (available_packet s) refl) refl,
            )
    ]
  ]
]
