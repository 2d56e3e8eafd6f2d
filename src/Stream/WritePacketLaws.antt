-- ===== src/Stream/WritePacketLaws.antt =====
-- SetWritePacket of minwavertstream.cpp: which packet is taken, and when.
use reai_board_sdk.Prelude.{
  ℕ, ◌/◌, ◌%◌, ◌^◌, ◌<◌, ◌≤◌, ◌≡◌, ◌≢◌, ◌⊎◌, inl, inr, refl, Bool, true, false, arith, ltb, leb,
  ◌==◌, Bool-cases, eqb→ne, eqb→eq, mul-div-le, mul-le-mul_right, mod-lt, mod-eq_of_lt, sym, ◌∙◌,
  ◌+◌, ◌*◌, suc, if◌then◌else◌, ltb→lt, ltb→le, leb→le, ne→eqb, eqb→ne, le→ltb,
}
use reai_board_sdk.Status.{success, nt_success}
use reai_board_sdk.Stream.Words.{sub32, add32, low32}
use reai_board_sdk.Stream.{Stream, KsState, rank, stop, acquire, pause, run}
use reai_board_sdk.Stream.Packets.{expected_packet, packet_offset, set_write_packet}

-- The number of the packet that the OS is to write next, a ULONG: while the stream runs the packet with
-- the number of the count is being played, and the one after it is due; before, that one itself is.
unfoldable pub due : KsState → ℕ → ℕ
due run count = (count + 1) % 2 ^ 32
due pause count = count % 2 ^ 32
due acquire count = count % 2 ^ 32
due stop count = count % 2 ^ 32

due-expected_packet :
    (k : KsState) (count : ℕ)
    → (if rank k == rank run then add32 (low32 count) 1 else low32 count) ≡ due k count
unfolding due
due-expected_packet run count = omega arith
due-expected_packet pause count = refl
due-expected_packet acquire count = refl
due-expected_packet stop count = refl

-- When SetWritePacket takes a packet.
pub TakesPacket : Stream → ℕ → Bool → Type 0
TakesPacket s n ends =
    (s.notifications_per_buffer ≢ 0)
    × (s.eos_received ≡ false)
    × (n ≡ due s.ks_state s.packet_counter)
    × (ends ≡ false)

expected_packet-lt : (s : Stream) → expected_packet s < 2 ^ 32
expected_packet-lt s = ground arith

-- The packet lies within the buffer.
packet-within :
    (s : Stream) (n : ℕ)
    → s.notifications_per_buffer ≢ 0
    → n % s.notifications_per_buffer * (s.dma_buffer_size / s.notifications_per_buffer)
        + s.dma_buffer_size / s.notifications_per_buffer
      ≤ s.dma_buffer_size
packet-within s n h =
    let size : ℕ = s.dma_buffer_size in
    let count : ℕ = s.notifications_per_buffer in
    let below : suc (n % count) ≤ count = omega (arith, mod-lt n (positive count h)) in
    omega (arith, mul-div-le size count, mul-le-mul_right (size / count) below)
  where
    positive : (m : ℕ) → m ≢ 0 → 0 < m
    positive m h = omega (arith, h)

packet_offset-within :
    (s : Stream) (n : ℕ)
    → s.notifications_per_buffer ≢ 0
    → s.dma_buffer_size < 2 ^ 32
    → packet_offset s n ≤ s.dma_buffer_size
packet_offset-within s n h small = omega (arith, packet-within s n h, small)

write_packet_taken :
    (s : Stream) (n : ℕ) (ends : Bool)
    → TakesPacket s n ends
    → n < 2 ^ 32
    → s.dma_buffer_size < 2 ^ 32
    → let (status, s') = set_write_packet s n ends in
      (status ≡ success)
      × (s'.current_write_position ≡ packet_offset s n)
      × (s'.write_position_updated ≡ true)
      × (s'.last_os_write_packet ≡ n)
unfolding set_write_packet TakesPacket
write_packet_taken s n ends (nb, eos, e, last) lt small =
    rw
      (
        ne→eqb s.notifications_per_buffer 0 nb,
        eos,
        same,
        last,
        le→ltb s.dma_buffer_size (packet_offset s n) (packet_offset-within s n nb small),
      )
      (refl, refl, refl, refl)
  where
    same : sub32 n (expected_packet s) ≡ 0
    same = omega (arith, e, due-expected_packet s.ks_state s.packet_counter, expected_packet-lt s)

-- Whether the packet is taken, and the answers of SetWritePacket when it is not.
write_packet_cases :
    (s : Stream) (n : ℕ) (ends : Bool)
    → n < 2 ^ 32
    → TakesPacket s n ends
      ⊎ (¬ TakesPacket s n ends
          × (nt_success (set_write_packet s n ends).0 ≡ false)
          × ((set_write_packet s n ends).1 ≡ s))
unfolding set_write_packet TakesPacket
write_packet_cases s n ends lt = elim (Bool-cases (s.notifications_per_buffer == 0)) [
  | inl a ↦ rw a (inr ((λ h. h.0 (eqb→eq s.notifications_per_buffer 0 a)), refl, refl))
  | inr a ↦ elim (Bool-cases s.eos_received) [
    | inl b ↦ rw (a, b) (inr ((λ h. absurd (ground (arith, h.1))), refl, refl))
    | inr b ↦ elim (Bool-cases (leb (2 ^ 31) (sub32 n (expected_packet s)))) [
      | inl c ↦
          rw (a, b, c)
            (inr (
              (λ h. absurd (late (leb→le (2 ^ 31) (sub32 n (expected_packet s)) c) (expected h.2))),
              refl,
              refl,
            ))
      | inr c ↦ elim (Bool-cases (ltb 0 (sub32 n (expected_packet s)))) [
        | inl d ↦
            rw (a, b, c, d)
              (inr (
                (λ h. absurd (early (ltb→lt 0 (sub32 n (expected_packet s)) d) (expected h.2))),
                refl,
                refl,
              ))
        | inr d ↦ elim (Bool-cases ends) [
          | inl e ↦ rw (a, b, c, d, e) (inr ((λ h. absurd (ground (arith, h.3))), refl, refl))
          | inr e ↦ inl (
            eqb→ne s.notifications_per_buffer 0 a,
            b,
            omega (
              arith,
              expected_packet-lt s,
              ltb→le 0 (sub32 n (expected_packet s)) d,
              due-expected_packet s.ks_state s.packet_counter,
            ),
            e,
          )
        ]
      ]
    ]
  ]
]
  where
    expected : n ≡ due s.ks_state s.packet_counter → n ≡ expected_packet s
    expected h = h ∙ sym (due-expected_packet s.ks_state s.packet_counter)

    late : 2 ^ 31 ≤ sub32 n (expected_packet s) → n ≡ expected_packet s → ⊥
    late h e = omega arith

    early : 0 < sub32 n (expected_packet s) → n ≡ expected_packet s → ⊥
    early h e = omega arith

-- For numbers and sizes that are ULONGs, SetWritePacket succeeds exactly when the buffer has
-- notifications, the stream was not told its end, the packet is the one that is due and it is not flagged
-- as the last. It then moves the OS's write position to where that packet begins, as the buffer has one
-- for each notification, all of the packet lies within the buffer, and it notes the packet; when it
-- fails, the stream is as before.
pub set_write_packet_lem :
    (s : Stream) (n : ℕ) (ends : Bool)
    → n < 2 ^ 32
    → s.dma_buffer_size < 2 ^ 32
    → let (status, s') = set_write_packet s n ends in
      let packet_size = s.dma_buffer_size / s.notifications_per_buffer in
      (TakesPacket s n ends
        × (status ≡ success)
        × (s'.current_write_position ≡ n % s.notifications_per_buffer * packet_size)
        × (n % s.notifications_per_buffer * packet_size + packet_size ≤ s.dma_buffer_size)
        × (s'.write_position_updated ≡ true)
        × (s'.last_os_write_packet ≡ n))
      ⊎ (¬ TakesPacket s n ends × (nt_success status ≡ false) × (s' ≡ s))
unfolding TakesPacket
set_write_packet_lem s n ends lt small = elim (write_packet_cases s n ends lt) [
  | inl h ↦
      let (ok, position, updated, last) = write_packet_taken s n ends h lt small in
      let inside = packet-within s n h.0 in
      inl (h, ok, position ∙ mod-eq_of_lt (omega (arith, inside, small)), inside, updated, last)
  | inr refused ↦ inr refused
]
