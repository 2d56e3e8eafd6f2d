-- ===== src/Stream/BufferLaws.antt =====
-- The buffers that minwavertstream.cpp allocates, and the saved data's buffer that goes with them.
use reai_board_sdk.Prelude.{
  ℕ, ◌+◌, ◌-◌, ◌*◌, ◌/◌, ◌%◌, ◌^◌, ◌<◌, ◌≤◌, ◌≡◌, ◌≢◌, ◌⊎◌, inl, inr, refl, ap, ◌∙◌, Bool, true,
  false, List, [], Option, none, some, arith, Bool-cases, length, mod-lt, zero, suc, div-add-mod',
  mul-mod_left,
}
use reai_board_sdk.Status.{
  Status, success, unsuccessful, invalid_parameter, insufficient_resources, nt_success,
}
use reai_board_sdk.Stream.{Stream}
use reai_board_sdk.SaveData.{Frames}
use reai_board_sdk.Stream.Buffers.{
  is_too_small, whole_blocks, mapped_bytes, saves_data, allocate_audio_buffer,
}

-- The buffer of `size` bytes for a request of `n`: at most these, in whole blocks, at least one, and
-- less than a block short.
pub record IsWhole (block n size : ℕ) : Type 0 where
  pub bounded : size ≤ n
  pub nearly : n < size + block
  pub some_block : block ≤ size
  pub whole : size % block ≡ 0

-- The bytes at m_pDmaBuffer: as many as were asked for, or none, where the pages were not mapped.
pub MapsAs : Option (List ℕ) → List ℕ → ℕ → Type 0
MapsAs given bytes size =
    ((given ≡ none) × (bytes ≡ [])) ⊎ ((given ≡ some bytes) × (length bytes ≡ size))

-- SetMaxWriteSize was not called; or it was, and has replaced the buffer of the frames by one for frames
-- of four times the size, and kept their place in it.
pub SavesIn : Bool → Stream → Frames → Frames → ℕ → Type 0
SavesIn data_files s f f' size =
    (((s.capture ≡ true) ⊎ (data_files ≡ false)) × (f' ≡ f))
    ⊎ ((s.capture ≡ false)
        × (data_files ≡ true)
        × (f'.frame_size ≡ size * 4 % 2 ^ 32)
        × (f'.buffer_size ≡ f'.frame_size * 4)
        × (f'.buffer_offset ≡ f.buffer_offset)
        × (f'.frame_index ≡ f.frame_index)
        × (f'.frame_used ≡ f.frame_used))

no_rest : (n b : ℕ) → (n - n % b) % b ≡ 0
no_rest n b =
    ap (λ m. m % b) {x = n - n % b} {y = n / b * b} (omega (arith, div-add-mod' n b))
    ∙ mul-mod_left (n / b) b

at_least_one : (n b : ℕ) → 0 < b → b ≤ n → b ≤ n - n % b
at_least_one n b pos big = go (n / b) (n % b) (div-add-mod' n b) (mod-lt n pos)
  where
    go : (q r : ℕ) → q * b + r ≡ n → r < b → b ≤ n - r
    go zero r e lt = omega arith
    go (suc q) r e lt = omega arith

whole_blocks-lem :
    (s : Stream) (n : ℕ)
    → is_too_small s n ≡ false
    → 0 < s.format.block_align
    → (whole_blocks s n ≤ n)
      × (n < whole_blocks s n + s.format.block_align)
      × (s.format.block_align ≤ whole_blocks s n)
      × (whole_blocks s n % s.format.block_align ≡ 0)
whole_blocks-lem s n h pos =
    let b : ℕ = s.format.block_align in
    let big : b ≤ n = ground arith in
    (omega arith, omega (arith, mod-lt n pos), at_least_one n b pos big, no_rest n b)

block_size :
    (s : Stream) (n : ℕ)
    → is_too_small s n ≡ false
    → 0 < s.format.block_align
    → IsWhole s.format.block_align n (whole_blocks s n)
block_size s n enough pos =
    let (le, near, one, whole) = whole_blocks-lem s n enough pos in
    record { bounded = le; nearly = near; some_block = one; whole = whole }

mapped_bytes-MapsAs :
    (given : Option (List ℕ)) (size : ℕ)
    → ((b : List ℕ) → given ≡ some b → length b ≡ size)
    → MapsAs given (mapped_bytes given) size
unfolding MapsAs
mapped_bytes-MapsAs none size pages = inl (refl, refl)
mapped_bytes-MapsAs (some b) size pages = inr (refl, pages b refl)

-- The pool has no buffer of four frames of four times the size, or that is no ULONG.
pub NoRoom : (ℕ → Option (List ℕ)) → ℕ → Type 0
NoRoom pool size = (2 ^ 32 ≤ size * 4 % 2 ^ 32 * 4) ⊎ (pool (size * 4 % 2 ^ 32 * 4) ≡ none)

module _ (allocate_pages : ℕ → Bool) (map_pages : ℕ → Option (List ℕ)) where
  -- The outcomes of AllocateBufferWithNotification for a request of `n` bytes.
  pub data Allocates (data_files : Bool) (pool : ℕ → Option (List ℕ)) (s : Stream) (f : Frames)
      (count n : ℕ) : Status × Option ℕ × Stream × Frames → Type 0 where
    too_small :
        (n ≡ 0) ⊎ (n < s.format.block_align)
        → Allocates data_files pool s f count n (unsuccessful, none, s, f)
    bad_count :
        (count ≡ 0) ⊎ (n % count ≢ 0)
        → Allocates data_files pool s f count n (invalid_parameter, none, s, f)
    not_saved :
        (size : ℕ)
        → IsWhole s.format.block_align n size
        → saves_data data_files s ≡ true
        → NoRoom pool size
        → Allocates data_files pool s f count n (insufficient_resources, none, s, f)
    no_pages :
        (size : ℕ) (f' : Frames)
        → IsWhole s.format.block_align n size
        → SavesIn data_files s f f' size
        → allocate_pages size ≡ false
        → Allocates data_files pool s f count n (unsuccessful, none, s, f')
    allocated :
        (size : ℕ) (s' : Stream) (f' : Frames)
        → count ≢ 0
        → n % count ≡ 0
        → IsWhole s.format.block_align n size
        → SavesIn data_files s f f' size
        → allocate_pages size ≡ true
        → MapsAs (map_pages size) s'.dma_buffer size
        → s'.dma_buffer_size ≡ size
        → s'.notifications_per_buffer ≡ count
        → s'.notification_interval_ms ≡ size * 1000 % 2 ^ 32 / s.dma_movement_rate / count
        → Allocates data_files pool s f count n (success, some size, s', f')

  -- Under the same conditions AllocateAudioBuffer fails and changes nothing, or gives the stream such a
  -- buffer, without notifications.
  pub allocate_audio_buffer_lem :
      (s : Stream) (n : ℕ)
      → ((size : ℕ) (b : List ℕ) → map_pages size ≡ some b → length b ≡ size)
      → 0 < s.format.block_align
      → let (status, actual, s') = allocate_audio_buffer allocate_pages map_pages s n in
        ((nt_success status ≡ false) × (actual ≡ none) × (s' ≡ s))
        ⊎ ((status ≡ success)
            × (actual ≡ some s'.dma_buffer_size)
            × IsWhole s.format.block_align n s'.dma_buffer_size
            × MapsAs (map_pages s'.dma_buffer_size) s'.dma_buffer s'.dma_buffer_size
            × (s'.notifications_per_buffer ≡ 0))
  unfolding allocate_audio_buffer
  allocate_audio_buffer_lem s n pages pos = elim (Bool-cases (is_too_small s n)) [
    | inl small ↦ rw small (inl (refl, refl, refl))
    | inr enough ↦ elim (Bool-cases (allocate_pages (whole_blocks s n))) [
      | inr without ↦ rw (enough, without) (inl (refl, refl, refl))
      | inl given ↦
          rw (enough, given)
            (inr (
              refl,
              refl,
              block_size s n enough pos,
              mapped_bytes-MapsAs (map_pages (whole_blocks s n)) (whole_blocks s n)
                  (pages (whole_blocks s n)),
              refl,
            ))
    ]
  ]
