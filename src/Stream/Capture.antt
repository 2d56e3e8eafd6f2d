-- ===== src/Stream/Capture.antt =====
-- The capture buffer after WriteBytes of minwavertstream.cpp: the bytes stand where the positions say.
use reai_board_sdk.Prelude.{
  ℕ, zero, suc, ◌+◌, ◌-◌, ◌%◌, ◌^◌, ◌<◌, ◌≤◌, ◌≡◌, refl, sym, ap, ap₂, ◌∙◌, List, arith, min,
  length, take, drop, copy_to, dec_le, tabulate_resize, mod-lt, mod_self,
}
use reai_board_sdk.PcmFeed
use reai_board_sdk.PcmFeed.{Feed, write_pieces}
use reai_board_sdk.PcmFeed.Invariant.{IsLoaded}
use reai_board_sdk.PcmFeed.Contents.{
  window, write_pieces_whole, write_pieces_split, window-write_pieces,
}
use reai_board_sdk.PcmFeed.Positions.{contents}
use reai_board_sdk.Stream.{Stream}
use reai_board_sdk.Stream.Position.{write_loop, write_bytes}
use reai_board_sdk.Stream.Drain.{
  padded, length-padded, take-padded, drop-padded, read-padded, write_loop-done, write_loop-round,
  write_loop_lem,
}

module _ {f : Feed} {k : ℕ} {b : List ℕ} (v : IsLoaded f k b) (size : ℕ) (small : size < 2 ^ 32)
    (buffer : List ℕ) where
  -- The bytes that do not reach the end of the buffer are copied in one round.
  one_round :
      (fuel offset left : ℕ)
      → left ≤ fuel
      → offset + left ≤ size
      → offset < size
      → (write_loop fuel size f buffer offset left).1
        ≡ copy_to buffer offset (padded left (contents f))
  unfolding padded
  one_round fuel offset zero enough fits o =
      ap (λ r. r.1) (write_loop-done fuel size f buffer offset 0 refl)
  one_round zero offset (suc left) enough fits o = absurd (omega arith)
  one_round (suc fuel) offset (suc left) enough fits o =
      ap (λ r. r.1)
        (write_loop-round fuel size f buffer offset (suc left) (suc left) (omega arith)
            (omega arith)
          ∙ write_loop-done fuel size _ _ _ (suc left - suc left) (omega arith))
      ∙ ap (copy_to buffer offset) (read-padded (suc left) v).0

-- Up to a buffer's worth of bytes is copied in one piece or in two.
write_loop-pieces :
    {f : Feed} {k : ℕ} {b : List ℕ} (fuel size : ℕ) (buffer : List ℕ) (offset left : ℕ)
    → IsLoaded f k b
    → left ≤ fuel
    → left ≤ size
    → offset < size
    → size < 2 ^ 32
    → let bytes = padded left (contents f) in
      (write_loop fuel size f buffer offset left).1
      ≡ write_pieces buffer offset (min (length bytes) (size - offset)) bytes
write_loop-pieces {f} fuel size buffer offset left v enough fits o small =
    elim (dec_le (offset + left) size) [
      | yes whole ↦
          one_round v size small buffer fuel offset left enough whole o
          ∙ sym (
              write_pieces_whole buffer size offset (padded left (contents f))
                (omega (arith, length-padded left (contents f))))
      | no split ↦
          two_rounds fuel enough (omega arith)
          ∙ sym (
              write_pieces_split buffer size offset (padded left (contents f))
                (omega (arith, length-padded left (contents f))) o)
    ]
  where
    two_rounds :
        (fuel : ℕ)
        → left ≤ fuel
        → size < offset + left
        → (write_loop fuel size f buffer offset left).1
          ≡ copy_to
              (copy_to buffer offset (take (size - offset) (padded left (contents f))))
              0
              (drop (size - offset) (padded left (contents f)))
    two_rounds zero enough split = absurd (omega arith)
    two_rounds (suc fuel) enough split =
        let run : ℕ = size - offset in
        let (bytes, rest, loaded) = read-padded run v in
        let buffer' : List ℕ = copy_to buffer offset (PcmFeed.read f run).0 in
        ap (λ r. r.1)
          (write_loop-round fuel size f buffer offset left run (omega arith) (omega arith))
        ∙ ap (λ o'. (write_loop fuel size (PcmFeed.read f run).1 buffer' o' (left - run)).1) wrapped
        ∙ one_round loaded size small buffer' fuel 0 (left - run) (omega arith) (omega arith)
            (omega arith)
        ∙ ap₂ (λ first second. copy_to (copy_to buffer offset first) 0 second)
            (bytes ∙ sym (take-padded run left (contents f) (omega arith)))
            (ap (padded (left - run)) rest
              ∙ sym (drop-padded run left (left - run) (contents f) (omega arith)))
      where
        wrapped : (offset + (size - offset)) % size ≡ 0
        wrapped =
            ap (λ n. n % size) {x = offset + (size - offset)} {y = size} (omega arith)
            ∙ mod_self size

-- With a loaded feed, a buffer of the size that the stream has noted, above 0 and below 2 ^ 32, and at
-- most as many bytes as that, WriteBytes fills the capture buffer, from the linear position on and around its end, with the
-- oldest bytes of the feed, in order, and with silence where the feed has too few; the feed keeps
-- the others.
pub write_bytes_lem :
    {k : ℕ} {b : List ℕ} (s : Stream) (n : ℕ)
    → IsLoaded s.feed k b
    → length s.dma_buffer ≡ s.dma_buffer_size
    → 0 < s.dma_buffer_size
    → s.dma_buffer_size < 2 ^ 32
    → n ≤ s.dma_buffer_size
    → let s' = write_bytes s n in
      (window s'.dma_buffer s.dma_buffer_size s.linear_position n ≡ padded n (contents s.feed))
      × (contents s'.feed ≡ drop n (contents s.feed))
unfolding write_bytes
write_bytes_lem s n v whole some_room small fits =
    let size : ℕ = s.dma_buffer_size in
    let bytes : List ℕ = padded n (contents s.feed) in
    (
      ap (λ d. window d size s.linear_position n)
            (write_loop-pieces n size s.dma_buffer (s.linear_position % size) n v (omega arith) fits
              (mod-lt s.linear_position some_room) small)
          ∙ tabulate_resize n (0 + length bytes) _
              (omega (arith, length-padded n (contents s.feed)))
          ∙ window-write_pieces s.dma_buffer size s.linear_position 0 (s.linear_position % size)
              bytes (omega (arith, whole)) some_room
              (omega (arith, length-padded n (contents s.feed)))
              (ap (λ r. r % size) {x = s.linear_position} {y = s.linear_position + 0}
                (omega arith)),
      (write_loop_lem n s.dma_buffer_size s.feed s.dma_buffer
          (s.linear_position % s.dma_buffer_size) n (omega arith)
          (mod-lt s.linear_position some_room) small v).0,
    )
