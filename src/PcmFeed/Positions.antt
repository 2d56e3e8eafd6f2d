-- ===== src/PcmFeed/Positions.antt =====
-- The bytes that a loaded feed of pcmfeed.cpp holds, and the indices and differences of its code.
use reai_board_sdk.Prelude.{
  ℕ, ◌+◌, ◌-◌, ◌%◌, ◌^◌, ◌<◌, ◌≤◌, ◌≡◌, sym, ap, ◌∙◌, List, [], none, some, arith, length, take,
  bit_and, bit_and-mask, length-take, length-tabulate, mod-pow-mod, pow-le-pow_right, one-le-pow,
}
use reai_board_sdk.PcmFeed.{Feed, buffered, accepted, sub_ulong}
use reai_board_sdk.PcmFeed.Invariant.{IsLoaded}
use reai_board_sdk.PcmFeed.Contents.{window}

-- The bytes written and not yet read, oldest first.
abbrev pub contents : Feed → List ℕ
contents f = elim f.buffer [ none ↦ [] | some b ↦ window b f.size f.total_read (buffered f) ]

-- The room for more.
abbrev pub room : Feed → ℕ
room f = f.size - buffered f

module _ {f : Feed} {k : ℕ} {b : List ℕ} (v : IsLoaded f k b) where
  pub contents-loaded : contents f ≡ window b f.size f.total_read (buffered f)
  contents-loaded = ground arith

  pub size-le : f.size ≤ 2 ^ 17
  size-le = omega (arith, v.sized, pow-le-pow_right {n = 2} (omega arith) v.small)

  pub size_pos : 0 < f.size
  size_pos = omega (arith, v.sized, one-le-pow k 2 (omega arith))

  pub length-contents : length (contents f) ≡ buffered f
  length-contents = ap length contents-loaded ∙ length-tabulate (buffered f) _

  -- A mask of the ring takes a position to its index.
  pub mask_index : (p : ℕ) → bit_and p f.mask ≡ p % f.size
  mask_index p =
      ap (bit_and p) (v.masked ∙ ap (λ n. n - 1) v.sized)
      ∙ bit_and-mask k p
      ∙ ap (λ n. p % n) (sym v.sized)

  pub wrap_index : (p : ℕ) → p % 2 ^ 64 % f.size ≡ p % f.size
  wrap_index p =
      ap (λ n. p % 2 ^ 64 % n) v.sized
      ∙ mod-pow-mod k 64 p (omega (arith, v.small))
      ∙ ap (λ n. p % n) (sym v.sized)

  -- The next byte is written behind the buffered ones.
  pub write_index : bit_and f.total_written f.mask ≡ (f.total_read + buffered f) % f.size
  write_index =
      mask_index f.total_written
      ∙ ap (λ p. p % f.size) behind
      ∙ wrap_index (f.total_read + buffered f)
    where
      behind : f.total_written ≡ (f.total_read + buffered f) % 2 ^ 64
      behind = let w = v.written_in in let r = v.read_in in omega arith

  pub accepted_lem : (bytes : List ℕ) → accepted f bytes ≡ length (take (room f) bytes)
  accepted_lem bytes =
      let s = size-le in let h = v.fill in ground (arith, length-take (room f) bytes)

  -- A difference of ULONGs from the size does not wrap.
  pub sub_size : (p : ℕ) → p ≤ f.size → sub_ulong f.size p ≡ f.size - p
  sub_size p h = let s = size-le in omega arith
