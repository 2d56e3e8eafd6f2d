-- ===== src/PcmFeed/Tests.antt =====
-- Runs of pcmfeed.cpp on a small ring, and the theorems about it there.
use reai_board_sdk.Prelude.{ℕ, ◌-◌, ◌^◌, ◌≡◌, refl, List, [], ◌∷◌, Option, some, arith, replicate}
use reai_board_sdk.PcmFeed.{Feed, ring_size, write, read}
use reai_board_sdk.PcmFeed.Invariant.{IsLoaded}
use reai_board_sdk.PcmFeed.Positions.{contents}
use reai_board_sdk.PcmFeed.Write.{write_lem}
use reai_board_sdk.PcmFeed.Read.{read_lem}

-- 8, then 9 round the end of four bytes, after the counter has wrapped
abbrev wrapped_ring : List ℕ
wrapped_ring = 9 ∷ 0 ∷ 0 ∷ 8 ∷ []

abbrev wrapped : Feed
wrapped = record {
  buffer = some wrapped_ring;
  size = 4;
  mask = 3;
  total_written = 1;
  total_read = 2 ^ 64 - 1;
}

wrapped-IsLoaded : IsLoaded wrapped 2 wrapped_ring
wrapped-IsLoaded = record {
  stored = refl;
  small = omega arith;
  sized = refl;
  whole = refl;
  masked = refl;
  written_in = omega arith;
  read_in = omega arith;
  fill = omega arith;
}

write_run :
    write wrapped (5 ∷ 6 ∷ 7 ∷ [])
    ≡ (2, record wrapped { buffer = some (9 ∷ 5 ∷ 6 ∷ 8 ∷ []); total_written = 3 })
unfolding write
write_run = refl

write_lem_example :
    let (n, f) = write wrapped (5 ∷ 6 ∷ 7 ∷ []) in
    (n ≡ 2) × (contents f ≡ 8 ∷ 9 ∷ 5 ∷ 6 ∷ []) × ((b : List ℕ) × IsLoaded f 2 b)
write_lem_example = write_lem (5 ∷ 6 ∷ 7 ∷ []) wrapped-IsLoaded

read_lem_example :
    let (dest, f) = read wrapped 3 in
    (dest ≡ 8 ∷ 9 ∷ 0 ∷ []) × (contents f ≡ []) × IsLoaded f 2 wrapped_ring
read_lem_example = read_lem 3 wrapped-IsLoaded

ring_size_run : ring_size 1000 ≡ 1024
unfolding ring_size
ring_size_run = refl

-- A pool that has anything
abbrev pool : ℕ → Option (List ℕ)
pool n = some (replicate n 0)
