-- ===== src/PcmFeed/Write.antt =====
-- VbmPcmFeedWrite: what is accepted is queued, and the rest dropped.
use reai_board_sdk.Prelude.{
  ℕ, ◌+◌, ◌-◌, ◌%◌, ◌^◌, ◌<◌, ◌≤◌, ◌≡◌, refl, sym, ap, ◌∙◌, List, [], ◌∷◌, ◌++◌, some, arith,
  length, take, false, min, ◌==◌, lt→ltb, le→ltb, if◌then◌else◌, length-take, take_all, take-length,
  mod-lt, dec_lt, append-nil, tabulate_resize,
}
use reai_board_sdk.PcmFeed.{Feed, buffered, write, write_to, write_locked, write_pieces}
use reai_board_sdk.PcmFeed.Invariant.{IsLoaded}
use reai_board_sdk.PcmFeed.Contents.{length-write_pieces, window-write_pieces}
use reai_board_sdk.PcmFeed.Positions.{
  contents, room, contents-loaded, size-le, size_pos, write_index, accepted_lem, sub_size,
}

-- The feed once `n` more bytes stand in its ring.
abbrev advanced : Feed → List ℕ → ℕ → Feed
advanced f b n = record f { buffer = some b; total_written = (f.total_written + n) % 2 ^ 64 }

abbrev write_position : Feed → ℕ
write_position f = (f.total_read + buffered f) % f.size

abbrev overwritten : Feed → List ℕ → List ℕ → List ℕ
overwritten f b xs =
    write_pieces b (write_position f) (min (length xs) (f.size - write_position f)) xs

-- What a write under the lock amounts to: it takes what fits of the bytes.
write_locked-eq :
    {f : Feed} {k : ℕ} {b : List ℕ} (bytes : List ℕ)
    → IsLoaded f k b
    → buffered f < f.size
    → let xs = take (room f) bytes in
      write_locked f b bytes ≡ (length xs, advanced f (overwritten f b xs) (length xs))
unfolding write_locked
write_locked-eq {f} {k} {b} bytes v some_room = rw (
  lt→ltb (buffered f) f.size some_room,
  accepted_lem v bytes,
  write_index v,
  sub_size v (write_position f) (omega (arith, mod-lt (f.total_read + buffered f) (size_pos v))),
  take-length (room f) bytes,
)

-- Bytes that fit, written at the write position, are queued behind the others.
advanced_lem :
    {f : Feed} {k : ℕ} {b : List ℕ} (xs : List ℕ)
    → IsLoaded f k b
    → buffered f + length xs ≤ f.size
    → IsLoaded (advanced f (overwritten f b xs) (length xs)) k (overwritten f b xs)
      × (contents (advanced f (overwritten f b xs) (length xs)) ≡ contents f ++ xs)
advanced_lem {f} {k} {b} xs v fits = (loaded, queued)
  where
    filled : buffered (advanced f (overwritten f b xs) (length xs)) ≡ buffered f + length xs
    filled =
        let s = size-le v in
        let w = v.written_in in
        let r = v.read_in in let h : buffered f + length xs ≤ f.size = fits in omega arith

    loaded : IsLoaded (advanced f (overwritten f b xs) (length xs)) k (overwritten f b xs)
    loaded = record {
      stored = refl;
      small = v.small;
      sized = v.sized;
      whole = length-write_pieces b (write_position f) _ xs ∙ v.whole;
      masked = v.masked;
      written_in = omega arith;
      read_in = v.read_in;
      fill = omega (arith, filled, fits);
    }

    queued : contents (advanced f (overwritten f b xs) (length xs)) ≡ contents f ++ xs
    queued =
        tabulate_resize _ (buffered f + length xs) _ filled
        ∙ window-write_pieces b f.size f.total_read (buffered f) (write_position f) xs
            (omega (arith, v.whole)) (size_pos v) fits refl
        ∙ ap (λ w. w ++ xs) (sym (contents-loaded v))

-- The write under the lock takes as many bytes as there is room for, and queues them.
write_locked_lem :
    {f : Feed} {k : ℕ} {b : List ℕ} (bytes : List ℕ)
    → IsLoaded f k b
    → let (n, f') = write_locked f b bytes in
      (n ≡ min (room f) (length bytes))
      × (contents f' ≡ contents f ++ take (room f) bytes)
      × ((b' : List ℕ) × IsLoaded f' k b')
unfolding write_locked
write_locked_lem {f} {k} {b} bytes v = elim (dec_lt (buffered f) f.size) [
  | yes some_room ↦
      let (loaded, queued) =
        advanced_lem (take (room f) bytes) v (omega (arith, length-take (room f) bytes, v.fill)) in
      rw (write_locked-eq bytes v some_room)
        (length-take (room f) bytes, queued, (overwritten f b (take (room f) bytes), loaded))
  | no full ↦
      let no_room : room f ≡ 0 = omega arith in
      rw (le→ltb (buffered f) f.size (omega arith), no_room)
        (omega arith, sym (append-nil (contents f)), (b, v))
]

write-loaded :
    {f : Feed} {k : ℕ} {b : List ℕ} (bytes : List ℕ)
    → IsLoaded f k b
    → write f bytes ≡ (if length bytes == 0 then (0, f) else write_locked f b bytes)
unfolding write
write-loaded {f} bytes v = ap (λ o. write_to o f bytes) v.stored

-- On a loaded feed, VbmPcmFeedWrite returns the number of bytes it takes, which is what there is room for. It queues
-- those, drops the rest, and keeps the invariant.
pub write_lem :
    {f : Feed} {k : ℕ} {b : List ℕ} (bytes : List ℕ)
    → IsLoaded f k b
    → let (n, f') = write f bytes in
      (n ≡ min (room f) (length bytes))
      × (contents f' ≡ contents f ++ take (room f) bytes)
      × ((b' : List ℕ) × IsLoaded f' k b')
write_lem {f} {k} {b} [] v =
    rw (write-loaded [] v, take_all {A = ℕ} (room f) [] (omega arith), append-nil)
      (omega arith, refl, (b, v))
write_lem {f} {k} {b} (x ∷ xs) v = rw (write-loaded (x ∷ xs) v, given) (write_locked_lem (x ∷ xs) v)
  where
    given : length (x ∷ xs) == 0 ≡ false
    given = ground arith
