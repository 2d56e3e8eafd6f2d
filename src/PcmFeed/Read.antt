-- ===== src/PcmFeed/Read.antt =====
-- VbmPcmFeedRead and VbmPcmFeedReset: what is queued is read once, in order, and what is missing is
-- read as silence.
use reai_board_sdk.Prelude.{
  ℕ, zero, suc, ◌+◌, ◌-◌, ◌%◌, ◌^◌, ◌<◌, ◌≤◌, ◌≡◌, inl, inr, refl, sym, ap, ap₂, ◌∙◌, List, [],
  ◌++◌, arith, length, take, drop, replicate, min, bit_and, Bool-cases, ltb, ltb→le, lt→ltb,
  if◌then◌else◌, drop-min, mod-lt, tabulate_resize, tabulate_congr, take-tabulate, drop-tabulate,
  mod-add-mod, get_or, get_or_index, add_assoc,
}
use reai_board_sdk.PcmFeed.{
  Feed, reset, buffered, sub_ulong, read, read_from, read_locked, copied, read_pieces,
}
use reai_board_sdk.PcmFeed.Invariant.{IsLoaded}
use reai_board_sdk.PcmFeed.Contents.{read_pieces-eq-window}
use reai_board_sdk.PcmFeed.Positions.{
  contents, contents-loaded, size-le, size_pos, length-contents, mask_index, wrap_index, sub_size,
}

-- Reading moves the read position.
drained_lem :
    {f : Feed} {k : ℕ} {b : List ℕ} (n : ℕ)
    → IsLoaded f k b
    → n ≤ buffered f
    → let f' = record f { total_read = (f.total_read + n) % 2 ^ 64 } in
      IsLoaded f' k b × (contents f' ≡ drop n (contents f))
drained_lem {f} {k} {b} n v le = (loaded, rest)
  where
    f' : Feed
    f' = record f { total_read = (f.total_read + n) % 2 ^ 64 }

    left : buffered f' ≡ buffered f - n
    left =
        let s = size-le v in
        let h = v.fill in let w = v.written_in in let r = v.read_in in omega arith

    loaded : IsLoaded f' k b
    loaded = record {
      stored = v.stored;
      small = v.small;
      sized = v.sized;
      whole = v.whole;
      masked = v.masked;
      written_in = v.written_in;
      read_in = omega arith;
      fill = omega (arith, left, v.fill);
    }

    rest : contents f' ≡ drop n (contents f)
    rest =
        contents-loaded loaded
        ∙ tabulate_resize _ (buffered f - n) _ left
        ∙ tabulate_congr (buffered f - n) _ _ shifted
        ∙ sym (drop-tabulate n (buffered f) _)
        ∙ ap (drop n) (sym (contents-loaded v))
      where
        shifted :
            (i : ℕ)
            → i < buffered f - n
            → get_or b (((f.total_read + n) % 2 ^ 64 + i) % f.size) 0
              ≡ get_or b ((f.total_read + (n + i)) % f.size) 0
        shifted i p = get_or_index b 0 _ _ (
            sym (mod-add-mod ((f.total_read + n) % 2 ^ 64) f.size i)
            ∙ ap (λ q. (q + i) % f.size) (wrap_index v (f.total_read + n))
            ∙ mod-add-mod (f.total_read + n) f.size i
            ∙ ap (λ q. q % f.size) (add_assoc f.total_read n i))

copied_lem :
    {f : Feed} {k : ℕ} {b : List ℕ} (n : ℕ) → IsLoaded f k b → copied f n ≡ min n (buffered f)
copied_lem n v = let s = size-le v in let h = v.fill in ground arith

-- A read drains the bytes that it copies.
drop-copied :
    {f : Feed} {k : ℕ} {b : List ℕ} (n : ℕ)
    → IsLoaded f k b
    → drop (copied f n) (contents f) ≡ drop n (contents f)
drop-copied {f} n v =
    ap (λ m. drop m (contents f)) (copied_lem n v)
    ∙ drop-min n (buffered f) (contents f) (length-contents v)

-- The pieces that a read copies are the oldest bytes.
pieces_lem :
    {f : Feed} {k : ℕ} {b : List ℕ} (n : ℕ)
    → IsLoaded f k b
    → read_pieces b
        (bit_and f.total_read f.mask)
        (min (copied f n) (sub_ulong f.size (bit_and f.total_read f.mask)))
        (copied f n)
      ≡ take n (contents f)
pieces_lem {f} {k} {b} n v =
    rw
      (
        mask_index v f.total_read,
        sub_size v (f.total_read % f.size) (omega (arith, mod-lt f.total_read (size_pos v))),
        copied_lem n v,
        contents-loaded v,
      )
      (read_pieces-eq-window b f.size f.total_read (min n (buffered f)) (f.total_read % f.size)
          v.whole (size_pos v) (omega (arith, v.fill)) refl
        ∙ sym (take-tabulate n (buffered f) _))

-- The read under the lock.
read_locked_lem :
    {f : Feed} {k : ℕ} {b : List ℕ} (n : ℕ)
    → IsLoaded f k b
    → let (piece, f') = read_locked f b n in
      (piece ≡ take n (contents f)) × (contents f' ≡ drop n (contents f)) × IsLoaded f' k b
unfolding read_locked
read_locked_lem {f} {k} {b} n v = elim (Bool-cases (ltb 0 (copied f n))) [
  | inl some_bytes ↦
      let (loaded, left) = drained_lem (copied f n) v (omega (arith, copied_lem n v)) in
      rw some_bytes (pieces_lem n v, left ∙ drop-copied n v, loaded)
  | inr nothing ↦
      let none_copied : copied f n ≡ 0 = omega (arith, ltb→le 0 (copied f n) nothing) in
      rw nothing (
        sym (
            ap (take n) (contents-loaded v)
            ∙ take-tabulate n (buffered f) _
            ∙ tabulate_resize (min n (buffered f)) 0 _
                (omega (arith, copied_lem n v, none_copied))),
        ap (λ m. drop m (contents f)) (sym none_copied) ∙ drop-copied n v,
        v,
      )
]

read-loaded :
    {f : Feed} {k : ℕ} {b : List ℕ} (n : ℕ)
    → IsLoaded f k b
    → read f n ≡ (
        if ltb 0 n
        then ((read_locked f b n).0 ++ replicate (n - copied f n) 0, (read_locked f b n).1)
        else (replicate n 0, f))
unfolding read
read-loaded {f} n v = ap (λ o. read_from o f n) v.stored

-- On a loaded feed, VbmPcmFeedRead fills its destination with the oldest bytes, in order, and with zeros where there
-- are too few; it leaves the bytes that it has not read, and keeps the invariant.
pub read_lem :
    {f : Feed} {k : ℕ} {b : List ℕ} (n : ℕ)
    → IsLoaded f k b
    → let (dest, f') = read f n in
      (dest ≡ take n (contents f) ++ replicate (n - length (contents f)) 0)
      × (contents f' ≡ drop n (contents f))
      × IsLoaded f' k b
read_lem {f} {k} {b} zero v =
    rw (read-loaded zero v) (ap (λ z. replicate z 0) (nothing (length (contents f))), refl, v)
  where
    nothing : (m : ℕ) → 0 ≡ 0 - m
    nothing m = omega arith
read_lem {f} {k} {b} (suc n) v =
    let (piece, left, loaded) = read_locked_lem (suc n) v in
    rw (read-loaded (suc n) v, lt→ltb 0 (suc n) (omega arith))
      (
        ap₂ (λ p z. p ++ replicate z 0) piece
            (omega (arith, copied_lem (suc n) v, length-contents v)),
        left,
        loaded,
      )

-- On a loaded feed, VbmPcmFeedReset drops all that is buffered, and keeps the invariant.
pub reset_lem :
    {f : Feed} {k : ℕ} {b : List ℕ}
    → IsLoaded f k b
    → (contents (reset f) ≡ []) × IsLoaded (reset f) k b
unfolding reset
reset_lem {f} {k} {b} v = (contents-loaded loaded ∙ tabulate_resize _ 0 _ empty, loaded)
  where
    empty : buffered (reset f) ≡ 0
    empty = let w = v.written_in in omega arith

    loaded : IsLoaded (reset f) k b
    loaded = record {
      stored = v.stored;
      small = v.small;
      sized = v.sized;
      whole = v.whole;
      masked = v.masked;
      written_in = v.written_in;
      read_in = v.written_in;
      fill = omega (arith, empty);
    }
