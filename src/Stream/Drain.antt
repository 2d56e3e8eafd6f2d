-- ===== src/Stream/Drain.antt =====
-- WriteBytes of minwavertstream.cpp: what the capture buffer holds after the DMA engine has moved on.
use reai_board_sdk.Prelude.{
  ℕ, zero, suc, ◌+◌, ◌-◌, ◌%◌, ◌^◌, ◌<◌, ◌≤◌, ◌≡◌, refl, sym, ap, ◌∙◌, List, [], ◌∷◌, ◌++◌, arith,
  min, length, take, drop, replicate, copy_to, length-copy_to, lt→ltb, le→ltb, dec_lt, mod-lt,
}
use reai_board_sdk.PcmFeed
use reai_board_sdk.PcmFeed.{Feed, write_pieces}
use reai_board_sdk.PcmFeed.Invariant.{IsLoaded}
use reai_board_sdk.PcmFeed.Positions.{contents}
use reai_board_sdk.PcmFeed.Read.{read_lem}
use reai_board_sdk.Stream.Words.{sub32}
use reai_board_sdk.Stream.Position.{write_loop}

-- `n` bytes of a queue, with silence for those that are missing.
unfoldable pub padded : ℕ → List ℕ → List ℕ
padded zero q = []
padded (suc n) [] = 0 ∷ padded n []
padded (suc n) (x ∷ q) = x ∷ padded n q

pub length-padded : (n : ℕ) (q : List ℕ) → length (padded n q) ≡ n
unfolding padded
length-padded zero q = refl
length-padded (suc n) [] = ap suc (length-padded n [])
length-padded (suc n) (x ∷ q) = ap suc (length-padded n q)

padded-nil : (n m : ℕ) → n ≡ m → padded n [] ≡ replicate m 0
unfolding padded
padded-nil zero zero e = refl
padded-nil zero (suc m) e = absurd (omega arith)
padded-nil (suc n) zero e = absurd (omega arith)
padded-nil (suc n) (suc m) e = ap (◌∷◌ 0) (padded-nil n m (omega arith))

padded-eq : (n : ℕ) (q : List ℕ) → take n q ++ replicate (n - length q) 0 ≡ padded n q
unfolding padded
padded-eq zero q = ap (λ m. replicate m 0) (none_missing (length q))
  where
    none_missing : (m : ℕ) → 0 - m ≡ 0
    none_missing m = omega arith
padded-eq (suc n) [] = sym (padded-nil (suc n) (suc n - 0) (omega arith))
padded-eq (suc n) (x ∷ q) =
    ap (λ m. x ∷ take n q ++ replicate m 0) (one_less n (length q)) ∙ ap (◌∷◌ x) (padded-eq n q)
  where
    one_less : (n m : ℕ) → suc n - suc m ≡ n - m
    one_less n m = omega arith

-- What is served in two rounds is what is served in one.
pub take-padded : (a n : ℕ) (q : List ℕ) → a ≤ n → take a (padded n q) ≡ padded a q
unfolding padded
take-padded zero n q h = refl
take-padded (suc a) zero q h = absurd (omega arith)
take-padded (suc a) (suc n) [] h = ap (◌∷◌ 0) (take-padded a n [] (omega arith))
take-padded (suc a) (suc n) (x ∷ q) h = ap (◌∷◌ x) (take-padded a n q (omega arith))

pub drop-padded : (a n m : ℕ) (q : List ℕ) → n ≡ a + m → drop a (padded n q) ≡ padded m (drop a q)
unfolding padded
drop-padded zero n m q e = ap (λ k. padded k q) (omega arith)
drop-padded (suc a) zero m q e = absurd (omega arith)
drop-padded (suc a) (suc n) m [] e = drop-padded a n m [] (omega arith) ∙ ap (padded m) (drop-nil a)
  where
    drop-nil : (a : ℕ) → drop {A = ℕ} a [] ≡ []
    drop-nil zero = refl
    drop-nil (suc a) = refl
drop-padded (suc a) (suc n) m (x ∷ q) e = drop-padded a n m q (omega arith)

drop-drop : (a b n : ℕ) (q : List ℕ) → n ≡ a + b → drop b (drop a q) ≡ drop n q
drop-drop zero b n q e = ap (λ k. drop k q) (omega arith)
drop-drop (suc a) b zero q e = absurd (omega arith)
drop-drop (suc a) zero (suc n) [] e = refl
drop-drop (suc a) (suc b) (suc n) [] e = refl
drop-drop (suc a) b (suc n) (x ∷ q) e = drop-drop a b n q (omega arith)

-- One round of the loop: what is read and what is left.
pub read-padded :
    {f : Feed} {k : ℕ} {b : List ℕ} (n : ℕ)
    → IsLoaded f k b
    → ((PcmFeed.read f n).0 ≡ padded n (contents f))
      × (contents (PcmFeed.read f n).1 ≡ drop n (contents f))
      × IsLoaded (PcmFeed.read f n).1 k b
read-padded {f} n v =
    let (bytes, left, loaded) = read_lem n v in (bytes ∙ padded-eq n (contents f), left, loaded)

-- The loop has nothing to do at 0,
pub write_loop-done :
    (fuel size : ℕ) (f : Feed) (buffer : List ℕ) (offset left : ℕ)
    → left ≡ 0
    → write_loop fuel size f buffer offset left ≡ (f, buffer)
unfolding write_loop
write_loop-done zero size f buffer offset left e = refl
write_loop-done (suc fuel) size f buffer offset left e = rw (le→ltb 0 left (omega arith))

-- and moves `run` bytes otherwise.
pub write_loop-round :
    (fuel size : ℕ) (f : Feed) (buffer : List ℕ) (offset left run : ℕ)
    → 0 < left
    → min left (sub32 size offset) ≡ run
    → write_loop (suc fuel) size f buffer offset left
      ≡ write_loop fuel size
          (PcmFeed.read f run).1
          (copy_to buffer offset (PcmFeed.read f run).0)
          ((offset + run) % size)
          (left - run)
unfolding write_loop
write_loop-round fuel size f buffer offset left run h e = rw (lt→ltb 0 left h, e)

-- As many rounds as bytes are enough, and read all the bytes from the feed.
pub write_loop_lem :
    (fuel size : ℕ) (f : Feed) (buffer : List ℕ) (offset left : ℕ) {k : ℕ} {b : List ℕ}
    → left ≤ fuel
    → offset < size
    → size < 2 ^ 32
    → IsLoaded f k b
    → let (f', buffer') = write_loop fuel size f buffer offset left in
      (contents f' ≡ drop left (contents f)) × IsLoaded f' k b × (length buffer' ≡ length buffer)
write_loop_lem zero size f buffer offset left enough o small v =
    let e : left ≡ 0 = omega arith in
    rw (write_loop-done 0 size f buffer offset left e, e) (refl, v, refl)
write_loop_lem (suc fuel) size f buffer offset left enough o small v = elim (dec_lt 0 left) [
  | no h ↦
      let e : left ≡ 0 = omega arith in
      rw (write_loop-done (suc fuel) size f buffer offset left e, e) (refl, v, refl)
  | yes h ↦
      let run : ℕ = min left (size - offset) in
      let (bytes, rest, loaded) = read-padded run v in
      let (c, l, n) =
        write_loop_lem fuel size (PcmFeed.read f run).1
          (copy_to buffer offset (PcmFeed.read f run).0) ((offset + run) % size) (left - run)
          (omega arith) (mod-lt (offset + run) (omega arith)) small loaded in
      rw (write_loop-round fuel size f buffer offset left run h (omega arith)) (
        c
            ∙ ap (drop (left - run)) rest
            ∙ drop-drop run (left - run) left (contents f) (omega arith),
        l,
        n ∙ length-copy_to buffer offset (PcmFeed.read f run).0,
      )
]
