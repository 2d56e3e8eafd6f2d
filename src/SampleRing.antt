-- ===== src/SampleRing.antt =====
-- virtual-mic/driver/Driver.cpp: `SampleRing`, the ring between the UDP receiver thread and the IO
-- thread of the audio server. Each call is one step here; SampleRing/Threads splits the calls into
-- their atomic accesses.
pub mod Contents
pub mod Push
pub mod Pop
pub mod Queue
pub mod Threads
mod Tests
use reai_board_sdk.Prelude.{
  ℕ, zero, suc, ◌+◌, ◌-◌, ◌*◌, ◌%◌, ◌^◌, List, [], ◌∷◌, ltb, ◌==◌, if◌then◌else◌, get_or, set,
  replicate,
}

abbrev pub ring_capacity : ℕ
ring_capacity = 16384

abbrev pub high_water : ℕ
high_water = 4800

abbrev pub low_water : ℕ
low_water = 1600

-- Samples are only moved, so a sample is any number.
pub record SampleRing : Type 0 where
  pub buffer : List ℕ
  pub head : ℕ
  pub tail : ℕ

-- Differences of `size_t`, which wrap.
abbrev pub sub_size : ℕ → ℕ → ℕ
sub_size a b = (a + 2 ^ 64 - b) % 2 ^ 64

unfoldable pub init : SampleRing
init = record { buffer = replicate ring_capacity 0; head = 0; tail = 0 }

abbrev pub next_index : ℕ → ℕ
next_index i = (i + 1) % ring_capacity

unfoldable pub push : SampleRing → ℕ → SampleRing
push r sample =
    if next_index r.head == r.tail
    then r
    else record r { buffer = set r.buffer r.head sample; head = next_index r.head }

-- `level` of `Pop`
abbrev pub level_of : ℕ → ℕ → ℕ
level_of head tail = sub_size (head + ring_capacity) tail % ring_capacity

-- Where `Pop` starts to read: past the high water mark it skips ahead.
unfoldable pub pop_start : ℕ → ℕ → ℕ
pop_start head tail =
    if ltb high_water (level_of head tail)
    then sub_size (head + ring_capacity * 2) low_water % ring_capacity
    else tail

-- The loop of `Pop`, on the samples still wanted: what it stores to `out`, and its last `tail`.
unfoldable pub pop_loop : List ℕ → ℕ → ℕ → ℕ → List ℕ × ℕ
pop_loop buffer zero tail head = ([], tail)
pop_loop buffer (suc wanted) tail head =
    let rest = pop_loop buffer wanted (next_index tail) head in
    if tail == head then ([], tail) else (get_or buffer tail 0 ∷ rest.0, rest.1)

-- The samples at `out`, whose number is what `Pop` returns, and the ring.
unfoldable pub pop : SampleRing → ℕ → List ℕ × SampleRing
unfolding pop_start pop_loop
pop r count =
    let done = pop_loop r.buffer count (pop_start r.head r.tail) r.head in
    (done.0, record r { tail = done.1 })
