-- ===== src/SampleRing/Threads.antt =====
-- `Push` and `Pop` of Driver.cpp as the two threads run them: one step for each access to what they
-- share, in any interleaving. A thread's own index and its local variables are no shared accesses.
pub mod Safety
use reai_board_sdk.Prelude.{ℕ, ◌<◌, ◌≤◌, ◌≡◌, ◌≢◌, ◌⊎◌, List, [], ◌∷◌, ◌++◌, get_or, set, length}
use reai_board_sdk.SampleRing.{SampleRing, init, next_index, pop_start}
use reai_board_sdk.SampleRing.Contents.{contents}

-- The receiver thread: outside `Push`, about to store a sample at its head, or about to publish the
-- next head.
pub data Producer : Type 0 where
  outside : Producer
  storing : ℕ → Producer
  publishing : Producer

-- The IO thread: outside `Pop`, or in its loop, with the head that it loaded, its local tail, the
-- count that it was called with, and the samples stored to `out`. The last field is a ghost: what the
-- ring held for this call when its head was loaded.
pub data Consumer : Type 0 where
  outside : Consumer
  reading : ℕ → ℕ → ℕ → List ℕ → List ℕ → Consumer

pub record State : Type 0 where
  pub ring : SampleRing
  pub producer : Producer
  pub consumer : Consumer

-- The negation of the loop's condition, `popped < count && tail != head`.
abbrev pub HasEnded : ℕ → ℕ → ℕ → List ℕ → Type 0
HasEnded head tail count out = (count ≤ length out) ⊎ (tail ≡ head)

pub data Step : State → State → Type 0 where
  -- `Push` loads the tail, and finds the ring full,
  push_full :
      {s : State} → s.producer ≡ Producer.outside → next_index s.ring.head ≡ s.ring.tail → Step s s
  -- or goes on to the store.
  push_enter :
      {s : State} (x : ℕ)
      → s.producer ≡ Producer.outside
      → next_index s.ring.head ≢ s.ring.tail
      → Step s (record s { producer = storing x })
  push_store :
      {s : State} (x : ℕ)
      → s.producer ≡ storing x
      → Step s (record s {
        ring = record (s.ring) { buffer = set s.ring.buffer s.ring.head x };
        producer = publishing;
      })
  push_publish :
      {s : State}
      → s.producer ≡ publishing
      → Step s (record s {
        ring = record (s.ring) { head = next_index s.ring.head };
        producer = Producer.outside;
      })
  -- `Pop` loads the head, and skips ahead past the high water mark.
  pop_enter :
      {s : State} (count : ℕ)
      → s.consumer ≡ Consumer.outside
      → Step s (record s {
        consumer =
            reading s.ring.head (pop_start s.ring.head s.ring.tail) count [] (contents s.ring);
      })
  pop_read :
      {s : State} (head tail count : ℕ) (out snapshot : List ℕ)
      → s.consumer ≡ reading head tail count out snapshot
      → length out < count
      → tail ≢ head
      → Step s (record s {
        consumer =
            reading head (next_index tail) count (out ++ get_or s.ring.buffer tail 0 ∷ []) snapshot;
      })
  -- The loop has ended: `Pop` stores its tail and returns.
  pop_exit :
      {s : State} (head tail count : ℕ) (out snapshot : List ℕ)
      → s.consumer ≡ reading head tail count out snapshot
      → HasEnded head tail count out
      → Step s (record s { ring = record (s.ring) { tail = tail }; consumer = Consumer.outside })

-- The states that an interleaving from the fresh ring can come to.
pub data Reach : State → Type 0 where
  start : Reach (record { ring = init; producer = Producer.outside; consumer = Consumer.outside })
  next : {s t : State} → Reach s → Step s t → Reach t
