-- ===== src/SampleRing/Tests.antt =====
-- Runs of the ring of Driver.cpp, and the theorems about it at concrete states.
use reai_board_sdk.Prelude.{
  ℕ, ◌+◌, ◌%◌, ◌≡◌, ◌≢◌, refl, List, [], ◌∷◌, arith, take, inr, set, replicate,
}
use reai_board_sdk.SampleRing.{SampleRing, ring_capacity, init, push, pop, pop_start}
use reai_board_sdk.SampleRing.Contents.{IsValid, init-IsValid, contents}
use reai_board_sdk.SampleRing.Push.{push-IsValid, push_refines}
use reai_board_sdk.SampleRing.Pop.{pop_refines}
use reai_board_sdk.SampleRing.Threads.{
  State, Reach, storing, reading, push_enter, push_store, push_publish, pop_enter, pop_read, start,
  next,
}
use reai_board_sdk.SampleRing.Threads.Safety.{no_race, pop_linearizes}

abbrev one_sample : SampleRing
one_sample = record { buffer = set (replicate ring_capacity 0) 0 7; head = 1; tail = 0 }

one_sample-IsValid : IsValid one_sample
unfolding init push
one_sample-IsValid = push-IsValid 7 init-IsValid

push_refines_example : contents (push one_sample 8) ≡ 7 ∷ 8 ∷ []
push_refines_example = push_refines 8 one_sample-IsValid

pop_refines_example : ((pop one_sample 3).0 ≡ 7 ∷ []) × (contents (pop one_sample 3).1 ≡ [])
pop_refines_example = pop_refines 3 one_sample-IsValid

-- One sample is in the ring, a `Pop` of two has begun, and the next `Push` is about to store.
abbrev overlap : State
overlap = record { ring = one_sample; producer = storing 8; consumer = reading 1 0 2 [] (7 ∷ []) }

overlap-Reach : Reach overlap
unfolding init pop_start
overlap-Reach =
    next
      (next
        (next (next (next start (push_enter 7 refl (omega arith))) (push_store 7 refl))
          (push_publish refl))
        (pop_enter 2 refl))
      (push_enter 8 refl (omega arith))

no_race_example : ◌≢◌ {A = ℕ} ((0 + 0) % ring_capacity) 1
no_race_example = no_race overlap-Reach 8 1 0 2 0 [] (7 ∷ []) refl refl (omega arith)

-- The `Pop` has read the sample; the other thread has not stored its own yet.
abbrev drained : State
drained = record overlap { consumer = reading 1 1 2 (7 ∷ []) (7 ∷ []) }

drained-Reach : Reach drained
drained-Reach = next overlap-Reach (pop_read 1 0 2 [] (7 ∷ []) refl (omega arith) (omega arith))

pop_linearizes_example :
    (◌≡◌ {A = List ℕ} (7 ∷ []) (take 2 (7 ∷ []))) × IsValid (record one_sample { tail = 1 })
pop_linearizes_example = pop_linearizes drained-Reach 1 1 2 (7 ∷ []) (7 ∷ []) refl (inr refl)
