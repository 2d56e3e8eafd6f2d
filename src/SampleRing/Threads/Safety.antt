-- ===== src/SampleRing/Threads/Safety.antt =====
-- No interleaving makes the two threads of Driver.cpp touch one slot, and a `Pop` returns what it
-- keeps of the samples in the ring when it loaded the head, whatever is pushed meanwhile.
use reai_board_sdk.Prelude.{
  ℕ, suc, ◌+◌, ◌-◌, ◌%◌, ◌<◌, ◌≤◌, ◌≡◌, ◌≢◌, ◌⊎◌, inl, inr, sym, ap, ◌∙◌, List, [], ◌∷◌, ◌++◌,
  append_assoc, arith, length, length-append, take, take_exact, drop, ltb, if◌then◌else◌, get_or,
  set, get_or-set_ne, length-set, tabulate_congr, tabulate_resize,
}
use reai_board_sdk.SampleRing.{
  SampleRing, ring_capacity, high_water, low_water, next_index, level_of,
}
use reai_board_sdk.SampleRing.Contents.{IsValid, init-IsValid, window, window-suc}
use reai_board_sdk.SampleRing.Pop.{kept, kept-contents, pop_start_lem}
use reai_board_sdk.SampleRing.Threads.{
  Producer, Consumer, State, Step, Reach, HasEnded, storing, publishing, reading, push_full,
  push_enter, push_store, push_publish, pop_enter, pop_read, pop_exit, start, next,
}

-- A producer that has passed its test has room for its sample, until it publishes.
abbrev HasRoom : Producer → SampleRing → Type 0
HasRoom Producer.outside r = Unit {0}
HasRoom (storing x) r = level_of r.head r.tail < ring_capacity - 1
HasRoom publishing r = level_of r.head r.tail < ring_capacity - 1

-- A consumer's unread samples lie between the ring's tail and head, and complete what it
-- keeps of the samples in its snapshot, which were in the ring when it loaded the head.
abbrev IsReading : Consumer → SampleRing → Type 0
IsReading Consumer.outside r = Unit {0}
IsReading (reading head tail count out snapshot) r =
    (head < ring_capacity)
    × (tail < ring_capacity)
    × (level_of head tail ≤ level_of r.head tail)
    × (level_of r.head tail ≤ level_of r.head r.tail)
    × (length out ≤ count)
    × (out ++ window r.buffer tail (level_of head tail) ≡ kept snapshot)

record Inv (s : State) : Type 0 where
  valid : IsValid s.ring
  room : HasRoom s.producer s.ring
  reads : IsReading s.consumer s.ring

-- A store at the head leaves every window that ends before the head.
window-set_outside :
    (buffer : List ℕ) (t n h x : ℕ)
    → h < ring_capacity
    → t < ring_capacity
    → n ≤ level_of h t
    → window (set buffer h x) t n ≡ window buffer t n
window-set_outside buffer t n h x hh ht le =
    tabulate_congr n _ _ (λ i p. get_or-set_ne buffer x 0 (omega (arith, p)))

store-IsReading :
    (c : Consumer) (r : SampleRing) (x : ℕ)
    → IsValid r
    → IsReading c r
    → IsReading c (record r { buffer = set r.buffer r.head x })
store-IsReading Consumer.outside r x v i = tt
store-IsReading (reading head tail count out snapshot) r x v (h, t, le, le', n, e) = (
  h,
  t,
  le,
  le',
  n,
  ap (◌++◌ out) (window-set_outside r.buffer tail (level_of head tail) r.head x v.head_in t le) ∙ e,
)

publish-IsReading :
    (c : Consumer) (r : SampleRing)
    → IsValid r
    → level_of r.head r.tail < ring_capacity - 1
    → IsReading c r
    → IsReading c (record r { head = next_index r.head })
publish-IsReading Consumer.outside r v room i = tt
publish-IsReading (reading head tail count out snapshot) r v room (h, t, le, le', n, e) =
    let v1 = v.head_in in let v2 = v.tail_in in (h, t, omega arith, omega arith, n, e)

-- The loop's body moves the oldest unread sample to `out`.
read-IsReading :
    (r : SampleRing) (head tail count : ℕ) (out snapshot : List ℕ)
    → length out < count
    → tail ≢ head
    → r.head < ring_capacity
    → IsReading (reading head tail count out snapshot) r
    → IsReading
        (reading head (next_index tail) count (out ++ get_or r.buffer tail 0 ∷ []) snapshot)
        r
read-IsReading r head tail count out snapshot more go rh (h, t, le, le', n, e) = (
  h,
  omega arith,
  omega arith,
  omega arith,
  omega (arith, length-append out (get_or r.buffer tail 0 ∷ [])),
  append_assoc out (get_or r.buffer tail 0 ∷ []) _ ∙ ap (◌++◌ out) unread ∙ e,
)
  where
    unread :
        get_or r.buffer tail 0 ∷ window r.buffer (next_index tail) (level_of head (next_index tail))
        ≡ window r.buffer tail (level_of head tail)
    unread =
        sym (window-suc r.buffer tail (level_of head (next_index tail)) t)
        ∙ tabulate_resize (suc (level_of head (next_index tail))) (level_of head tail) _
            (omega arith)

exit-HasRoom :
    (p : Producer) (r : SampleRing) (tail : ℕ)
    → level_of r.head tail ≤ level_of r.head r.tail
    → HasRoom p r
    → HasRoom p (record r { tail = tail })
exit-HasRoom Producer.outside r tail le room = tt
exit-HasRoom (storing x) r tail le room = omega arith
exit-HasRoom publishing r tail le room = omega arith

Step-Inv : {s t : State} → Step s t → Inv s → Inv t
Step-Inv (push_full e full) v = v
Step-Inv (push_enter {s} x e room) v = record {
  valid = v.valid;
  room = let h = v.valid.head_in in let t = v.valid.tail_in in omega arith;
  reads = v.reads;
}
Step-Inv (push_store {s} x e) v = record {
  valid = record {
    full_buffer = length-set s.ring.buffer s.ring.head x ∙ v.valid.full_buffer;
    head_in = v.valid.head_in;
    tail_in = v.valid.tail_in;
  };
  room = rw e at v.room;
  reads = store-IsReading s.consumer s.ring x v.valid v.reads;
}
Step-Inv (push_publish {s} e) v = record {
  valid = record {
    full_buffer = v.valid.full_buffer;
    head_in = omega arith;
    tail_in = v.valid.tail_in;
  };
  room = tt;
  reads = publish-IsReading s.consumer s.ring v.valid (rw e at v.room) v.reads;
}
Step-Inv (pop_enter {s} count e) v = record {
  valid = v.valid;
  room = v.room;
  reads =
      let start = pop_start_lem s.ring.head s.ring.tail v.valid.head_in v.valid.tail_in in
      (
        v.valid.head_in,
        start.0,
        omega arith,
        ground arith,
        omega arith,
        sym (kept-contents v.valid),
      );
}
Step-Inv (pop_read {s} head tail count out snapshot e more go) v = record {
  valid = v.valid;
  room = v.room;
  reads =
      read-IsReading s.ring head tail count out snapshot more go v.valid.head_in (rw e at v.reads);
}
Step-Inv (pop_exit {s} head tail count out snapshot e ended) v = record {
  valid = record {
    full_buffer = v.valid.full_buffer;
    head_in = v.valid.head_in;
    tail_in = let i : Reading = rw e at v.reads in i.1;
  };
  room = let i : Reading = rw e at v.reads in exit-HasRoom s.producer s.ring tail i.3 v.room;
  reads = tt;
}
  where
    Reading : Type 0
    Reading = IsReading (reading head tail count out snapshot) s.ring

Reach-Inv : {s : State} → Reach s → Inv s
Reach-Inv start = record { valid = init-IsValid; room = tt; reads = tt }
Reach-Inv (next r st) = Step-Inv st (Reach-Inv r)

-- At no point of any interleaving does the producer store to a slot that the consumer has still to
-- read: while `Push` is about to store at the head, no unread sample of a running `Pop` lies there.
pub no_race :
    {s : State}
    → Reach s
    → (x head tail count i : ℕ) (out snapshot : List ℕ) → s.producer ≡ storing x
    → s.consumer ≡ reading head tail count out snapshot
    → i < level_of head tail
    → (tail + i) % ring_capacity ≢ s.ring.head
no_race {s} r x head tail count i out snapshot p c h =
    let v = Reach-Inv r in
    let reads : IsReading (reading head tail count out snapshot) s.ring = rw c at v.reads in
    let hh = v.valid.head_in in omega (arith, reads.1, reads.0, reads.2)

-- When the loop of `Pop` has ended, `out` holds the oldest samples of those that it keeps, as many as
-- were asked for or as many as it keeps, whatever was pushed in between: it keeps the samples that were
-- in the ring when the call loaded the head or, if these were more than 4800, the newest 1600 of them.
-- What the call stores leaves the ring valid.
pub pop_linearizes :
    {s : State}
    → Reach s
    → (head tail count : ℕ) (out snapshot : List ℕ)
    → s.consumer ≡ reading head tail count out snapshot
    → HasEnded head tail count out
    → (out
        ≡ take count (
            if ltb high_water (length snapshot)
            then drop (length snapshot - low_water) snapshot
            else snapshot))
      × IsValid (record (s.ring) { tail = tail })
pop_linearizes {s} r head tail count out snapshot c ended =
    let v = Reach-Inv r in
    let reads : IsReading (reading head tail count out snapshot) s.ring = rw c at v.reads in
    (
      sym (rw (← reads.5) (take_exact count out _ reads.4 (no_more reads.0 reads.1 ended))),
      record { full_buffer = v.valid.full_buffer; head_in = v.valid.head_in; tail_in = reads.1 },
    )
  where
    no_more :
        head < ring_capacity
        → tail < ring_capacity
        → HasEnded head tail count out
        → (count ≤ length out) ⊎ (window s.ring.buffer tail (level_of head tail) ≡ [])
    no_more h t (inl e) = inl e
    no_more h t (inr e) = inr (tabulate_resize (level_of head tail) 0 _ (omega arith))
