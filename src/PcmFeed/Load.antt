-- ===== src/PcmFeed/Load.antt =====
-- VbmPcmFeedInitialize and VbmPcmFeedCleanup: how the ring comes to be and ceases.
use reai_board_sdk.Prelude.{
  ℕ, ◌-◌, ◌^◌, ◌≤◌, ◌≡◌, ◌⊎◌, inl, inr, refl, sym, ap, subst, ◌∙◌, List, [], replicate, Option,
  none, some, arith, length, Option-cases, dec_le, ℕ_discrete,
}
use reai_board_sdk.Status.{success, insufficient_resources}
use reai_board_sdk.PcmFeed.{
  Feed, unloaded, ring_bytes_default, ring_size, initialize, initialize_from, store_ring, cleanup,
  write, read,
}
use reai_board_sdk.PcmFeed.Invariant.{IsLoaded, ring_size_lem, ring_size_default}
use reai_board_sdk.PcmFeed.Positions.{contents}

-- ExAllocatePool2 gives as many bytes as it is asked for, if it gives any.
abbrev pub IsPool : (ℕ → Option (List ℕ)) → Type 0
IsPool allocate = (n : ℕ) (b : List ℕ) → allocate n ≡ some b → length b ≡ n

ring_size_pow : (rb : ℕ) → (j : ℕ) × (ring_size rb ≡ 2 ^ j) × (j ≤ 17)
ring_size_pow rb = elim (ℕ_discrete rb 0) [
  | yes e ↦ (17, ring_size_default rb (inl e), omega arith)
  | no e ↦ elim (dec_le rb ring_bytes_default) [
    | yes h ↦ let r = ring_size_lem rb (omega arith) h in (r.0, r.1, r.2)
    | no h ↦ (17, ring_size_default rb (inr (omega arith)), omega arith)
  ]
]

fresh : List ℕ → ℕ → Feed
fresh b n = record { buffer = some b; size = n; mask = n - 1; total_written = 0; total_read = 0 }

fresh-IsLoaded :
    (b : List ℕ) (n j : ℕ) → n ≡ 2 ^ j → j ≤ 17 → length b ≡ n → IsLoaded (fresh b n) j b
unfolding fresh
fresh-IsLoaded b n j e h l = record {
  stored = refl;
  small = h;
  sized = e;
  whole = l;
  masked = refl;
  written_in = omega arith;
  read_in = omega arith;
  fill = omega arith;
}

pub initialize_lem :
    (allocate : ℕ → Option (List ℕ)) (f : Feed) (ring_bytes : ℕ)
    → IsPool allocate
    → f.buffer ≡ none
    → let (status, f') = initialize allocate f ring_bytes in
      ((allocate (ring_size ring_bytes) ≡ none) × (status ≡ insufficient_resources) × (f' ≡ f))
      ⊎ ((k : ℕ) × (b : List ℕ) × (status ≡ success)
          × (f'.size ≡ ring_size ring_bytes)
          × (contents f' ≡ [])
          × IsLoaded f' k b)
unfolding initialize fresh
initialize_lem allocate f rb pool none_yet = elim (Option-cases (allocate (ring_size rb))) [
  | inl e ↦
      let run = starts ∙ ap (λ o. store_ring o f (ring_size rb)) e in
      inl (e, ap (λ r. r.0) run, ap (λ r. r.1) run)
  | inr (b, e) ↦
      let run = starts ∙ ap (λ o. store_ring o f (ring_size rb)) e in
      let (j, size, small) = ring_size_pow rb in
      inr (
        j,
        b,
        ap (λ r. r.0) run,
        ap (λ r. r.1.size) run,
        ap (λ r. contents r.1) run,
        subst (λ r. IsLoaded r.1 j b) (sym run)
            (fresh-IsLoaded b (ring_size rb) j size small (pool (ring_size rb) b e)),
      )
]
  where
    starts : initialize allocate f rb ≡ store_ring (allocate (ring_size rb)) f (ring_size rb)
    starts = ap (λ o. initialize_from o allocate f rb) none_yet

-- A second one succeeds and changes nothing.
pub initialize_again :
    {f : Feed} {k : ℕ} {b : List ℕ} (allocate : ℕ → Option (List ℕ)) (ring_bytes : ℕ)
    → IsLoaded f k b
    → initialize allocate f ring_bytes ≡ (success, f)
unfolding initialize
initialize_again {f} allocate rb v = ap (λ o. initialize_from o allocate f rb) v.stored

-- VbmPcmFeedCleanup leaves a loaded feed as the driver was loaded with it, whose reads are silence and
-- whose writes take nothing.
pub cleanup_lem :
    {f : Feed} {k : ℕ} {b : List ℕ} (bytes : List ℕ) (n : ℕ)
    → IsLoaded f k b
    → (cleanup f ≡ unloaded)
      × (write (cleanup f) bytes ≡ (0, unloaded))
      × (read (cleanup f) n ≡ (replicate n 0, unloaded))
unfolding cleanup write read
cleanup_lem {f} bytes n v = rw v.stored (refl, refl, refl)
