-- ===== src/PcmFeed/Invariant.antt =====
-- The state of a loaded feed of pcmfeed.cpp, and how it comes to be and ceases.
use reai_board_sdk.Prelude.{
  ℕ, zero, suc, ◌-◌, ◌/◌, ◌^◌, ◌<◌, ◌≤◌, ◌≡◌, ◌⊎◌, inl, inr, refl, List, some, arith, length, true,
  false, Bool-cases, leb→le, leb→lt, lt→ltb, two-pow-succ, one-le-pow, ltb, leb, ◌==◌,
}
use reai_board_sdk.PcmFeed.{Feed, ring_bytes_default, shrink, ring_size, buffered}

-- A feed with the ring `b` of 2 ^ k bytes: what is buffered fits in it.
pub record IsLoaded (f : Feed) (k : ℕ) (b : List ℕ) : Type 0 where
  pub stored : f.buffer ≡ some b
  pub small : k ≤ 17
  pub sized : f.size ≡ 2 ^ k
  pub whole : length b ≡ f.size
  pub masked : f.mask ≡ f.size - 1
  pub written_in : f.total_written < 2 ^ 64
  pub read_in : f.total_read < 2 ^ 64
  pub fill : buffered f ≤ f.size

-- The loop of VbmPcmFeedInitialize, from a power of two that is large enough.
shrink_lem :
    (fuel k rb : ℕ)
    → k < fuel
    → rb ≤ 2 ^ k
    → (j : ℕ) × (shrink fuel (2 ^ k) rb ≡ 2 ^ j)
      × (j ≤ k)
      × (rb ≤ 2 ^ j)
      × ((j ≡ 0) ⊎ (2 ^ (j - 1) < rb))
unfolding shrink
shrink_lem zero k rb h le = absurd (omega arith)
shrink_lem (suc fuel) zero rb h le = (0, refl, omega arith, le, inl refl)
shrink_lem (suc fuel) (suc k) rb h le = elim (Bool-cases (leb rb (2 ^ k))) [
  | inl more ↦
      let (j, e, jk, up, down) = shrink_lem fuel k rb (omega arith) (leb→le rb (2 ^ k) more) in
      (j, rw (large, half, more) e, omega arith, up, down)
  | inr stop ↦ (
    suc k,
    rw (large, half, stop),
    omega arith,
    le,
    inr (let pred : suc k - 1 ≡ k = omega arith in rw pred (leb→lt rb (2 ^ k) stop)),
  )
]
  where
    large : ltb 1 (2 ^ suc k) ≡ true
    large = lt→ltb 1 (2 ^ suc k) (omega (arith, two-pow-succ k, one-le-pow k 2 (omega arith)))

    half : 2 ^ suc k / 2 ≡ 2 ^ k
    half = omega (arith, two-pow-succ k)

-- For a request of 1 byte up to the default, the ring's size is a power of two, at most 2 ^ 17, and
-- the least one that holds the bytes asked for: a request is rounded up.
pub ring_size_lem :
    (rb : ℕ)
    → 0 < rb
    → rb ≤ ring_bytes_default
    → (j : ℕ) × (ring_size rb ≡ 2 ^ j) × (j ≤ 17) × (rb ≤ 2 ^ j) × ((j ≡ 0) ⊎ (2 ^ (j - 1) < rb))
unfolding ring_size
ring_size_lem rb pos le =
    let given : rb == 0 ≡ false = ground arith in rw given (shrink_lem 18 17 rb (omega arith) le)

-- A larger request, or none, gives the default size.
pub ring_size_default :
    (rb : ℕ) → (rb ≡ 0) ⊎ (ring_bytes_default < rb) → ring_size rb ≡ ring_bytes_default
unfolding ring_size shrink
ring_size_default rb (inl e) = rw e
ring_size_default rb (inr h) = ground arith
