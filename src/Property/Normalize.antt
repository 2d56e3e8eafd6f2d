-- ===== src/Property/Normalize.antt =====
-- The level properties of kshelper.cpp: levels are rounded.
use reai_board_sdk.Prelude.{ℕ, ◌+◌, ◌%◌, ◌^◌, ◌≤◌, ◌<◌, ◌≡◌, ◌⊎◌, arith}
use reai_board_sdk.Property.Level.{
  volume_normalize_in_range, value_normalize_in_range, value_normalize, value_normalize_p,
}

-- A level that the volume can have.
pub IsLevel : ℕ → Type 0
IsLevel n = (n % 0x8000 ≡ 0) × ((n ≡ 0) ⊎ (0xFFA00000 ≤ n) × (n < 2 ^ 32))

normalize-IsLevel : (v : ℕ) → v < 2 ^ 32 → IsLevel (volume_normalize_in_range v)
unfolding IsLevel value_normalize_in_range value_normalize value_normalize_p
normalize-IsLevel v bound = ground arith

normalize_level : (n : ℕ) → IsLevel n → volume_normalize_in_range n ≡ n
unfolding IsLevel value_normalize_in_range value_normalize value_normalize_p
normalize_level n h = ground (arith, h)

normalize_near :
    (v : ℕ)
    → 0xFFA00000 ≤ v
    → v < 2 ^ 32
    → let n = volume_normalize_in_range v in
      (n ≤ v + 0x4000) × (v ≤ n + 0x4000) ⊎ (n ≡ 0) × (2 ^ 32 ≤ v + 0x4000)
unfolding value_normalize_in_range value_normalize value_normalize_p
normalize_near v low bound = ground arith

normalize_ends :
    (v : ℕ)
    → v < 2 ^ 32
    → let n = volume_normalize_in_range v in
      (v < 2 ^ 31 → n ≡ 0) × (2 ^ 31 ≤ v → v < 0xFFA00000 → n ≡ 0xFFA00000)
unfolding value_normalize_in_range value_normalize value_normalize_p
normalize_ends v bound = ground arith

-- The LONG `v` is normalized to a multiple of the step from the minimum to 0, which is kept if it is
-- normalized again: a positive one to 0, one below the minimum to the minimum, and any other to one
-- that is at most half a step away.
pub volume_normalize_lem :
    (v : ℕ)
    → v < 2 ^ 32
    → let n = volume_normalize_in_range v in
      IsLevel n
      × (volume_normalize_in_range n ≡ n)
      × (v < 2 ^ 31 → n ≡ 0)
      × (2 ^ 31 ≤ v → v < 0xFFA00000 → n ≡ 0xFFA00000)
      × (0xFFA00000 ≤ v → (n ≤ v + 0x4000) × (v ≤ n + 0x4000) ⊎ (n ≡ 0) × (2 ^ 32 ≤ v + 0x4000))
volume_normalize_lem v bound = (
  normalize-IsLevel v bound,
  normalize_level (volume_normalize_in_range v) (normalize-IsLevel v bound),
  (normalize_ends v bound).0,
  (normalize_ends v bound).1,
  λ low. normalize_near v low bound,
)
