-- ===== src/Stream/Drift.antt =====
-- However often the position is brought up to date, the carries of UpdatePosition lose no time and no
-- byte.
use reai_board_sdk.Prelude.{
  ℕ, ◌+◌, ◌-◌, ◌*◌, ◌%◌, ◌^◌, ◌<◌, ◌≤◌, ◌≡◌, refl, ap, subst, ◌∙◌, Bool, false, List, [], ◌∷◌,
  arith,
}
use reai_board_sdk.Stream.Words.{add64, add32}
use reai_board_sdk.Stream.{Stream}
use reai_board_sdk.Stream.Position.{
  elapsed, elapsed_ms, scaled_bytes, displacement, update_position_at,
}
use reai_board_sdk.Stream.Clock.{Moved, update-Moved}

-- UpdatePosition at each of some times.
unfoldable pub update_all : Bool → Stream → List ℕ → Stream
update_all data_files s [] = s
update_all data_files s (t ∷ ts) = update_all data_files (update_position_at data_files s t) ts

-- The times do not go back, and no two that follow are more than `gap` apart.
abbrev pub Spaced : ℕ → ℕ → List ℕ → Type 0
Spaced gap t [] = Unit {0}
Spaced gap t (u ∷ us) = (t ≤ u) × (u ≤ t + gap) × (u < 2 ^ 64) × Spaced gap u us

-- The last of the times.
abbrev pub last_time : ℕ → List ℕ → ℕ
last_time t [] = t
last_time t (u ∷ us) = last_time u us

-- A stream whose carries are remainders.
pub record IsClocked (s : Stream) : Type 0 where
  pub no_eos : s.eos_received ≡ false
  pub time_carry : s.elapsed_time_carry_forward < 10000
  pub byte_carry : s.byte_displacement_carry_forward < 1000
  pub stamped : s.dma_time_stamp < 2 ^ 64
  pub linear_in : s.linear_position < 2 ^ 64
  pub presentation_in : s.presentation_position < 2 ^ 64

-- In `ms` milliseconds, `s` has become `s'`, and `bytes` bytes were moved.
pub record Ran (s s' : Stream) (time ms bytes : ℕ) : Type 0 where
  pub all_time :
      10000 * ms + s'.elapsed_time_carry_forward + s.dma_time_stamp
      ≡ time + s.elapsed_time_carry_forward
  pub all_bytes :
      1000 * bytes + s'.byte_displacement_carry_forward
      ≡ s.dma_movement_rate * ms + s.byte_displacement_carry_forward
  pub linear : s'.linear_position ≡ add64 s.linear_position bytes
  pub presentation : s'.presentation_position ≡ add64 s.presentation_position bytes
  pub stamp : s'.dma_time_stamp ≡ time
  pub rate : s'.dma_movement_rate ≡ s.dma_movement_rate

-- A gap of `m` milliseconds at most fits the ULONGs of the computation.
abbrev pub Fits : ℕ → ℕ → Type 0
Fits rate m = (10000 * m + 10000 ≤ 2 ^ 32) × (rate * m + 1000 ≤ 2 ^ 32)

no_wrap : (x y : ℕ) → x + y < 2 ^ 32 → add32 (x % 2 ^ 32) y ≡ x + y
no_wrap x y h = omega arith

below : (x y c : ℕ) → x ≤ y → y + 1000 ≤ 2 ^ 32 → c < 1000 → x + c < 2 ^ 32
below x y c h k l = omega arith

-- One update within such a gap
step-Ran :
    (s s' : Stream) (t m : ℕ)
    → Moved s s' t
    → IsClocked s
    → Fits s.dma_movement_rate m
    → s.dma_time_stamp ≤ t
    → t ≤ s.dma_time_stamp + 10000 * m
    → t < 2 ^ 64
    → Ran s s' t (elapsed_ms s t) (displacement s t)
step-Ran s s' t m v c fits le near small = record {
  all_time = omega (arith, v.time_carry, exact);
  all_bytes = omega (arith, v.byte_carry, exact_bytes);
  linear = v.linear;
  presentation = v.presentation;
  stamp = v.stamp;
  rate = v.rate;
}
  where
    exact : elapsed s t ≡ t - s.dma_time_stamp + s.elapsed_time_carry_forward
    exact = omega (arith, c.time_carry, c.stamped, fits.0)

    few : elapsed_ms s t ≤ m
    few = omega (arith, exact, c.time_carry)

    product : s.dma_movement_rate * elapsed_ms s t ≤ s.dma_movement_rate * m
    product = grind (arith, few)

    exact_bytes :
        scaled_bytes s t ≡ s.dma_movement_rate * elapsed_ms s t + s.byte_displacement_carry_forward
    exact_bytes = no_wrap (s.dma_movement_rate * elapsed_ms s t) s.byte_displacement_carry_forward (
        let bound = fits.1 in
        let b = c.byte_carry in
        below (s.dma_movement_rate * elapsed_ms s t) (s.dma_movement_rate * m)
          s.byte_displacement_carry_forward product bound b)

step-IsClocked : (s s' : Stream) (t : ℕ) → Moved s s' t → t < 2 ^ 64 → IsClocked s'
step-IsClocked s s' t v small = record {
  no_eos = v.eos;
  time_carry = omega (arith, v.time_carry);
  byte_carry = omega (arith, v.byte_carry);
  stamped = omega (arith, v.stamp, small);
  linear_in = omega (arith, v.linear);
  presentation_in = omega (arith, v.presentation);
}

-- The parts of a run add up.
Ran-trans :
    (s t u : Stream) (time time' ms ms' bytes bytes' : ℕ)
    → Ran s t time ms bytes
    → Ran t u time' ms' bytes'
    → Ran s u time' (ms + ms') (bytes + bytes')
Ran-trans s t u time time' ms ms' bytes bytes' a b = record {
  all_time = omega (arith, a.all_time, b.all_time, a.stamp);
  all_bytes =
      add_up bytes bytes' t.byte_displacement_carry_forward u.byte_displacement_carry_forward
        s.byte_displacement_carry_forward s.dma_movement_rate ms ms' a.all_bytes
        (b.all_bytes ∙ ap (λ r. r * ms' + t.byte_displacement_carry_forward) a.rate);
  linear =
      add_wrapped s.linear_position t.linear_position u.linear_position bytes bytes' a.linear
        b.linear;
  presentation =
      add_wrapped s.presentation_position t.presentation_position u.presentation_position bytes
        bytes' a.presentation b.presentation;
  stamp = b.stamp;
  rate = b.rate ∙ a.rate;
}
  where
    add_up :
        (x y c d e r m n : ℕ)
        → 1000 * x + c ≡ r * m + e
        → 1000 * y + d ≡ r * n + c
        → 1000 * (x + y) + d ≡ r * (m + n) + e
    add_up x y c d e r m n h k = omega arith

    add_wrapped : (p q r x y : ℕ) → q ≡ add64 p x → r ≡ add64 q y → r ≡ add64 p (x + y)
    add_wrapped p q r x y h k = omega arith

-- A stream not at its end, with its carries in range, that is brought up to date at times in order, below
-- 2 ^ 64 and no more than `m` milliseconds apart has, after any
-- number of updates, moved the bytes of the whole time: what is missing from rate times time is less
-- than a byte and a millisecond, and is carried forward. The linear and the presentation position
-- count just those bytes.
pub no_drift :
    (data_files : Bool) (s : Stream) (ts : List ℕ) (m : ℕ)
    → IsClocked s
    → Fits s.dma_movement_rate m
    → Spaced (10000 * m) s.dma_time_stamp ts
    → (ms : ℕ) × (bytes : ℕ) × Ran s
        (update_all data_files s ts)
        (last_time s.dma_time_stamp ts)
        ms
        bytes
      × IsClocked (update_all data_files s ts)
unfolding update_all
no_drift data_files s [] m c fits spaced = (
  0,
  0,
  record {
    all_time = omega arith;
    all_bytes = omega arith;
    linear = omega (arith, c.linear_in);
    presentation = omega (arith, c.presentation_in);
    stamp = refl;
    rate = refl;
  },
  c,
)
no_drift data_files s (t ∷ ts) m c fits (le, near, small, spaced) =
    let v = update-Moved data_files s t c.no_eos in
    let first = step-Ran s (update_position_at data_files s t) t m v c fits le near small in
    let (ms, bytes, rest, clocked) =
      no_drift data_files (update_position_at data_files s t) ts m
        (step-IsClocked s (update_position_at data_files s t) t v small) (rw (← v.rate) at fits)
        (rw (← v.stamp) at spaced) in
    (
      elapsed_ms s t + ms,
      displacement s t + bytes,
      Ran-trans s (update_position_at data_files s t)
          (update_all data_files (update_position_at data_files s t) ts) t (last_time t ts)
          (elapsed_ms s t) ms (displacement s t) bytes first
          (subst
            (λ x.
              Ran (update_position_at data_files s t)
                (update_all data_files (update_position_at data_files s t) ts) (last_time x ts) ms
                bytes)
            v.stamp rest),
      clocked,
    )

-- Without an end of stream, after a gap of 2 ^ 32 units of 100 ns or more the milliseconds counted and the time carried forward
-- fall short of the time that has passed: the rest is lost to the positions.
pub long_gap_loses_time :
    (data_files : Bool) (s : Stream) (now : ℕ)
    → s.eos_received ≡ false
    → 2 ^ 32 ≤ elapsed s now
    → 10000 * elapsed_ms s now + (update_position_at data_files s now).elapsed_time_carry_forward
      < elapsed s now
long_gap_loses_time data_files s now e long =
    let v = update-Moved data_files s now e in omega (arith, v.time_carry, long)
