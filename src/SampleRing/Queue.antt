-- ===== src/SampleRing/Queue.antt =====
-- What a `SampleRing` promises: a bounded queue of samples that drops the newest when it is full and
-- the oldest when its reader falls behind.
use reai_board_sdk.Prelude.{ℕ, ◌-◌, List, [], ◌∷◌, ◌++◌, length, take, drop, ◌==◌, if◌then◌else◌}
use reai_board_sdk.SampleRing.{ring_capacity}
use reai_board_sdk.SampleRing.Pop.{kept}

unfoldable pub push : List ℕ → ℕ → List ℕ
push q x = if length q == ring_capacity - 1 then q else q ++ x ∷ []

unfoldable pub pop : List ℕ → ℕ → List ℕ × List ℕ
pop q count = (take count (kept q), drop count (kept q))
