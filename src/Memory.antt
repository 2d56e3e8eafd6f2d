-- ===== src/Memory.antt =====
-- Numbers as the bytes that they are in memory, lowest byte first.
use reai_board_sdk.Prelude.{
  ℕ, ◌+◌, ◌*◌, ◌/◌, ◌%◌, ◌^◌, ◌<◌, ◌≡◌, List, [], ◌∷◌, ◌++◌, get_or, arith,
}

-- A DWORD in memory.
unfoldable pub le32 : ℕ → List ℕ
le32 n = n % 256 ∷ n / 256 % 256 ∷ n / 65536 % 256 ∷ n / 16777216 % 256 ∷ []

-- The DWORD at the front.
abbrev pub dword : List ℕ → ℕ
dword b = get_or b 0 0 + 256 * get_or b 1 0 + 65536 * get_or b 2 0 + 16777216 * get_or b 3 0

pub dword-le32 : (n : ℕ) (r : List ℕ) → n < 2 ^ 32 → dword (le32 n ++ r) ≡ n
unfolding le32
dword-le32 n r h = omega arith
