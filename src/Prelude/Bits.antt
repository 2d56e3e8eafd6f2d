-- ===== src/Prelude/Bits.antt =====
-- `&` with a mask of low ones is the remainder by a power of two, at every width.
use Prim.Native.Nat.{
  ℕ, zero, suc, ◌+◌, ◌-◌, ◌*◌, ◌/◌, ◌%◌, ◌^◌, ◌≤◌, ◌<◌, min, bit_and, digits, bit_and-bitwise,
}
use mathlib.Core.Path.{◌≡◌, refl, ap, ◌∙◌}
use native.Mathlib.Omega.{arith}
use native.Mathlib.Nat.{
  two-pow-succ, one-le-pow, mod-lt, mod-eq_of_lt, mul-add-mod_self_left, div-add-mod,
}

-- Binary digits joined by `min`, least first, as the native operation is defined.
abbrev join : ℕ → ℕ → ℕ → ℕ
join = digits (λ b. zero) min

join_enough : (n m a b : ℕ) → a ≤ n → a ≤ m → join n a b ≡ join m a b
join_enough zero zero a b p q = refl
join_enough zero (suc m) zero b p q = refl
join_enough zero (suc m) (suc a) b p q = absurd (omega arith)
join_enough (suc n) zero zero b p q = refl
join_enough (suc n) zero (suc a) b p q = absurd (omega arith)
join_enough (suc n) (suc m) zero b p q = refl
join_enough (suc n) (suc m) (suc a) b p q =
    omega (arith, join_enough n m (suc a / 2) (b / 2) (omega arith) (omega arith))

zero_and : (b : ℕ) → bit_and 0 b ≡ 0
zero_and b = bit_and-bitwise 0 b

lowest_digit : (a b : ℕ) → bit_and a b ≡ 2 * bit_and (a / 2) (b / 2) + min (a % 2) (b % 2)
lowest_digit zero b = omega (arith, zero_and b, zero_and (b / 2))
lowest_digit (suc a) b = omega (
  arith,
  bit_and-bitwise (suc a) b,
  bit_and-bitwise (suc a / 2) (b / 2),
  join_enough a (suc a / 2) (suc a / 2) (b / 2) (omega arith) (omega arith),
)

and_zero : (bound a : ℕ) → a ≤ bound → bit_and a 0 ≡ 0
and_zero bound zero h = refl
and_zero zero (suc a) h = absurd (omega arith)
and_zero (suc bound) (suc a) h =
    omega (arith, lowest_digit (suc a) 0, and_zero bound (suc a / 2) (omega arith))

double_mod : (a n : ℕ) → 0 < n → a % (n + n) ≡ 2 * (a / 2 % n) + a % 2
double_mod a n h =
    ap (λ x. x % (n + n)) split
    ∙ mul-add-mod_self_left (n + n) (a / 2 / n) rest
    ∙ mod-eq_of_lt {n = rest} (omega (arith, mod-lt (a / 2) h))
  where
    rest : ℕ
    rest = 2 * (a / 2 % n) + a % 2

    split : a ≡ (n + n) * (a / 2 / n) + rest
    split = omega (arith, div-add-mod (a / 2) n)

pub bit_and-mask : (k a : ℕ) → bit_and a (2 ^ k - 1) ≡ a % 2 ^ k
bit_and-mask zero a = omega (arith, and_zero a a (omega arith))
bit_and-mask (suc k) a = omega (
  arith,
  lowest_digit a (2 ^ suc k - 1),
  ap (bit_and (a / 2)) halved ∙ bit_and-mask k (a / 2),
  two-pow-succ k,
  one-le-pow k 2 (omega arith),
  double_mod a (2 ^ k) (one-le-pow k 2 (omega arith)),
  ap (λ (n : ℕ). a % n) (two-pow-succ k),
)
  where
    halved : (2 ^ suc k - 1) / 2 ≡ 2 ^ k - 1
    halved = omega (arith, two-pow-succ k, one-le-pow k 2 (omega arith))
