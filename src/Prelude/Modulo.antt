-- ===== src/Prelude/Modulo.antt =====
-- Positions that go round at a capacity.
use Prim.Native.Nat.{ℕ, zero, suc, ◌*◌, ◌^◌, ◌∣◌, ◌+◌, ◌-◌, ◌%◌, ◌≤◌, ◌<◌}
use mathlib.Core.Path.{◌≡◌, ◌∙◌, sym, ap, subst}
use mathlib.Core.Logic.{◌≢◌, ◌⊎◌, inl, inr}
use native.Mathlib.Omega.{arith}
use native.Mathlib.Decide.{dec_lt}
use native.Mathlib.Nat.{
  mod-lt, mod-eq_of_lt, mod-add-mod, mod-eq-sub-mod, two-pow-succ, mod-mod_of_dvd, dvd-mul_right,
}

-- A position plus an offset within the capacity, before the wrap.
pub mod-add_below : (p j n : ℕ) → p % n + j < n → (p + j) % n ≡ p % n + j
mod-add_below p j n h = sym (mod-add-mod p n j) ∙ mod-eq_of_lt h

-- The same, behind the wrap.
pub mod-add_wrapped : (p j n : ℕ) → n ≤ p % n + j → p % n + j < n + n → (p + j) % n ≡ p % n + j - n
mod-add_wrapped p j n h k =
    sym (mod-add-mod p n j) ∙ mod-eq-sub-mod h ∙ mod-eq_of_lt {n = p % n + j - n} (omega arith)

-- The sum is one or the other.
pub mod-step :
    (p d n : ℕ) → 0 < n → d ≤ n → (p % n + d ≡ (p + d) % n) ⊎ (p % n + d ≡ (p + d) % n + n)
mod-step p d n pos le = elim (dec_lt (p % n + d) n) [
  | yes h ↦ inl (sym (mod-add_below p d n h))
  | no h ↦ inr (omega (arith, mod-add_wrapped p d n (omega arith) (omega (arith, mod-lt p pos))))
]

-- Two offsets less than a capacity apart are two positions.
pub mod-add-ne : (p i j n : ℕ) → i < j → j < i + n → 0 < n → (p + i) % n ≢ (p + j) % n
mod-add-ne p i j n lt near pos e = elim (dec_lt ((p + i) % n + (j - i)) n) [
  | yes h ↦ omega (arith, mod-add_below (p + i) (j - i) n h, same)
  | no h ↦ omega (
    arith,
    mod-add_wrapped (p + i) (j - i) n (omega arith) (omega (arith, mod-lt (p + i) pos)),
    mod-lt (p + i) pos,
    same,
  )
]
  where
    same : (p + i + (j - i)) % n ≡ (p + j) % n
    same = λ k. (mid k) % n
      where
        mid : p + i + (j - i) ≡ p + j
        mid = omega arith

pow-add : (k m : ℕ) → 2 ^ (k + m) ≡ 2 ^ k * 2 ^ m
pow-add zero m = reindex (0 + m) m (omega arith) ∙ sym (one-mul (2 ^ m))
  where
    reindex : (i j : ℕ) → i ≡ j → 2 ^ i ≡ 2 ^ j
    reindex i j e = ap (λ n. 2 ^ n) e

    one-mul : (n : ℕ) → 2 ^ 0 * n ≡ n
    one-mul n = omega arith
pow-add (suc k) m =
    ap (λ n. 2 ^ n) (suc-add k m)
    ∙ omega (arith, two-pow-succ (k + m), ap (λ (n : ℕ). n * 2 ^ m) (two-pow-succ k), pow-add k m)
  where
    suc-add : (k m : ℕ) → suc k + m ≡ suc (k + m)
    suc-add k m = omega arith

-- A wrap at a larger power of two is not seen modulo a smaller one.
pub mod-pow-mod : (k m a : ℕ) → k ≤ m → a % 2 ^ m % 2 ^ k ≡ a % 2 ^ k
mod-pow-mod k m a h = mod-mod_of_dvd (2 ^ k) {b = 2 ^ m} a (
    subst (λ n. 2 ^ k ∣ n) (sym (pow-add k (m - k)) ∙ ap (λ n. 2 ^ n) rejoin)
      (dvd-mul_right (2 ^ k) (2 ^ (m - k))))
  where
    rejoin : k + (m - k) ≡ m
    rejoin = omega arith
