-- ===== src/Common/Bits/Words.antt =====
-- Joining disjoint fields by `|` and cutting a low field by `&`, at every width, as arithmetic.
use Prim.Native.Nat.{
  ℕ, zero, suc, ◌+◌, ◌-◌, ◌*◌, ◌/◌, ◌%◌, ◌^◌, ◌≤◌, ◌<◌, min, max, digits, bitwise, bit_and, bit_or,
  bit_and-bitwise, bit_or-bitwise,
}
use mathlib.Core.Path.{◌≡◌, refl, ap}
use native.Mathlib.Nat.{pow-suc, one-le-pow}
use native.Mathlib.Omega.{arith}

-- The digit recursion does not depend on its fuel, once that covers the first number.
module _ (rest : ℕ → ℕ) (op : ℕ → ℕ → ℕ) where
  digits-fuel : (a b k l : ℕ) → a ≤ k → a ≤ l → digits rest op k a b ≡ digits rest op l a b
  digits-fuel zero b zero zero p q = refl
  digits-fuel zero b zero (suc l) p q = refl
  digits-fuel zero b (suc k) zero p q = refl
  digits-fuel zero b (suc k) (suc l) p q = refl
  digits-fuel (suc a) b zero l p q = absurd (omega arith)
  digits-fuel (suc a) b (suc k) zero p q = absurd (omega arith)
  digits-fuel (suc a) b (suc k) (suc l) p q =
      rw (digits-fuel (suc a / 2) (b / 2) k l (omega arith) (omega arith))

  bitwise_lowest :
      (a b : ℕ)
      → bitwise rest op (suc a) b ≡ bitwise rest op (suc a / 2) (b / 2) * 2 + op (suc a % 2) (b % 2)
  bitwise_lowest a b =
      omega (arith, digits-fuel (suc a / 2) (b / 2) a (suc a / 2) (omega arith) (omega arith))

or_lowest : (m n : ℕ) → bit_or m n ≡ 2 * bit_or (m / 2) (n / 2) + max (m % 2) (n % 2)
or_lowest zero n = simp bit_or-bitwise (omega arith)
or_lowest (suc m) n = simp bit_or-bitwise (omega (arith, bitwise_lowest (λ y. y) max m n))

and_lowest : (m n : ℕ) → bit_and m n ≡ 2 * bit_and (m / 2) (n / 2) + min (m % 2) (n % 2)
and_lowest zero n = simp bit_and-bitwise (omega arith)
and_lowest (suc m) n = simp bit_and-bitwise (omega (arith, bitwise_lowest (λ y. 0) min m n))

or_none : (bound a : ℕ) → a ≤ bound → bit_or a 0 ≡ a
or_none bound zero h = refl
or_none zero (suc a) h = absurd (omega arith)
or_none (suc bound) (suc a) h =
    omega (arith, or_lowest (suc a) 0, or_none bound (suc a / 2) (omega arith))

and_none : (bound a : ℕ) → a ≤ bound → bit_and a 0 ≡ 0
and_none bound zero h = refl
and_none zero (suc a) h = absurd (omega arith)
and_none (suc bound) (suc a) h =
    omega (arith, and_lowest (suc a) 0, and_none bound (suc a / 2) (omega arith))

and_zero : (a : ℕ) → bit_and a 0 ≡ 0
and_zero a = and_none a a (omega arith)

shift-suc : (a k : ℕ) → a * 2 ^ suc k ≡ a * 2 ^ k * 2
shift-suc a k = omega (arith, ap (λ (t : ℕ). a * t) (pow-suc 2 k))

-- `(a << k) | b`, where `b` has `k` bits.
pub or_low : (k a b : ℕ) → b < 2 ^ k → bit_or (a * 2 ^ k) b ≡ a * 2 ^ k + b
or_low zero a b h = ground (arith, or_none a a)
or_low (suc k) a b h =
    ground (arith, shift-suc a k, pow-suc 2 k, or_lowest (a * 2 ^ suc k) b, or_low k a (b / 2))

-- `x | b`, where the `k` low bits of `x` are clear.
pub or_clear : (k x b : ℕ) → x % 2 ^ k ≡ 0 → b < 2 ^ k → bit_or x b ≡ x + b
or_clear k x b e h = ground (arith, or_low k (x / 2 ^ k) b)

pub zero_or : (b : ℕ) → bit_or 0 b ≡ b
zero_or b = simp bit_or-bitwise (omega arith)

and_split : (k a b : ℕ) → b < 2 ^ k → bit_and (a * 2 ^ k + b) (2 ^ k - 1) ≡ b
and_split zero a b h = rw and_zero (omega arith)
and_split (suc k) a b h =
    let low = and_lowest (a * 2 ^ suc k + b) (2 ^ suc k - 1) in
    ground (arith, low, shift-suc a k, pow-suc 2 k, and_split k a (b / 2))

-- `a & (2^k - 1)`.
pub and_low : (k a : ℕ) → bit_and a (2 ^ k - 1) ≡ a % 2 ^ k
and_low k a = ground (arith, one-le-pow k 2, and_split k (a / 2 ^ k) (a % 2 ^ k))
