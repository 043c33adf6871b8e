-- ===== src/Common/Bits.antt =====
-- Facts about bit operations on bytes, by evaluation over the whole range.
pub mod Words
use Prim.Native.Nat.{ℕ, zero, suc, ◌/◌, ◌%◌, ◌<◌, bit_and, bit_xor}
use mathlib.Core.Path.{◌≡◌, refl}
use mathlib.Core.Bool.{Bool, true, ◌&&◌}
use native.Mathlib.Omega.{arith}
use mevent.Common.Tests.{◌==◌, ==_iff}

unfoldable pub every_below : ℕ → (ℕ → Bool) → Bool
every_below zero test = true
every_below (suc bound) test = every_below bound test && test bound

pub every_below_sound :
    (bound : ℕ) (test : ℕ → Bool) (v : ℕ)
    → every_below bound test ≡ true
    → v < bound
    → test v ≡ true
unfolding every_below
every_below_sound zero test v checked small = ground arith
every_below_sound (suc bound) test v checked small = ground (every_below_sound bound test v, arith)

-- Two functions that agree on every value below `n`, as a test shows.
pub agree_below :
    (n : ℕ) (f g : ℕ → ℕ) (x : ℕ) → every_below n (λ y. f y == g y) ≡ true → x < n → f x ≡ g x
agree_below n f g x t h = (==_iff (f x) (g x)).0 (every_below_sound n (λ y. f y == g y) x t h)

xor_table : every_below 256 (λ x. every_below 256 (λ k. bit_xor (bit_xor x k) k == x)) ≡ true
unfolding every_below
xor_table = refl

pub xor_twice : (x k : ℕ) → x < 256 → k < 256 → bit_xor (bit_xor x k) k ≡ x
xor_twice x k h i =
    agree_below 256 (λ j. bit_xor (bit_xor x j) j) (λ _. x) k
      (every_below_sound 256 (λ y. every_below 256 (λ j. bit_xor (bit_xor y j) j == y)) x xor_table
        h)
      i

xor_bound_table : every_below 256 (λ x. every_below 256 (λ k. bit_xor x k / 256 == 0)) ≡ true
unfolding every_below
xor_bound_table = refl

pub xor-lt : (x k : ℕ) → x < 256 → k < 256 → bit_xor x k < 256
xor-lt x k h i =
    let small =
      agree_below 256 (λ j. bit_xor x j / 256) (λ _. 0) k
        (every_below_sound 256 (λ y. every_below 256 (λ j. bit_xor y j / 256 == 0)) x
          xor_bound_table h)
        i in
    omega (arith, small)

-- The field masks of the base64 codec, as divisions and remainders.
pub masks :
    (x : ℕ)
    → x < 256
    → (bit_and x 0xfc / 4 ≡ x / 4)
      × (bit_and x 0x03 ≡ x % 4)
      × (bit_and x 0xf0 / 16 ≡ x / 16)
      × (bit_and x 0x0f ≡ x % 16)
      × (bit_and x 0xc0 / 64 ≡ x / 64)
      × (bit_and x 0x3f ≡ x % 64)
      × (bit_and x 0x30 / 16 ≡ x / 16 % 4)
      × (bit_and x 0x3c / 4 ≡ x / 4 % 16)
unfolding every_below
masks x h = (
  agree_below 256 (λ y. bit_and y 0xfc / 4) (λ y. y / 4) x refl h,
  agree_below 256 (λ y. bit_and y 0x03) (λ y. y % 4) x refl h,
  agree_below 256 (λ y. bit_and y 0xf0 / 16) (λ y. y / 16) x refl h,
  agree_below 256 (λ y. bit_and y 0x0f) (λ y. y % 16) x refl h,
  agree_below 256 (λ y. bit_and y 0xc0 / 64) (λ y. y / 64) x refl h,
  agree_below 256 (λ y. bit_and y 0x3f) (λ y. y % 64) x refl h,
  agree_below 256 (λ y. bit_and y 0x30 / 16) (λ y. y / 16 % 4) x refl h,
  agree_below 256 (λ y. bit_and y 0x3c / 4) (λ y. y / 4 % 16) x refl h,
)
