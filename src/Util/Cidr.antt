-- ===== src/Util/Cidr.antt =====
-- The mask of `GetAddrFromCIDR` as a number.
use mevent.Common.{
  ℕ, Bool, true, false, Bytes, ◌+◌, ◌-◌, ◌*◌, ◌^◌, ◌≤◌, ◌≡◌, refl, ◌==◌, ◌&&◌, Option, some, none,
  arith, foldl, length,
}
use mevent.Common.Bits.{every_below, every_below_sound}
use mevent.Util.{get_addr_from_cidr}

-- Bytes in network order as a number.
abbrev pub network : Bytes → ℕ
network bytes = foldl (λ n b. n * 256 + b) 0 bytes

abbrev pub is_mask : ℕ → Option Bytes → Bool
is_mask cidr none = false
is_mask cidr (some bytes) = (network bytes == 2 ^ 32 - 2 ^ (32 - cidr)) && (length bytes == 4)

-- A prefix length of at most 32 gives four bytes: in network order the number whose `cidr` upper bits
-- are set and whose other bits are not.
pub get_addr_from_cidr_lem : (cidr : ℕ) → cidr ≤ 32 → is_mask cidr (get_addr_from_cidr cidr) ≡ true
unfolding every_below
get_addr_from_cidr_lem cidr h =
    every_below_sound 33 (λ c. is_mask c (get_addr_from_cidr c)) cidr table (omega (arith, h))
  where
    table : every_below 33 (λ c. is_mask c (get_addr_from_cidr c)) ≡ true
    table = refl
