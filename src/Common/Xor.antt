-- ===== src/Common/Xor.antt =====
-- Laws of `^` at variables: one field toggled, and one bit of a byte toggled.
use Prim.Native.Nat.{ℕ, zero, suc, ◌+◌, ◌-◌, ◌*◌, ◌/◌, ◌%◌, ◌^◌, ◌≤◌, ◌<◌}
use Prim.Native.Nat.{bit_xor, bit_xor-bitwise, differ}
use mathlib.Core.Path.{◌≡◌, refl, ap}
use mathlib.Core.Bool.{Bool, true, ◌&&◌}
use native.Mathlib.Nat.{pow-suc}
use native.Mathlib.Omega.{arith}
use mikrokernellib.Common.Bits.{digits_next}
use mikrokernellib.Common.Tests.{◌==◌, if◌then◌else◌, ==_iff}

zero-bit_xor : (b : ℕ) → bit_xor 0 b ≡ b
zero-bit_xor b = bit_xor-bitwise 0 b

pub bit_xor_step : (a b : ℕ) → bit_xor a b ≡ bit_xor (a / 2) (b / 2) * 2 + differ (a % 2) (b % 2)
bit_xor_step zero b = ground (arith, zero-bit_xor b, zero-bit_xor (b / 2))
bit_xor_step (suc a) b = omega (
  arith,
  bit_xor-bitwise (suc a) b,
  bit_xor-bitwise (suc a / 2) (b / 2),
  digits_next (λ y. y) differ a b,
)

bit_xor-zero_fuel : (n a : ℕ) → a ≤ n → bit_xor a 0 ≡ a
bit_xor-zero_fuel n zero h = refl
bit_xor-zero_fuel zero (suc a) h = absurd (omega arith)
bit_xor-zero_fuel (suc n) (suc a) h =
    ground (arith, bit_xor_step (suc a) 0, bit_xor-zero_fuel n (suc a / 2), differ-zero (suc a % 2))
  where
    differ-zero : (x : ℕ) → differ x 0 ≡ x
    differ-zero zero = refl
    differ-zero (suc x) = refl

-- The lowest bit toggled.
bit_xor_even : (m : ℕ) → bit_xor (2 * m) 1 ≡ 2 * m + 1
bit_xor_even m =
    ground (arith, bit_xor_step (2 * m) 1, bit_xor-zero_fuel m m, differ_low (2 * m % 2))
  where
    differ_low : (x : ℕ) → x ≡ 0 → differ x 1 ≡ 1
    differ_low zero e = refl
    differ_low (suc x) e = absurd (omega arith)

bit_xor_odd : (m : ℕ) → bit_xor (2 * m + 1) 1 ≡ 2 * m
bit_xor_odd m =
    ground (arith, bit_xor_step (2 * m + 1) 1, bit_xor-zero_fuel m m, differ_high ((2 * m + 1) % 2))
  where
    differ_high : (x : ℕ) → x ≡ 1 → differ x 1 ≡ 0
    differ_high zero e = absurd (omega arith)
    differ_high (suc zero) e = refl
    differ_high (suc (suc x)) e = absurd (omega arith)

mul-pow-suc : (q k : ℕ) → q * 2 ^ suc k ≡ 2 * (q * 2 ^ k)
mul-pow-suc q k = omega (arith, ap (λ (t : ℕ). q * t) (pow-suc 2 k))

bit_xor_pow : (k q : ℕ) → bit_xor (q * 2 ^ k) (2 ^ k) ≡ bit_xor q 1 * 2 ^ k
bit_xor_pow zero q = ground arith
bit_xor_pow (suc k) q = ground (
  arith,
  bit_xor_step (q * 2 ^ suc k) (2 ^ suc k),
  pow-suc 2 k,
  mul-pow-suc q k,
  mul-pow-suc (bit_xor q 1) k,
  bit_xor_pow k q,
)

-- `^` by a power of two moves an even multiple of it up and an odd multiple down.
pub bit_xor_pow_even : (k m : ℕ) → bit_xor (2 * m * 2 ^ k) (2 ^ k) ≡ 2 * m * 2 ^ k + 2 ^ k
bit_xor_pow_even k m =
    omega (arith, bit_xor_pow k (2 * m), ap (λ (t : ℕ). t * 2 ^ k) (bit_xor_even m))

pub bit_xor_pow_odd : (k m : ℕ) → bit_xor ((2 * m + 1) * 2 ^ k) (2 ^ k) ≡ 2 * m * 2 ^ k
bit_xor_pow_odd k m =
    omega (arith, bit_xor_pow k (2 * m + 1), ap (λ (t : ℕ). t * 2 ^ k) (bit_xor_odd m))

-- Over a byte the laws of a toggled bit are checked at every value.
every_below : ℕ → (ℕ → Bool) → Bool
every_below zero p = true
every_below (suc n) p = p n && every_below n p

every_below_sound : (n : ℕ) (p : ℕ → Bool) (x : ℕ) → every_below n p ≡ true → x < n → p x ≡ true
unfolding every_below
every_below_sound zero p x h lt = absurd (omega arith)
every_below_sound (suc n) p x h lt = ground (arith, every_below_sound n p x)

abbrev bit : ℕ → ℕ → ℕ
bit b p = b / 2 ^ p % 2

abbrev toggles : ℕ → ℕ → ℕ → Bool
toggles b o p = bit (bit_xor b (2 ^ o)) p == (if o == p then 1 - bit b p else bit b p)

toggle_table : every_below 256 (λ b. every_below 8 (λ o. every_below 8 (λ p. toggles b o p))) ≡ true
unfolding every_below
toggle_table = refl

byte_table : every_below 256 (λ b. every_below 8 (λ o. bit_xor b (2 ^ o) / 256 == 0)) ≡ true
unfolding every_below
byte_table = refl

-- `b ^= 1 << o` changes bit `o` of a byte and no other.
pub bit-bit_xor :
    (b o p : ℕ)
    → b < 256
    → o < 8
    → p < 8
    → bit_xor b (2 ^ o) / 2 ^ p % 2 ≡ (if o == p then 1 - b / 2 ^ p % 2 else b / 2 ^ p % 2)
bit-bit_xor b o p hb ho hp = (==_iff _ _).0 (
    every_below_sound 8 _ p (every_below_sound 8 _ o (every_below_sound 256 _ b toggle_table hb) ho)
      hp)

pub bit_xor-lt : (b o : ℕ) → b < 256 → o < 8 → bit_xor b (2 ^ o) < 256
bit_xor-lt b o hb ho =
    ground (arith, every_below_sound 8 _ o (every_below_sound 256 _ b byte_table hb) ho)
