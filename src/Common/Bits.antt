-- ===== src/Common/Bits.antt =====
-- Laws of `|` and `&` at variables, for every width.
use Prim.Native.Nat.{ℕ, zero, suc, ◌+◌, ◌-◌, ◌*◌, ◌/◌, ◌%◌, ◌^◌, ◌≤◌, ◌<◌, min, max}
use Prim.Native.Nat.{bit_and, bit_or, digits}
use Prim.Native.Nat.{bit_and-bitwise, bit_or-bitwise}
use mathlib.Core.Path.{◌≡◌, refl, ap, ◌∙◌}
use native.Mathlib.Decide.{ℕ_discrete}
use native.Mathlib.Nat.{pow-suc, one-le-pow}
use native.Mathlib.Omega.{arith}

-- The library's digit recursion runs on fuel: more of it than the first number changes nothing.
module _ (tail : ℕ → ℕ) (digit : ℕ → ℕ → ℕ) where
  digits_one_more : (n u v : ℕ) → u ≤ n → digits tail digit (suc n) u v ≡ digits tail digit n u v
  digits_one_more zero zero v bound = refl
  digits_one_more (suc n) zero v bound = refl
  digits_one_more zero (suc u) v bound = absurd (omega arith)
  digits_one_more (suc n) (suc u) v bound =
      ap (λ (t : ℕ). t * 2 + digit (suc u % 2) (v % 2))
        (digits_one_more n (suc u / 2) (v / 2) (omega arith))

  digits_more : (m n u v : ℕ) → n ≤ m → u ≤ n → digits tail digit m u v ≡ digits tail digit n u v
  digits_more zero n u v p bound = let e : n ≡ 0 = omega arith in rw e
  digits_more (suc m) n u v p bound = elim (ℕ_discrete n (suc m)) [
    | yes e ↦ rw e
    | no ne ↦ digits_one_more m u v (omega arith) ∙ digits_more m n u v (omega arith) bound
  ]

  -- One step of it, for u first number that is not 0.
  pub digits_next :
      (u v : ℕ)
      → digits tail digit (suc u) (suc u) v
        ≡ digits tail digit (suc u / 2) (suc u / 2) (v / 2) * 2 + digit (suc u % 2) (v % 2)
  digits_next u v =
      ap (λ (t : ℕ). t * 2 + digit (suc u % 2) (v % 2))
        (digits_more u (suc u / 2) (suc u / 2) (v / 2) (omega arith) (omega arith))

zero-bit_or : (v : ℕ) → bit_or 0 v ≡ v
zero-bit_or v = bit_or-bitwise 0 v

zero-bit_and : (v : ℕ) → bit_and 0 v ≡ 0
zero-bit_and v = bit_and-bitwise 0 v

-- One binary digit at a time.
pub bit_or_step : (u v : ℕ) → bit_or u v ≡ bit_or (u / 2) (v / 2) * 2 + max (u % 2) (v % 2)
bit_or_step zero v = omega (arith, zero-bit_or v, zero-bit_or (v / 2))
bit_or_step (suc u) v = omega (
  arith,
  bit_or-bitwise (suc u) v,
  bit_or-bitwise (suc u / 2) (v / 2),
  digits_next (λ y. y) max u v,
)

pub bit_and_step : (u v : ℕ) → bit_and u v ≡ bit_and (u / 2) (v / 2) * 2 + min (u % 2) (v % 2)
bit_and_step (suc u) v =
    let whole = bit_and-bitwise (suc u) v in
    let halves = bit_and-bitwise (suc u / 2) (v / 2) in
    omega (arith, digits_next (λ y. 0) min u v, halves, whole)
bit_and_step zero v = omega (arith, zero-bit_and (v / 2), zero-bit_and v)

-- `|` never clears a digit, and does not grow past a power of two above both sides.
le-bit_or_fuel : (n u v : ℕ) → u ≤ n → v ≤ n → v ≤ bit_or u v
le-bit_or_fuel zero u zero p q = omega arith
le-bit_or_fuel zero u (suc v) p q = absurd (omega arith)
le-bit_or_fuel (suc n) u v p q =
    omega (arith, bit_or_step u v, le-bit_or_fuel n (u / 2) (v / 2) (omega arith) (omega arith))

pub le-bit_or : (u v : ℕ) → v ≤ bit_or u v
le-bit_or u v = le-bit_or_fuel (u + v) u v (omega arith) (omega arith)

mul-pow-suc : (q k : ℕ) → q * 2 ^ suc k ≡ 2 * (q * 2 ^ k)
mul-pow-suc q k = omega (arith, ap (λ (t : ℕ). q * t) (pow-suc 2 k))

bit_or-zero_fuel : (n u : ℕ) → u ≤ n → bit_or u 0 ≡ u
bit_or-zero_fuel n zero bound = refl
bit_or-zero_fuel zero (suc u) bound = absurd (omega arith)
bit_or-zero_fuel (suc n) (suc u) bound =
    omega (arith, bit_or_step (suc u) 0, bit_or-zero_fuel n (suc u / 2) (omega arith))

pub bit_or-zero : (u : ℕ) → bit_or u 0 ≡ u
bit_or-zero u = bit_or-zero_fuel u u (omega arith)

bit_and-zero_fuel : (n u : ℕ) → u ≤ n → bit_and u 0 ≡ 0
bit_and-zero_fuel (suc n) (suc u) bound =
    let halved = bit_and-zero_fuel n (suc u / 2) (omega arith) in
    omega (arith, halved, bit_and_step (suc u) 0)
bit_and-zero_fuel zero (suc u) bound = absurd (omega arith)
bit_and-zero_fuel n zero bound = refl

pub bit_and-zero : (u : ℕ) → bit_and u 0 ≡ 0
bit_and-zero u = bit_and-zero_fuel u u (omega arith)

-- The digits from `k` on and those below `k` are joined apart.
pub bit_or_split :
    (k q r m s : ℕ)
    → r < 2 ^ k
    → s < 2 ^ k
    → bit_or (q * 2 ^ k + r) (m * 2 ^ k + s) ≡ bit_or q m * 2 ^ k + bit_or r s
bit_or_split zero q r m s p t = ground arith
bit_or_split (suc k) q r m s p t = ground (
  arith,
  bit_or_step (q * 2 ^ suc k + r) (m * 2 ^ suc k + s),
  bit_or_step r s,
  mul-pow-suc q k,
  mul-pow-suc m k,
  mul-pow-suc (bit_or q m) k,
  pow-suc 2 k,
  bit_or_split k q (r / 2) m (s / 2),
)

pub bit_and_split :
    (k q r m s : ℕ)
    → r < 2 ^ k
    → s < 2 ^ k
    → bit_and (q * 2 ^ k + r) (m * 2 ^ k + s) ≡ bit_and q m * 2 ^ k + bit_and r s
bit_and_split zero q r m s p t = ground arith
bit_and_split (suc k) q r m s p t = ground (
  arith,
  bit_and_step (q * 2 ^ suc k + r) (m * 2 ^ suc k + s),
  bit_and_step r s,
  mul-pow-suc q k,
  mul-pow-suc m k,
  mul-pow-suc (bit_and q m) k,
  pow-suc 2 k,
  bit_and_split k q (r / 2) m (s / 2),
)

pub bit_or-lt : (k u v : ℕ) → u < 2 ^ k → v < 2 ^ k → bit_or u v < 2 ^ k
bit_or-lt zero u v p t = ground arith
bit_or-lt (suc k) u v p t =
    ground (arith, bit_or_step u v, pow-suc 2 k, bit_or-lt k (u / 2) (v / 2))

pub bit_and-le : (k u v : ℕ) → u < 2 ^ k → bit_and u v ≤ u
bit_and-le zero u v p = ground (arith, zero-bit_and v)
bit_and-le (suc k) u v p =
    ground (arith, bit_and_step u v, pow-suc 2 k, bit_and-le k (u / 2) (v / 2))

-- Disjoint fields: `|` is a sum.
pub bit_or_fields : (k q r : ℕ) → r < 2 ^ k → bit_or (q * 2 ^ k) r ≡ q * 2 ^ k + r
bit_or_fields k q r p =
    ground (arith, one-le-pow k 2, bit_or_split k q 0 0 r, bit_or-zero q, zero-bit_or r)

-- A mask of `k` ones is the remainder by `2 ^ k`.
bit_and_ones : (k u : ℕ) → u < 2 ^ k → bit_and u (2 ^ k - 1) ≡ u
bit_and_ones zero u p = ground arith
bit_and_ones (suc k) u p =
    ground
      (arith, bit_and_step u (2 ^ suc k - 1), pow-suc 2 k, one-le-pow k 2, bit_and_ones k (u / 2))

pub bit_and_low : (k u : ℕ) → bit_and u (2 ^ k - 1) ≡ u % 2 ^ k
bit_and_low k u = ground (
  arith,
  one-le-pow k 2,
  bit_and_split k (u / 2 ^ k) (u % 2 ^ k) 0 (2 ^ k - 1),
  bit_and-zero (u / 2 ^ k),
  bit_and_ones k (u % 2 ^ k),
)

-- A mask of `n` ones above `k` zeros keeps those digits: with `n + k = 64` it rounds down.
pub bit_and_high : (n k u : ℕ) → bit_and u ((2 ^ n - 1) * 2 ^ k) ≡ u / 2 ^ k % 2 ^ n * 2 ^ k
bit_and_high n k u = ground (
  arith,
  one-le-pow k 2,
  bit_and_split k (u / 2 ^ k) (u % 2 ^ k) (2 ^ n - 1) 0,
  bit_and-zero (u % 2 ^ k),
  bit_and_low n (u / 2 ^ k),
)
