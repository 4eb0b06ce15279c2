-- ===== src/Buddy/Order.antt =====
-- The order that `buddy_kalloc` and `buddy_kfree` compute from a size.
use mikrokernellib.Common.{
  ℕ, zero, suc, ◌+◌, ◌*◌, ◌^◌, ◌≤◌, ◌<◌, ◌≡◌, ap, some, arith, inl, inr, ltb, ltb→lt, ltb→ge,
  Bool-cases,
}
use native.Mathlib.Nat.{pow-le-pow_right}
use native.Mathlib.Decide.{dec_lt, ℕ_discrete}
use mikrokernellib.Layout.{page_size}
use mikrokernellib.Buddy.{chunk_bytes, order_loop}

-- The bytes of a block, with no wrap.
abbrev pub block_bytes : ℕ → ℕ
block_bytes order = 2 ^ order * page_size

-- `order` is the least whose blocks hold `size` bytes.
pub record IsOrder (size order : ℕ) : Type 0 where
  pub fits : size ≤ block_bytes order
  pub least : (k : ℕ) → k < order → block_bytes k < size

pow-le_of_le : (i j : ℕ) → i ≤ j → 2 ^ i ≤ 2 ^ j
pow-le_of_le i j h = pow-le-pow_right {n = 2} (omega arith) h

pub chunk_bytes_lem : (order : ℕ) → order < 52 → chunk_bytes order ≡ block_bytes order
unfolding chunk_bytes
chunk_bytes_lem order h = omega (arith, pow-le_of_le order 51 (omega arith))

order_loop_from :
    (rounds order size : ℕ)
    → 52 ≤ order + rounds
    → order < 52
    → size ≤ 2 ^ 63
    → ((k : ℕ) → k < order → block_bytes k < size)
    → (k : ℕ) × (order_loop rounds order size ≡ some k) × (k < 52) × IsOrder size k
unfolding order_loop
order_loop_from zero order size enough lt small below = absurd (omega arith)
order_loop_from (suc rounds) order size enough lt small below =
    let bytes = chunk_bytes_lem order lt in
    elim (Bool-cases (ltb (chunk_bytes order) size)) [
      | inl more ↦
          let here : block_bytes order < size = omega (arith, ltb→lt _ _ more) in
          rw more
            (order_loop_from rounds (order + 1) size (omega arith) (last here) small (extend here))
      | inr fits ↦
          (order, rw fits, lt, record { fits = omega (arith, ltb→ge _ _ fits); least = below })
    ]
  where
    last : block_bytes order < size → order + 1 < 52
    last here = elim (dec_lt order 51) [
      | yes p ↦ omega arith
      | no p ↦ absurd (omega (arith, pow-le_of_le 51 order (omega arith)))
    ]

    extend : block_bytes order < size → (k : ℕ) → k < order + 1 → block_bytes k < size
    extend here k p = elim (ℕ_discrete k order) [
      | yes e ↦ rw e here
      | no ne ↦ below k (omega arith)
    ]

-- For a size of at most 2^63 bytes the loop over `order` ends, at the least order whose blocks
-- hold `size` bytes.
pub order_loop-IsOrder :
    (size : ℕ)
    → size ≤ 2 ^ 63
    → (k : ℕ) × (order_loop 64 0 size ≡ some k) × (k < 52) × IsOrder size k
order_loop-IsOrder size h =
    order_loop_from 64 0 size (omega arith) (omega arith) h (λ k p. absurd (omega arith))

-- The order of a size is unique, so the loop finds it.
pub order_loop-eq :
    (size order : ℕ) → size ≤ 2 ^ 63 → IsOrder size order → order_loop 64 0 size ≡ some order
order_loop-eq size order h is =
    let (k, found, small, least) = order_loop-IsOrder size h in
    let not_below : k < order → ⊥ = λ p. omega (arith, is.least k p, least.fits) in
    let not_above : order < k → ⊥ = λ p. omega (arith, least.least order p, is.fits) in
    rw found (ap some (omega (arith, not_below, not_above)))
