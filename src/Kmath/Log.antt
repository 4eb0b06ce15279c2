-- ===== src/Kmath/Log.antt =====
-- Correctness of the loops of src/mikroKernellib/kmath.c.
use mathlib.Core.Path.{subst}
use native.Mathlib.Decide.{ℕ_discrete}
use native.Mathlib.Nat.{pow-le-pow_right}
use mikrokernellib.Common.{
  ℕ, zero, suc, ◌+◌, ◌*◌, ◌/◌, ◌^◌, ◌≤◌, ◌<◌, ◌≡◌, ◌∙◌, refl, sym, ap, false, some, ltb, ◌==◌, u64,
  ◌<<◌, arith, ltb→lt, ltb→ge, Bool-cases, inl, inr,
}
use mikrokernellib.Layout.{page_size}
use mikrokernellib.Kmath.{klog2_loop, klog2, buddy_order_loop, buddy_order}

add_suc : (r k : ℕ) → r + 1 + k ≡ r + suc k
add_suc r k = omega arith

double_bounds :
    (x k : ℕ) → 2 ^ k ≤ x / 2 → x / 2 < 2 ^ suc k → (2 ^ suc k ≤ x) × (x < 2 ^ suc (suc k))
double_bounds x k low high =
    let e : 2 ^ suc k ≡ 2 * 2 ^ k = omega arith in
    let f : 2 ^ suc (suc k) ≡ 2 * 2 ^ suc k = omega arith in
    (omega (arith, low, e), omega (arith, high, f))

klog2_loop_lem :
    (rounds x r : ℕ)
    → 1 ≤ x
    → x < 2 ^ rounds
    → (k : ℕ) × (klog2_loop rounds x r ≡ some (r + k)) × (2 ^ k ≤ x) × (x < 2 ^ suc k)
unfolding klog2_loop
klog2_loop_lem zero x r pos small = let no : ⊥ = omega (arith, pos, small) in elim no [ ]
klog2_loop_lem (suc rounds) x r pos small = elim (Bool-cases (x / 2 == 0)) [
  | inl e ↦
      let z : x / 2 ≡ 0 = ground (arith, e) in
      let q : r + 0 ≡ r = omega arith in (0, rw (e, q, klog2_loop) refl, pos, omega (arith, z))
  | inr e ↦
      let nz : 1 ≤ x / 2 = ground (arith, e) in
      let (k, found, low, high) = klog2_loop_lem rounds (x / 2) (r + 1) nz (omega (arith, small)) in
      (
        suc k,
        rw (e, klog2_loop) (found ∙ ap some (add_suc r k)),
        (double_bounds x k low high).0,
        (double_bounds x k low high).1,
      )
]

-- On a 64-bit number that is not 0 the loop ends, with the rounded down logarithm.
pub klog2_lem :
    (x : ℕ) → 1 ≤ x → x < 2 ^ 64 → (k : ℕ) × (klog2 x ≡ some k) × (2 ^ k ≤ x) × (x < 2 ^ suc k)
unfolding klog2
klog2_lem x pos small =
    let (k, found, low, high) = klog2_loop_lem 64 x 0 pos small in
    let z : 0 + k ≡ k = omega arith in (k, found ∙ ap some z, low, high)

u64_shift : (order : ℕ) → order ≤ 63 → u64 (1 << order) ≡ 2 ^ order
u64_shift order cap = omega (arith, pow-le-pow_right {n = 2} (omega arith) cap)

buddy_order_loop_lem :
    (rounds order pages : ℕ)
    → pages ≤ 2 ^ (order + rounds)
    → order + rounds ≤ 63
    → ((below : ℕ) → below < order → 2 ^ below < pages)
    → (k : ℕ) × (buddy_order_loop (suc rounds) order pages ≡ some k)
      × (pages ≤ 2 ^ k)
      × ((below : ℕ) → below < k → 2 ^ below < pages)
unfolding buddy_order_loop
buddy_order_loop_lem zero order pages top cap smaller =
    let z : order + 0 ≡ order = omega arith in
    let fits : pages ≤ 2 ^ order = subst (λ n. pages ≤ 2 ^ n) z top in
    let e : ltb (u64 (1 << order)) pages ≡ false = ground (arith, u64_shift order, fits) in
    (order, rw (e, buddy_order_loop) refl, fits, smaller)
buddy_order_loop_lem (suc rounds) order pages top cap smaller =
    elim (Bool-cases (ltb (u64 (1 << order)) pages)) [
      | inr e ↦
          let fits : pages ≤ 2 ^ order =
            omega (arith, ltb→ge (u64 (1 << order)) pages e, u64_shift order) in
          (order, rw (e, buddy_order_loop) refl, fits, smaller)
      | inl e ↦
          let next : order + 1 + rounds ≡ order + suc rounds = omega arith in
          let more : 2 ^ order < pages =
            omega (arith, ltb→lt (u64 (1 << order)) pages e, u64_shift order) in
          let (k, found, fits, least) =
            buddy_order_loop_lem rounds (order + 1) pages
              (subst (λ n. pages ≤ 2 ^ n) (sym next) top) (omega (arith, cap))
              (λ below h. elim (ℕ_discrete below order) [
                | yes same ↦ subst (λ n. 2 ^ n < pages) (sym same) more
                | no ne ↦ smaller below (omega (arith, h, ne))
              ]) in
          (k, rw (e, buddy_order_loop) found, fits, least)
    ]

-- For a size below 2^64 the loop ends, with the least order whose blocks hold the whole pages of
-- `size`: a part of a page at the end is not counted.
pub buddy_order_lem :
    (size : ℕ)
    → size < 2 ^ 64
    → (k : ℕ) × (buddy_order size ≡ some k)
      × (size / page_size ≤ 2 ^ k)
      × ((below : ℕ) → below < k → 2 ^ below < size / page_size)
unfolding buddy_order
buddy_order_lem size small =
    buddy_order_loop_lem 63 0 (size / page_size) (omega arith) (omega arith)
      (λ below h. let no : ⊥ = omega (arith, h) in elim no [ ])
