-- ===== src/Kmath.antt =====
-- The arithmetic of src/mikroKernellib/kmath.c. The two `while` loops run on 64 rounds, one
-- for each bit of an argument.
pub mod Log
use mikrokernellib.Common.{
  ℕ, zero, suc, ◌+◌, ◌-◌, ◌*◌, ◌/◌, ◌%◌, ◌^◌, bit_or, Bool, true, false, Option, none, some, ltb,
  ◌==◌, if◌then◌else◌, u32, u64, ◌<<◌, ◌>>◌,
}
use mikrokernellib.Layout.{page_size}

unfoldable pub align_up : ℕ → ℕ → ℕ
align_up x y = u32 (u32 (x + y + 2 ^ 32 - 1) / y * y)

unfoldable pub klog2_loop : ℕ → ℕ → ℕ → Option ℕ
klog2_loop zero x r = none
klog2_loop (suc rounds) x r = elim (x >> 1 == 0) [
  | true ↦ some r
  | false ↦ klog2_loop rounds (x >> 1) (r + 1)
]

unfoldable pub klog2 : ℕ → Option ℕ
klog2 x = klog2_loop 64 x 0

unfoldable pub smear : ℕ → ℕ → ℕ
smear k x = bit_or x (x >> k)

unfoldable pub round_up_pow2 : ℕ → ℕ
round_up_pow2 x =
    if x == 0 then 1 else u32 (smear 16 (smear 8 (smear 4 (smear 2 (smear 1 (x - 1))))) + 1)

unfoldable pub buddy_order_loop : ℕ → ℕ → ℕ → Option ℕ
buddy_order_loop zero order pages = none
buddy_order_loop (suc rounds) order pages = elim (ltb (u64 (1 << order)) pages) [
  | true ↦ buddy_order_loop rounds (order + 1) pages
  | false ↦ some order
]

unfoldable pub buddy_order : ℕ → Option ℕ
buddy_order size = buddy_order_loop 64 0 (size / page_size)
