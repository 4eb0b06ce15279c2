-- ===== src/Buddy/Init/Place.antt =====
-- Where the managed region begins and ends.
use mikrokernellib.Common.{ℕ, ◌+◌, ◌-◌, ◌*◌, ◌/◌, ◌%◌, ◌^◌, ◌≤◌, ◌<◌, ◌≡◌, arith, u64, sub64}
use mikrokernellib.Common.Bits.{bit_and_low, bit_and_high}
use mikrokernellib.Layout.{page_size}
use mikrokernellib.Buddy.{chunk_bytes}
use mikrokernellib.Buddy.Wf.{Aligned}
use mikrokernellib.Buddy.Init.{Region, align_region}

-- 4 MB, the bytes of the largest block.
abbrev pub top_bytes : ℕ
top_bytes = 2 ^ 22

-- The bytes up to the next multiple of the largest block.
abbrev pub slack : ℕ → ℕ
slack base = (top_bytes - base % top_bytes) % top_bytes

align_region_eq : (r : Region) → (align_region r).base ≡ u64 (r.base + slack r.base)
unfolding align_region chunk_bytes
align_region_eq r =
    ground (arith, bit_and_low 22 r.base, bit_and_low 22 (top_bytes - r.base % top_bytes))

align_region_size :
    (r : Region) → (align_region r).size ≡ sub64 r.size (slack r.base) / page_size * page_size
unfolding align_region chunk_bytes
align_region_size r = ground (
  arith,
  bit_and_low 22 r.base,
  bit_and_low 22 (top_bytes - r.base % top_bytes),
  bit_and_high 52 12 (sub64 r.size (slack r.base)),
)

-- A region that ends below 2^63 and is larger than the bytes up to the next multiple of 4 MB
-- keeps to its bounds: the aligned one starts at that multiple, has whole pages, and ends less
-- than a page before the old end.
pub align_region_lem :
    (r : Region)
    → r.base + r.size < 2 ^ 63
    → slack r.base ≤ r.size
    → Aligned 10 (align_region r).base
      × ((align_region r).size % page_size ≡ 0)
      × (r.base ≤ (align_region r).base)
      × ((align_region r).base < r.base + top_bytes)
      × ((align_region r).base + (align_region r).size ≤ r.base + r.size)
      × (r.base + r.size < (align_region r).base + (align_region r).size + page_size)
align_region_lem r small fits =
    let b = align_region_eq r in
    let n = align_region_size r in
    (
      (((align_region r).base / top_bytes), omega (arith, b)),
      omega (arith, n),
      omega (arith, b),
      omega (arith, b),
      omega (arith, b, n),
      omega (arith, b, n),
    )

-- Smaller regions wrap: the size that is left is more than 2^63 bytes.
pub align_region_wraps :
    (r : Region) → r.base + r.size < 2 ^ 63 → r.size < slack r.base → 2 ^ 63 < (align_region r).size
align_region_wraps r small short = omega (arith, align_region_size r)
