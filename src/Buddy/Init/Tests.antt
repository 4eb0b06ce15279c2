-- ===== src/Buddy/Init/Tests.antt =====
-- The theorems about the start of the buddy allocator at concrete regions.
use mikrokernellib.Common.{
  ℕ, ◌+◌, ◌%◌, ◌^◌, ◌≤◌, ◌<◌, ◌≡◌, ◌&&◌, List, arith, ltb, leb, if◌then◌else◌,
}
use mikrokernellib.Layout.{page_size}
use mikrokernellib.Buddy.{Buddy}
use mikrokernellib.Buddy.Cover.{covered}
use mikrokernellib.Buddy.Wf.{Aligned, Wf}
use mikrokernellib.Buddy.Init.{Region, region, align_region, build}
use mikrokernellib.Buddy.Init.Place.{top_bytes, align_region_lem, align_region_wraps}
use mikrokernellib.Buddy.Init.Built.{IsRegion, build-Wf}

abbrev zeroed : Buddy
zeroed = record {
  base_address = 0;
  size = 0;
  min_order = 0;
  max_order = 0;
  free_lists_ptr = λ k. 0;
  bitmap = λ i. 0;
  order_offsets = λ k. 0;
  next = λ a. 0;
  prev = λ a. 0;
}

-- 4 MB and one page, from 4 MB on.
abbrev two_blocks : Region
two_blocks = region 0x400000 0x401000

two_blocks-IsRegion : IsRegion two_blocks
two_blocks-IsRegion = record {
  ne_null = omega arith;
  aligned = (1, omega arith);
  pages = omega arith;
  small = omega arith;
  fits = omega arith;
}

build-Wf_example :
    (fl : ℕ → List ℕ) × Wf (build zeroed two_blocks) fl
    × ((a : ℕ) → covered fl a ≡ (if leb 0x400000 a && ltb a (0x400000 + 0x401000) then 1 else 0))
build-Wf_example = build-Wf zeroed two_blocks two_blocks-IsRegion

-- A region from 1 MB to 32 MB.
abbrev low_memory : Region
low_memory = region 0x100000 0x1F00000

align_region_lem_example :
    Aligned 10 (align_region low_memory).base
    × ((align_region low_memory).size % page_size ≡ 0)
    × (0x100000 ≤ (align_region low_memory).base)
    × ((align_region low_memory).base < 0x100000 + top_bytes)
    × ((align_region low_memory).base + (align_region low_memory).size ≤ 0x100000 + 0x1F00000)
    × (0x100000 + 0x1F00000
        < (align_region low_memory).base + (align_region low_memory).size + page_size)
align_region_lem_example = align_region_lem low_memory (omega arith) (omega arith)

-- A region of 1 MB from 1 MB on.
align_region_wraps_example : 2 ^ 63 < (align_region (region 0x100000 0x100000)).size
align_region_wraps_example =
    align_region_wraps (region 0x100000 0x100000) (omega arith) (omega arith)
