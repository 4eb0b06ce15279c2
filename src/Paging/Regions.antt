-- ===== src/Paging/Regions.antt =====
-- The direct mapping and the framebuffer of src/mikroKernellib/paging.c: the spans of physical memory
-- that are mapped, and the calls that map them.
use mikrokernellib.Common.{
  ℕ, ◌+◌, ◌-◌, ◌*◌, ◌/◌, ◌^◌, bit_and, bit_or, Bool, true, false, List, [], ◌∷◌, Option, some, ltb,
  leb, ◌==◌, if◌then◌else◌, ◌>>=◌, u32, u64, sub64,
}
use mikrokernellib.Layout.{
  page_size, huge_page_size, pte_present, pte_writable, pte_huge_page, direct_map_start,
}
use mikrokernellib.Buddy.Init.{MmapEntry}
use mikrokernellib.Vesa.{BootVbeHandoff}
use mikrokernellib.Paging.{Kernel, kmap_pages}

abbrev pub pte_pwt : ℕ
pte_pwt = 0x8

abbrev pub pte_global : ℕ
pte_global = 0x100

abbrev pub pte_nx : ℕ
pte_nx = 0x8000000000000000

abbrev pub pte_flags_direct_map : ℕ
pte_flags_direct_map = bit_or (bit_or (bit_or pte_present pte_writable) pte_global) pte_nx

-- `x & ~(PAGE_SIZE - 1)` and `x & ~(HUGE_PAGE_SIZE - 1)`.
unfoldable pub page_down : ℕ → ℕ
page_down x = bit_and x ((2 ^ 52 - 1) * 2 ^ 12)

unfoldable pub huge_down : ℕ → ℕ
huge_down x = bit_and x ((2 ^ 43 - 1) * 2 ^ 21)

-- Physical memory that one call of `kmap_pages` maps.
pub record Span : Type 0 where
  pub paddr : ℕ
  pub huge : Bool
  pub num_pages : ℕ

-- Head, huge and tail spans of memory whose huge span is not empty.
unfoldable pub split_spans : ℕ → ℕ → ℕ → ℕ → List Span
split_spans base_addr_aligned last_addr_aligned huge_base huge_end =
    let pre_pte_num = (huge_base - base_addr_aligned) / page_size in
    let huge_count = (huge_end - huge_base) / huge_page_size in
    let leftover_pte_num = (last_addr_aligned - huge_end) / page_size in
    let tail =
      if ltb 0 leftover_pte_num
      then record { paddr = huge_end; huge = false; num_pages = leftover_pte_num } ∷ []
      else [] in
    let middle = record { paddr = huge_base; huge = true; num_pages = huge_count } ∷ tail in
    if ltb base_addr_aligned huge_base
    then record { paddr = base_addr_aligned; huge = false; num_pages = pre_pte_num } ∷ middle
    else middle

-- The spans of a usable entry of the e820 map.
unfoldable pub region_spans : ℕ → ℕ → List Span
region_spans base_addr size =
    let last_addr = u64 (base_addr + size) in
    let base_addr_aligned = page_down (u64 (base_addr + page_size - 1)) in
    let last_addr_aligned = page_down last_addr in
    let huge_base = huge_down (u64 (base_addr_aligned + huge_page_size - 1)) in
    let huge_end = huge_down last_addr_aligned in
    if leb last_addr_aligned base_addr_aligned
    then []
    else (if leb huge_end huge_base
        then record {
          paddr = base_addr_aligned;
          huge = false;
          num_pages = (last_addr_aligned - base_addr_aligned) / page_size;
        }
          ∷ []
        else split_spans base_addr_aligned last_addr_aligned huge_base huge_end)

unfoldable pub map_span : ℕ → ℕ → Span → Kernel → Option Kernel
map_span rounds vma_cache s k =
    let flags =
      if s.huge then bit_or pte_flags_direct_map pte_huge_page else pte_flags_direct_map in
    kmap_pages rounds vma_cache s.paddr (u64 (direct_map_start + s.paddr)) flags s.num_pages k

unfoldable pub map_spans : ℕ → ℕ → List Span → Kernel → Option Kernel
map_spans rounds vma_cache [] k = some k
map_spans rounds vma_cache (s ∷ spans) k = do
  mapped ← map_span rounds vma_cache s k
  map_spans rounds vma_cache spans mapped

unfoldable pub map_direct_mapping : ℕ → ℕ → List MmapEntry → Kernel → Option Kernel
map_direct_mapping rounds vma_cache [] k = some k
map_direct_mapping rounds vma_cache (e ∷ entries) k = do
  mapped ←
      if e.type == 1
      then map_spans rounds vma_cache (region_spans e.base_address e.chunk_size) k
      else some k
  map_direct_mapping rounds vma_cache entries mapped

-- The first page of the framebuffer and the number of its pages.
unfoldable pub framebuffer_base : BootVbeHandoff → ℕ
framebuffer_base vbe = page_down vbe.framebuffer_address

unfoldable pub framebuffer_pages : BootVbeHandoff → ℕ
framebuffer_pages vbe =
    let fb_last = sub64 (u64 (vbe.framebuffer_address + u32 (vbe.pitch * vbe.height_px))) 1 in
    let end_aligned = page_down (u64 (fb_last + page_size)) in
    sub64 end_aligned (framebuffer_base vbe) / page_size

unfoldable pub map_framebuffer : ℕ → ℕ → BootVbeHandoff → Kernel → Option Kernel
map_framebuffer rounds vma_cache vbe k =
    kmap_pages rounds vma_cache (framebuffer_base vbe)
      (u64 (direct_map_start + framebuffer_base vbe)) (bit_or pte_flags_direct_map pte_pwt)
      (framebuffer_pages vbe) k
