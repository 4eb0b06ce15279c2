-- ===== src/Buddy/Init.antt =====
-- `__init_buddy` of src/mikroKernellib/phys_kmalloc.c: the choice of the region from the e820
-- map, its alignment, the cut into blocks of powers of two, the free lists and the bitmap.
-- The progress messages on the screen are left out.
pub mod Place
pub mod Built
pub mod Counts
pub mod Lay
pub mod Lists
mod Tests
use mikrokernellib.Common.{
  ℕ, zero, suc, ◌+◌, ◌-◌, ◌*◌, ◌/◌, ◌^◌, bit_and, Bool, true, false, ◌&&◌, Option, none, some, List,
  [], ◌∷◌, ltb, leb, ◌==◌, if◌then◌else◌, update, u32, u64, sub64, ◌>>◌,
}
use mikrokernellib.Layout.{page_size}
use mikrokernellib.Buddy.{Buddy, chunk_bytes}

-- An entry of the memory map of the BIOS; type 1 is usable memory.
pub record MmapEntry : Type 0 where
  pub base_address : ℕ
  pub chunk_size : ℕ
  pub type : ℕ
  pub acpi_ext_attr : ℕ

pub record Region : Type 0 where
  pub base : ℕ
  pub size : ℕ

abbrev pub region : ℕ → ℕ → Region
region b n = record { base = b; size = n }

-- The inner loop: usable neighbours that begin where the region ends are added to it.
unfoldable pub coalesce : ℕ → ℕ → List MmapEntry → ℕ × List MmapEntry
coalesce base size [] = (size, [])
coalesce base size (e ∷ es) =
    let grown = coalesce base (u64 (size + e.chunk_size)) es in
    if (e.type == 1) && (e.base_address == u64 (base + size)) then grown else (size, e ∷ es)

-- The outer loop, with as much fuel as there are entries.
unfoldable pub best_region : ℕ → List MmapEntry → Region → Region
best_region zero es best = best
best_region (suc fuel) [] best = best
best_region (suc fuel) (e ∷ es) best =
    let skipped = best_region fuel es best in
    let run = coalesce e.base_address e.chunk_size es in
    let better = if ltb best.size run.0 then region e.base_address run.0 else best in
    let taken = best_region fuel run.1 better in if e.type == 1 then taken else skipped

-- sizeof(buddy_metadata), packed, and the array of the eleven list heads.
abbrev metadata_bytes : ℕ
metadata_bytes = 78 + 11 * 8

-- The region is raised above 1 MB, the kernel image and the metadata behind it.
unfoldable pub raise_region : ℕ → Region → Region
raise_region kernel_end best =
    let after_metadata = u64 (kernel_end + metadata_bytes + best.size / page_size / 8) in
    let lower_bound = if ltb 0x100000 after_metadata then after_metadata else 0x100000 in
    if ltb best.base lower_bound && ltb lower_bound (u64 (best.base + best.size))
    then region lower_bound (sub64 best.size (sub64 lower_bound best.base))
    else best

-- The base goes up to a multiple of the largest block, the size down to a multiple of a page.
unfoldable pub align_region : Region → Region
align_region r =
    let max_order_align = chunk_bytes 10 in
    let align =
      bit_and (max_order_align - bit_and r.base (max_order_align - 1)) (max_order_align - 1) in
    region (u64 (r.base + align)) (bit_and (sub64 r.size align) (2 ^ 64 - page_size))

-- The largest order below `orders` whose block fits and whose size divides `addr`.
unfoldable pub fit_order : ℕ → ℕ → ℕ → Option ℕ
fit_order zero addr remaining = none
fit_order (suc order) addr remaining =
    let smaller = fit_order order addr remaining in
    if leb (chunk_bytes order) remaining && (bit_and addr (chunk_bytes order - 1) == 0)
    then some order
    else smaller

-- How many blocks of each order the region is cut into; the last part is what is left over.
unfoldable pub count_loop : ℕ → ℕ → ℕ → (ℕ → ℕ) → (ℕ → ℕ) × ℕ
count_loop zero addr remaining counts = (counts, remaining)
count_loop (suc fuel) addr remaining counts =
    let next = λ (order : ℕ).
      count_loop fuel (u64 (addr + chunk_bytes order)) (remaining - chunk_bytes order)
        (update counts order (u32 (counts order + 1))) in
    elim (ltb remaining page_size) [
      | true ↦ (counts, remaining)
      | false ↦ elim (fit_order 11 addr remaining) [
        | none ↦ (counts, remaining)
        | some order ↦ next order
      ]
    ]

-- The links of block `i` of the `count` blocks of one order.
unfoldable pub link_chunk : ℕ → ℕ → ℕ → ℕ → Buddy → Buddy
link_chunk i count order current s = record s {
  next = update s.next current (if i == count - 1 then 0 else current + chunk_bytes order);
  prev = update s.prev current (if i == 0 then 0 else current - chunk_bytes order);
}

-- The blocks from `i` on, one behind the other from `current`.
unfoldable pub link_loop : ℕ → ℕ → ℕ → ℕ → ℕ → Buddy → ℕ × Buddy
link_loop zero i count order current s = (current, s)
link_loop (suc rounds) i count order current s =
    link_loop rounds (i + 1) count order (current + chunk_bytes order)
      (link_chunk i count order current s)

unfoldable pub lay_order : (ℕ → ℕ) → ℕ → ℕ × Buddy → ℕ × Buddy
lay_order counts order (current, s) =
    let (after, linked) = link_loop (counts order) 0 (counts order) order current s in
    if counts order == 0
    then (current, s)
    else (after, record linked { free_lists_ptr = update linked.free_lists_ptr order current })

-- The orders below `orders`, the largest first.
unfoldable pub lay_orders : (ℕ → ℕ) → ℕ → ℕ × Buddy → ℕ × Buddy
lay_orders counts zero st = st
lay_orders counts (suc order) st = lay_orders counts order (lay_order counts order st)

unfoldable pub order_offset : ℕ → ℕ → ℕ
order_offset num_pages zero = 0
order_offset num_pages (suc k) = u32 (order_offset num_pages k + u32 (num_pages >> suc k))

-- The metadata and the free lists of a region; `memory` is what memory held before.
unfoldable pub build : Buddy → Region → Buddy
build memory r =
    let counts = (count_loop (r.size / page_size + 1) r.base r.size (λ k. 0)).0 in
    let s = record memory {
      base_address = r.base;
      size = r.size;
      min_order = 0;
      max_order = 10;
      free_lists_ptr = λ k. 0;
    } in
    let num_pages = r.size / page_size in
    let laid = (lay_orders counts 11 (r.base, s)).1 in
    record laid {
      bitmap = λ i. if ltb i (num_pages / 8) then 0 else memory.bitmap i;
      order_offsets = order_offset num_pages;
    }

abbrev length : List MmapEntry → ℕ
length [] = 0
length (e ∷ es) = suc (length es)

unfoldable pub init_region : ℕ → List MmapEntry → Region
init_region kernel_end entries =
    align_region (raise_region kernel_end (best_region (length entries) entries (region 0 0)))

unfoldable pub init_buddy : Buddy → ℕ → List MmapEntry → Buddy
init_buddy memory kernel_end entries = build memory (init_region kernel_end entries)
