-- ===== src/Paging/Boot.antt =====
-- The start of the kernel's address space, of src/mikroKernellib/paging.c: its image, stack, direct
-- mapping and framebuffer. The bounds of the image are symbols of the linker.
use mikrokernellib.Common.{
  ℕ, ◌+◌, ◌-◌, ◌*◌, ◌/◌, bit_or, false, List, Option, none, some, ◌==◌, if◌then◌else◌, ◌>>=◌, u64,
  sub64,
}
use mikrokernellib.Layout.{
  page_size, pte_present, pte_writable, pte_huge_page, kernel_image_start, direct_map_start,
}
use mikrokernellib.Mmu.{memset_pg}
use mikrokernellib.PhysKmalloc.{phys_kmalloc, buddy_alloc}
use mikrokernellib.Slab.Create.{kmem_cache_create_sl}
use mikrokernellib.Buddy.Init.{MmapEntry}
use mikrokernellib.Vesa.{BootVbeHandoff, Vesa, vesa_set_fb_virtual}
use mikrokernellib.Paging.{Kernel, kmap_pages, kunmap_pages}
use mikrokernellib.Paging.Regions.{pte_global, pte_nx, map_direct_mapping, map_framebuffer}

abbrev pub kernel_stacks_start : ℕ
kernel_stacks_start = 0xFFFFFC0000600000

pub record Image : Type 0 where
  pub kernel_start : ℕ
  pub text_end : ℕ
  pub rodata_start : ℕ
  pub rodata_end : ℕ
  pub data_start : ℕ
  pub kernel_end : ℕ

abbrev kernel_code : ℕ
kernel_code = bit_or pte_present pte_global

abbrev kernel_data : ℕ
kernel_data = bit_or (bit_or (bit_or pte_present pte_writable) pte_nx) pte_global

-- A chunk of the buddy allocator; NULL is a PANIC.
unfoldable pub take_chunk : ℕ → ℕ → Kernel → Option (ℕ × Kernel)
take_chunk slab_caches size k = do
  (chunk, slab) ← phys_kmalloc slab_caches size buddy_alloc k.slab
  if chunk == 0 then none else some (chunk, record k { slab = slab })

-- A stack of four pages; the address is the one for `rsp`.
unfoldable pub map_stacks : ℕ → ℕ → ℕ → Kernel → Option (ℕ × Kernel)
map_stacks rounds slab_caches vma_cache k = do
  (stack, taken) ← take_chunk slab_caches (4 * page_size) k
  let mem = memset_pg (stack + 3 * page_size) (
      memset_pg (stack + 2 * page_size) (memset_pg (stack + page_size) (memset_pg stack taken.mem)))
  mapped ←
      kmap_pages rounds vma_cache stack kernel_stacks_start kernel_data 4
        (record taken { mem = mem })
  some (u64 (kernel_stacks_start + 4 * page_size - 8), mapped)

abbrev boot_flags : ℕ
boot_flags = bit_or (bit_or pte_present pte_writable) pte_huge_page

unfoldable pub map_boot_memory : ℕ → ℕ → Kernel → Option Kernel
map_boot_memory rounds vma_cache k = kmap_pages rounds vma_cache 0 0 boot_flags 8 k

unfoldable pub unmap_boot_memory : ℕ → ℕ → Kernel → Option Kernel
unmap_boot_memory rounds vma_cache k = kunmap_pages rounds vma_cache 0 0 boot_flags 8 k

-- A section of the image from `first` to `end`, whose physical address is `first` less the base.
unfoldable pub map_section : ℕ → ℕ → ℕ → ℕ → ℕ → Kernel → Option Kernel
map_section rounds vma_cache first end flags k =
    kmap_pages rounds vma_cache (sub64 first kernel_image_start) first flags
      (sub64 end first / page_size) k

-- The 16 KB behind the image hold the metadata of the buddy allocator.
unfoldable pub map_metadata : ℕ → ℕ → Image → Kernel → Option Kernel
map_metadata rounds vma_cache image k =
    let vaddr =
      u64 (image.data_start + sub64 image.kernel_end image.data_start / page_size * page_size) in
    kmap_pages rounds vma_cache (sub64 vaddr kernel_image_start) vaddr
      (bit_or (bit_or (bit_or pte_present pte_nx) pte_global) pte_writable) 4 k

-- The kernel on its own tables: the address for `rsp`, the register `cr3`, `phys_map_offset`, and the
-- screen through the direct map.
pub record Booted : Type 0 where
  pub virt_rsp : ℕ
  pub kernel : Kernel
  pub cr3 : ℕ
  pub phys_map_offset : ℕ
  pub screen : Vesa

unfoldable pub init_mmu :
    ℕ → ℕ → ℕ → Image → List MmapEntry → BootVbeHandoff → Vesa → Kernel → Option Booted
init_mmu rounds slab_caches vma_cache image entries vbe screen k = do
  (cache, created) ← kmem_cache_create_sl vma_cache 56 k.slab
  (pml4t, taken) ← take_chunk slab_caches page_size (record k { slab = created; page_lock = false })
  let empty = record taken { kernel_pml4t = pml4t; mem = memset_pg pml4t taken.mem }
  text ← map_section rounds vma_cache image.kernel_start image.text_end kernel_code empty
  rodata ←
      map_section rounds vma_cache image.rodata_start image.rodata_end
        (bit_or (bit_or pte_present pte_nx) pte_global) text
  data_ ← map_section rounds vma_cache image.data_start image.kernel_end kernel_data rodata
  metadata ← map_metadata rounds vma_cache image data_
  (rsp, stacked) ← map_stacks rounds slab_caches vma_cache metadata
  direct ← map_direct_mapping rounds vma_cache entries stacked
  boot ← map_boot_memory rounds vma_cache direct
  framebuffer ← map_framebuffer rounds vma_cache vbe boot
  some (record {
    virt_rsp = rsp;
    kernel = framebuffer;
    cr3 = pml4t;
    phys_map_offset = direct_map_start;
    screen = vesa_set_fb_virtual (direct_map_start + vbe.framebuffer_address) screen;
  })
