-- ===== src/Layout.antt =====
-- Constants of the kernel: page sizes (include/mikroKernellib-common.h), the virtual address
-- space, page table entry bits and the translation of physical pointers (include/mmu.h).
pub mod DirectMap
use mikrokernellib.Common.{ℕ, ◌+◌, ◌*◌, ◌/◌, ◌^◌, bit_and, Bool, ltb, if◌then◌else◌, u64, ◌>>◌}

abbrev pub page_size : ℕ
page_size = 0x1000

abbrev pub huge_page_size : ℕ
huge_page_size = 0x200000

abbrev pub pml4_kernel_half_base : ℕ
pml4_kernel_half_base = 0xFFFF800000000000

abbrev pub direct_map_start : ℕ
direct_map_start = 0xFFFF800000200000

abbrev pub direct_map_end : ℕ
direct_map_end = 0xFFFFBC0000200000

abbrev pub kernel_image_start : ℕ
kernel_image_start = 0xFFFFFFFF80000000

abbrev pub pte_present : ℕ
pte_present = 0x1

abbrev pub pte_writable : ℕ
pte_writable = 0x2

abbrev pub pte_huge_page : ℕ
pte_huge_page = 0x80

abbrev pub pte_addr_mask : ℕ
pte_addr_mask = 0x000FFFFFFFFFF000

-- The four table indices of a virtual address, nine bits each.
unfoldable pub virt_to_pml4_idx : ℕ → ℕ
virt_to_pml4_idx virt = bit_and (virt >> 39) 0x1FF

unfoldable pub virt_to_pdpt_idx : ℕ → ℕ
virt_to_pdpt_idx virt = bit_and (virt >> 30) 0x1FF

unfoldable pub virt_to_pd_idx : ℕ → ℕ
virt_to_pd_idx virt = bit_and (virt >> 21) 0x1FF

unfoldable pub virt_to_pt_idx : ℕ → ℕ
virt_to_pt_idx virt = bit_and (virt >> 12) 0x1FF

-- `directmap_p2v` under a given `phys_map_offset`.
unfoldable pub directmap_p2v : ℕ → ℕ → ℕ
directmap_p2v phys_map_offset p =
    if ltb p pml4_kernel_half_base then u64 (p + phys_map_offset) else p
