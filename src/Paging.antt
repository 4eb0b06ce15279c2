-- ===== src/Paging.antt =====
-- The kernel mappings of src/mikroKernellib/paging.c. The kernel's tree of virtual memory areas, its
-- page tables and the allocators are one state. An area `vma_t` of include/vm.h has its `node` 24
-- bytes in, and `start`, `last` and `pte` are its other fields by the pointer of that node.
-- `vma_cache` is the address of the cache, and `rounds` bounds the loops over the tree. `none` is a
-- PANIC, a wait for a lock that is never released, or a run out of rounds.
pub mod Regions
pub mod Boot
pub mod Tiles
pub mod Unknown
pub mod Area
use mikrokernellib.Common.{
  ℕ, ◌+◌, ◌-◌, ◌*◌, ◌%◌, ◌^◌, bit_or, Bool, true, false, not, List, Option, none, some, ◌==◌,
  if◌then◌else◌, ◌>>=◌, update, u64,
}
use mikrokernellib.Layout.{page_size, huge_page_size, pte_huge_page}
use mikrokernellib.Slab.{Slab, kmem_cache_kalloc, kmem_cache_kfree}
use mikrokernellib.RbTree.{RbTree}
use mikrokernellib.RbTree.Insert.{rb_insert}
use mikrokernellib.RbTree.Delete.{rb_delete}
use mikrokernellib.Vm.{vma_cmp, rb_find_vma}
use mikrokernellib.Mmu.{Mmu, has_flag, map_page, map_huge_page, unmap_page, unmap_huge_page}
use mikrokernellib.Mmu.Pages.{map_pages, unmap_pages}

pub record Kernel : Type 0 where
  pub slab : Slab
  pub mem : ℕ → ℕ
  pub flushed : List ℕ
  pub tree : RbTree
  pub start : ℕ → ℕ
  pub last : ℕ → ℕ
  pub pte : ℕ → ℕ
  pub kernel_pml4t : ℕ
  pub page_lock : Bool

-- `&v->node`, and `container_of` back.
abbrev pub vma_node : ℕ → ℕ
vma_node vma = vma + 24

abbrev pub vma_of_node : ℕ → ℕ
vma_of_node node = node - 24

unfoldable pub acquire_page_lock : Kernel → Option Kernel
acquire_page_lock k = if k.page_lock then none else some (record k { page_lock = true })

unfoldable pub release_page_lock : Kernel → Kernel
release_page_lock k = record k { page_lock = false }

unfoldable pub rb_insert_vma : ℕ → ℕ → Kernel → Option Kernel
rb_insert_vma rounds vma k = do
  (inserted, tree) ← rb_insert rounds (vma_node vma) (vma_cmp k.start) k.tree
  some (record k { tree = tree })

unfoldable pub rb_remove_vma : ℕ → ℕ → Kernel → Option Kernel
rb_remove_vma rounds vma k = do
  (removed, tree) ← rb_delete rounds (vma_node vma) (vma_cmp k.start) k.tree
  some (record k { tree = tree })

-- A call of src/mikroKernellib/mmu.c on the kernel's page tables.
unfoldable pub on_tables : (ℕ → Mmu → Option Mmu) → Kernel → Option Kernel
on_tables f k = do
  s ← f k.kernel_pml4t (record { mem = k.mem; buddy = k.slab.buddy; flushed = k.flushed })
  some (record k { slab = record k.slab { buddy = s.buddy }; mem = s.mem; flushed = s.flushed })

-- A new area of `bytes` bytes.
unfoldable pub new_vma : ℕ → ℕ → ℕ → ℕ → ℕ → Kernel → Option (ℕ × Kernel)
new_vma vma_cache paddr vaddr flags bytes k = do
  (vma, slab) ← kmem_cache_kalloc vma_cache k.slab
  if vma == 0
      then none
      else some (
        vma,
        record k {
          slab = slab;
          start = update k.start (vma_node vma) vaddr;
          last = update k.last (vma_node vma) (u64 (vaddr + bytes));
          pte = update k.pte (vma_node vma) (bit_or paddr flags);
        },
      )

-- The area into the tree, and the pages into the tables, under the lock.
unfoldable pub map_area : ℕ → ℕ → (ℕ → Mmu → Option Mmu) → Kernel → Option Kernel
map_area rounds vma f k = do
  held ← acquire_page_lock k
  inserted ← rb_insert_vma rounds vma held
  mapped ← on_tables f inserted
  some (release_page_lock mapped)

unfoldable pub kmap_page : ℕ → ℕ → ℕ → ℕ → ℕ → Kernel → Option Kernel
kmap_page rounds vma_cache paddr vaddr flags k = do
  (vma, made) ← new_vma vma_cache paddr vaddr flags page_size k
  map_area rounds vma (λ pml4t s. map_page pml4t paddr vaddr flags s) made

unfoldable pub kmap_huge_page : ℕ → ℕ → ℕ → ℕ → ℕ → Kernel → Option Kernel
kmap_huge_page rounds vma_cache paddr vaddr flags k = do
  (vma, made) ← new_vma vma_cache paddr vaddr flags huge_page_size k
  map_area rounds vma (λ pml4t s. map_huge_page pml4t paddr vaddr flags s) made

unfoldable pub kmap_pages : ℕ → ℕ → ℕ → ℕ → ℕ → ℕ → Kernel → Option Kernel
kmap_pages rounds vma_cache paddr vaddr flags num_pages k = do
  (vma, made) ←
      if has_flag flags pte_huge_page
      then new_vma vma_cache paddr vaddr flags (num_pages * huge_page_size) k
      else new_vma vma_cache paddr vaddr flags (num_pages * page_size) k
  map_area rounds vma (λ pml4t s. map_pages pml4t paddr vaddr flags num_pages s) made

-- The area of `vaddr` out of the tree and freed, and the pages out of the tables. The area is looked
-- up before the lock is taken.
unfoldable pub unmap_area : ℕ → ℕ → ℕ → (ℕ → Mmu → Option Mmu) → Kernel → Option Kernel
unmap_area rounds vma_cache vaddr f k = do
  node ← rb_find_vma rounds vaddr k.start k.last k.tree
  if node == 0 then some k else (do
    held ← acquire_page_lock k
    removed ← rb_remove_vma rounds (vma_of_node node) held
    slab ← kmem_cache_kfree vma_cache (vma_of_node node) removed.slab
    unmapped ← on_tables f (record removed { slab = slab })
    some (release_page_lock unmapped))

unfoldable pub kunmap_page : ℕ → ℕ → ℕ → ℕ → Kernel → Option Kernel
kunmap_page rounds vma_cache paddr vaddr k =
    unmap_area rounds vma_cache vaddr (λ pml4t s. unmap_page pml4t paddr vaddr s) k

unfoldable pub kunmap_huge_page : ℕ → ℕ → ℕ → ℕ → Kernel → Option Kernel
kunmap_huge_page rounds vma_cache paddr vaddr k =
    unmap_area rounds vma_cache vaddr (λ pml4t s. unmap_huge_page pml4t paddr vaddr s) k

unfoldable pub kunmap_pages : ℕ → ℕ → ℕ → ℕ → ℕ → ℕ → Kernel → Option Kernel
kunmap_pages rounds vma_cache paddr vaddr flags num_pages k =
    unmap_area rounds vma_cache vaddr (λ pml4t s. unmap_pages pml4t paddr vaddr flags num_pages s) k
