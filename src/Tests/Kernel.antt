-- ===== src/Tests/Kernel.antt =====
-- The theorems about the kernel's mappings at a kernel of three areas.
use mikrokernellib.Common.{
  ℕ, ◌+◌, ◌%◌, ◌≤◌, ◌<◌, ◌≡◌, ◌⊎◌, inl, inr, refl, false, some, [], ◌==◌, if◌then◌else◌, arith,
  bit_or, u64,
}
use mikrokernellib.Layout.{page_size, virt_to_pml4_idx, virt_to_pdpt_idx, virt_to_pd_idx}
use mikrokernellib.Mmu.{Mmu, has_flag, entry_at, wire_table}
use mikrokernellib.Mmu.Pages.{
  map_pages, map_pages_loop, map_huge_step, enter_pml4, enter_pdpt, first_cursor, next_page,
}
use mikrokernellib.RbTree.Model.{In}
use mikrokernellib.Slab.{
  Slab, kmem_cache_kalloc, choose_slab, not_empty, take_object, refile_taken, spinlock_acquire,
  spinlock_release,
}
use mikrokernellib.Paging.{Kernel, kmap_pages, kunmap_page, kunmap_huge_page, kunmap_pages}
use mikrokernellib.Paging.Area.{Mapped, mapped_bytes, tables, kmap_pages_lem}
use mikrokernellib.Paging.Regions.{region_spans}
use mikrokernellib.Paging.Tiles.{Tiling, region_spans_lem}
use mikrokernellib.Paging.Unknown.{kunmap_unknown}
use mikrokernellib.Tests.{
  three, three_tree, three-Shape, three-Sorted, three-Ordered, start_of, last_of, at_10, at_30,
}
use mikrokernellib.Tests.Memory.{empty_cache, huge_mapped}
use mikrokernellib.Tests.Trees.{three-Spells}

-- A cache at 0x9000 with a partial slab at 0xA000, whose next free object is at 0xA040.
abbrev ready_cache : Slab
ready_cache = record empty_cache {
  next = λ a. if a == 0x9028 then 0xA018 else a;
  inuse_num = λ a. 3;
  free_list = λ a. 0xA040;
  link = λ a. 0xA080;
}

abbrev kernel : Kernel
kernel = record {
  slab = ready_cache;
  mem = huge_mapped.mem;
  flushed = [];
  tree = three;
  start = start_of;
  last = last_of;
  pte = λ a. 0;
  kernel_pml4t = 0x1000;
  page_lock = false;
}

unknown : (m : ℕ) → In m three_tree → (9000 < start_of m) ⊎ (last_of m ≤ 9000)
unknown m (inl i) = inr (omega (arith, at_10 m i))
unknown m (inr (inl e)) = inr (omega (arith, e))
unknown m (inr (inr i)) = inr (omega (arith, at_30 m i))

kunmap_unknown_example :
    (kunmap_page 3 0x9000 0 9000 kernel ≡ some kernel)
    × (kunmap_huge_page 3 0x9000 0 9000 kernel ≡ some kernel)
    × (kunmap_pages 3 0x9000 0 9000 0x80 1 kernel ≡ some kernel)
kunmap_unknown_example =
    kunmap_unknown kernel three_tree 3 three-Shape three-Ordered (omega arith) 9000 unknown 0x9000 0
      0x80 1

-- The object at 0xA040 is taken.
abbrev taken_cache : Slab
taken_cache = record ready_cache {
  free_list = λ a. if a == 0xA000 then 0xA080 else 0xA040;
  inuse_num = λ a. if a == 0xA000 then 4 else 3;
}

-- The huge page of 2 MB at the same address.
abbrev written : Mmu
written = record {
  mem = λ a. if a == 0x3008 then 0x200083 else huge_mapped.mem a;
  buddy = empty_cache.buddy;
  flushed = [];
}

not_41048 : In 41048 three_tree → ⊥
not_41048 (inl i) = omega (arith, at_10 41048 i)
not_41048 (inr (inl e)) = omega (arith, e)
not_41048 (inr (inr i)) = omega (arith, at_30 41048 i)

takes : kmem_cache_kalloc 0x9000 kernel.slab ≡ some (0xA040, taken_cache)
unfolding kmem_cache_kalloc choose_slab not_empty take_object refile_taken spinlock_acquire
    spinlock_release
takes = refl

writes : map_pages 0x1000 0x200000 0x200000 0x83 1 (tables taken_cache kernel) ≡ some written
unfolding map_pages map_pages_loop map_huge_step enter_pml4 enter_pdpt first_cursor next_page
    has_flag entry_at wire_table virt_to_pml4_idx virt_to_pdpt_idx virt_to_pd_idx
writes = refl

kmap_pages_lem_example :
    (after : Kernel) × (kmap_pages 3 0x9000 0x200000 0x200000 0x83 1 kernel ≡ some after)
    × Mapped 41048 0x200000
        (u64 (0x200000 + mapped_bytes 0x83 1))
        (bit_or 0x200000 0x83)
        three_tree
        written
        after
kmap_pages_lem_example =
    kmap_pages_lem 3 0x9000 0x200000 0x200000 0x83 1 kernel three_tree 0xA040 taken_cache written
      three-Spells three-Sorted (omega arith) refl takes (omega arith) not_41048 writes

region_spans_lem_example :
    (lo : ℕ) × (hi : ℕ) × (0x100800 ≤ lo)
    × (lo < 0x100800 + page_size)
    × (hi ≤ 0x100800 + 0x700000)
    × (0x100800 + 0x700000 < hi + page_size)
    × (lo % page_size ≡ 0)
    × (hi % page_size ≡ 0)
    × (((hi ≤ lo) × (region_spans 0x100800 0x700000 ≡ []))
        ⊎ ((lo < hi) × Tiling lo hi (region_spans 0x100800 0x700000)))
region_spans_lem_example = region_spans_lem 0x100800 0x700000 (omega arith)
