-- ===== src/Tests/Memory.antt =====
-- The theorems about the page tables and the slab allocator at concrete states.
use mikrokernellib.Common.{
  ◌<◌, ℕ, ◌≢◌, bit_or, ◌≡◌, ◌⊎◌, refl, true, false, Option, none, some, List, [], ◌∷◌, ◌==◌,
  if◌then◌else◌, arith, ◌≤◌, ◌^◌, ◌+◌,
}
use mikrokernellib.Layout.{direct_map_start, virt_to_pml4_idx, virt_to_pdpt_idx, virt_to_pd_idx}
use mikrokernellib.Buddy.{
  Buddy, order_loop, search_loop, buddy_kalloc, buddy_kfree, free_order, take_block, pop_block,
  split_loop, toggle_bitmap,
}
use mikrokernellib.Mmu.{
  Mmu, map_huge_page, unmap_huge, unmap_small, has_flag, entry_at, is_empty, is_empty_loop,
  phys_free_page, free_if_empty, clear_entry,
}
use mikrokernellib.Mmu.Mapped.{map_huge_page_lem}
use mikrokernellib.Mmu.Pages.{unmap_pages}
use mikrokernellib.Mmu.Loop.{Panic, Passed}
use mikrokernellib.Mmu.Range.{PageGone, PageWrong, PageDone, unmap_pages_lem}
use mikrokernellib.Mmu.Outcome.{WrongHuge, WrongPage, HugeDone, SmallDone, Unmapped}
use mikrokernellib.Mmu.Unmap.{unmap_huge_lem, unmap_small_lem}
use mikrokernellib.Mmu.Walk.{pd_entry, Cleared, NotMapped, NotMappedSmall}
use mikrokernellib.Slab.{size_to_index, Slab, kmem_cache_kalloc}
use mikrokernellib.Slab.Create.{kmem_cache_create_sl}
use mikrokernellib.Slab.Index.{size_to_index_lem}
use mikrokernellib.Slab.Lock.{kmem_cache_kalloc-released, create_sl-stuck}
use mikrokernellib.PhysKmalloc.{
  buddy_alloc, phys_kmalloc, phys_kfree, mapped_phys_kmalloc, mapped_phys_kfree, to_mapped,
  buddy_kalloc_in, buddy_kfree_in,
}
use mikrokernellib.PhysKmalloc.Mapped.{mapped_kfree-kmalloc}

-- One free page at 4 MB.
abbrev one_page : Buddy
one_page = record {
  base_address = 0x400000;
  size = 0x1000;
  min_order = 0;
  max_order = 10;
  free_lists_ptr = λ k. if k == 0 then 0x400000 else 0;
  bitmap = λ i. 0;
  order_offsets = λ k. k;
  next = λ a. 0;
  prev = λ a. 0;
}

-- The huge page at 1 GB, mapped at address 0 through tables at 4, 8 and 12 KB.
abbrev pub huge_mapped : Mmu
huge_mapped = record {
  mem = λ a.
      if a == 0x1000
      then 0x2003
      else (if a == 0x2000 then 0x3003 else (if a == 0x3000 then 0x40000083 else 0));
  buddy = one_page;
  flushed = [];
}

unmap_huge_lem_example :
    ((unmap_huge 0x1000 0x40000000 0 huge_mapped ≡ none)
      × WrongHuge huge_mapped.mem 0x1000 0x40000000 0)
    ⊎ ((s' : Mmu) × (unmap_huge 0x1000 0x40000000 0 huge_mapped ≡ some s')
        × HugeDone 0x1000 0x40000000 0 huge_mapped s'
        × Unmapped NotMapped 0x1000 0 huge_mapped s')
unmap_huge_lem_example = unmap_huge_lem 0x1000 0x40000000 0 huge_mapped

abbrev flushed_of : Option Mmu → List ℕ
flushed_of none = 7 ∷ []
flushed_of (some s) = s.flushed

unmap_huge_run : flushed_of (unmap_huge 0x1000 0x40000000 0 huge_mapped) ≡ 0 ∷ []
unfolding unmap_huge has_flag entry_at is_empty is_empty_loop phys_free_page free_if_empty
    clear_entry virt_to_pml4_idx virt_to_pdpt_idx virt_to_pd_idx order_loop buddy_kfree
unmap_huge_run = refl

-- The same with a table of 4 KB pages at 12 KB, and its own table at 16 KB.
abbrev page_mapped : Mmu
page_mapped = record huge_mapped {
  mem = λ a. if a == 0x3000 then 0x4003 else (if a == 0x4000 then 0x5003 else huge_mapped.mem a);
}

unmap_small_lem_example :
    ((unmap_small 0x1000 0x5000 0 page_mapped ≡ none) × WrongPage page_mapped.mem 0x1000 0x5000 0)
    ⊎ ((s' : Mmu) × (unmap_small 0x1000 0x5000 0 page_mapped ≡ some s')
        × SmallDone 0x1000 0x5000 0 page_mapped s'
        × Unmapped NotMappedSmall 0x1000 0 page_mapped s')
unmap_small_lem_example = unmap_small_lem 0x1000 0x5000 0 page_mapped

unmap_pages_lem_example :
    ((unmap_pages 0x1000 0x40000000 0 0x80 2 huge_mapped ≡ none)
      × Panic
          (λ mem. PageWrong (has_flag 0x80 0x80) mem 0x1000 0x40000000 0)
          (PageDone (has_flag 0x80 0x80) 0x1000 0x40000000 0)
          huge_mapped
          0
          2)
    ⊎ ((s' : Mmu) × (unmap_pages 0x1000 0x40000000 0 0x80 2 huge_mapped ≡ some s')
        × Passed (PageDone (has_flag 0x80 0x80) 0x1000 0x40000000 0) 2 0 huge_mapped s'
        × Cleared huge_mapped.mem s'.mem
        × ((j : ℕ) → j < 2 → PageGone (has_flag 0x80 0x80) s'.mem 0x1000 0 j))
unmap_pages_lem_example = unmap_pages_lem 0x1000 0x40000000 0 0x80 2 huge_mapped

-- A cache at 0x9000 with empty lists, for objects of 64 bytes.
abbrev pub empty_cache : Slab
empty_cache = record {
  object_size = λ c. 64;
  object_align = λ c. 16;
  slab_order = λ c. 0;
  objects_per_slab = λ c. 63;
  next = λ a. a;
  prev = λ a. a;
  inuse_num = λ a. 0;
  free_list = λ a. 0;
  cache_of = λ a. 0;
  link = λ a. 0;
  buddy = one_page;
  locked = false;
}

kmem_cache_kalloc-released_example :
    (ptr : ℕ) × (s' : Slab) × (kmem_cache_kalloc 0x9000 empty_cache ≡ some (ptr, s'))
    × (s'.locked ≡ false)
kmem_cache_kalloc-released_example =
    kmem_cache_kalloc-released 0x9000 empty_cache refl (omega arith)

create_sl-stuck_example :
    (s' : Slab) × (kmem_cache_create_sl 0x9000 0 empty_cache ≡ some (0, s'))
    × (kmem_cache_kalloc 0x9100 s' ≡ none)
create_sl-stuck_example = create_sl-stuck 0x9000 0x9100 empty_cache refl

abbrev page_taken : Slab
page_taken = record empty_cache { buddy = take_block 0 0 one_page }

abbrev page_back : Slab
page_back = record empty_cache { buddy = free_order 0x400000 0 (take_block 0 0 one_page) }

mapped_kfree-kmalloc_example :
    (mapped_phys_kmalloc direct_map_start 0 4096 buddy_alloc empty_cache
      ≡ some (to_mapped direct_map_start 0x400000, page_taken))
    × (mapped_phys_kfree direct_map_start 0
          (to_mapped direct_map_start 0x400000)
          4096
          buddy_alloc
          page_taken
        ≡ some (true, page_back))
unfolding phys_kmalloc phys_kfree buddy_kalloc_in buddy_kfree_in buddy_kalloc buddy_kfree order_loop
    search_loop take_block split_loop pop_block toggle_bitmap
mapped_kfree-kmalloc_example =
    mapped_kfree-kmalloc 0 4096 buddy_alloc empty_cache page_taken page_back 0x400000 (omega arith)
      (omega arith) refl refl

size_to_index_lem_example :
    (k : ℕ) × (size_to_index 100 ≡ some k)
    × (k < 8)
    × (100 ≤ 2 ^ (k + 4))
    × ((k ≡ 0) ⊎ (2 ^ (k + 3) < 100))
size_to_index_lem_example = size_to_index_lem 100 (omega arith) (omega arith)

map_huge_page_lem_example :
    (after : Mmu) × (map_huge_page 0x1000 0x200000 0x200000 0x83 huge_mapped ≡ some after)
    × (after.mem (pd_entry after.mem 0x1000 0x200000) ≡ bit_or 0x200000 0x83)
    × ((a : ℕ) → a ≢ pd_entry after.mem 0x1000 0x200000 → after.mem a ≡ huge_mapped.mem a)
unfolding has_flag entry_at virt_to_pml4_idx virt_to_pdpt_idx virt_to_pd_idx
map_huge_page_lem_example =
    map_huge_page_lem 0x1000 0x200000 0x200000 0x83 huge_mapped refl refl refl (omega arith)
      (omega arith)
