-- ===== src/PhysKmalloc.antt =====
-- `phys_kmalloc` and `phys_kfree` of src/mikroKernellib/phys_kmalloc.c, which choose between the
-- buddy and the slab allocator, and the layer of src/mikroKernellib/mapped_phys_kmalloc.c that
-- hands out pointers into the direct map. `slab_caches` is the address of the array of caches, and
-- `offset` is `phys_map_offset`. Any other flag than the first two is CHOOSE_ALLOC.
pub mod Mapped
use mikrokernellib.Common.{
  ℕ, ◌+◌, ◌-◌, ◌^◌, Bool, true, false, ◌&&◌, Option, none, some, ltb, leb, ◌==◌, if◌then◌else◌,
  ◌>>=◌, u64, sub64,
}
use mikrokernellib.Layout.{page_size, direct_map_start, direct_map_end}
use mikrokernellib.Buddy.{buddy_kalloc, buddy_kfree}
use mikrokernellib.Slab.{Slab, slab_kalloc, slab_kfree, kmem_cache_kalloc, kmem_cache_kfree}

pub data AllocFlag : Type 0 where
  buddy_alloc : AllocFlag
  slab_alloc : AllocFlag
  choose_alloc : AllocFlag

unfoldable pub buddy_kalloc_in : ℕ → Slab → Option (ℕ × Slab)
buddy_kalloc_in size s = do
  (p, buddy) ← buddy_kalloc size s.buddy
  some (p, record s { buddy = buddy })

unfoldable pub buddy_kfree_in : ℕ → ℕ → Slab → Option Slab
buddy_kfree_in chunk size s = do
  buddy ← buddy_kfree chunk size s.buddy
  some (record s { buddy = buddy })

unfoldable pub phys_kmalloc : ℕ → ℕ → AllocFlag → Slab → Option (ℕ × Slab)
phys_kmalloc slab_caches size buddy_alloc s = buddy_kalloc_in size s
phys_kmalloc slab_caches size slab_alloc s = slab_kalloc slab_caches size s
phys_kmalloc slab_caches size choose_alloc s =
    if leb size 2048 then slab_kalloc slab_caches size s else buddy_kalloc_in size s

unfoldable pub phys_kfree : ℕ → ℕ → ℕ → AllocFlag → Slab → Option Slab
phys_kfree slab_caches ptr size buddy_alloc s = buddy_kfree_in ptr size s
phys_kfree slab_caches ptr size slab_alloc s = slab_kfree slab_caches ptr size s
phys_kfree slab_caches ptr size choose_alloc s =
    if leb size 2048 then slab_kfree slab_caches ptr size s else buddy_kfree_in ptr size s

unfoldable pub free_phys_page : ℕ → Slab → Option Slab
free_phys_page page s = if page == 0 then some s else buddy_kfree_in page page_size s

unfoldable pub is_direct_mapped_ptr : ℕ → Bool
is_direct_mapped_ptr ptr = leb direct_map_start ptr && ltb ptr direct_map_end

-- A pointer that is not NULL moves into the direct map.
unfoldable pub to_mapped : ℕ → ℕ → ℕ
to_mapped offset ptr = if ptr == 0 then 0 else u64 (ptr + offset)

unfoldable pub mapped_phys_kmalloc : ℕ → ℕ → ℕ → AllocFlag → Slab → Option (ℕ × Slab)
mapped_phys_kmalloc offset slab_caches size flg s = do
  (ptr, after) ← phys_kmalloc slab_caches size flg s
  some (to_mapped offset ptr, after)

unfoldable pub mapped_phys_kfree : ℕ → ℕ → ℕ → ℕ → AllocFlag → Slab → Option (Bool × Slab)
mapped_phys_kfree offset slab_caches ptr size flg s =
    if is_direct_mapped_ptr ptr
    then (do after ← phys_kfree slab_caches (sub64 ptr offset) size flg s; some (true, after))
    else some (false, s)

unfoldable pub mapped_kmem_cache_kalloc : ℕ → ℕ → Slab → Option (ℕ × Slab)
mapped_kmem_cache_kalloc offset cache s = do
  (object, after) ← kmem_cache_kalloc cache s
  some (to_mapped offset object, after)

unfoldable pub mapped_kmem_cache_kfree : ℕ → ℕ → ℕ → Slab → Option (Bool × Slab)
mapped_kmem_cache_kfree offset cache object s =
    if is_direct_mapped_ptr object
    then (do after ← kmem_cache_kfree cache (sub64 object offset) s; some (true, after))
    else some (false, s)

unfoldable pub mapped_buddy_kalloc : ℕ → ℕ → Slab → Option (ℕ × Slab)
mapped_buddy_kalloc offset size s = do
  (chunk, after) ← buddy_kalloc_in size s
  some (to_mapped offset chunk, after)

unfoldable pub mapped_buddy_kfree : ℕ → ℕ → ℕ → Slab → Option (Bool × Slab)
mapped_buddy_kfree offset chunk size s =
    if is_direct_mapped_ptr chunk
    then (do after ← buddy_kfree_in (sub64 chunk offset) size s; some (true, after))
    else some (false, s)

unfoldable pub free_page : ℕ → ℕ → Slab → Option (Bool × Slab)
free_page offset page s =
    if is_direct_mapped_ptr page
    then (do after ← free_phys_page (sub64 page offset) s; some (true, after))
    else some (false, s)
