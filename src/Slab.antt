-- ===== src/Slab.antt =====
-- The slab allocator of src/mikroKernellib/phys_kmalloc.c, with `slab_descriptor` and `kmem_cache`
-- of include/phys_kmalloc.h. A pointer is a number and each field a function from the stored
-- pointer; `link` is the word at the head of a free object. `slab_lists_node` lies 24 bytes into a
-- descriptor of 40 bytes; the three list heads of a cache of 72 bytes lie at 24, 40 and 56.
-- `slab_lock` is `locked`; `none` is a wait for a lock that is never released, or a loop that never
-- ends. `buddy_lock` is always released by the buddy allocator, and is left out.
pub mod Create
pub mod Index
pub mod Lock
use mikrokernellib.Common.{
  ℕ, zero, suc, ◌+◌, ◌-◌, ◌*◌, ◌/◌, ◌%◌, ◌^◌, bit_and, Bool, true, false, Option, none, some, ltb,
  leb, ◌==◌, if◌then◌else◌, ◌>>=◌, update, u8, u32, u64, sub64, ◌<<◌,
}
use mikrokernellib.Layout.{page_size}
use mikrokernellib.Kmath.{align_up, klog2, round_up_pow2, buddy_order}
use mikrokernellib.Buddy.{Buddy, chunk_bytes, buddy_kalloc}

pub record Slab : Type 0 where
  pub object_size : ℕ → ℕ
  pub object_align : ℕ → ℕ
  pub slab_order : ℕ → ℕ
  pub objects_per_slab : ℕ → ℕ
  pub next : ℕ → ℕ
  pub prev : ℕ → ℕ
  pub inuse_num : ℕ → ℕ
  pub free_list : ℕ → ℕ
  pub cache_of : ℕ → ℕ
  pub link : ℕ → ℕ
  pub buddy : Buddy
  pub locked : Bool

abbrev pub descriptor_bytes : ℕ
descriptor_bytes = 40

abbrev pub free_slabs : ℕ → ℕ
free_slabs cache = cache + 24

abbrev pub partial_slabs : ℕ → ℕ
partial_slabs cache = cache + 40

abbrev pub full_slabs : ℕ → ℕ
full_slabs cache = cache + 56

abbrev pub slab_lists_node : ℕ → ℕ
slab_lists_node desc = desc + 24

abbrev pub minus_one32 : ℕ
minus_one32 = 2 ^ 32 - 1

abbrev pub minus_one64 : ℕ
minus_one64 = 2 ^ 64 - 1

-- (sizeof(slab_descriptor) + object_align - 1) & ~(object_align - 1)
unfoldable pub first_object_offset : ℕ → ℕ
first_object_offset align =
    bit_and (u64 (descriptor_bytes + align + 2 ^ 64 - 1)) (2 ^ 32 - 1 - u32 (align + 2 ^ 32 - 1))

unfoldable pub size_to_index : ℕ → Option ℕ
size_to_index size = if size == 0 then some minus_one32 else (do
  let clamped = if ltb size 16 then 16 else size
  high ← klog2 (round_up_pow2 (u32 clamped))
  low ← klog2 16
  some (u32 (high + 2 ^ 32 - low)))

unfoldable pub spinlock_acquire : Slab → Option Slab
spinlock_acquire s = if s.locked then none else some (record s { locked = true })

unfoldable pub spinlock_release : Slab → Slab
spinlock_release s = record s { locked = false }

-- The free list through the objects from number `idx` on.
unfoldable pub thread_loop : ℕ → ℕ → ℕ → ℕ → ℕ → (ℕ → ℕ) → ℕ → ℕ
thread_loop zero idx first size count link = link
thread_loop (suc rounds) idx first size count link =
    let object_addr = u64 (first + idx * size) in
    thread_loop rounds (idx + 1) first size count
      (update link object_addr (if ltb idx (count - 1) then u64 (object_addr + size) else 0))

-- `node` at the front of the list of `head`.
unfoldable pub insert_front : ℕ → ℕ → Slab → Slab
insert_front head node s =
    let next = update s.next node (s.next head) in
    let prev = update s.prev node head in
    record s { prev = update prev (next head) node; next = update next head node }

-- `node` out of its list.
unfoldable pub unlink_node : ℕ → Slab → Slab
unlink_node node s =
    let next = update s.next (s.prev node) (s.next node) in
    record s { next = next; prev = update s.prev (next node) (s.prev node) }

-- A new slab at `descriptor`.
unfoldable pub install_slab : ℕ → ℕ → Slab → Slab
install_slab cache descriptor s =
    let first = u64 (descriptor + first_object_offset (s.object_align cache)) in
    let count = s.objects_per_slab cache in
    insert_front (free_slabs cache) (slab_lists_node descriptor) (record s {
      cache_of = update s.cache_of descriptor cache;
      inuse_num = update s.inuse_num descriptor 0;
      link = thread_loop count 0 first (s.object_size cache) count s.link;
      free_list = update s.free_list descriptor first;
    })

-- `false` is STATUS_ERROR.
unfoldable pub kmem_cache_grow : ℕ → Slab → Option (Bool × Slab)
kmem_cache_grow cache s = do
  (descriptor, buddy) ← buddy_kalloc (chunk_bytes (s.slab_order cache)) s.buddy
  if descriptor == 0
      then some (false, record s { buddy = buddy })
      else some (true, install_slab cache descriptor (record s { buddy = buddy }))

-- list.next != &list
unfoldable pub not_empty : ℕ → Slab → Bool
not_empty head s = if s.next head == head then false else true

-- The descriptor to allocate from: of a partial slab, of a free one, or of a new one; 0 if there
-- is none. The lock is released while the cache grows.
unfoldable pub choose_slab : ℕ → Slab → Option (ℕ × Slab)
choose_slab cache s =
    if not_empty (partial_slabs cache) s
    then some (sub64 (s.next (partial_slabs cache)) 24, s)
    else (if not_empty (free_slabs cache) s
        then some (sub64 (s.next (free_slabs cache)) 24, s)
        else (do
          (grown, after) ← kmem_cache_grow cache (spinlock_release s)
          held ← spinlock_acquire after
          if grown then some (sub64 (held.next (free_slabs cache)) 24, held) else some (0, held)))

-- The move of a slab between the lists once an object is taken.
unfoldable pub refile_taken : ℕ → ℕ → Slab → Slab
refile_taken cache desc s =
    let node = slab_lists_node desc in
    if s.inuse_num desc == s.objects_per_slab cache
    then insert_front (full_slabs cache) node (unlink_node node s)
    else (if s.inuse_num desc == 1
        then insert_front (partial_slabs cache) node (unlink_node node s)
        else s)

-- The pop off the free list of the slab.
unfoldable pub take_object : ℕ → ℕ → Slab → ℕ × Slab
take_object cache desc s =
    let ptr = s.free_list desc in
    if ptr == 0 then (0, s) else (
      ptr,
      refile_taken cache desc (record s {
        free_list = update s.free_list desc (s.link ptr);
        inuse_num = update s.inuse_num desc (u32 (s.inuse_num desc + 1));
      }),
    )

unfoldable pub kmem_cache_kalloc : ℕ → Slab → Option (ℕ × Slab)
kmem_cache_kalloc cache s = do
  held ← spinlock_acquire s
  (desc, chosen) ← choose_slab cache held
  if desc == 0
      then some (0, spinlock_release chosen)
      else (let (ptr, after) = take_object cache desc chosen in some (ptr, spinlock_release after))

-- The move of a slab between the lists once an object is given back.
unfoldable pub refile_freed : ℕ → ℕ → Slab → Slab
refile_freed cache desc s =
    let node = slab_lists_node desc in
    if s.inuse_num desc == 0
    then insert_front (free_slabs cache) node (unlink_node node s)
    else (if s.inuse_num desc == u32 (s.objects_per_slab cache + 2 ^ 32 - 1)
        then insert_front (partial_slabs cache) node (unlink_node node s)
        else s)

-- The push on the free list of the slab that holds `object`.
unfoldable pub give_object : ℕ → ℕ → ℕ → Slab → Slab
give_object cache desc object s =
    let filed =
      refile_freed cache desc
        (record s { inuse_num = update s.inuse_num desc (u32 (s.inuse_num desc + 2 ^ 32 - 1)) }) in
    record filed {
      link = update filed.link object (filed.free_list desc);
      free_list = update filed.free_list desc object;
    }

-- object & ~(slab_size - 1)
unfoldable pub slab_base : ℕ → ℕ → Slab → ℕ
slab_base cache object s =
    bit_and object (2 ^ 64 - 1 - sub64 (u32 (page_size << s.slab_order cache)) 1)

unfoldable pub kmem_cache_kfree : ℕ → ℕ → Slab → Option Slab
kmem_cache_kfree cache object s = do
  held ← spinlock_acquire s
  some (spinlock_release (give_object cache (slab_base cache object held) object held))

unfoldable pub slab_kalloc : ℕ → ℕ → Slab → Option (ℕ × Slab)
slab_kalloc slab_caches size s = if ltb 2048 size then some (0, s) else (do
  index ← size_to_index size
  if leb 8 index then some (0, s) else kmem_cache_kalloc (slab_caches + 72 * index) s)

unfoldable pub slab_kfree : ℕ → ℕ → ℕ → Slab → Option Slab
slab_kfree slab_caches object size s = do
  index ← size_to_index size
  if leb 8 index then some s else kmem_cache_kfree (slab_caches + 72 * index) object s
