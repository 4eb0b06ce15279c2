-- ===== src/Slab/Create.antt =====
-- The creation of caches of src/mikroKernellib/phys_kmalloc.c: `kmem_cache_create`, `__init_slab` and
-- `kmem_cache_create_sl`.
use mikrokernellib.Common.{
  ℕ, zero, suc, ◌+◌, ◌-◌, ◌*◌, ◌/◌, ◌^◌, bit_and, Bool, true, false, Option, some, ltb, ◌==◌,
  if◌then◌else◌, ◌>>=◌, update, u8, u32, u64, sub64, ◌<<◌,
}
use mikrokernellib.Layout.{page_size}
use mikrokernellib.Kmath.{align_up, buddy_order}
use mikrokernellib.Slab.{
  Slab, descriptor_bytes, free_slabs, partial_slabs, full_slabs, minus_one32, minus_one64,
  first_object_offset, size_to_index, spinlock_acquire, spinlock_release,
}

-- An `int` that is added to a size_t.
abbrev pub sext32 : ℕ → ℕ
sext32 x = if ltb x (2 ^ 31) then x else x + (2 ^ 64 - 2 ^ 32)

unfoldable pub calc_alignment : ℕ → ℕ
calc_alignment align = sub64 (first_object_offset align) descriptor_bytes

unfoldable pub calc_objects_per_slab : ℕ → Slab → ℕ
calc_objects_per_slab cache s =
    let total_bytes = sext32 (u32 (page_size << s.slab_order cache)) in
    let rem = sub64 (sub64 total_bytes descriptor_bytes) (calc_alignment (s.object_align cache)) in
    let objects_per_slab = rem / s.object_size cache in
    if ltb objects_per_slab 8 then minus_one64 else objects_per_slab

unfoldable pub calc_object_align : ℕ → ℕ
calc_object_align size =
    let largest_pow2 = bit_and size (sub64 0 size) in
    if size == 0 then minus_one32 else (if ltb largest_pow2 16 then largest_pow2 else 16)

unfoldable pub calc_slab_order : ℕ → Option ℕ
calc_slab_order size =
    let min_size = u64 (size * 8 + descriptor_bytes + 16) in
    if size == 0 then some minus_one32 else buddy_order (align_up (u32 min_size) page_size)

-- An empty list: its head points to itself.
unfoldable pub init_list : ℕ → Slab → Slab
init_list head s = record s { next = update s.next head head; prev = update s.prev head head }

unfoldable pub init_lists : ℕ → Slab → Slab
init_lists cache s =
    init_list (full_slabs cache) (init_list (partial_slabs cache) (init_list (free_slabs cache) s))

-- What follows the check of the alignment in both `kmem_cache_create` and `kmem_cache_create_sl`.
unfoldable pub set_objects : ℕ → Slab → ℕ × Slab
set_objects cache s =
    let objects_per_slab = calc_objects_per_slab cache s in
    if objects_per_slab == minus_one64 then (0, s) else (
      cache,
      init_lists cache
          (record s { objects_per_slab = update s.objects_per_slab cache (u32 objects_per_slab) }),
    )

unfoldable pub set_size : ℕ → ℕ → Slab → Slab
set_size cache size s = record s {
  object_size = update s.object_size cache size;
  object_align = update s.object_align cache (calc_object_align size);
}

-- The pointer returned and the state.
unfoldable pub kmem_cache_create : ℕ → ℕ → Slab → Option (ℕ × Slab)
kmem_cache_create cache size s =
    let sized = set_size cache size s in
    if sized.object_align cache == minus_one32 then some (0, sized) else (do
      slab_order ← calc_slab_order size
      if slab_order == minus_one32
          then some (0, sized)
          else some (
              set_objects cache
                (record sized { slab_order = update s.slab_order cache (u8 slab_order) })))

-- The loop of `__init_slab` over the powers from `pow` on; `false` is STATUS_ERROR.
unfoldable pub init_slab_loop : ℕ → ℕ → ℕ → Slab → Option (Bool × Slab)
init_slab_loop zero pow slab_caches s = some (true, s)
init_slab_loop (suc rounds) pow slab_caches s = do
  index ← size_to_index (1 << pow)
  (cache, after) ← kmem_cache_create (slab_caches + 72 * index) (1 << pow) s
  if cache == 0 then some (false, after) else init_slab_loop rounds (pow + 1) slab_caches after

unfoldable pub init_slab : ℕ → Slab → Option (Bool × Slab)
init_slab slab_caches s = init_slab_loop 8 4 slab_caches (record s { locked = false })

unfoldable pub release_created : ℕ × Slab → ℕ × Slab
release_created (created, after) = (created, if created == 0 then after else spinlock_release after)

unfoldable pub finish_create_sl : ℕ → ℕ → Slab → Option (ℕ × Slab)
finish_create_sl cache object_size sized =
    if sized.object_align cache == minus_one32 then some (0, sized) else (do
      slab_order ← calc_slab_order object_size
      some (
          release_created (
            set_objects cache
              (record sized { slab_order = update sized.slab_order cache (u8 slab_order) }))))

-- The two early returns leave the lock taken.
unfoldable pub kmem_cache_create_sl : ℕ → ℕ → Slab → Option (ℕ × Slab)
kmem_cache_create_sl cache object_size s = do
  held ← spinlock_acquire s
  finish_create_sl cache object_size (set_size cache object_size held)
