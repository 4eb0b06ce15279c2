-- ===== src/PhysKmalloc/Mapped.antt =====
-- Pointers of src/mikroKernellib/mapped_phys_kmalloc.c and the physical ones behind them.
use mikrokernellib.Common.{ℕ, ◌≤◌, ◌<◌, ◌≡◌, refl, true, some, sub64, arith}
use mikrokernellib.Layout.{direct_map_start}
use mikrokernellib.Slab.{Slab}
use mikrokernellib.PhysKmalloc.{
  AllocFlag, is_direct_mapped_ptr, to_mapped, phys_kmalloc, phys_kfree, mapped_phys_kmalloc,
  mapped_phys_kfree,
}

mapped_ptr :
    (p : ℕ)
    → 1 ≤ p
    → p < 0x3C0000000000
    → (is_direct_mapped_ptr (to_mapped direct_map_start p) ≡ true)
      × (sub64 (to_mapped direct_map_start p) direct_map_start ≡ p)
unfolding is_direct_mapped_ptr to_mapped
mapped_ptr p pos small = (ground arith, ground arith)

-- Once `phys_map_offset` is DIRECT_MAP_START, and where `phys_kmalloc` returns a pointer that is not
-- NULL to memory below the span of the direct map, and `phys_kfree` of it returns:
-- `mapped_phys_kmalloc` returns the pointer moved by the offset, and `mapped_phys_kfree` of that
-- returns true, in the state that `phys_kfree` leaves.
pub mapped_kfree-kmalloc :
    (slab_caches size : ℕ) (flg : AllocFlag) (s s' s'' : Slab) (p : ℕ)
    → 1 ≤ p
    → p < 0x3C0000000000
    → phys_kmalloc slab_caches size flg s ≡ some (p, s')
    → phys_kfree slab_caches p size flg s' ≡ some s''
    → (mapped_phys_kmalloc direct_map_start slab_caches size flg s
        ≡ some (to_mapped direct_map_start p, s'))
      × (mapped_phys_kfree direct_map_start slab_caches (to_mapped direct_map_start p) size flg s'
          ≡ some (true, s''))
unfolding mapped_phys_kmalloc mapped_phys_kfree
mapped_kfree-kmalloc slab_caches size flg s s' s'' p pos small got freed =
    let (here, back) = mapped_ptr p pos small in
    (rw (got, mapped_phys_kmalloc) refl, rw (here, mapped_phys_kfree) (rw back (rw freed refl)))
