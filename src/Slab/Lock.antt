-- ===== src/Slab/Lock.antt =====
-- The lock of the slab allocator of src/mikroKernellib/phys_kmalloc.c.
use native.Mathlib.Nat.{pow-le-pow_right}
use mikrokernellib.Common.{
  ℕ, ◌+◌, ◌-◌, ◌^◌, ◌≤◌, ◌≡◌, inl, inr, refl, Bool, true, false, Option, none, some, ◌==◌, ltb,
  update_self, sub64, arith, Bool-cases, if_some,
}
use mikrokernellib.Buddy.{Buddy, chunk_bytes, buddy_kalloc, search_loop}
use mikrokernellib.Buddy.Order.{order_loop-IsOrder, chunk_bytes_lem}
use mikrokernellib.Slab.{
  Slab, free_slabs, partial_slabs, not_empty, spinlock_acquire, spinlock_release, kmem_cache_grow,
  install_slab, insert_front, choose_slab, take_object, kmem_cache_kalloc, minus_one32,
}
use mikrokernellib.Slab.Create.{kmem_cache_create_sl, set_size, finish_create_sl, calc_object_align}

kalloc_total :
    (size : ℕ) (s : Buddy) → size ≤ 2 ^ 63 → (r : ℕ × Buddy) × (buddy_kalloc size s ≡ some r)
unfolding buddy_kalloc
kalloc_total size s h =
    let (order, found, small, least) = order_loop-IsOrder size h in
    let (r, e) =
      if_some (ltb s.max_order order) (0, s)
        (search_loop (s.max_order + 1 - order) order order s) in
    (r, rw (found, buddy_kalloc) e)

-- A result, with the lock as `b`.
abbrev Ends : {A : Type 0} → Option (A × Slab) → Bool → Type 0
Ends {A} o b = (a : A) × (s : Slab) × (o ≡ some (a, s)) × (s.locked ≡ b)

chunk_small : (order : ℕ) → order ≤ 10 → chunk_bytes order ≤ 2 ^ 63
chunk_small order h =
    omega (arith, chunk_bytes_lem order (omega arith), pow-le-pow_right {n = 2} (omega arith) h)

grow_Ends :
    (cache : ℕ) (s : Slab) → s.slab_order cache ≤ 10 → Ends (kmem_cache_grow cache s) s.locked
unfolding kmem_cache_grow install_slab insert_front
grow_Ends cache s h =
    let (r, e) =
      kalloc_total (chunk_bytes (s.slab_order cache)) s.buddy
        (chunk_small (s.slab_order cache) h) in
    elim (Bool-cases (r.0 == 0)) [
      | inl z ↦ (false, record s { buddy = r.1 }, rw (e, kmem_cache_grow) (rw z refl), refl)
      | inr z ↦ (
        true,
        install_slab cache r.0 (record s { buddy = r.1 }),
        rw (e, kmem_cache_grow) (rw z refl),
        refl,
      )
    ]

acquire_free :
    (s : Slab) → s.locked ≡ false → spinlock_acquire s ≡ some (record s { locked = true })
unfolding spinlock_acquire
acquire_free s free = rw free refl

choose_Ends :
    (cache : ℕ) (s : Slab)
    → s.locked ≡ true
    → s.slab_order cache ≤ 10
    → Ends (choose_slab cache s) true
unfolding choose_slab spinlock_release
choose_Ends cache s held h = elim (Bool-cases (not_empty (partial_slabs cache) s)) [
  | inl e ↦ (sub64 (s.next (partial_slabs cache)) 24, s, rw (e, choose_slab) refl, held)
  | inr e ↦ elim (Bool-cases (not_empty (free_slabs cache) s)) [
    | inl f ↦ (sub64 (s.next (free_slabs cache)) 24, s, rw (e, f, choose_slab) refl, held)
    | inr f ↦
        let (grown, after, g, free) = grow_Ends cache (spinlock_release s) h in
        let a = acquire_free after free in
        let again = record after { locked = true } in
        elim (Bool-cases grown) [
          | inl k ↦ (
            sub64 (again.next (free_slabs cache)) 24,
            again,
            rw (e, f, g, a, choose_slab) (rw k refl),
            refl,
          )
          | inr k ↦ (0, again, rw (e, f, g, a, choose_slab) (rw k refl), refl)
        ]
  ]
]

-- On a free lock and a slab order of at most 10 `kmem_cache_kalloc` returns, on every path with the
-- lock released again.
pub kmem_cache_kalloc-released :
    (cache : ℕ) (s : Slab)
    → s.locked ≡ false
    → s.slab_order cache ≤ 10
    → (ptr : ℕ) × (s' : Slab) × (kmem_cache_kalloc cache s ≡ some (ptr, s')) × (s'.locked ≡ false)
unfolding kmem_cache_kalloc spinlock_release
kmem_cache_kalloc-released cache s free h =
    let taken = record s { locked = true } in
    let (desc, chosen, c, held) = choose_Ends cache taken refl h in
    let r = take_object cache desc chosen in
    elim (Bool-cases (desc == 0)) [
      | inl z ↦ (
        0,
        spinlock_release chosen,
        rw (acquire_free s free, c, kmem_cache_kalloc) (rw z refl),
        refl,
      )
      | inr z ↦ (
        r.0,
        spinlock_release r.1,
        rw (acquire_free s free, c, kmem_cache_kalloc) (rw z refl),
        refl,
      )
    ]

-- `kmem_cache_create_sl` of a size 0 returns NULL with the lock taken, and no allocation from any
-- cache returns after it.
pub create_sl-stuck :
    (cache other : ℕ) (s : Slab)
    → s.locked ≡ false
    → (s' : Slab) × (kmem_cache_create_sl cache 0 s ≡ some (0, s'))
      × (kmem_cache_kalloc other s' ≡ none)
unfolding kmem_cache_create_sl finish_create_sl set_size kmem_cache_kalloc spinlock_acquire
    calc_object_align
create_sl-stuck cache other s free =
    let taken = record s { locked = true } in
    let sized = set_size cache 0 taken in
    let none_fits : sized.object_align cache ≡ minus_one32 =
      update_self taken.object_align cache (calc_object_align 0) in
    (
      sized,
      rw (acquire_free s free, kmem_cache_create_sl) (rw (none_fits, finish_create_sl) refl),
      refl,
    )
