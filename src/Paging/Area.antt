-- ===== src/Paging/Area.antt =====
-- What `kmap_pages` of src/mikroKernellib/paging.c makes of the tree of areas.
use mathlib.Core.Path.{subst}
use mikrokernellib.Common.{
  ℕ, ◌+◌, ◌*◌, ◌<◌, ◌≡◌, ◌≢◌, inl, inr, refl, false, Option, some, ◌==◌, if◌then◌else◌, update,
  update_self, update-ne, bit_or, u64, Bool-cases, arith,
}
use mikrokernellib.Layout.{page_size, huge_page_size, pte_huge_page}
use mikrokernellib.RbTree.{RbTree}
use mikrokernellib.RbTree.Insert.{rb_insert}
use mikrokernellib.RbTree.Model.{Tree, leaf, branch, height, In, Sorted}
use mikrokernellib.RbTree.Mirror.{Spells}
use mikrokernellib.RbTree.Inserted.{Inserted, rb_insert_lem}
use mikrokernellib.Slab.{Slab, kmem_cache_kalloc}
use mikrokernellib.Mmu.{Mmu, has_flag}
use mikrokernellib.Mmu.Pages.{map_pages}
use mikrokernellib.Vm.{vma_cmp}
use mikrokernellib.Paging.{
  Kernel, vma_node, acquire_page_lock, release_page_lock, rb_insert_vma, on_tables, new_vma,
  map_area, kmap_pages,
}

Sorted-agree :
    (start again : ℕ → ℕ) (tree : Tree)
    → ((m : ℕ) → In m tree → again m ≡ start m)
    → Sorted start tree
    → Sorted again tree
Sorted-agree start again leaf same s = s
Sorted-agree start again (branch l q r) same (low, up, sl, sr) = (
  λ m i. omega (arith, low m i, same m (inl i), same q (inr (inl refl))),
  λ m i. omega (arith, up m i, same m (inr (inr i)), same q (inr (inl refl))),
  Sorted-agree start again l (λ m i. same m (inl i)) sl,
  Sorted-agree start again r (λ m i. same m (inr (inr i))) sr,
)

-- The tables of a kernel whose allocator is `slab`.
abbrev pub tables : Slab → Kernel → Mmu
tables slab k = record { mem = k.mem; buddy = slab.buddy; flushed = k.flushed }

-- The kernel after a call that maps an area: the area is in the tree by its start, or one of the same
-- start was there before, and its fields and the page tables are set; the lock is free.
abbrev pub Mapped : ℕ → ℕ → ℕ → ℕ → Tree → Mmu → Kernel → Type 0
Mapped node vaddr end_ entry tree s k =
    ((returned : ℕ) × Inserted k.start node tree (some (returned, k.tree)))
    × (k.start node ≡ vaddr)
    × (k.last node ≡ end_)
    × (k.pte node ≡ entry)
    × (k.mem ≡ s.mem)
    × (k.page_lock ≡ false)

Inserted-some :
    (start : ℕ → ℕ) (node : ℕ) (tree : Tree) (o : Option (ℕ × RbTree))
    → Inserted start node tree o
    → (p : ℕ × RbTree) × (o ≡ some p) × Inserted start node tree (some p)
Inserted-some start node tree o (inl (s, e, links, m, i, same)) =
    ((0, s), e, inl (s, refl, links, m, i, same))
Inserted-some start node tree o (inr (s, after, e, links, sorted, from, to, black, others)) =
    ((node, s), e, inr (s, after, refl, links, sorted, from, to, black, others))

module _ (rounds vma : ℕ) (f : ℕ → Mmu → Option Mmu) (k : Kernel) (tree : Tree) (s : Mmu)
    (free : k.page_lock ≡ false) (runs : f k.kernel_pml4t (tables k.slab k) ≡ some s) where
  map_area_runs :
      (p : ℕ × RbTree)
      → rb_insert rounds (vma_node vma) (vma_cmp k.start) k.tree ≡ some p
      → map_area rounds vma f k
        ≡ some (record k {
          tree = p.1;
          slab = record k.slab { buddy = s.buddy };
          mem = s.mem;
          flushed = s.flushed;
          page_lock = false;
        })
  unfolding map_area acquire_page_lock rb_insert_vma on_tables release_page_lock
  map_area_runs p e = rw (free, e, runs) refl

-- The bytes that `kmap_pages` maps.
abbrev pub mapped_bytes : ℕ → ℕ → ℕ
mapped_bytes flags num_pages =
    num_pages * (if has_flag flags pte_huge_page then huge_page_size else page_size)

module _ (rounds vma_cache paddr vaddr flags num_pages : ℕ) (k : Kernel) (tree : Tree) (vma : ℕ)
    (slab : Slab) (s : Mmu) (h : Spells k.tree tree) (sorted : Sorted k.start tree)
    (few : height tree < rounds) (free : k.page_lock ≡ false)
    (made : kmem_cache_kalloc vma_cache k.slab ≡ some (vma, slab)) (got : vma ≢ 0)
    (fresh : In (vma_node vma) tree → ⊥)
    (runs : map_pages k.kernel_pml4t paddr vaddr flags num_pages (tables slab k) ≡ some s) where
  abbrev node : ℕ
  node = vma_node vma

  abbrev with_vma : Kernel
  with_vma = record k {
    slab = slab;
    start = update k.start node vaddr;
    last = update k.last node (u64 (vaddr + mapped_bytes flags num_pages));
    pte = update k.pte node (bit_or paddr flags);
  }

  new_vma_runs :
      (if has_flag flags pte_huge_page
        then new_vma vma_cache paddr vaddr flags (num_pages * huge_page_size) k
        else new_vma vma_cache paddr vaddr flags (num_pages * page_size) k)
      ≡ some (vma, with_vma)
  unfolding new_vma
  new_vma_runs =
      let nz : (vma == 0) ≡ false = ground (arith, got) in
      elim (Bool-cases (has_flag flags pte_huge_page)) [
        | inl e ↦ rw (e, made, nz) refl
        | inr e ↦ rw (e, made, nz) refl
      ]

  Sorted-again : Sorted with_vma.start tree
  Sorted-again =
      Sorted-agree k.start with_vma.start tree
        (λ m i. update-ne k.start node vaddr m (λ z. fresh (subst (λ j. In j tree) z i))) sorted

  -- Where the lock is free, the tree of areas is a search tree with right links, the cache gives a
  -- new area and the tables can be written, `kmap_pages` returns with the lock free, the tables
  -- written, and an area of the virtual bytes and the first entry: it is in a search tree of the old
  -- areas and itself, or the tree is as it was and has another area of the same start.
  pub kmap_pages_lem :
      (after : Kernel) × (kmap_pages rounds vma_cache paddr vaddr flags num_pages k ≡ some after)
      × Mapped node vaddr
          (u64 (vaddr + mapped_bytes flags num_pages))
          (bit_or paddr flags)
          tree
          s
          after
  unfolding kmap_pages
  kmap_pages_lem =
      let f = λ (pml4t : ℕ) (t : Mmu). map_pages pml4t paddr vaddr flags num_pages t in
      let inserted =
        rb_insert_lem with_vma.start node (omega arith) with_vma.tree tree h Sorted-again fresh
          rounds few in
      let (p, e, kept) =
        Inserted-some with_vma.start node tree
          (rb_insert rounds node (vma_cmp with_vma.start) with_vma.tree) inserted in
      let after = record with_vma {
        tree = p.1;
        slab = record slab { buddy = s.buddy };
        mem = s.mem;
        flushed = s.flushed;
        page_lock = false;
      } in
      (
        after,
        rw (new_vma_runs) (map_area_runs rounds vma f with_vma tree s free runs p e),
        (
          (p.0, kept),
          update_self k.start node vaddr,
          update_self k.last node (u64 (vaddr + mapped_bytes flags num_pages)),
          update_self k.pte node (bit_or paddr flags),
          refl,
          refl,
        ),
      )
