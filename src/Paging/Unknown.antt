-- ===== src/Paging/Unknown.antt =====
-- The early return of `kunmap_page`, `kunmap_huge_page` and `kunmap_pages` of
-- src/mikroKernellib/paging.c.
use mikrokernellib.Common.{ℕ, ◌≤◌, ◌<◌, ◌≡◌, ◌⊎◌, inl, inr, refl, ap, ◌∙◌, Option, some, arith}
use mikrokernellib.RbTree.Model.{Tree, height, Shape, In, Ordered}
use mikrokernellib.Mmu.{Mmu, unmap_page, unmap_huge_page}
use mikrokernellib.Mmu.Pages.{unmap_pages}
use mikrokernellib.Vm.{rb_find_vma}
use mikrokernellib.Vm.Find.{rb_find_vma_lem}
use mikrokernellib.Paging.{Kernel, unmap_area, kunmap_page, kunmap_huge_page, kunmap_pages}

module _ (k : Kernel) (tree : Tree) (rounds : ℕ) (h : Shape k.tree k.tree.root tree)
    (o : Ordered k.start k.last tree) (few : height tree < rounds) (vaddr : ℕ)
    (unknown : (m : ℕ) → In m tree → (vaddr < k.start m) ⊎ (k.last m ≤ vaddr)) where
  finds_none : rb_find_vma rounds vaddr k.start k.last k.tree ≡ some 0
  finds_none =
      let (v, returned, found) = rb_find_vma_lem tree rounds vaddr k.start k.last k.tree h o few in
      elim found [
        | inl (e, nowhere) ↦ returned ∙ ap some e
        | inr (i, nz, low, high) ↦ elim (unknown v i) [
          | inl before ↦ absurd (omega (arith, before, low))
          | inr after ↦ absurd (omega (arith, after, high))
        ]
      ]

  unmap_area_none :
      (vma_cache : ℕ) (f : ℕ → Mmu → Option Mmu) → unmap_area rounds vma_cache vaddr f k ≡ some k
  unfolding unmap_area
  unmap_area_none vma_cache f = rw finds_none refl

  -- In a search tree of areas none of which holds `vaddr`, and with more rounds than it is high, the
  -- three calls that unmap return with nothing changed.
  pub kunmap_unknown :
      (vma_cache paddr flags num_pages : ℕ)
      → (kunmap_page rounds vma_cache paddr vaddr k ≡ some k)
        × (kunmap_huge_page rounds vma_cache paddr vaddr k ≡ some k)
        × (kunmap_pages rounds vma_cache paddr vaddr flags num_pages k ≡ some k)
  unfolding kunmap_page kunmap_huge_page kunmap_pages
  kunmap_unknown vma_cache paddr flags num_pages = (
    unmap_area_none vma_cache (λ pml4t s. unmap_page pml4t paddr vaddr s),
    unmap_area_none vma_cache (λ pml4t s. unmap_huge_page pml4t paddr vaddr s),
    unmap_area_none vma_cache (λ pml4t s. unmap_pages pml4t paddr vaddr flags num_pages s),
  )
