-- ===== src/Mmu/Range.antt =====
-- `unmap_pages` of src/mikroKernellib/mmu.c: all the pages of a range.
use mikrokernellib.Common.{
  ℕ, ◌+◌, ◌*◌, ◌<◌, ◌≡◌, ◌⊎◌, inl, inr, refl, Bool, true, false, none, some, u64, arith,
}
use mathlib.Core.Path.{subst}
use mikrokernellib.Layout.{page_size, huge_page_size, pte_huge_page}
use mikrokernellib.Mmu.{Mmu, has_flag, align_down}
use mikrokernellib.Mmu.Loop.{Passed, Panic, Unmaps, unmap_loop_lem}
use mikrokernellib.Mmu.Back.{WrongHuge-back, WrongPage-back}
use mikrokernellib.Mmu.Pages.{unmap_huge_step, unmap_small_step, unmap_pages}
use mikrokernellib.Mmu.Stays.{NotMapped-stays, NotMappedSmall-stays}
use mikrokernellib.Mmu.Outcome.{WrongHuge, WrongPage, HugeDone, SmallDone}
use mikrokernellib.Mmu.Unmap.{unmap_huge_lem, unmap_small_lem}
use mikrokernellib.Mmu.Walk.{NotMapped, NotMappedSmall, Cleared}

-- Page `j` of a range, of huge pages or not, is not mapped.
abbrev pub PageGone : Bool → (ℕ → ℕ) → ℕ → ℕ → ℕ → Type 0
PageGone true mem pml4t vaddr j = NotMapped mem pml4t (u64 (vaddr + j * huge_page_size))
PageGone false mem pml4t vaddr j = NotMappedSmall mem pml4t (u64 (vaddr + j * page_size))

-- Page `j` of a range is mapped in another way than the caller says.
abbrev pub PageWrong : Bool → (ℕ → ℕ) → ℕ → ℕ → ℕ → ℕ → Type 0
PageWrong true mem pml4t paddr vaddr j =
    WrongHuge mem pml4t (u64 (align_down paddr huge_page_size + j * huge_page_size))
      (u64 (vaddr + j * huge_page_size))
PageWrong false mem pml4t paddr vaddr j =
    WrongPage mem pml4t (u64 (align_down paddr page_size + j * page_size))
      (u64 (vaddr + j * page_size))

-- What is done for page `j`.
abbrev pub PageDone : Bool → ℕ → ℕ → ℕ → ℕ → Mmu → Mmu → Type 0
PageDone true pml4t paddr vaddr j =
    HugeDone pml4t (u64 (align_down paddr huge_page_size + j * huge_page_size))
      (u64 (vaddr + j * huge_page_size))
PageDone false pml4t paddr vaddr j =
    SmallDone pml4t (u64 (align_down paddr page_size + j * page_size)) (u64 (vaddr + j * page_size))

huge_step-Unmaps :
    (pml4t paddr vaddr : ℕ)
    → Unmaps
        (unmap_huge_step pml4t (align_down paddr huge_page_size) vaddr)
        (λ mem. PageWrong true mem pml4t paddr vaddr)
        (PageDone true pml4t paddr vaddr)
        (λ mem. PageGone true mem pml4t vaddr)
unfolding unmap_huge_step
huge_step-Unmaps pml4t paddr vaddr i s =
    elim (unmap_huge_lem pml4t (u64 (align_down paddr huge_page_size + i * huge_page_size))
      (u64 (vaddr + i * huge_page_size)) s) [
        | inl (e, wrong) ↦ inl (e, wrong)
        | inr (s', e, done, (cleared, gone, changed)) ↦ inr (s', e, done, cleared, gone)
      ]

small_step-Unmaps :
    (pml4t paddr vaddr : ℕ)
    → Unmaps
        (unmap_small_step pml4t (align_down paddr page_size) vaddr)
        (λ mem. PageWrong false mem pml4t paddr vaddr)
        (PageDone false pml4t paddr vaddr)
        (λ mem. PageGone false mem pml4t vaddr)
unfolding unmap_small_step
small_step-Unmaps pml4t paddr vaddr i s =
    elim (unmap_small_lem pml4t (u64 (align_down paddr page_size + i * page_size))
      (u64 (vaddr + i * page_size)) s) [
        | inl (e, wrong) ↦ inl (e, wrong)
        | inr (s', e, done, (cleared, gone, changed)) ↦ inr (s', e, done, cleared, gone)
      ]

PageGone-stays :
    (huge : Bool) (pml4t vaddr : ℕ) (mem after : ℕ → ℕ) (j : ℕ)
    → Cleared mem after
    → PageGone huge mem pml4t vaddr j
    → PageGone huge after pml4t vaddr j
PageGone-stays true pml4t vaddr mem after j =
    NotMapped-stays mem after pml4t (u64 (vaddr + j * huge_page_size))
PageGone-stays false pml4t vaddr mem after j =
    NotMappedSmall-stays mem after pml4t (u64 (vaddr + j * page_size))

PageWrong-back :
    (huge : Bool) (pml4t paddr vaddr : ℕ) (mem after : ℕ → ℕ) (j : ℕ)
    → Cleared mem after
    → PageWrong huge after pml4t paddr vaddr j
    → PageWrong huge mem pml4t paddr vaddr j
PageWrong-back true pml4t paddr vaddr mem after j =
    WrongHuge-back mem after pml4t (u64 (align_down paddr huge_page_size + j * huge_page_size))
      (u64 (vaddr + j * huge_page_size))
PageWrong-back false pml4t paddr vaddr mem after j =
    WrongPage-back mem after pml4t (u64 (align_down paddr page_size + j * page_size))
      (u64 (vaddr + j * page_size))

module _ (pml4t paddr vaddr flags num_pages : ℕ) (s : Mmu) where
  -- The outcomes for pages of one kind.
  abbrev RangeDone : Bool → Type 0
  RangeDone huge =
      ((unmap_pages pml4t paddr vaddr flags num_pages s ≡ none)
        × Panic (λ mem. PageWrong huge mem pml4t paddr vaddr) (PageDone huge pml4t paddr vaddr) s 0
            num_pages)
      ⊎ ((s' : Mmu) × (unmap_pages pml4t paddr vaddr flags num_pages s ≡ some s')
          × Passed (PageDone huge pml4t paddr vaddr) num_pages 0 s s'
          × Cleared s.mem s'.mem
          × ((j : ℕ) → j < num_pages → PageGone huge s'.mem pml4t vaddr (0 + j)))

  range_cases : (huge : Bool) → has_flag flags pte_huge_page ≡ huge → RangeDone huge
  unfolding unmap_pages
  range_cases true e =
      rw (e, unmap_pages)
        (unmap_loop_lem (unmap_huge_step pml4t (align_down paddr huge_page_size) vaddr)
          (λ mem. PageWrong true mem pml4t paddr vaddr) (λ mem. PageGone true mem pml4t vaddr)
          (PageDone true pml4t paddr vaddr) (PageGone-stays true pml4t vaddr)
          (PageWrong-back true pml4t paddr vaddr) (huge_step-Unmaps pml4t paddr vaddr) num_pages 0
          s)
  range_cases false e =
      rw (e, unmap_pages)
        (unmap_loop_lem (unmap_small_step pml4t (align_down paddr page_size) vaddr)
          (λ mem. PageWrong false mem pml4t paddr vaddr) (λ mem. PageGone false mem pml4t vaddr)
          (PageDone false pml4t paddr vaddr) (PageGone-stays false pml4t vaddr)
          (PageWrong-back false pml4t paddr vaddr) (small_step-Unmaps pml4t paddr vaddr) num_pages 0
          s)

  -- `unmap_pages` panics only if a page of the range, present in the tables at the start, is another
  -- one than the caller says, or of the other size, and still is after the pages before it were
  -- unmapped one after the other as `unmap_huge` or `unmap_small` does it, by `flags`. Else it
  -- returns what these leave for all the pages in order: entries were only zeroed, and no page of
  -- the range is mapped any more, as a huge page or as a 4 KB page by `flags`.
  pub unmap_pages_lem :
      ((unmap_pages pml4t paddr vaddr flags num_pages s ≡ none)
        × Panic
            (λ mem. PageWrong (has_flag flags pte_huge_page) mem pml4t paddr vaddr)
            (PageDone (has_flag flags pte_huge_page) pml4t paddr vaddr)
            s
            0
            num_pages)
      ⊎ ((s' : Mmu) × (unmap_pages pml4t paddr vaddr flags num_pages s ≡ some s')
          × Passed (PageDone (has_flag flags pte_huge_page) pml4t paddr vaddr) num_pages 0 s s'
          × Cleared s.mem s'.mem
          × ((j : ℕ)
              → j < num_pages
              → PageGone (has_flag flags pte_huge_page) s'.mem pml4t vaddr j))
  unmap_pages_lem = elim (range_cases (has_flag flags pte_huge_page) refl) [
    | inl bad ↦ inl bad
    | inr (s', e, passed, cleared, gone) ↦ inr (
      s',
      e,
      passed,
      cleared,
      λ j h.
          let z : 0 + j ≡ j = omega arith in
          subst (PageGone (has_flag flags pte_huge_page) s'.mem pml4t vaddr) z (gone j h),
    )
  ]
