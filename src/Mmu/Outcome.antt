-- ===== src/Mmu/Outcome.antt =====
-- What `unmap_page` and `unmap_huge_page` of src/mikroKernellib/mmu.c find and what they leave.
use mikrokernellib.Common.{ℕ, ◌≡◌, ◌≢◌, ◌⊎◌, true, false, List, [], ◌∷◌, bit_and, update}
use mikrokernellib.Layout.{pte_huge_page, pte_addr_mask}
use mikrokernellib.Mmu.{Mmu, has_flag}
use mikrokernellib.Mmu.Climb.{Climb}
use mikrokernellib.Mmu.Walk.{
  Cleared, NotMapped, NotMappedSmall, Present, Reached, pd_entry, pdpt_entry, pml4_entry, pt_entry,
}

-- The entry of the page directory for `vaddr` is the huge page at `aligned`.
abbrev pub IsHuge : (ℕ → ℕ) → ℕ → ℕ → ℕ → Type 0
IsHuge mem pml4t aligned vaddr =
    Reached mem pml4t vaddr
    × (has_flag (mem (pd_entry mem pml4t vaddr)) pte_huge_page ≡ true)
    × (bit_and (mem (pd_entry mem pml4t vaddr)) pte_addr_mask ≡ aligned)

-- The entry of the page directory for `vaddr` is present, and it is a table of 4 KB pages or
-- another huge page than the given one.
abbrev pub WrongHuge : (ℕ → ℕ) → ℕ → ℕ → ℕ → Type 0
WrongHuge mem pml4t aligned vaddr =
    Reached mem pml4t vaddr
    × ((has_flag (mem (pd_entry mem pml4t vaddr)) pte_huge_page ≡ false)
        ⊎ (bit_and (mem (pd_entry mem pml4t vaddr)) pte_addr_mask ≢ aligned))

-- A table of 4 KB pages is reached, and its entry is the given page.
abbrev pub IsPage : (ℕ → ℕ) → ℕ → ℕ → ℕ → Type 0
IsPage mem pml4t aligned vaddr =
    Reached mem pml4t vaddr
    × (has_flag (mem (pd_entry mem pml4t vaddr)) pte_huge_page ≡ false)
    × Present mem (pt_entry mem pml4t vaddr)
    × (bit_and (mem (pt_entry mem pml4t vaddr)) pte_addr_mask ≡ aligned)

-- A huge page is mapped at `vaddr`, or a 4 KB page that is not the given one.
abbrev pub WrongPage : (ℕ → ℕ) → ℕ → ℕ → ℕ → Type 0
WrongPage mem pml4t aligned vaddr =
    Reached mem pml4t vaddr
    × ((has_flag (mem (pd_entry mem pml4t vaddr)) pte_huge_page ≡ true)
        ⊎ ((has_flag (mem (pd_entry mem pml4t vaddr)) pte_huge_page ≡ false)
            × Present mem (pt_entry mem pml4t vaddr)
            × (bit_and (mem (pt_entry mem pml4t vaddr)) pte_addr_mask ≢ aligned)))

-- The tables on the way to `vaddr`, with the cells of their entries.
abbrev pub upper_tables : (ℕ → ℕ) → ℕ → ℕ → List (ℕ × ℕ)
upper_tables mem pml4t vaddr =
    (bit_and (mem (pdpt_entry mem pml4t vaddr)) pte_addr_mask, pdpt_entry mem pml4t vaddr)
    ∷ (bit_and (mem (pml4_entry pml4t vaddr)) pte_addr_mask, pml4_entry pml4t vaddr)
    ∷ []

abbrev pub all_tables : (ℕ → ℕ) → ℕ → ℕ → List (ℕ × ℕ)
all_tables mem pml4t vaddr =
    (bit_and (mem (pd_entry mem pml4t vaddr)) pte_addr_mask, pd_entry mem pml4t vaddr)
    ∷ upper_tables mem pml4t vaddr

-- The entry at `at` zeroed and `vaddr` flushed.
abbrev pub zeroed : ℕ → ℕ → Mmu → Mmu
zeroed at vaddr s = record s { mem = update s.mem at 0; flushed = vaddr ∷ s.flushed }

-- All that `unmap_huge` does when it returns: nothing where no page is reached; else the huge page
-- is the given one, its entry is zeroed and flushed, and the empty tables above are freed.
abbrev pub HugeDone : ℕ → ℕ → ℕ → Mmu → Mmu → Type 0
HugeDone pml4t aligned vaddr s s' =
    (NotMapped s.mem pml4t vaddr × (s' ≡ s))
    ⊎ (IsHuge s.mem pml4t aligned vaddr
        × Climb (upper_tables s.mem pml4t vaddr) (zeroed (pd_entry s.mem pml4t vaddr) vaddr s) s')

-- The same for `unmap_small`.
abbrev pub SmallDone : ℕ → ℕ → ℕ → Mmu → Mmu → Type 0
SmallDone pml4t aligned vaddr s s' =
    (NotMappedSmall s.mem pml4t vaddr × (s' ≡ s))
    ⊎ (IsPage s.mem pml4t aligned vaddr
        × Climb (all_tables s.mem pml4t vaddr) (zeroed (pt_entry s.mem pml4t vaddr) vaddr s) s')

-- What the caller of an unmapping operation can rely on.
abbrev pub Unmapped : ((ℕ → ℕ) → ℕ → ℕ → Type 0) → ℕ → ℕ → Mmu → Mmu → Type 0
Unmapped Gone pml4t vaddr s s' =
    Cleared s.mem s'.mem
    × Gone s'.mem pml4t vaddr
    × ((Gone s.mem pml4t vaddr × (s' ≡ s)) ⊎ (s'.flushed ≡ vaddr ∷ s.flushed))
