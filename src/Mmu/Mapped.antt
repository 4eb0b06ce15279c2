-- ===== src/Mmu/Mapped.antt =====
-- What `map_huge_page` of src/mikroKernellib/mmu.c leaves for the walk of the processor.
use mikrokernellib.Common.{
  ℕ, ◌≡◌, ◌≢◌, refl, sym, ap, ◌∙◌, true, some, bit_and, bit_or, update, update_self, update-ne,
}
use mikrokernellib.Layout.{
  pte_present, pte_huge_page, pte_addr_mask, virt_to_pdpt_idx, virt_to_pd_idx,
}
use mikrokernellib.Mmu.{Mmu, has_flag, entry_at, wire_table, map_huge_page}
use mikrokernellib.Mmu.Walk.{pml4_entry, pdpt_entry, pd_entry}

module _ (pml4t paddr vaddr flags : ℕ) (s : Mmu) where
  abbrev target : ℕ
  target = pd_entry s.mem pml4t vaddr

  abbrev mapped : Mmu
  mapped = record s { mem = update s.mem target (bit_or paddr flags) }

  map_huge_runs :
      has_flag flags pte_huge_page ≡ true
      → has_flag (s.mem (pml4_entry pml4t vaddr)) pte_present ≡ true
      → has_flag (s.mem (pdpt_entry s.mem pml4t vaddr)) pte_present ≡ true
      → map_huge_page pml4t paddr vaddr flags s ≡ some mapped
  unfolding map_huge_page wire_table
  map_huge_runs huge first second = rw (huge, first, second) refl

  -- Where both tables above the entry of an address are present, and the entry is no cell that leads
  -- to it, `map_huge_page` with the flag of a huge page returns with one cell changed; the walk for
  -- the address reaches that cell, which holds the physical address and the flags.
  pub map_huge_page_lem :
      has_flag flags pte_huge_page ≡ true
      → has_flag (s.mem (pml4_entry pml4t vaddr)) pte_present ≡ true
      → has_flag (s.mem (pdpt_entry s.mem pml4t vaddr)) pte_present ≡ true
      → pml4_entry pml4t vaddr ≢ pd_entry s.mem pml4t vaddr
      → pdpt_entry s.mem pml4t vaddr ≢ pd_entry s.mem pml4t vaddr
      → (after : Mmu) × (map_huge_page pml4t paddr vaddr flags s ≡ some after)
        × (after.mem (pd_entry after.mem pml4t vaddr) ≡ bit_or paddr flags)
        × ((a : ℕ) → a ≢ pd_entry after.mem pml4t vaddr → after.mem a ≡ s.mem a)
  map_huge_page_lem huge first second apart below =
      let top = update-ne s.mem target (bit_or paddr flags) (pml4_entry pml4t vaddr) apart in
      let same = ap (λ w. entry_at (bit_and w pte_addr_mask) (virt_to_pdpt_idx vaddr)) top in
      let middle =
        ap mapped.mem same
        ∙ update-ne s.mem target (bit_or paddr flags) (pdpt_entry s.mem pml4t vaddr) below in
      let reached : pd_entry mapped.mem pml4t vaddr ≡ target =
        ap (λ w. entry_at (bit_and w pte_addr_mask) (virt_to_pd_idx vaddr)) middle in
      (
        mapped,
        map_huge_runs huge first second,
        ap mapped.mem reached ∙ update_self s.mem target (bit_or paddr flags),
        λ a ne. update-ne s.mem target (bit_or paddr flags) a (λ z. ne (z ∙ sym reached)),
      )
