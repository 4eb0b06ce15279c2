-- ===== src/Mmu/Walk.antt =====
-- The walk of the processor over the tables of src/mikroKernellib/mmu.c, and memory in which
-- entries are zeroed.
use mikrokernellib.Common.{
  ℕ, ◌≡◌, ◌⊎◌, inl, inr, refl, ap, ◌∙◌, true, false, bit_and, ◌==◌, update, Bool-cases,
}
use mikrokernellib.Layout.{
  pte_present, pte_addr_mask, virt_to_pml4_idx, virt_to_pdpt_idx, virt_to_pd_idx, virt_to_pt_idx,
}
use mikrokernellib.Mmu.{has_flag, entry_at}

-- The entries that the processor reads for an address, in the memory `mem`.
abbrev pub pml4_entry : ℕ → ℕ → ℕ
pml4_entry pml4t vaddr = entry_at pml4t (virt_to_pml4_idx vaddr)

abbrev pub pdpt_entry : (ℕ → ℕ) → ℕ → ℕ → ℕ
pdpt_entry mem pml4t vaddr =
    entry_at (bit_and (mem (pml4_entry pml4t vaddr)) pte_addr_mask) (virt_to_pdpt_idx vaddr)

abbrev pub pd_entry : (ℕ → ℕ) → ℕ → ℕ → ℕ
pd_entry mem pml4t vaddr =
    entry_at (bit_and (mem (pdpt_entry mem pml4t vaddr)) pte_addr_mask) (virt_to_pd_idx vaddr)

abbrev pub pt_entry : (ℕ → ℕ) → ℕ → ℕ → ℕ
pt_entry mem pml4t vaddr =
    entry_at (bit_and (mem (pd_entry mem pml4t vaddr)) pte_addr_mask) (virt_to_pt_idx vaddr)

abbrev pub Absent : (ℕ → ℕ) → ℕ → Type 0
Absent mem entry = has_flag (mem entry) pte_present ≡ false

abbrev pub Present : (ℕ → ℕ) → ℕ → Type 0
Present mem entry = has_flag (mem entry) pte_present ≡ true

-- The three entries down to the one of a huge page, or of a table of 4 KB pages, are present.
abbrev pub Reached : (ℕ → ℕ) → ℕ → ℕ → Type 0
Reached mem pml4t vaddr =
    Present mem (pml4_entry pml4t vaddr)
    × Present mem (pdpt_entry mem pml4t vaddr)
    × Present mem (pd_entry mem pml4t vaddr)

-- No huge page, and no table of 4 KB pages, is reached for `vaddr`.
abbrev pub NotMapped : (ℕ → ℕ) → ℕ → ℕ → Type 0
NotMapped mem pml4t vaddr =
    Absent mem (pml4_entry pml4t vaddr)
    ⊎ (Absent mem (pdpt_entry mem pml4t vaddr) ⊎ Absent mem (pd_entry mem pml4t vaddr))

-- Entries are only zeroed.
abbrev pub Cleared : (ℕ → ℕ) → (ℕ → ℕ) → Type 0
Cleared mem after = (a : ℕ) → (after a ≡ mem a) ⊎ (after a ≡ 0)

pub Cleared-trans : (a b c : ℕ → ℕ) → Cleared a b → Cleared b c → Cleared a c
Cleared-trans a b c h k i = elim (k i) [
  | inr e ↦ inr e
  | inl e ↦ elim (h i) [ inl f ↦ inl (e ∙ f) | inr f ↦ inr (e ∙ f) ]
]

pub Cleared-update : (mem : ℕ → ℕ) (at : ℕ) → Cleared mem (update mem at 0)
Cleared-update mem at i = elim (Bool-cases (i == at)) [
  | inl e ↦ inr (rw e refl)
  | inr e ↦ inl (rw e refl)
]

pub Cleared-zero : (mem after : ℕ → ℕ) → Cleared mem after → (a : ℕ) → mem a ≡ 0 → after a ≡ 0
Cleared-zero mem after h a z = elim (h a) [ inl e ↦ e ∙ z | inr e ↦ e ]

pub Absent-zero : (mem : ℕ → ℕ) (a : ℕ) → mem a ≡ 0 → Absent mem a
unfolding has_flag
Absent-zero mem a z = rw z refl

-- A walk that ends at a zeroed entry.
pub not_mapped :
    (mem after : ℕ → ℕ) (pml4t vaddr : ℕ)
    → Cleared mem after
    → after (pd_entry mem pml4t vaddr) ≡ 0
    → NotMapped after pml4t vaddr
not_mapped mem after pml4t vaddr h z = elim (h (pml4_entry pml4t vaddr)) [
  | inr e ↦ inl (Absent-zero after (pml4_entry pml4t vaddr) e)
  | inl e ↦
      let same = ap (λ w. entry_at (bit_and w pte_addr_mask) (virt_to_pdpt_idx vaddr)) e in
      elim (h (pdpt_entry mem pml4t vaddr)) [
        | inr f ↦ inr (inl (Absent-zero after (pdpt_entry after pml4t vaddr) (ap after same ∙ f)))
        | inl f ↦ inr (
            inr (
              Absent-zero after (pd_entry after pml4t vaddr) (
                ap (λ w. after (entry_at (bit_and w pte_addr_mask) (virt_to_pd_idx vaddr)))
                  (ap after same ∙ f)
                ∙ z)))
      ]
]

-- No 4 KB page is reached for `vaddr`.
abbrev pub NotMappedSmall : (ℕ → ℕ) → ℕ → ℕ → Type 0
NotMappedSmall mem pml4t vaddr = NotMapped mem pml4t vaddr ⊎ Absent mem (pt_entry mem pml4t vaddr)

pub walk_same :
    (mem after : ℕ → ℕ) (pml4t vaddr : ℕ)
    → Cleared mem after
    → NotMapped after pml4t vaddr ⊎ (pt_entry after pml4t vaddr ≡ pt_entry mem pml4t vaddr)
walk_same mem after pml4t vaddr h = elim (h (pml4_entry pml4t vaddr)) [
  | inr e ↦ inl (inl (Absent-zero after (pml4_entry pml4t vaddr) e))
  | inl e ↦
      let same = ap (λ w. entry_at (bit_and w pte_addr_mask) (virt_to_pdpt_idx vaddr)) e in
      elim (h (pdpt_entry mem pml4t vaddr)) [
        | inr f ↦
            inl (inr (inl (Absent-zero after (pdpt_entry after pml4t vaddr) (ap after same ∙ f))))
        | inl f ↦
            let same2 =
              ap (λ w. entry_at (bit_and w pte_addr_mask) (virt_to_pd_idx vaddr))
                (ap after same ∙ f) in
            elim (h (pd_entry mem pml4t vaddr)) [
              | inr g ↦
                  inl (
                    inr (inr (Absent-zero after (pd_entry after pml4t vaddr) (ap after same2 ∙ g))))
              | inl g ↦ inr (
                  ap (λ w. entry_at (bit_and w pte_addr_mask) (virt_to_pt_idx vaddr))
                    (ap after same2 ∙ g))
            ]
      ]
]

pub not_mapped_small :
    (mem after : ℕ → ℕ) (pml4t vaddr : ℕ)
    → Cleared mem after
    → after (pt_entry mem pml4t vaddr) ≡ 0
    → NotMappedSmall after pml4t vaddr
not_mapped_small mem after pml4t vaddr h z = elim (walk_same mem after pml4t vaddr h) [
  | inl n ↦ inl n
  | inr e ↦ inr (Absent-zero after (pt_entry after pml4t vaddr) (ap after e ∙ z))
]
