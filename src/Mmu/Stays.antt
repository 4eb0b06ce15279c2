-- ===== src/Mmu/Stays.antt =====
-- What is not mapped stays so while entries of the tables of src/mikroKernellib/mmu.c are zeroed.
use mikrokernellib.Common.{ℕ, ◌≡◌, ◌⊎◌, inl, inr, sym, ap, ◌∙◌, false, bit_and}
use mathlib.Core.Path.{subst}
use mikrokernellib.Layout.{pte_present, pte_addr_mask, virt_to_pdpt_idx, virt_to_pd_idx}
use mikrokernellib.Mmu.{has_flag, entry_at}
use mikrokernellib.Mmu.Walk.{
  Absent, NotMapped, NotMappedSmall, Cleared, Absent-zero, pml4_entry, pdpt_entry, pd_entry,
  pt_entry, walk_same,
}

Absent-Cleared : (mem after : ℕ → ℕ) → Cleared mem after → (a : ℕ) → Absent mem a → Absent after a
Absent-Cleared mem after h a none_at = elim (h a) [
  | inl e ↦ subst (λ w. has_flag w pte_present ≡ false) (sym e) none_at
  | inr z ↦ Absent-zero after a z
]

-- A table entry that stays where it was, or is not reached any more.
pdpt_same :
    (mem after : ℕ → ℕ) (pml4t vaddr : ℕ)
    → Cleared mem after
    → NotMapped after pml4t vaddr ⊎ (pdpt_entry after pml4t vaddr ≡ pdpt_entry mem pml4t vaddr)
pdpt_same mem after pml4t vaddr h = elim (h (pml4_entry pml4t vaddr)) [
  | inr e ↦ inl (inl (Absent-zero after (pml4_entry pml4t vaddr) e))
  | inl e ↦ inr (ap (λ w. entry_at (bit_and w pte_addr_mask) (virt_to_pdpt_idx vaddr)) e)
]

pd_same :
    (mem after : ℕ → ℕ) (pml4t vaddr : ℕ)
    → Cleared mem after
    → NotMapped after pml4t vaddr ⊎ (pd_entry after pml4t vaddr ≡ pd_entry mem pml4t vaddr)
pd_same mem after pml4t vaddr h = elim (pdpt_same mem after pml4t vaddr h) [
  | inl gone ↦ inl gone
  | inr same ↦ elim (h (pdpt_entry mem pml4t vaddr)) [
    | inr e ↦ inl (inr (inl (Absent-zero after (pdpt_entry after pml4t vaddr) (ap after same ∙ e))))
    | inl e ↦
        inr
          (ap (λ w. entry_at (bit_and w pte_addr_mask) (virt_to_pd_idx vaddr)) (ap after same ∙ e))
  ]
]

-- What is not mapped stays so while entries are only zeroed.
pub NotMapped-stays :
    (mem after : ℕ → ℕ) (pml4t vaddr : ℕ)
    → Cleared mem after
    → NotMapped mem pml4t vaddr
    → NotMapped after pml4t vaddr
NotMapped-stays mem after pml4t vaddr h (inl a) =
    inl (Absent-Cleared mem after h (pml4_entry pml4t vaddr) a)
NotMapped-stays mem after pml4t vaddr h (inr (inl b)) = elim (pdpt_same mem after pml4t vaddr h) [
  | inl gone ↦ gone
  | inr same ↦ inr (
      inl (
        subst (λ e. Absent after e) (sym same)
          (Absent-Cleared mem after h (pdpt_entry mem pml4t vaddr) b)))
]
NotMapped-stays mem after pml4t vaddr h (inr (inr c)) = elim (pd_same mem after pml4t vaddr h) [
  | inl gone ↦ gone
  | inr same ↦ inr (
      inr (
        subst (λ e. Absent after e) (sym same)
          (Absent-Cleared mem after h (pd_entry mem pml4t vaddr) c)))
]

pub NotMappedSmall-stays :
    (mem after : ℕ → ℕ) (pml4t vaddr : ℕ)
    → Cleared mem after
    → NotMappedSmall mem pml4t vaddr
    → NotMappedSmall after pml4t vaddr
NotMappedSmall-stays mem after pml4t vaddr h (inl a) =
    inl (NotMapped-stays mem after pml4t vaddr h a)
NotMappedSmall-stays mem after pml4t vaddr h (inr b) = elim (walk_same mem after pml4t vaddr h) [
  | inl gone ↦ inl gone
  | inr same ↦ inr (
      subst (λ e. Absent after e) (sym same)
        (Absent-Cleared mem after h (pt_entry mem pml4t vaddr) b))
]
