-- ===== src/Mmu/Back.antt =====
-- What is mapped in the memory of src/mikroKernellib/mmu.c after entries were zeroed was mapped before.
use mikrokernellib.Common.{ℕ, ◌≡◌, ◌≢◌, ◌⊎◌, inl, inr, sym, ap, ◌∙◌, true, false, bit_and}
use mathlib.Core.Path.{subst}
use mikrokernellib.Layout.{
  pte_present, pte_huge_page, pte_addr_mask, virt_to_pdpt_idx, virt_to_pd_idx, virt_to_pt_idx,
}
use mikrokernellib.Mmu.{has_flag, entry_at}
use mikrokernellib.Mmu.Outcome.{WrongHuge, WrongPage}
use mikrokernellib.Mmu.Walk.{
  Cleared, Absent-zero, Present, Reached, pml4_entry, pdpt_entry, pd_entry, pt_entry,
}

value_back : (mem after : ℕ → ℕ) → Cleared mem after → (a : ℕ) → Present after a → after a ≡ mem a
value_back mem after h a on = elim (h a) [
  | inl e ↦ e
  | inr z ↦
      let no : true ≡ false = sym on ∙ Absent-zero after a z in let bad : ⊥ = cc in elim bad [ ]
]

module _ (mem after : ℕ → ℕ) (pml4t vaddr : ℕ) (h : Cleared mem after)
    (reached : Reached after pml4t vaddr) where
  top_back : after (pml4_entry pml4t vaddr) ≡ mem (pml4_entry pml4t vaddr)
  top_back = value_back mem after h (pml4_entry pml4t vaddr) reached.0

  pdpt_back : after (pdpt_entry after pml4t vaddr) ≡ mem (pdpt_entry mem pml4t vaddr)
  pdpt_back =
      value_back mem after h (pdpt_entry after pml4t vaddr) reached.1
      ∙ ap (λ w. mem (entry_at (bit_and w pte_addr_mask) (virt_to_pdpt_idx vaddr))) top_back

  pd_back : after (pd_entry after pml4t vaddr) ≡ mem (pd_entry mem pml4t vaddr)
  pd_back =
      value_back mem after h (pd_entry after pml4t vaddr) reached.2
      ∙ ap (λ w. mem (entry_at (bit_and w pte_addr_mask) (virt_to_pd_idx vaddr))) pdpt_back

  pt_back :
      Present after (pt_entry after pml4t vaddr)
      → after (pt_entry after pml4t vaddr) ≡ mem (pt_entry mem pml4t vaddr)
  pt_back on =
      value_back mem after h (pt_entry after pml4t vaddr) on
      ∙ ap (λ w. mem (entry_at (bit_and w pte_addr_mask) (virt_to_pt_idx vaddr))) pd_back

  Reached-back : Reached mem pml4t vaddr
  Reached-back = (
    subst (λ w. has_flag w pte_present ≡ true) top_back reached.0,
    subst (λ w. has_flag w pte_present ≡ true) pdpt_back reached.1,
    subst (λ w. has_flag w pte_present ≡ true) pd_back reached.2,
  )

pub WrongHuge-back :
    (mem after : ℕ → ℕ) (pml4t aligned vaddr : ℕ)
    → Cleared mem after
    → WrongHuge after pml4t aligned vaddr
    → WrongHuge mem pml4t aligned vaddr
WrongHuge-back mem after pml4t aligned vaddr h (reached, wrong) = (
  Reached-back mem after pml4t vaddr h reached,
  subst (λ w. (has_flag w pte_huge_page ≡ false) ⊎ (bit_and w pte_addr_mask ≢ aligned))
      (pd_back mem after pml4t vaddr h reached) wrong,
)

pub WrongPage-back :
    (mem after : ℕ → ℕ) (pml4t aligned vaddr : ℕ)
    → Cleared mem after
    → WrongPage after pml4t aligned vaddr
    → WrongPage mem pml4t aligned vaddr
WrongPage-back mem after pml4t aligned vaddr h (reached, inl huge) = (
  Reached-back mem after pml4t vaddr h reached,
  inl (subst (λ w. has_flag w pte_huge_page ≡ true) (pd_back mem after pml4t vaddr h reached) huge),
)
WrongPage-back mem after pml4t aligned vaddr h (reached, inr (small, on, other)) =
    let pd = pd_back mem after pml4t vaddr h reached in
    let pt = pt_back mem after pml4t vaddr h reached on in
    (
      Reached-back mem after pml4t vaddr h reached,
      inr (
        subst (λ w. has_flag w pte_huge_page ≡ false) pd small,
        subst (λ w. has_flag w pte_present ≡ true) pt on,
        subst (λ w. bit_and w pte_addr_mask ≢ aligned) pt other,
      ),
    )
