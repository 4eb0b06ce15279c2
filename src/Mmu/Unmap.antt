-- ===== src/Mmu/Unmap.antt =====
-- What `unmap_page` and `unmap_huge_page` of src/mikroKernellib/mmu.c leave.
use mikrokernellib.Common.{
  ℕ, ◌≡◌, ◌⊎◌, inl, inr, refl, none, some, List, ◌∷◌, bit_and, ◌==◌, update, update_self, ==→ne,
  Bool-cases, arith,
}
use mikrokernellib.Layout.{pte_present, pte_huge_page, pte_addr_mask}
use mikrokernellib.Mmu.{Mmu, has_flag, clear_entry, unmap_huge, unmap_small}
use mikrokernellib.Mmu.Climb.{Climb, climb, climb_lem, Climb-Cleared}
use mikrokernellib.Mmu.Outcome.{
  WrongHuge, WrongPage, upper_tables, all_tables, zeroed, HugeDone, SmallDone, Unmapped,
}
use mikrokernellib.Mmu.Walk.{
  Cleared, Cleared-trans, Cleared-update, Cleared-zero, NotMapped, NotMappedSmall, Reached,
  not_mapped, not_mapped_small, pd_entry, pdpt_entry, pml4_entry, pt_entry,
}

module _ (pml4t vaddr : ℕ) (s : Mmu) where
  unchanged :
      (Gone : (ℕ → ℕ) → ℕ → ℕ → Type 0) → Gone s.mem pml4t vaddr → Unmapped Gone pml4t vaddr s s
  unchanged Gone gone = (λ a. inl refl, gone, inl (gone, refl))

  -- The way up from a zeroed entry at `at`.
  module _ (at : ℕ) (up : List (ℕ × ℕ)) where
    after :
        (s' : Mmu) × (climb up (clear_entry at vaddr s) ≡ some s')
        × Climb up (zeroed at vaddr s) s'
        × Cleared s.mem s'.mem
        × (s'.mem at ≡ 0)
        × (s'.flushed ≡ vaddr ∷ s.flushed)
    unfolding clear_entry
    after =
        let (s', g, way) = climb_lem up (zeroed at vaddr s) in
        let (cleared, kept) = Climb-Cleared up (zeroed at vaddr s) s' way in
        (
          s',
          g,
          way,
          Cleared-trans s.mem (update s.mem at 0) s'.mem (Cleared-update s.mem at) cleared,
          Cleared-zero (update s.mem at 0) s'.mem cleared at (update_self s.mem at 0),
          kept,
        )

-- Three entries that are present, or one that is not.
present_cases :
    (mem : ℕ → ℕ) (pml4t vaddr : ℕ) → NotMapped mem pml4t vaddr ⊎ Reached mem pml4t vaddr
present_cases mem pml4t vaddr =
    elim (Bool-cases (has_flag (mem (pml4_entry pml4t vaddr)) pte_present)) [
      | inr e ↦ inl (inl e)
      | inl e ↦ elim (Bool-cases (has_flag (mem (pdpt_entry mem pml4t vaddr)) pte_present)) [
        | inr f ↦ inl (inr (inl f))
        | inl f ↦ elim (Bool-cases (has_flag (mem (pd_entry mem pml4t vaddr)) pte_present)) [
          | inr g ↦ inl (inr (inr g))
          | inl g ↦ inr (e, f, g)
        ]
      ]
    ]

-- The returns of both functions at an absent entry.
absent_huge :
    (pml4t aligned vaddr : ℕ) (s : Mmu)
    → NotMapped s.mem pml4t vaddr
    → unmap_huge pml4t aligned vaddr s ≡ some s
unfolding unmap_huge
absent_huge pml4t aligned vaddr s gone = ground (arith, gone)

absent_small :
    (pml4t aligned vaddr : ℕ) (s : Mmu)
    → NotMapped s.mem pml4t vaddr
    → unmap_small pml4t aligned vaddr s ≡ some s
unfolding unmap_small
absent_small pml4t aligned vaddr s gone = ground (arith, gone)

-- `unmap_huge` panics exactly where the entry of the page directory for `vaddr` is present and is not
-- the given huge page. Else it returns: where an entry down to there is absent, with nothing changed;
-- and where the given page is mapped, with its entry zeroed and `vaddr` flushed, and then of the
-- tables above exactly those freed, and their entries zeroed, that are left all zero, from the lowest
-- one up to the first in use. So no other cell of `mem`, where the links of the allocator in a free
-- page are not kept, is changed, and nothing is mapped at `vaddr` any more.
pub unmap_huge_lem :
    (pml4t aligned vaddr : ℕ) (s : Mmu)
    → ((unmap_huge pml4t aligned vaddr s ≡ none) × WrongHuge s.mem pml4t aligned vaddr)
      ⊎ ((s' : Mmu) × (unmap_huge pml4t aligned vaddr s ≡ some s')
          × HugeDone pml4t aligned vaddr s s'
          × Unmapped NotMapped pml4t vaddr s s')
unfolding unmap_huge
unmap_huge_lem pml4t aligned vaddr s =
    let m = s.mem in
    let at = pd_entry m pml4t vaddr in
    let pde = m at in
    elim (present_cases m pml4t vaddr) [
      | inl gone ↦ inr (
        s,
        absent_huge pml4t aligned vaddr s gone,
        inl (gone, refl),
        unchanged pml4t vaddr s NotMapped gone,
      )
      | inr (e, f, g) ↦ elim (Bool-cases (has_flag pde pte_huge_page)) [
        | inr h ↦ inl (rw (e, f, g, h, unmap_huge) refl, ((e, f, g), inl h))
        | inl h ↦ elim (Bool-cases (bit_and pde pte_addr_mask == aligned)) [
          | inr k ↦ inl (
            rw (e, f, g, h, k, unmap_huge) refl,
            ((e, f, g), inr (==→ne (bit_and pde pte_addr_mask) aligned k)),
          )
          | inl k ↦
              let (s', r, way, cleared, zero_at, kept) =
                after pml4t vaddr s at (upper_tables m pml4t vaddr) in
              inr (
                s',
                rw (e, f, g, h, k, unmap_huge) r,
                inr (((e, f, g), h, ground (arith, k)), way),
                (cleared, not_mapped m s'.mem pml4t vaddr cleared zero_at, inr kept),
              )
        ]
      ]
    ]

-- `unmap_small` panics exactly where the entry of the page directory for `vaddr` is present and is a
-- huge page, or points to a table whose entry is present and is not the given page. Else it returns:
-- where an entry on the way is absent, with nothing changed; and where the given page is mapped, with
-- its entry zeroed and `vaddr` flushed, and then of the tables above exactly those freed, and their
-- entries zeroed, that are left all zero, from the lowest one up to the first in use. So no other
-- cell of `mem`, where the links of the allocator in a free page are not kept, is changed, and no
-- 4 KB page is mapped at `vaddr` any more.
pub unmap_small_lem :
    (pml4t aligned vaddr : ℕ) (s : Mmu)
    → ((unmap_small pml4t aligned vaddr s ≡ none) × WrongPage s.mem pml4t aligned vaddr)
      ⊎ ((s' : Mmu) × (unmap_small pml4t aligned vaddr s ≡ some s')
          × SmallDone pml4t aligned vaddr s s'
          × Unmapped NotMappedSmall pml4t vaddr s s')
unfolding unmap_small
unmap_small_lem pml4t aligned vaddr s =
    let m = s.mem in
    let at = pt_entry m pml4t vaddr in
    let pde = m (pd_entry m pml4t vaddr) in
    let pte = m at in
    elim (present_cases m pml4t vaddr) [
      | inl gone ↦ inr (
        s,
        absent_small pml4t aligned vaddr s gone,
        inl (inl gone, refl),
        unchanged pml4t vaddr s NotMappedSmall (inl gone),
      )
      | inr (e, f, g) ↦ elim (Bool-cases (has_flag pde pte_huge_page)) [
        | inl h ↦ inl (rw (e, f, g, h, unmap_small) refl, ((e, f, g), inl h))
        | inr h ↦ elim (Bool-cases (has_flag pte pte_present)) [
          | inr j ↦ inr (
            s,
            rw (e, f, g, h, j, unmap_small) refl,
            inl (inr j, refl),
            unchanged pml4t vaddr s NotMappedSmall (inr j),
          )
          | inl j ↦ elim (Bool-cases (bit_and pte pte_addr_mask == aligned)) [
            | inr k ↦ inl (
              rw (e, f, g, h, j, k, unmap_small) refl,
              ((e, f, g), inr (h, j, ==→ne (bit_and pte pte_addr_mask) aligned k)),
            )
            | inl k ↦
                let (s', r, way, cleared, zero_at, kept) =
                  after pml4t vaddr s at (all_tables m pml4t vaddr) in
                inr (
                  s',
                  rw (e, f, g, h, j, k, unmap_small) r,
                  inr (((e, f, g), h, j, ground (arith, k)), way),
                  (cleared, not_mapped_small m s'.mem pml4t vaddr cleared zero_at, inr kept),
                )
          ]
        ]
      ]
    ]
