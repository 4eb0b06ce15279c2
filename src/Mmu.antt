-- ===== src/Mmu.antt =====
-- The page table operations of src/mikroKernellib/mmu.c. `mem` is the memory of table entries, by
-- the physical address of the entry (`pt + idx` is `pt + 8 * idx`); a dereference through
-- `directmap_p2v` reads the cell of the stored pointer. Pages come from and go to the buddy
-- allocator (Buddy), whose links in a free page are its own fields. `flushed` lists the addresses
-- given to `invlpg`, the last one first. `none` is a PANIC.
pub mod Pages
pub mod Outcome
pub mod Unmap
pub mod Walk
pub mod Climb
pub mod Mapped
pub mod Loop
pub mod Range
pub mod Stays
pub mod Back
pub mod Indices
use mikrokernellib.Common.{
  ℕ, zero, suc, ◌+◌, ◌-◌, ◌*◌, ◌/◌, ◌%◌, ◌^◌, bit_and, bit_or, Bool, true, false, ◌&&◌, not, Option,
  none, some, List, [], ◌∷◌, ltb, leb, ◌==◌, if◌then◌else◌, ◌>>=◌, update, u64,
}
use mikrokernellib.Layout.{
  page_size, huge_page_size, pte_present, pte_writable, pte_huge_page, pte_addr_mask,
  virt_to_pml4_idx, virt_to_pdpt_idx, virt_to_pd_idx, virt_to_pt_idx,
}
use mikrokernellib.Buddy.{Buddy, buddy_kalloc, buddy_kfree}

pub record Mmu : Type 0 where
  pub mem : ℕ → ℕ
  pub buddy : Buddy
  pub flushed : List ℕ

-- `entry & flag` as a condition.
unfoldable pub has_flag : ℕ → ℕ → Bool
has_flag entry flag = not (bit_and entry flag == 0)

-- The entry `idx` of the table at `table`.
unfoldable pub entry_at : ℕ → ℕ → ℕ
entry_at table idx = table + 8 * idx

-- Page-aligned down.
unfoldable pub align_down : ℕ → ℕ → ℕ
align_down p size = p - p % size

unfoldable pub memset_pg : ℕ → (ℕ → ℕ) → ℕ → ℕ
memset_pg page mem a = if leb page a && ltb a (page + page_size) then 0 else mem a

unfoldable pub is_empty_loop : ℕ → ℕ → ℕ → (ℕ → ℕ) → Bool
is_empty_loop zero i page_directory mem = true
is_empty_loop (suc rounds) i page_directory mem =
    let rest = is_empty_loop rounds (i + 1) page_directory mem in
    if mem (entry_at page_directory i) == 0 then rest else false

unfoldable pub is_empty : ℕ → (ℕ → ℕ) → Bool
is_empty page_directory mem = is_empty_loop 512 0 page_directory mem

-- A new table in the entry at `at`.
unfoldable pub new_table : ℕ → Mmu → Option Mmu
new_table at s = do
  (page, buddy) ← buddy_kalloc 4096 s.buddy
  if page == 0
      then none
      else some (record s {
        buddy = buddy;
        mem = update (memset_pg page s.mem) at (bit_or (bit_or page pte_present) pte_writable);
      })

-- The table that the entry at `at` points to, made if there is none.
unfoldable pub wire_table : ℕ → Mmu → Option (ℕ × Mmu)
wire_table at s = do
  wired ← if has_flag (s.mem at) pte_present then some s else new_table at s
  some (bit_and (wired.mem at) pte_addr_mask, wired)

unfoldable pub map_huge_page : ℕ → ℕ → ℕ → ℕ → Mmu → Option Mmu
map_huge_page pml4t paddr vaddr flags s = if not (has_flag flags pte_huge_page) then none else (do
  (pdpt, s1) ← wire_table (entry_at pml4t (virt_to_pml4_idx vaddr)) s
  (pd, s2) ← wire_table (entry_at pdpt (virt_to_pdpt_idx vaddr)) s1
  some
      (record s2 { mem = update s2.mem (entry_at pd (virt_to_pd_idx vaddr)) (bit_or paddr flags) }))

-- `return;` stands before the walk over the tables of a 4 KB page.
unfoldable pub map_page : ℕ → ℕ → ℕ → ℕ → Mmu → Option Mmu
map_page pml4t paddr vaddr flags s =
    if has_flag flags pte_huge_page then map_huge_page pml4t paddr vaddr flags s else some s

unfoldable pub phys_free_page : ℕ → Mmu → Option Mmu
phys_free_page page s = do
  buddy ← buddy_kfree page page_size s.buddy
  some (record s { buddy = buddy })

-- An empty table at `table` is freed, and its entry at `at` zeroed; then `up` goes on.
unfoldable pub free_if_empty : ℕ → ℕ → (Mmu → Option Mmu) → Mmu → Option Mmu
free_if_empty table at up s =
    if is_empty table s.mem
    then (do freed ← phys_free_page table (record s { mem = update s.mem at 0 }); up freed)
    else some s

-- The entry at `at`, which maps `vaddr`, is zeroed and its translation flushed.
unfoldable pub clear_entry : ℕ → ℕ → Mmu → Mmu
clear_entry at vaddr s = record s { mem = update s.mem at 0; flushed = vaddr ∷ s.flushed }

-- The body that `unmap_page` and the loop of `unmap_pages` share, `aligned_paddr` given.
unfoldable pub unmap_small : ℕ → ℕ → ℕ → Mmu → Option Mmu
unmap_small pml4t aligned_paddr vaddr s =
    let pml4e = entry_at pml4t (virt_to_pml4_idx vaddr) in
    let pdpt = bit_and (s.mem pml4e) pte_addr_mask in
    let pdpte = entry_at pdpt (virt_to_pdpt_idx vaddr) in
    let pd = bit_and (s.mem pdpte) pte_addr_mask in
    let pde = entry_at pd (virt_to_pd_idx vaddr) in
    let pt = bit_and (s.mem pde) pte_addr_mask in
    let pte = entry_at pt (virt_to_pt_idx vaddr) in
    if not (has_flag (s.mem pml4e) pte_present)
    then some s
    else (if not (has_flag (s.mem pdpte) pte_present)
        then some s
        else (if not (has_flag (s.mem pde) pte_present)
            then some s
            else (if has_flag (s.mem pde) pte_huge_page
                then none
                else (if not (has_flag (s.mem pte) pte_present)
                    then some s
                    else (if not (bit_and (s.mem pte) pte_addr_mask == aligned_paddr)
                        then none
                        else free_if_empty pt pde
                            (free_if_empty pd pdpte (free_if_empty pdpt pml4e some))
                            (clear_entry pte vaddr s))))))

unfoldable pub unmap_page : ℕ → ℕ → ℕ → Mmu → Option Mmu
unmap_page pml4t paddr vaddr s = unmap_small pml4t (align_down paddr page_size) vaddr s

-- The same for a huge page.
unfoldable pub unmap_huge : ℕ → ℕ → ℕ → Mmu → Option Mmu
unmap_huge pml4t aligned_paddr vaddr s =
    let pml4e = entry_at pml4t (virt_to_pml4_idx vaddr) in
    let pdpt = bit_and (s.mem pml4e) pte_addr_mask in
    let pdpte = entry_at pdpt (virt_to_pdpt_idx vaddr) in
    let pd = bit_and (s.mem pdpte) pte_addr_mask in
    let pde = entry_at pd (virt_to_pd_idx vaddr) in
    if not (has_flag (s.mem pml4e) pte_present)
    then some s
    else (if not (has_flag (s.mem pdpte) pte_present)
        then some s
        else (if not (has_flag (s.mem pde) pte_present)
            then some s
            else (if not (has_flag (s.mem pde) pte_huge_page)
                then none
                else (if not (bit_and (s.mem pde) pte_addr_mask == aligned_paddr)
                    then none
                    else free_if_empty pd pdpte (free_if_empty pdpt pml4e some)
                        (clear_entry pde vaddr s)))))

unfoldable pub unmap_huge_page : ℕ → ℕ → ℕ → Mmu → Option Mmu
unmap_huge_page pml4t paddr vaddr s = unmap_huge pml4t (align_down paddr huge_page_size) vaddr s
