-- ===== src/Mmu/Pages.antt =====
-- `map_pages` and `unmap_pages` of src/mikroKernellib/mmu.c, the operations on many pages.
use mikrokernellib.Common.{
  ℕ, zero, suc, ◌+◌, ◌-◌, ◌*◌, ◌^◌, bit_or, Option, some, ◌==◌, if◌then◌else◌, ◌>>=◌, update, u64,
}
use mikrokernellib.Layout.{
  page_size, huge_page_size, pte_huge_page, virt_to_pml4_idx, virt_to_pdpt_idx, virt_to_pd_idx,
  virt_to_pt_idx,
}
use mikrokernellib.Mmu.{Mmu, has_flag, entry_at, align_down, wire_table, unmap_small, unmap_huge}

-- The local variables of the loops of `map_pages`.
pub record Cursor : Type 0 where
  pub vaddr : ℕ
  pub paddr : ℕ
  pub pml4t_idx : ℕ
  pub pdpt_idx : ℕ
  pub pd_idx : ℕ
  pub pdpt : ℕ
  pub pd : ℕ
  pub pt : ℕ

-- ~0ULL
abbrev pub no_index : ℕ
no_index = 2 ^ 64 - 1

unfoldable pub first_cursor : ℕ → ℕ → Cursor
first_cursor vaddr paddr = record {
  vaddr = vaddr;
  paddr = paddr;
  pml4t_idx = no_index;
  pdpt_idx = no_index;
  pd_idx = no_index;
  pdpt = 0;
  pd = 0;
  pt = 0;
}

-- Each level is looked up when its index is a new one, and then the index below is forgotten.
unfoldable pub enter_pml4 : ℕ → Cursor → Mmu → Option (Cursor × Mmu)
enter_pml4 pml4t c s =
    let idx = virt_to_pml4_idx c.vaddr in
    if idx == c.pml4t_idx then some (c, s) else (do
      (pdpt, wired) ← wire_table (entry_at pml4t idx) s
      some (record c { pml4t_idx = idx; pdpt = pdpt; pdpt_idx = no_index }, wired))

unfoldable pub enter_pdpt : Cursor → Mmu → Option (Cursor × Mmu)
enter_pdpt c s =
    let idx = virt_to_pdpt_idx c.vaddr in
    if idx == c.pdpt_idx then some (c, s) else (do
      (pd, wired) ← wire_table (entry_at c.pdpt idx) s
      some (record c { pdpt_idx = idx; pd = pd; pd_idx = no_index }, wired))

unfoldable pub enter_pd : Cursor → Mmu → Option (Cursor × Mmu)
enter_pd c s =
    let idx = virt_to_pd_idx c.vaddr in
    if idx == c.pd_idx then some (c, s) else (do
      (pt, wired) ← wire_table (entry_at c.pd idx) s
      some (record c { pd_idx = idx; pt = pt }, wired))

unfoldable pub next_page : ℕ → Cursor → Cursor
next_page size c = record c { vaddr = u64 (c.vaddr + size); paddr = u64 (c.paddr + size) }

-- One round of the loop for huge pages, in which `pd_idx` is not used.
unfoldable pub map_huge_step : ℕ → ℕ → Cursor → Mmu → Option (Cursor × Mmu)
map_huge_step pml4t flags c s = do
  (c1, s1) ← enter_pml4 pml4t c s
  (c2, s2) ← enter_pdpt c1 s1
  let entry = entry_at c2.pd (virt_to_pd_idx c2.vaddr)
  some
      (next_page huge_page_size c2, record s2 { mem = update s2.mem entry (bit_or c2.paddr flags) })

-- One round of the loop for 4 KB pages.
unfoldable pub map_small_step : ℕ → ℕ → Cursor → Mmu → Option (Cursor × Mmu)
map_small_step pml4t flags c s = do
  (c1, s1) ← enter_pml4 pml4t c s
  (c2, s2) ← enter_pdpt c1 s1
  (c3, s3) ← enter_pd c2 s2
  let entry = entry_at c3.pt (virt_to_pt_idx c3.vaddr)
  some (next_page page_size c3, record s3 { mem = update s3.mem entry (bit_or c3.paddr flags) })

unfoldable pub map_pages_loop :
    ℕ → (Cursor → Mmu → Option (Cursor × Mmu)) → Cursor → Mmu → Option Mmu
map_pages_loop zero step c s = some s
map_pages_loop (suc count) step c s = do
  (next, after) ← step c s
  map_pages_loop count step next after

unfoldable pub map_pages : ℕ → ℕ → ℕ → ℕ → ℕ → Mmu → Option Mmu
map_pages pml4t paddr vaddr flags num_pages s =
    if has_flag flags pte_huge_page
    then map_pages_loop num_pages (map_huge_step pml4t flags) (first_cursor vaddr paddr) s
    else map_pages_loop num_pages (map_small_step pml4t flags)
        (first_cursor vaddr (align_down paddr page_size)) s

-- Page number `i`.
unfoldable pub unmap_huge_step : ℕ → ℕ → ℕ → ℕ → Mmu → Option Mmu
unmap_huge_step pml4t paddr vaddr i s =
    unmap_huge pml4t (u64 (paddr + i * huge_page_size)) (u64 (vaddr + i * huge_page_size)) s

unfoldable pub unmap_small_step : ℕ → ℕ → ℕ → ℕ → Mmu → Option Mmu
unmap_small_step pml4t paddr vaddr i s =
    unmap_small pml4t (u64 (paddr + i * page_size)) (u64 (vaddr + i * page_size)) s

-- The pages from number `i` on.
unfoldable pub unmap_loop : ℕ → ℕ → (ℕ → Mmu → Option Mmu) → Mmu → Option Mmu
unmap_loop zero i step s = some s
unmap_loop (suc count) i step s = do after ← step i s; unmap_loop count (i + 1) step after

unfoldable pub unmap_pages : ℕ → ℕ → ℕ → ℕ → ℕ → Mmu → Option Mmu
unmap_pages pml4t paddr vaddr flags num_pages s =
    if has_flag flags pte_huge_page
    then unmap_loop num_pages 0 (unmap_huge_step pml4t (align_down paddr huge_page_size) vaddr) s
    else unmap_loop num_pages 0 (unmap_small_step pml4t (align_down paddr page_size) vaddr) s
