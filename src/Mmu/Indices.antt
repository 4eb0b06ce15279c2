-- ===== src/Mmu/Indices.antt =====
-- The table indices of include/mmu.h and a virtual address.
use mikrokernellib.Common.{ℕ, ◌+◌, ◌*◌, ◌/◌, ◌%◌, ◌^◌, ◌<◌, ◌≡◌, bit_and, arith, ◌>>◌}
use mikrokernellib.Common.Bits.{bit_and_low}
use mikrokernellib.Layout.{virt_to_pml4_idx, virt_to_pdpt_idx, virt_to_pd_idx, virt_to_pt_idx}

idx_lem : (virt k : ℕ) → bit_and (virt >> k) 0x1FF ≡ virt / 2 ^ k % 512
idx_lem virt k = bit_and_low 9 (virt / 2 ^ k)

-- The four indices of an address are below 512, and with the offset in the page they give back
-- its low 48 bits.
pub indices_lem :
    (virt : ℕ)
    → (virt_to_pml4_idx virt < 512)
      × (virt_to_pdpt_idx virt < 512)
      × (virt_to_pd_idx virt < 512)
      × (virt_to_pt_idx virt < 512)
      × (virt_to_pml4_idx virt * 2 ^ 39
            + virt_to_pdpt_idx virt * 2 ^ 30
            + virt_to_pd_idx virt * 2 ^ 21
            + virt_to_pt_idx virt * 2 ^ 12
            + virt % 2 ^ 12
          ≡ virt % 2 ^ 48)
unfolding virt_to_pml4_idx virt_to_pdpt_idx virt_to_pd_idx virt_to_pt_idx
indices_lem virt =
    let a = idx_lem virt 39 in
    let b = idx_lem virt 30 in
    let c = idx_lem virt 21 in
    let d = idx_lem virt 12 in
    (
      omega (arith, a),
      omega (arith, b),
      omega (arith, c),
      omega (arith, d),
      omega (arith, a, b, c, d),
    )
