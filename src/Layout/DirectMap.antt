-- ===== src/Layout/DirectMap.antt =====
-- The translation of stored pointers by `directmap_p2v` of include/mmu.h.
use mikrokernellib.Common.{ℕ, ◌+◌, ◌-◌, ◌^◌, ◌≤◌, ◌<◌, ◌≡◌, ◌≢◌, ◌⊎◌, inl, inr, arith}
use native.Mathlib.Decide.{ℕ_discrete}
use mikrokernellib.Layout.{direct_map_start, direct_map_end, directmap_p2v}

-- The two values of `phys_map_offset`.
abbrev pub IsOffset : ℕ → Type 0
IsOffset offset = (offset ≡ 0) ⊎ (offset ≡ direct_map_start)

-- A physical pointer within the 60 TB that the direct map spans, or a kernel pointer behind it.
abbrev pub IsPointer : ℕ → Type 0
IsPointer p = (p < direct_map_end - direct_map_start) ⊎ ((direct_map_end ≤ p) × (p < 2 ^ 64))

-- The address behind a stored pointer: a physical one is moved by the offset, a kernel pointer is
-- itself.
abbrev pub Translated : ℕ → ℕ → ℕ → Type 0
Translated offset p address =
    ((p < direct_map_end - direct_map_start) × (address ≡ p + offset))
    ⊎ ((direct_map_end ≤ p) × (address ≡ p))

directmap_p2v-Translated :
    (offset p : ℕ) → IsOffset offset → IsPointer p → Translated offset p (directmap_p2v offset p)
unfolding directmap_p2v
directmap_p2v-Translated offset p o (inl h) = inl (h, ground (arith, o))
directmap_p2v-Translated offset p o (inr h) = inr (h.0, ground (arith, o))

-- Before and after the direct map is in place (the offset is 0 or its start), `directmap_p2v` moves a
-- physical pointer within the 60 TB that the direct map spans by the offset, and leaves a kernel
-- pointer at or above the end of the direct map as it is; two such pointers that are different go to
-- different addresses. Pointers between these ranges, into the direct map itself for one, are not
-- considered.
pub directmap_p2v-injective :
    (offset p q : ℕ)
    → IsOffset offset
    → IsPointer p
    → IsPointer q
    → Translated offset p (directmap_p2v offset p)
      × Translated offset q (directmap_p2v offset q)
      × ((p ≡ q) ⊎ (directmap_p2v offset p ≢ directmap_p2v offset q))
unfolding directmap_p2v
directmap_p2v-injective offset p q o hp hq = (
  directmap_p2v-Translated offset p o hp,
  directmap_p2v-Translated offset q o hq,
  elim (ℕ_discrete p q) [ yes e ↦ inl e | no ne ↦ inr (λ e. ne (ground arith)) ],
)
