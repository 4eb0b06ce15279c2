-- ===== src/Paging/Tiles.antt =====
-- What the spans of src/mikroKernellib/paging.c cover.
use native.Mathlib.Nat.{mul-le-mul}
use mathlib.Core.Path.{subst}
use mikrokernellib.Common.{
  ℕ, ◌+◌, ◌-◌, ◌*◌, ◌/◌, ◌%◌, ◌^◌, ◌≤◌, ◌<◌, ◌≡◌, ◌⊎◌, inl, inr, refl, sym, true, false, List, [],
  ◌∷◌, ltb, leb, if◌then◌else◌, u32, u64, sub64, Bool-cases, arith,
}
use mikrokernellib.Common.Bits.{bit_and_high}
use mikrokernellib.Layout.{page_size, huge_page_size}
use mikrokernellib.Vesa.{BootVbeHandoff}
use mikrokernellib.Paging.Regions.{
  Span, page_down, huge_down, split_spans, region_spans, framebuffer_base, framebuffer_pages,
}

leb-false : (a b : ℕ) → leb a b ≡ false → b < a
leb-false a b h = ground arith

page_down_lem : (x : ℕ) → x < 2 ^ 64 → page_down x ≡ x / 4096 * 4096
unfolding page_down
page_down_lem x small = omega (arith, bit_and_high 52 12 x, small)

huge_down_lem : (x : ℕ) → x < 2 ^ 64 → huge_down x ≡ x / 2097152 * 2097152
unfolding huge_down
huge_down_lem x small = omega (arith, bit_and_high 43 21 x, small)

abbrev pub span_page : Span → ℕ
span_page s = if s.huge then huge_page_size else page_size

-- The spans follow one another from `lo` to `hi`, none of them empty, each aligned to its pages.
abbrev pub Tiling : ℕ → ℕ → List Span → Type 0
Tiling lo hi [] = lo ≡ hi
Tiling lo hi (s ∷ spans) =
    (s.paddr ≡ lo)
    × (0 < s.num_pages)
    × (lo % span_page s ≡ 0)
    × Tiling (lo + s.num_pages * span_page s) hi spans

module _ (lo hi a b : ℕ) (lo_page : lo % 4096 ≡ 0) (hi_page : hi % 4096 ≡ 0)
    (a_huge : a % 2097152 ≡ 0) (b_huge : b % 2097152 ≡ 0) (lo_a : lo ≤ a) (a_b : a < b)
    (b_hi : b ≤ hi) where
  abbrev tail : List Span
  tail =
      if ltb 0 ((hi - b) / page_size)
      then record { paddr = b; huge = false; num_pages = (hi - b) / page_size } ∷ []
      else []

  tail-Tiling : Tiling b hi tail
  tail-Tiling = elim (Bool-cases (ltb 0 ((hi - b) / page_size))) [
    | inl e ↦
        rw e (refl, ground (arith, e), omega (arith, b_huge), omega (arith, b_hi, hi_page, b_huge))
    | inr e ↦
        let full : (hi - b) / page_size ≡ 0 = ground (arith, e) in
        rw e (omega (arith, full, b_hi, hi_page, b_huge))
  ]

  middle-Tiling :
      Tiling a hi (record { paddr = a; huge = true; num_pages = (b - a) / huge_page_size } ∷ tail)
  middle-Tiling =
      let end_ : a + (b - a) / huge_page_size * huge_page_size ≡ b =
        omega (arith, a_b, a_huge, b_huge) in
      (
        refl,
        omega (arith, a_b, a_huge, b_huge),
        a_huge,
        subst (λ z. Tiling z hi tail) (sym end_) tail-Tiling,
      )

  split_spans-Tiling : Tiling lo hi (split_spans lo hi a b)
  unfolding split_spans
  split_spans-Tiling = elim (Bool-cases (ltb lo a)) [
    | inl e ↦
        let before : lo < a = ground (arith, e) in
        let end_ : lo + (a - lo) / page_size * page_size ≡ a =
          omega (arith, lo_a, lo_page, a_huge) in
        rw e (
          refl,
          omega (arith, before, lo_page, a_huge),
          lo_page,
          subst
              (λ z.
                Tiling z hi
                  (record { paddr = a; huge = true; num_pages = (b - a) / huge_page_size } ∷ tail))
              (sym end_) middle-Tiling,
        )
    | inr e ↦
        let same : a ≡ lo = ground (arith, e, lo_a) in
        rw e (
          subst
            (λ z.
              Tiling z hi
                (record { paddr = a; huge = true; num_pages = (b - a) / huge_page_size } ∷ tail))
            same middle-Tiling)
  ]

-- For usable memory that ends below the last 4 MB of the address space, the spans tile the whole
-- pages of the memory, from the first page boundary in it to the last one, or there is no whole page
-- and no span.
pub region_spans_lem :
    (base size : ℕ)
    → base + size + 0x400000 ≤ 2 ^ 64
    → (lo : ℕ) × (hi : ℕ) × (base ≤ lo)
      × (lo < base + page_size)
      × (hi ≤ base + size)
      × (base + size < hi + page_size)
      × (lo % page_size ≡ 0)
      × (hi % page_size ≡ 0)
      × (((hi ≤ lo) × (region_spans base size ≡ []))
          ⊎ ((lo < hi) × Tiling lo hi (region_spans base size)))
unfolding region_spans
region_spans_lem base size small =
    let first = u64 (base + page_size - 1) in
    let last = u64 (base + size) in
    let lo = page_down first in
    let hi = page_down last in
    let lo_is : lo ≡ first / 4096 * 4096 = page_down_lem first (omega arith) in
    let hi_is : hi ≡ last / 4096 * 4096 = page_down_lem last (omega arith) in
    let a = huge_down (u64 (lo + huge_page_size - 1)) in
    let b = huge_down hi in
    let a_is : a ≡ u64 (lo + huge_page_size - 1) / 2097152 * 2097152 =
      huge_down_lem (u64 (lo + huge_page_size - 1)) (omega arith) in
    let b_is : b ≡ hi / 2097152 * 2097152 = huge_down_lem hi (omega (arith, hi_is)) in
    let lo_page : lo % 4096 ≡ 0 = omega (arith, lo_is) in
    let hi_page : hi % 4096 ≡ 0 = omega (arith, hi_is) in
    (
      lo,
      hi,
      omega (arith, lo_is, small),
      omega (arith, lo_is, small),
      omega (arith, hi_is, small),
      omega (arith, hi_is, small),
      lo_page,
      hi_page,
      elim (Bool-cases (leb hi lo)) [
        | inl e ↦ inl (ground (arith, e), rw e refl)
        | inr e ↦ inr (
          ground (arith, e),
          elim (Bool-cases (leb b a)) [
            | inl f ↦
                rw (e, f)
                  (
                    refl,
                    omega (arith, lo_page, hi_page, leb-false hi lo e),
                    lo_page,
                    omega (arith, lo_page, hi_page, leb-false hi lo e),
                  )
            | inr f ↦
                rw (e, f)
                  (split_spans-Tiling lo hi a b lo_page hi_page (omega (arith, a_is))
                    (omega (arith, b_is)) (omega (arith, a_is, lo_is, small)) (leb-false b a f)
                    (omega (arith, b_is)))
          ],
        )
      ],
    )

-- The pages that are mapped for a framebuffer of 32-bit size that is not empty hold all its bytes.
pub framebuffer_lem :
    (vbe : BootVbeHandoff)
    → vbe.framebuffer_address < 2 ^ 32
    → vbe.pitch < 2 ^ 16
    → vbe.height_px < 2 ^ 16
    → 0 < vbe.pitch * vbe.height_px
    → (framebuffer_base vbe ≤ vbe.framebuffer_address)
      × (vbe.framebuffer_address + vbe.pitch * vbe.height_px
          ≤ framebuffer_base vbe + framebuffer_pages vbe * page_size)
unfolding framebuffer_base framebuffer_pages
framebuffer_lem vbe low pitch height some_bytes =
    let size = vbe.pitch * vbe.height_px in
    let size_small : size ≤ 65535 * 65535 =
      mul-le-mul {n₂ = 65535} {m₂ = 65535} (omega (arith, pitch)) (omega (arith, height)) in
    let fb_last = sub64 (u64 (vbe.framebuffer_address + u32 size)) 1 in
    let last_is : fb_last ≡ vbe.framebuffer_address + size - 1 =
      omega (arith, size_small, low, some_bytes) in
    let base_is = page_down_lem vbe.framebuffer_address (omega (arith, low)) in
    let end_is = page_down_lem (u64 (fb_last + page_size)) (omega arith) in
    (omega (arith, base_is), omega (arith, base_is, end_is, last_is, size_small, low, some_bytes))
