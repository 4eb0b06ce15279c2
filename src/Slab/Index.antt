-- ===== src/Slab/Index.antt =====
-- The cache that `slab_kalloc` of src/mikroKernellib/phys_kmalloc.c chooses for a size.
use native.Mathlib.Decide.{ℕ_discrete}
use mikrokernellib.Common.{
  ℕ, zero, suc, ◌+◌, ◌^◌, ◌≤◌, ◌<◌, ◌≡◌, ◌⊎◌, inl, inr, refl, sym, Bool, true, false, ◌&&◌, ◌||◌,
  Option, none, some, ltb, leb, ◌==◌, arith, Option-cases,
}
use mathlib.Core.Path.{subst}
use mikrokernellib.Kmath.{klog2_loop, klog2, smear, round_up_pow2}
use mikrokernellib.Slab.{size_to_index}

-- Whether an index is the one of the smallest objects that are large enough.
abbrev fits_at : ℕ → Option ℕ → Bool
fits_at size none = false
fits_at size (some k) = ltb k 8 && (leb size (2 ^ (k + 4)) && (k == 0 || ltb (2 ^ (k + 3)) size))

abbrev all_fit : ℕ → Bool
all_fit zero = true
all_fit (suc n) = fits_at (suc n) (size_to_index (suc n)) && all_fit n

all_fit_2048 : all_fit 2048 ≡ true
unfolding size_to_index klog2_loop klog2 smear round_up_pow2
all_fit_2048 = refl

and_left : (a b : Bool) → (a && b) ≡ true → a ≡ true
and_left true b h = refl
and_left false b h = h

and_right : (a b : Bool) → (a && b) ≡ true → b ≡ true
and_right true b h = h
and_right false true h = refl
and_right false false h = h

fits_below :
    (n size : ℕ) → all_fit n ≡ true → 1 ≤ size → size ≤ n → fits_at size (size_to_index size) ≡ true
fits_below zero size h pos small = let no : ⊥ = omega (arith, pos, small) in elim no [ ]
fits_below (suc n) size h pos small = elim (ℕ_discrete size (suc n)) [
  | yes e ↦
      subst (λ m. fits_at m (size_to_index m) ≡ true) (sym e)
        (and_left (fits_at (suc n) (size_to_index (suc n))) (all_fit n) h)
  | no ne ↦
      fits_below n size (and_right (fits_at (suc n) (size_to_index (suc n))) (all_fit n) h) pos
        (omega (arith, ne, small))
]

fits_reads :
    (size k : ℕ)
    → fits_at size (some k) ≡ true
    → (k < 8) × (size ≤ 2 ^ (k + 4)) × ((k ≡ 0) ⊎ (2 ^ (k + 3) < size))
fits_reads size k h = ground arith

-- For a size from 1 to 2048 the index is below 8, the objects of its cache, of 16 bytes times 2 to the
-- power of the index, are large enough, and it is 0 or the objects of half that size are too small.
pub size_to_index_lem :
    (size : ℕ)
    → 1 ≤ size
    → size ≤ 2048
    → (k : ℕ) × (size_to_index size ≡ some k)
      × (k < 8)
      × (size ≤ 2 ^ (k + 4))
      × ((k ≡ 0) ⊎ (2 ^ (k + 3) < size))
size_to_index_lem size pos small =
    let fits = fits_below 2048 size all_fit_2048 pos small in
    elim (Option-cases (size_to_index size)) [
      | inl e ↦
          let no : false ≡ true = subst (λ o. fits_at size o ≡ true) e fits in
          let bad : ⊥ = ground (arith, no) in elim bad [ ]
      | inr (k, e) ↦
          let (low, enough, least) =
            fits_reads size k (subst (λ o. fits_at size o ≡ true) e fits) in
          (k, e, low, enough, least)
    ]
