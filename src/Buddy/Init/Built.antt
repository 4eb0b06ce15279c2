-- ===== src/Buddy/Init/Built.antt =====
-- `__init_buddy`: the state that it leaves is well formed, and its free blocks are the region.
use mikrokernellib.Common.{
  ℕ, zero, suc, ◌+◌, ◌-◌, ◌/◌, ◌%◌, ◌^◌, ◌≤◌, ◌<◌, ◌≡◌, ◌≢◌, refl, ap, ◌∙◌, ◌&&◌, List, arith, ltb,
  leb, if◌then◌else◌,
}
use mikrokernellib.Layout.{page_size}
use mikrokernellib.Buddy.{Buddy}
use mikrokernellib.Buddy.Cover.{cover, covered}
use mikrokernellib.Buddy.Wf.{Aligned, Wf}
use mikrokernellib.Buddy.Init.{Region, count_loop, lay_orders, build}
use mikrokernellib.Buddy.Init.Counts.{extent, total, IsCut, count_loop-IsCut}
use mikrokernellib.Buddy.Init.Lists.{hits-run, run-AllAligned}
use mikrokernellib.Buddy.Init.Lay.{list_of, Laid, lay_orders-Laid}

cover-list_of :
    (counts : ℕ → ℕ) (end n a : ℕ)
    → extent counts n ≤ end
    → cover n (list_of counts end) a ≡ (if leb (end - extent counts n) a && ltb a end then 1 else 0)
cover-list_of counts end zero a h = ground arith
cover-list_of counts end (suc k) a h =
    ground
      (arith, hits-run k (end - extent counts (suc k)) (counts k) a, cover-list_of counts end k a)

-- A region that the largest block divides and that is cut into whole pages.
pub record IsRegion (r : Region) : Type 0 where
  pub ne_null : r.base ≢ 0
  pub aligned : Aligned 10 r.base
  pub pages : r.size % page_size ≡ 0
  pub small : r.size < 2 ^ 43
  pub fits : r.base + r.size < 2 ^ 64

module _ (memory : Buddy) (r : Region) (is : IsRegion r) where
  abbrev counts : ℕ → ℕ
  counts = (count_loop (r.size / page_size + 1) r.base r.size (λ k. 0)).0

  cut : IsCut (total (λ k. 0) + r.size) (count_loop (r.size / page_size + 1) r.base r.size (λ k. 0))
  cut =
      count_loop-IsCut (r.size / page_size + 1) r.base r.size (λ k. 0) (omega arith) is.pages
        (omega (arith, is.aligned.1)) is.fits (λ k. omega (arith, is.small))

  whole : extent counts 11 ≡ r.size
  unfolding total
  whole = omega (arith, cut.all)

  -- The free lists that the start of the kernel makes of the region.
  abbrev lists : ℕ → List ℕ
  lists = list_of counts (r.base + r.size)

  abbrev empty : Buddy
  empty = record memory {
    base_address = r.base;
    size = r.size;
    min_order = 0;
    max_order = 10;
    free_lists_ptr = λ k. 0;
  }

  laid : Laid counts 11 r.base (r.base + r.size) empty (lay_orders counts 11 (r.base, empty)).1
  laid =
      lay_orders-Laid counts 11 r.base (r.base + r.size) empty (omega arith) is.ne_null
        (omega (arith, whole)) is.aligned (λ k h. refl)

  lists-covered :
      (a : ℕ) → covered lists a ≡ (if leb r.base a && ltb a (r.base + r.size) then 1 else 0)
  unfolding covered
  lists-covered a =
      let start : r.base + r.size - extent counts 11 ≡ r.base = omega (arith, whole) in
      cover-list_of counts (r.base + r.size) 11 a (omega (arith, whole))
      ∙ ap (λ x. if leb x a && ltb a (r.base + r.size) then 1 else 0) start

  lists-Wf : Wf (build memory r) lists
  unfolding build
  lists-Wf = record {
    top = laid.top;
    chains = λ k h. laid.chains k (omega arith);
    once = λ a. ground (arith, lists-covered a);
    aligned = λ k h.
        run-AllAligned k (r.base + r.size - extent counts (suc k)) (counts k)
          (laid.starts k (omega arith));
  }

  -- From a region whose base is a multiple of the largest block and not NULL, and whose size is
  -- a number of whole pages below 2^43 bytes that ends below 2^64, `__init_buddy` builds a
  -- well-formed allocator: every address of the region lies in exactly one free block, and no
  -- other address lies in any.
  pub build-Wf :
      (fl : ℕ → List ℕ) × Wf (build memory r) fl
      × ((a : ℕ) → covered fl a ≡ (if leb r.base a && ltb a (r.base + r.size) then 1 else 0))
  build-Wf = (lists, lists-Wf, lists-covered)
