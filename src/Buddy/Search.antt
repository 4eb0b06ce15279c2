-- ===== src/Buddy/Search.antt =====
-- `buddy_kalloc` as a whole: the search for a list with a block, and every outcome of a call.
use mathlib.Core.Path.{subst}
use native.Mathlib.Decide.{ℕ_discrete}
use mikrokernellib.Common.{
  ℕ, zero, suc, ◌+◌, ◌-◌, ◌^◌, ◌≤◌, ◌<◌, ◌≡◌, ◌≢◌, ◌⊎◌, inl, inr, refl, sym, ap, ◌∙◌, true, false,
  some, List, [], arith, ltb, ◌==◌, update, Bool-cases, ltb→lt, ltb→ge,
}
use mikrokernellib.Buddy.{Buddy, take_block, search_loop, buddy_kalloc, order_loop}
use mikrokernellib.Buddy.Order.{IsOrder, order_loop-IsOrder}
use mikrokernellib.Buddy.Cover.{inside, covered}
use mikrokernellib.Buddy.Chain.{Chain-nil, Chain-cons}
use mikrokernellib.Buddy.Wf.{Aligned, Wf}
use mikrokernellib.Buddy.Pop.{pop-Wf, pop-Aligned, covered-pop}
use mikrokernellib.Buddy.Alloc.{Allocated, toggle-Wf, split_loop-Allocated}

-- No block of order `k` or more is free.
abbrev pub NoneFree : (ℕ → List ℕ) → ℕ → Type 0
NoneFree fl k = (j : ℕ) → k ≤ j → j ≤ 10 → fl j ≡ []

-- The pointer and the state that a call of `buddy_kalloc` returns for a block of `order`: NULL
-- and no change where no list that could serve has a block, and otherwise a block that was free.
abbrev pub KallocOutcome : Buddy → (ℕ → List ℕ) → ℕ → ℕ → Buddy → Type 0
KallocOutcome s fl order p s' = ((p ≡ 0) × (s' ≡ s) × NoneFree fl order) ⊎ Allocated fl order p s'

module _ {s : Buddy} {fl : ℕ → List ℕ} (w : Wf s fl) where
  take-Allocated :
      (idx order : ℕ)
      → order ≤ idx
      → idx ≤ 10
      → s.free_lists_ptr idx ≢ 0
      → Allocated fl order (s.free_lists_ptr idx) (take_block idx order s)
  unfolding take_block
  take-Allocated idx order lo hi ne =
      let chunk = s.free_lists_ptr idx in
      let (ys, e) = Chain-cons s.next s.prev (fl idx) 0 chunk (w.chains idx hi) ne in
      let same : idx ≡ order + (idx - order) = omega arith in
      let at_idx = covered-pop w idx hi ys e in
      let (left, wf, aligned, kept) =
        split_loop-Allocated (idx - order) chunk order (pop-Wf w idx hi ys e) (omega arith) ne
          (subst (λ k. Aligned k chunk) same (pop-Aligned w idx hi ys e).0)
          (λ a.
            subst (λ k. covered (update fl idx ys) a + inside k chunk a ≤ 1) same
              (omega (arith, at_idx a, w.once a))) in
      record {
        ne_null = ne;
        aligned = aligned;
        left = left;
        wf = toggle-Wf chunk order wf;
        taken = λ a.
            kept a
            ∙ ap (λ k. covered (update fl idx ys) a + inside k chunk a) (sym same)
            ∙ at_idx a;
      }

  none_at :
      (idx : ℕ) → idx ≤ 10 → s.free_lists_ptr idx ≡ 0 → NoneFree fl (idx + 1) → NoneFree fl idx
  none_at idx hi null above j lo hj = elim (ℕ_discrete j idx) [
    | yes e ↦
        rw e (Chain-nil s.next s.prev (fl idx) 0 (s.free_lists_ptr idx) (w.chains idx hi) null)
    | no ne ↦ above j (omega arith) hj
  ]

  search_loop_outcome :
      (rounds idx order : ℕ)
      → rounds + idx ≡ 11
      → order ≤ idx
      → ((search_loop rounds idx order s ≡ (0, s)) × NoneFree fl idx)
        ⊎ Allocated fl order (search_loop rounds idx order s).0 (search_loop rounds idx order s).1
  unfolding search_loop
  search_loop_outcome zero idx order e lo = inl (refl, λ j p q. absurd (omega arith))
  search_loop_outcome (suc rounds) idx order e lo = elim (ℕ_discrete (s.free_lists_ptr idx) 0) [
    | yes null ↦
        let e' : (s.free_lists_ptr idx == 0) ≡ true = ground arith in
        rw e' (elim (search_loop_outcome rounds (idx + 1) order (omega arith) (omega arith)) [
          | inl (same, none_above) ↦ inl (same, none_at idx (omega arith) null none_above)
          | inr got ↦ inr got
        ])
    | no ne ↦
        let e' : (s.free_lists_ptr idx == 0) ≡ false = ground arith in
        rw e' (inr (take-Allocated idx order lo (omega arith) ne))
  ]

  search-KallocOutcome :
      (order : ℕ)
      → order ≤ 10
      → let r = search_loop (s.max_order + 1 - order) order order s in
        KallocOutcome s fl order r.0 r.1
  search-KallocOutcome order h =
      elim (search_loop_outcome (s.max_order + 1 - order) order order (omega (arith, w.top))
        (omega arith)) [
          | inl (same, none_free) ↦ inl (ap (λ r. r.0) same, ap (λ r. r.1) same, none_free)
          | inr got ↦ inr got
        ]

  kalloc-KallocOutcome :
      (size order : ℕ)
      → order_loop 64 0 size ≡ some order
      → (p : ℕ) × (s' : Buddy) × (buddy_kalloc size s ≡ some (p, s'))
        × KallocOutcome s fl order p s'
  unfolding buddy_kalloc
  kalloc-KallocOutcome size order found = elim (Bool-cases (ltb s.max_order order)) [
    | inl big ↦
        let above : 10 < order = omega (arith, w.top, ltb→lt _ _ big) in
        (0, s, rw (found, buddy_kalloc) (rw big), inl (refl, refl, λ j p q. absurd (omega arith)))
    | inr fits ↦
        let r = search_loop (s.max_order + 1 - order) order order s in
        let low : order ≤ 10 = omega (arith, w.top, ltb→ge _ _ fits) in
        (r.0, r.1, rw (found, buddy_kalloc) (rw fits), search-KallocOutcome order low)
  ]

  -- For a well-formed allocator and a size of at most 2^63 bytes `buddy_kalloc` returns. With
  -- `order` the least order whose blocks hold `size` bytes, it returns NULL and changes nothing
  -- exactly where no block of that order or a higher one is free. Otherwise it returns the
  -- address of a block of `order`, a multiple of the block's size and not NULL, and leaves a
  -- well-formed allocator in which every address is covered by as many free blocks as before,
  -- less the returned one.
  pub buddy_kalloc_lem :
      (size : ℕ)
      → size ≤ 2 ^ 63
      → (order : ℕ) × (p : ℕ) × (s' : Buddy) × (buddy_kalloc size s ≡ some (p, s'))
        × IsOrder size order
        × KallocOutcome s fl order p s'
  buddy_kalloc_lem size h =
      let (order, found, small, least) = order_loop-IsOrder size h in
      let (p, s', returns, outcome) = kalloc-KallocOutcome size order found in
      (order, p, s', returns, least, outcome)
