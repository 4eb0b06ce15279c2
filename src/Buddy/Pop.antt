-- ===== src/Buddy/Pop.antt =====
-- The first block of a free list is taken off.
use mathlib.Core.Path.{subst, subst₂}
use native.Mathlib.Decide.{ℕ_discrete}
use mikrokernellib.Common.{
  ℕ, ◌+◌, ◌≤◌, ◌≡◌, ◌≢◌, sym, ap, true, List, ◌∷◌, arith, update, update_self, update-ne,
}
use mikrokernellib.Buddy.{Buddy, pop_block}
use mikrokernellib.Buddy.Cover.{inside, hits, covered, has, Distinct, covered-update}
use mikrokernellib.Buddy.Chain.{
  Chain, Chain-update_next, Chain-head, set_back, Chain-set_back, Chain-set_back_ne,
}
use mikrokernellib.Buddy.Wf.{Aligned, AllAligned, Wf, distinct, apart}

module _ {s : Buddy} {fl : ℕ → List ℕ} (w : Wf s fl) (k : ℕ) (hk : k ≤ 10) (xs : List ℕ)
    (e : fl k ≡ s.free_lists_ptr k ∷ xs) where
  abbrev x : ℕ
  x = s.free_lists_ptr k

  abbrev after : ℕ
  after = s.next x

  first : Chain s.next s.prev (x ∷ xs) 0 x
  first = subst (λ ys. Chain s.next s.prev ys 0 x) e (w.chains k hk)

  alone : Distinct (x ∷ xs)
  alone = subst Distinct e (distinct w k hk)

  listed : has x (fl k) ≡ true
  listed = Chain-head s.next s.prev (fl k) 0 x (w.chains k hk) first.1

  after_listed : after ≢ 0 → has after (fl k) ≡ true
  after_listed ne = rw e (ground (arith, Chain-head s.next s.prev xs x after first.3 ne))

  pop_chain :
      (j : ℕ)
      → j ≤ 10
      → Chain
          (pop_block k s).next
          (pop_block k s).prev
          (update fl k xs j)
          0
          (update s.free_lists_ptr k after j)
  unfolding pop_block
  pop_chain j hj = elim (ℕ_discrete j k) [
    | yes same ↦
        rw (same, update_self fl k xs, update_self s.free_lists_ptr k after)
          (Chain-set_back (update s.next x 0) s.prev 0 xs x after alone.1
            (Chain-update_next s.next s.prev x 0 xs x after first.3 alone.0))
    | no ne ↦
        subst₂ (λ ys p. Chain (update s.next x 0) (set_back s.prev after 0) ys 0 p)
          (sym (update-ne fl k xs j ne)) (sym (update-ne s.free_lists_ptr k after j ne))
          (Chain-set_back_ne (update s.next x 0) s.prev after 0 (fl j) 0 (s.free_lists_ptr j)
            (Chain-update_next s.next s.prev x 0 (fl j) 0 (s.free_lists_ptr j) (w.chains j hj)
              (apart w j k x hj hk ne listed))
            (λ nonnull. apart w j k after hj hk ne (after_listed nonnull)))
  ]

  pub covered-pop : (a : ℕ) → covered (update fl k xs) a + inside k x a ≡ covered fl a
  covered-pop a = omega (arith, covered-update k fl xs a (omega arith), ap (hits k a) e)

  pub pop-Aligned : Aligned k x × AllAligned k xs
  pop-Aligned = subst (AllAligned k) e (w.aligned k hk)

  pub pop-ne_null : x ≢ 0
  pop-ne_null = first.1

  -- What is left is well formed, without the block that was taken.
  pub pop-Wf : Wf (pop_block k s) (update fl k xs)
  unfolding pop_block
  pop-Wf = record {
    top = w.top;
    chains = pop_chain;
    once = λ a. omega (arith, w.once a, covered-pop a);
    aligned = λ j hj. elim (ℕ_discrete j k) [
      | yes same ↦ rw (same, update_self fl k xs) pop-Aligned.1
      | no ne ↦ rw (update-ne fl k xs j ne) (w.aligned j hj)
    ];
  }
