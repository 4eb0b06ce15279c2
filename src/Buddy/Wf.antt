-- ===== src/Buddy/Wf.antt =====
-- Well-formed allocator states, and what the writes to the free lists make of them.
use mathlib.Core.Path.{subst, subst₂}
use native.Mathlib.Decide.{ℕ_discrete}
use mikrokernellib.Common.{
  ℕ, ◌+◌, ◌*◌, ◌≤◌, ◌≡◌, ◌≢◌, refl, sym, true, false, List, [], ◌∷◌, arith, update, update_self,
  update-ne,
}
use mikrokernellib.Buddy.{Buddy, push_block}
use mikrokernellib.Buddy.Order.{block_bytes}
use mikrokernellib.Buddy.Cover.{
  inside, covered, has, Distinct, inside_self, hits-pos, has_of_hits, Distinct-of_hits,
  hits-le-covered, two_hits-le-covered, covered-update,
}
use mikrokernellib.Buddy.Chain.{
  Chain, Chain-update_next, Chain-update_prev, Chain-head, set_back, Chain-set_back,
  Chain-set_back_ne,
}

abbrev pub Aligned : ℕ → ℕ → Type 0
Aligned k x = (q : ℕ) × (x ≡ q * block_bytes k)

abbrev pub AllAligned : ℕ → List ℕ → Type 0
AllAligned k [] = Unit
AllAligned k (x ∷ xs) = Aligned k x × AllAligned k xs

-- `fl k` is the free list of order `k`. No address lies in two free blocks.
pub record Wf (s : Buddy) (fl : ℕ → List ℕ) : Type 0 where
  pub top : s.max_order ≡ 10
  pub chains : (k : ℕ) → k ≤ 10 → Chain s.next s.prev (fl k) 0 (s.free_lists_ptr k)
  pub once : (a : ℕ) → covered fl a ≤ 1
  pub aligned : (k : ℕ) → k ≤ 10 → AllAligned k (fl k)

module _ {s : Buddy} {fl : ℕ → List ℕ} (w : Wf s fl) where
  pub distinct : (k : ℕ) → k ≤ 10 → Distinct (fl k)
  distinct k h =
      Distinct-of_hits k (fl k) (λ a. omega (arith, w.once a, hits-le-covered k fl a (omega arith)))

  pub apart : (j k a : ℕ) → j ≤ 10 → k ≤ 10 → j ≢ k → has a (fl k) ≡ true → has a (fl j) ≡ false
  apart j k a hj hk ne m = has_of_hits j a (fl j) (
      omega (
        arith,
        w.once a,
        hits-pos k a (fl k) m,
        two_hits-le-covered j k fl a (omega arith) (omega arith) ne,
      ))

  pub not_listed : (k a : ℕ) → k ≤ 10 → covered fl a ≡ 0 → has a (fl k) ≡ false
  not_listed k a h e = has_of_hits k a (fl k) (omega (arith, hits-le-covered k fl a (omega arith)))

  -- The head of a list is in no other list.
  pub head_apart :
      (j k : ℕ)
      → j ≤ 10
      → k ≤ 10
      → j ≢ k
      → s.free_lists_ptr k ≢ 0
      → has (s.free_lists_ptr k) (fl j) ≡ false
  head_apart j k hj hk ne nonnull =
      apart j k (s.free_lists_ptr k) hj hk ne
        (Chain-head s.next s.prev (fl k) 0 (s.free_lists_ptr k) (w.chains k hk) nonnull)

  -- A block that no free block meets goes to the head of the list of `k`.
  module _ (k x : ℕ) (hk : k ≤ 10) (pos : x ≢ 0) (free : covered fl x ≡ 0) where
    abbrev head : ℕ
    head = s.free_lists_ptr k

    linked :
        (j : ℕ)
        → j ≤ 10
        → Chain (update s.next x head) (update s.prev x 0) (fl j) 0 (s.free_lists_ptr j)
    linked j hj =
        let p = s.free_lists_ptr j in
        let out = not_listed j x hj free in
        Chain-update_prev (update s.next x head) s.prev x 0 (fl j) 0 p
          (Chain-update_next s.next s.prev x head (fl j) 0 p (w.chains j hj) out) out

    head_ne : head ≢ 0 → x ≢ head
    head_ne nonnull = ground (
      arith,
      not_listed k x hk free,
      Chain-head s.next s.prev (fl k) 0 head (w.chains k hk) nonnull,
    )

    head_back : set_back (update s.prev x 0) head x x ≡ 0
    head_back = elim (ℕ_discrete head 0) [
      | yes e ↦ rw e (update_self s.prev x 0)
      | no ne ↦ ground (arith, head_ne ne)
    ]

    push_chain :
        (j : ℕ)
        → j ≤ 10
        → Chain
            (push_block k x s).next
            (push_block k x s).prev
            (update fl k (x ∷ fl k) j)
            0
            (update s.free_lists_ptr k x j)
    unfolding push_block
    push_chain j hj = elim (ℕ_discrete j k) [
      | yes e ↦
          rw (e, update_self fl k (x ∷ fl k), update_self s.free_lists_ptr k x)
            (
              refl,
              pos,
              head_back,
              subst
                  (λ p.
                    Chain (update s.next x head) (set_back (update s.prev x 0) head x) (fl k) x p)
                  (sym (update_self s.next x head))
                  (Chain-set_back (update s.next x head) (update s.prev x 0) x (fl k) 0 head
                    (distinct k hk) (linked k hk)),
            )
      | no ne ↦
          subst₂ (λ ys p. Chain (update s.next x head) (set_back (update s.prev x 0) head x) ys 0 p)
            (sym (update-ne fl k (x ∷ fl k) j ne)) (sym (update-ne s.free_lists_ptr k x j ne))
            (Chain-set_back_ne (update s.next x head) (update s.prev x 0) head x (fl j) 0
              (s.free_lists_ptr j) (linked j hj) (head_apart j k hj hk ne))
    ]

    pub covered-push : (a : ℕ) → covered (update fl k (x ∷ fl k)) a ≡ covered fl a + inside k x a
    covered-push a = omega (arith, covered-update k fl (x ∷ fl k) a (omega arith))

  -- A block that meets no free block is put on the list of its order.
  pub push-Wf :
      (k x : ℕ)
      → k ≤ 10
      → x ≢ 0
      → Aligned k x
      → ((a : ℕ) → covered fl a + inside k x a ≤ 1)
      → Wf (push_block k x s) (update fl k (x ∷ fl k))
  unfolding push_block
  push-Wf k x hk pos al room = record {
    top = w.top;
    chains = push_chain k x hk pos free;
    once = λ a. omega (arith, room a, covered-push k x hk pos free a);
    aligned = λ j hj. elim (ℕ_discrete j k) [
      | yes e ↦ rw (e, update_self fl k (x ∷ fl k)) (al, w.aligned k hk)
      | no ne ↦ rw (update-ne fl k (x ∷ fl k) j ne) (w.aligned j hj)
    ];
  }
    where
      free : covered fl x ≡ 0
      free = omega (arith, room x, inside_self k x)
