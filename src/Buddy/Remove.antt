-- ===== src/Buddy/Remove.antt =====
-- `unlink_block` on a well-formed state: a free block is taken out of the middle of its list.
use mathlib.Core.Path.{subst, subst₂}
use native.Mathlib.Decide.{ℕ_discrete}
use mikrokernellib.Common.{
  ℕ, ◌+◌, ◌≤◌, ◌≡◌, ◌≢◌, ◌⊎◌, inl, inr, refl, sym, ap, true, false, List, [], ◌∷◌, arith, ◌==◌,
  update, update_self, update-ne, Bool-cases,
}
use mikrokernellib.Buddy.{Buddy, unlink_block}
use mikrokernellib.Buddy.Cover.{inside, hits, covered, has, covered-update}
use mikrokernellib.Buddy.Chain.{
  Chain, Chain-update_next, Chain-update_prev, not-mem_null, set_back, Chain-set_back_ne,
}
use mikrokernellib.Buddy.Unlink.{
  erase, Chain-set_next, next_listed, prev_listed, next_without, prev_without, head_without,
  unlink-Chain,
}
use mikrokernellib.Buddy.Wf.{AllAligned, Wf, distinct, apart}

hits-erase :
    (k a b : ℕ) (xs : List ℕ) → has b xs ≡ true → hits k a (erase b xs) + inside k b a ≡ hits k a xs
hits-erase k a b [] m = absurd (ground arith)
hits-erase k a b (x ∷ xs) m = elim (ℕ_discrete b x) [
  | yes e ↦ ground arith
  | no ne ↦ ground (arith, hits-erase k a b xs)
]

erase-AllAligned : (k b : ℕ) (xs : List ℕ) → AllAligned k xs → AllAligned k (erase b xs)
erase-AllAligned k b [] al = al
erase-AllAligned k b (x ∷ xs) al = elim (Bool-cases (b == x)) [
  | inl e ↦ rw e al.1
  | inr ne ↦ rw ne (al.0, erase-AllAligned k b xs al.1)
]

module _ {s : Buddy} {fl : ℕ → List ℕ} (w : Wf s fl) (k b : ℕ) (hk : k ≤ 10)
    (m : has b (fl k) ≡ true) where
  abbrev chain : Chain s.next s.prev (fl k) 0 (s.free_lists_ptr k)
  chain = w.chains k hk

  place :
      ((s.free_lists_ptr k ≡ b) × (s.prev b ≡ 0))
      ⊎ ((s.free_lists_ptr k ≢ b) × (has (s.prev b) (fl k) ≡ true) × (s.prev b ≢ b))
  place = prev_listed s.next s.prev b (fl k) 0 (s.free_lists_ptr k) chain (distinct w k hk) m

  pub removed_ne_null : b ≢ 0
  removed_ne_null = ground (arith, not-mem_null s.next s.prev (fl k) 0 (s.free_lists_ptr k) chain)

  -- The source reads `next` of the block again after the first write, which did not change it.
  next_kept : set_back s.next (s.prev b) (s.next b) b ≡ s.next b
  next_kept = elim place [
    | inl (first, behind) ↦ ground arith
    | inr (later, mem, ne) ↦ ground arith
  ]

  abbrev heads : ℕ → ℕ
  heads = (unlink_block k b s).free_lists_ptr

  heads_self : heads k ≡ head_without s.next s.prev b (s.free_lists_ptr k)
  unfolding unlink_block
  heads_self = elim place [
    | inl (first, behind) ↦ ground arith
    | inr (later, mem, ne) ↦
        ground (arith, not-mem_null s.next s.prev (fl k) 0 (s.free_lists_ptr k) chain)
  ]

  heads_ne : (j : ℕ) → j ≢ k → heads j ≡ s.free_lists_ptr j
  unfolding unlink_block
  heads_ne j ne = ground arith

  prev_links : (unlink_block k b s).prev ≡ prev_without s.next s.prev b
  unfolding unlink_block
  prev_links = ap (λ a. update (set_back s.prev a (s.prev b)) b 0) next_kept

  abbrev pub removed : ℕ → List ℕ
  removed = update fl k (erase b (fl k))

  other_chain :
      (j : ℕ)
      → j ≤ 10
      → j ≢ k
      → Chain
          (next_without s.next s.prev b)
          (prev_without s.next s.prev b)
          (fl j)
          0
          (s.free_lists_ptr j)
  other_chain j hj ne =
      let p = s.free_lists_ptr j in
      let elsewhere = λ (a : ℕ) (listed : has a (fl k) ≡ true). apart w j k a hj hk ne listed in
      let before_out : s.prev b ≢ 0 → has (s.prev b) (fl j) ≡ false = λ some_before. elim place [
        | inl (first, behind) ↦ absurd (some_before behind)
        | inr (later, mem, other) ↦ elsewhere (s.prev b) mem
      ] in
      let after_out : s.next b ≢ 0 → has (s.next b) (fl j) ≡ false = λ some_after.
        elsewhere (s.next b)
          (next_listed s.next s.prev b (fl k) 0 (s.free_lists_ptr k) chain m some_after) in
      let P = set_back s.prev (s.next b) (s.prev b) in
      let N = set_back s.next (s.prev b) (s.next b) in
      let backed =
        Chain-set_back_ne s.next s.prev (s.next b) (s.prev b) (fl j) 0 p (w.chains j hj)
          after_out in
      let linked = Chain-set_next s.next P (s.prev b) (s.next b) (fl j) 0 p backed before_out in
      Chain-update_prev (update N b 0) P b 0 (fl j) 0 p
        (Chain-update_next N P b 0 (fl j) 0 p linked (elsewhere b m)) (elsewhere b m)

  removed_chain :
      (j : ℕ)
      → j ≤ 10
      → Chain (next_without s.next s.prev b) (prev_without s.next s.prev b) (removed j) 0 (heads j)
  removed_chain j hj = elim (ℕ_discrete j k) [
    | yes e ↦
        rw (e, update_self fl k (erase b (fl k)))
          (subst
            (λ p.
              Chain (next_without s.next s.prev b) (prev_without s.next s.prev b) (erase b (fl k)) 0
                p)
            (sym heads_self)
            (unlink-Chain s.next s.prev b (fl k) 0 (s.free_lists_ptr k) chain (distinct w k hk)
              (λ ne. absurd (ne refl)) m))
    | no ne ↦
        subst₂ (λ ys p. Chain (next_without s.next s.prev b) (prev_without s.next s.prev b) ys 0 p)
          (sym (update-ne fl k (erase b (fl k)) j ne)) (sym (heads_ne j ne)) (other_chain j hj ne)
  ]

  pub covered-remove : (a : ℕ) → covered removed a + inside k b a ≡ covered fl a
  covered-remove a =
      omega (arith, covered-update k fl (erase b (fl k)) a (omega arith), hits-erase k a b (fl k) m)

  unlink_top : (unlink_block k b s).max_order ≡ 10
  unfolding unlink_block
  unlink_top = w.top

  unlink_next : (unlink_block k b s).next ≡ next_without s.next s.prev b
  unfolding unlink_block
  unlink_next = refl

  -- The free blocks are those of before without `b`.
  pub remove-Wf : Wf (unlink_block k b s) removed
  remove-Wf = record {
    top = unlink_top;
    chains = λ j hj.
        subst₂ (λ n p. Chain n p (removed j) 0 (heads j)) (sym unlink_next) (sym prev_links)
          (removed_chain j hj);
    once = λ a. omega (arith, w.once a, covered-remove a);
    aligned = λ j hj. elim (ℕ_discrete j k) [
      | yes e ↦
          rw (e, update_self fl k (erase b (fl k))) (erase-AllAligned k b (fl k) (w.aligned k hk))
      | no ne ↦ rw (update-ne fl k (erase b (fl k)) j ne) (w.aligned j hj)
    ];
  }
