-- ===== src/RbTree/Walk.antt =====
-- The walk of `rb_insert` of src/mikroKernellib/rb_tree.c to the place of a new node.
use Prim.Native.Nat.{Ordering}
use mathlib.Core.Path.{subst}
use mikrokernellib.Common.{
  ℕ, zero, suc, ◌<◌, ◌≡◌, ◌≢◌, ◌⊎◌, inl, inr, refl, sym, ◌∙◌, arith, true, false, ◌==◌, Option,
  none, some, ltb,
}
use mikrokernellib.RbTree.{RbTree, rb_child}
use mikrokernellib.RbTree.Insert.{insert_walk}
use mikrokernellib.RbTree.Model.{Tree, leaf, branch, In, Sorted, height}
use mikrokernellib.RbTree.Links.{Linked, Linked-top, Linked-frame, top}
use mikrokernellib.RbTree.Find.{vma_cmp_cases}
use mikrokernellib.RbTree.Place.{
  grown, placed, placed-left, placed-right, placed-parent, placed-above, top-grown,
}
use mikrokernellib.Vm.{vma_cmp}

module _ (start : ℕ → ℕ) (node : ℕ) (t : RbTree) where
  abbrev pub with_node : ℕ → RbTree
  with_node above = placed node above (vma_cmp start node above) t

  -- A node with the same start, or the parent-to-be under which the links spell the grown tree.
  abbrev pub Walked : ℕ → Tree → Option (Option ℕ) → Type 0
  Walked par tree result =
      ((result ≡ some none) × (m : ℕ) × In m tree × (start m ≡ start node))
      ⊎ ((above : ℕ) × (result ≡ some (some above))
          × (((tree ≡ leaf) × (above ≡ par)) ⊎ (In above tree × (start above ≢ start node)))
          × ((m : ℕ) → In m tree → start m ≢ start node)
          × Linked (with_node above) par (top (grown start node tree)) (grown start node tree))

  walk_child :
      (rounds current par child : ℕ)
      → current ≢ 0
      → rb_child (vma_cmp start node current) current t ≡ some child
      → insert_walk (suc rounds) node current par (vma_cmp start) t
        ≡ insert_walk rounds node child current (vma_cmp start) t
  unfolding insert_walk
  walk_child rounds current par child nz e =
      let z : (current == 0) ≡ false = ground (arith, nz) in rw (insert_walk, z, e) refl

  walk_found :
      (rounds current par : ℕ)
      → current ≢ 0
      → vma_cmp start node current ≡ Ordering.eq
      → insert_walk (suc rounds) node current par (vma_cmp start) t ≡ some none
  unfolding insert_walk rb_child
  walk_found rounds current par nz e =
      let z : (current == 0) ≡ false = ground (arith, nz) in rw (insert_walk, z, e) refl

  -- The links away from the new node and its parent.
  frame :
      (par p above : ℕ) (tree : Tree)
      → (In node tree → ⊥)
      → (In above tree → ⊥)
      → Linked t par p tree
      → Linked (with_node above) par p tree
  frame par p above tree fresh out h =
      let o = vma_cmp start node above in
      Linked-frame t (with_node above) par p tree
        (λ m i. (
          placed-left node above m t o (λ z. out (subst (λ k. In k tree) z i)),
          placed-right node above m t o (λ z. out (subst (λ k. In k tree) z i)),
          placed-parent node above m t o (λ z. fresh (subst (λ k. In k tree) z i)),
        ))
        h

  -- A turn of the walk at a node.
  module _ (l : Tree) (q : ℕ) (r : Tree) (par : ℕ) (nz : q ≢ 0) (up : t.parent q ≡ par)
      (hl : Linked t q (t.left q) l) (hr : Linked t q (t.right q) r)
      (low : (m : ℕ) → In m l → start m < start q) (high : (m : ℕ) → In m r → start q < start m)
      (fresh : In node (branch l q r) → ⊥) where
    node_q : q ≢ node
    node_q = λ z. fresh (inr (inl (sym z)))

    fresh_l : In node l → ⊥
    fresh_l i = fresh (inl i)

    fresh_r : In node r → ⊥
    fresh_r i = fresh (inr (inr i))

    ql : In q l → ⊥
    ql i = omega (arith, low q i)

    qr : In q r → ⊥
    qr i = omega (arith, high q i)

    lr : (m : ℕ) → In m l → In m r → ⊥
    lr m i j = omega (arith, low m i, high m j)

    left_links :
        (above : ℕ)
        → ((l ≡ leaf) × (above ≡ q)) ⊎ In above l
        → vma_cmp start node q ≡ Ordering.lt
        → ((with_node above).left q ≡ top (grown start node l))
          × ((with_node above).right q ≡ t.right q)
          × (In above r → ⊥)
    left_links above (inl (empty, same)) c =
        subst
          (λ k.
            ((with_node k).left q ≡ top (grown start node l))
            × ((with_node k).right q ≡ t.right q)
            × (In k r → ⊥))
          (sym same)
          (subst
            (λ k.
              ((with_node q).left q ≡ top (grown start node k))
              × ((with_node q).right q ≡ t.right q)
              × (In q r → ⊥))
            (sym empty)
            (
              subst (λ k. (placed node q k t).left q ≡ node) (sym c) (ground arith),
              subst (λ k. (placed node q k t).right q ≡ t.right q) (sym c) refl,
              qr,
            ))
    left_links above (inr i) c =
        let o = vma_cmp start node above in
        let away : q ≢ above = λ z. ql (subst (λ k. In k l) (sym z) i) in
        (
          placed-left node above q t o away
              ∙ Linked-top t q (t.left q) l hl
              ∙ sym (top-grown start node l above i),
          placed-right node above q t o away,
          λ j. lr above i j,
        )

    Walked-left :
        (result : Option (Option ℕ))
        → vma_cmp start node q ≡ Ordering.lt
        → start node < start q
        → Walked q l result
        → Walked par (branch l q r) result
    Walked-left result c apart (inl (res, m, i, same)) = inl (res, m, inl i, same)
    Walked-left result c apart (inr (above, res, place, others, links)) =
        let inside : In above (branch l q r) × (start above ≢ start node) = elim place [
          | inl (empty, same) ↦
              (inr (inl same), subst (λ k. start k ≢ start node) (sym same) (omega (arith, apart)))
          | inr (i, other) ↦ (inl i, other)
        ] in
        let (down, across, out_other) =
          left_links above (elim place [ inl z ↦ inl z | inr (i, other) ↦ inr i ]) c in
        let side : ltb (start node) (start q) ≡ true = ground (arith, apart) in
        inr (
          above,
          res,
          inr inside,
          λ m i. elim i [
            | inl a ↦ others m a
            | inr (inl same) ↦ subst (λ k. start k ≢ start node) (sym same) (omega (arith, apart))
            | inr (inr b) ↦ omega (arith, apart, high m b)
          ],
          rw side (
            refl,
            nz,
            placed-parent node above q t (vma_cmp start node above) node_q ∙ up,
            subst (λ z. Linked (with_node above) q z (grown start node l)) (sym down) links,
            subst (λ z. Linked (with_node above) q z r) (sym across)
                (frame q (t.right q) above r fresh_r out_other hr),
          ),
        )

    right_links :
        (above : ℕ)
        → ((r ≡ leaf) × (above ≡ q)) ⊎ In above r
        → vma_cmp start node q ≡ Ordering.gt
        → ((with_node above).right q ≡ top (grown start node r))
          × ((with_node above).left q ≡ t.left q)
          × (In above l → ⊥)
    right_links above (inl (empty, same)) c =
        subst
          (λ k.
            ((with_node k).right q ≡ top (grown start node r))
            × ((with_node k).left q ≡ t.left q)
            × (In k l → ⊥))
          (sym same)
          (subst
            (λ k.
              ((with_node q).right q ≡ top (grown start node k))
              × ((with_node q).left q ≡ t.left q)
              × (In q l → ⊥))
            (sym empty)
            (
              subst (λ k. (placed node q k t).right q ≡ node) (sym c) (ground arith),
              subst (λ k. (placed node q k t).left q ≡ t.left q) (sym c) refl,
              ql,
            ))
    right_links above (inr i) c =
        let o = vma_cmp start node above in
        let away : q ≢ above = λ z. qr (subst (λ k. In k r) (sym z) i) in
        (
          placed-right node above q t o away
              ∙ Linked-top t q (t.right q) r hr
              ∙ sym (top-grown start node r above i),
          placed-left node above q t o away,
          λ j. lr above j i,
        )

    Walked-right :
        (result : Option (Option ℕ))
        → vma_cmp start node q ≡ Ordering.gt
        → start q < start node
        → Walked q r result
        → Walked par (branch l q r) result
    Walked-right result c apart (inl (res, m, i, same)) = inl (res, m, inr (inr i), same)
    Walked-right result c apart (inr (above, res, place, others, links)) =
        let inside : In above (branch l q r) × (start above ≢ start node) = elim place [
          | inl (empty, same) ↦
              (inr (inl same), subst (λ k. start k ≢ start node) (sym same) (omega (arith, apart)))
          | inr (i, other) ↦ (inr (inr i), other)
        ] in
        let (down, across, out_other) =
          right_links above (elim place [ inl z ↦ inl z | inr (i, other) ↦ inr i ]) c in
        let side : ltb (start node) (start q) ≡ false = ground (arith, apart) in
        inr (
          above,
          res,
          inr inside,
          λ m i. elim i [
            | inl a ↦ omega (arith, apart, low m a)
            | inr (inl same) ↦ subst (λ k. start k ≢ start node) (sym same) (omega (arith, apart))
            | inr (inr b) ↦ others m b
          ],
          rw side (
            refl,
            nz,
            placed-parent node above q t (vma_cmp start node above) node_q ∙ up,
            subst (λ z. Linked (with_node above) q z l) (sym across)
                (frame q (t.left q) above l fresh_l out_other hl),
            subst (λ z. Linked (with_node above) q z (grown start node r)) (sym down) links,
          ),
        )

  module _ (nz_node : node ≢ 0) (no_left : t.left node ≡ 0) (no_right : t.right node ≡ 0) where
    walk_leaf : (par : ℕ) → node ≢ par → Linked (with_node par) par node (branch leaf node leaf)
    walk_leaf par ne =
        let o = vma_cmp start node par in
        (
          refl,
          nz_node,
          placed-above node par node t o,
          placed-left node par node t o ne ∙ no_left,
          placed-right node par node t o ne ∙ no_right,
        )

    pub walk_lem :
        (tree : Tree) (rounds par p : ℕ)
        → Linked t par p tree
        → Sorted start tree
        → (In par tree → ⊥)
        → (In node tree → ⊥)
        → node ≢ par
        → height tree < rounds
        → Walked par tree (insert_walk rounds node p par (vma_cmp start) t)
    unfolding insert_walk rb_child
    walk_lem tree zero par p h s out fresh ne few = absurd (omega (arith, few))
    walk_lem leaf (suc rounds) par p h s out fresh ne few =
        let z : (p == 0) ≡ true = ground (arith, h) in
        inr (par, rw (insert_walk, z) refl, inl (refl, refl), λ m i. elim i [ ], walk_leaf par ne)
    walk_lem (branch l q r) (suc rounds) par p (e, nz, up, hl, hr) (low, high, sl, sr) out fresh ne
          few =
        subst
          (λ k. Walked par (branch l q r) (insert_walk (suc rounds) node k par (vma_cmp start) t))
          (sym e)
          (elim (vma_cmp_cases start node q) [
            | inl (c, lt) ↦
                subst (Walked par (branch l q r))
                  (sym (walk_child rounds q par (t.left q) nz (rw (rb_child, c) refl)))
                  (Walked-left l q r par nz up hl hr low high fresh
                    (insert_walk rounds node (t.left q) q (vma_cmp start) t) c lt
                    (walk_lem l rounds q (t.left q) hl sl (λ i. omega (arith, low q i))
                      (λ i. fresh (inl i)) (λ z. fresh (inr (inl z))) (ground (arith, few))))
            | inr (inl (c, gt)) ↦
                subst (Walked par (branch l q r))
                  (sym (walk_child rounds q par (t.right q) nz (rw (rb_child, c) refl)))
                  (Walked-right l q r par nz up hl hr low high fresh
                    (insert_walk rounds node (t.right q) q (vma_cmp start) t) c gt
                    (walk_lem r rounds q (t.right q) hr sr (λ i. omega (arith, high q i))
                      (λ i. fresh (inr (inr i))) (λ z. fresh (inr (inl z))) (ground (arith, few))))
            | inr (inr (c, eq)) ↦ inl (walk_found rounds q par nz c, q, inr (inl refl), sym eq)
          ])
