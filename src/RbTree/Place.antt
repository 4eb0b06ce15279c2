-- ===== src/RbTree/Place.antt =====
-- Where `rb_insert` of src/mikroKernellib/rb_tree.c puts a new node, as a search tree and as links.
use Prim.Native.Nat.{Ordering}
use mathlib.Core.Path.{subst}
use mikrokernellib.Common.{
  ℕ, suc, ◌≤◌, ◌<◌, ◌≡◌, ◌≢◌, ◌⊎◌, inl, inr, refl, sym, arith, if◌then◌else◌, update, Bool-cases,
  ltb, ltb→lt, ltb→ge,
}
use mikrokernellib.RbTree.{RbTree, rb_red}
use mikrokernellib.RbTree.Model.{Tree, leaf, branch, In, Sorted, height}
use mikrokernellib.RbTree.Links.{top}

module _ (start : ℕ → ℕ) (node : ℕ) where
  -- A leaf of the search tree turns into the node.
  abbrev pub grown : Tree → Tree
  grown leaf = branch leaf node leaf
  grown (branch l q r) =
      if ltb (start node) (start q) then branch (grown l) q r else branch l q (grown r)

  pub grown-In : (m : ℕ) (tree : Tree) → In m (grown tree) → (m ≡ node) ⊎ In m tree
  grown-In m leaf (inl i) = elim i [ ]
  grown-In m leaf (inr (inl e)) = inl e
  grown-In m leaf (inr (inr i)) = elim i [ ]
  grown-In m (branch l q r) i =
      let split : In m (grown (branch l q r)) → (m ≡ node) ⊎ In m (branch l q r) =
        elim (Bool-cases (ltb (start node) (start q))) [
          | inl e ↦ rw e (λ i. elim i [
            | inl a ↦ elim (grown-In m l a) [ inl new ↦ inl new | inr old ↦ inr (inl old) ]
            | inr b ↦ inr (inr b)
          ])
          | inr e ↦ rw e (λ i. elim i [
            | inl a ↦ inr (inl a)
            | inr (inl same) ↦ inr (inr (inl same))
            | inr (inr b) ↦ elim (grown-In m r b) [
              | inl new ↦ inl new
              | inr old ↦ inr (inr (inr old))
            ]
          ])
        ] in
      split i

  pub In-grown : (m : ℕ) (tree : Tree) → (m ≡ node) ⊎ In m tree → In m (grown tree)
  In-grown m leaf (inl e) = inr (inl e)
  In-grown m leaf (inr i) = elim i [ ]
  In-grown m (branch l q r) i = elim (Bool-cases (ltb (start node) (start q))) [
    | inl e ↦ rw e (elim i [
      | inl new ↦ inl (In-grown m l (inl new))
      | inr (inl a) ↦ inl (In-grown m l (inr a))
      | inr (inr b) ↦ inr b
    ])
    | inr e ↦ rw e (elim i [
      | inl new ↦ inr (inr (In-grown m r (inl new)))
      | inr (inl a) ↦ inl a
      | inr (inr (inl same)) ↦ inr (inl same)
      | inr (inr (inr b)) ↦ inr (inr (In-grown m r (inr b)))
    ])
  ]

  pub Sorted-grown :
      (tree : Tree)
      → Sorted start tree
      → ((m : ℕ) → In m tree → start m ≢ start node)
      → Sorted start (grown tree)
  Sorted-grown leaf s fresh = (λ m i. elim i [ ], λ m i. elim i [ ], tt, tt)
  Sorted-grown (branch l q r) (low, up, sl, sr) fresh =
      elim (Bool-cases (ltb (start node) (start q))) [
        | inl e ↦ rw e (
          λ m i. elim (grown-In m l i) [
            | inl new ↦ subst (λ z. start z < start q) (sym new) (ltb→lt (start node) (start q) e)
            | inr old ↦ low m old
          ],
          up,
          Sorted-grown l sl (λ m i. fresh m (inl i)),
          sr,
        )
        | inr e ↦ rw e (
          low,
          λ m i. elim (grown-In m r i) [
            | inl new ↦
                subst (λ z. start q < start z) (sym new)
                  (omega (arith, fresh q (inr (inl refl)), ltb→ge (start node) (start q) e))
            | inr old ↦ up m old
          ],
          sl,
          Sorted-grown r sr (λ m i. fresh m (inr (inr i))),
        )
      ]

  pub height-grown : (tree : Tree) → height (grown tree) ≤ suc (height tree)
  height-grown leaf = ground arith
  height-grown (branch l q r) = elim (Bool-cases (ltb (start node) (start q))) [
    | inl e ↦ rw e (ground (arith, height-grown l))
    | inr e ↦ rw e (ground (arith, height-grown r))
  ]

  pub top-grown : (tree : Tree) (m : ℕ) → In m tree → top (grown tree) ≡ top tree
  top-grown leaf m i = elim i [ ]
  top-grown (branch l q r) m i = elim (Bool-cases (ltb (start node) (start q))) [
    | inl e ↦ rw e refl
    | inr e ↦ rw e refl
  ]

-- What `attach_node` leaves.
abbrev pub placed : ℕ → ℕ → Ordering → RbTree → RbTree
placed node above Ordering.lt t = record t {
  left = update t.left above node;
  parent = update t.parent node above;
  color = update t.color node rb_red;
}
placed node above Ordering.gt t = record t {
  right = update t.right above node;
  parent = update t.parent node above;
  color = update t.color node rb_red;
}
placed node above Ordering.eq t = record t { parent = update t.parent node above }

module _ (node above m : ℕ) (t : RbTree) where
  pub placed-left : (o : Ordering) → m ≢ above → (placed node above o t).left m ≡ t.left m
  placed-left Ordering.lt ne = ground (arith, ne)
  placed-left Ordering.gt ne = refl
  placed-left Ordering.eq ne = refl

  pub placed-right : (o : Ordering) → m ≢ above → (placed node above o t).right m ≡ t.right m
  placed-right Ordering.lt ne = refl
  placed-right Ordering.gt ne = ground (arith, ne)
  placed-right Ordering.eq ne = refl

  pub placed-parent : (o : Ordering) → m ≢ node → (placed node above o t).parent m ≡ t.parent m
  placed-parent Ordering.lt ne = ground (arith, ne)
  placed-parent Ordering.gt ne = ground (arith, ne)
  placed-parent Ordering.eq ne = ground (arith, ne)

  pub placed-above : (o : Ordering) → (placed node above o t).parent node ≡ above
  placed-above Ordering.lt = ground arith
  placed-above Ordering.gt = ground arith
  placed-above Ordering.eq = ground arith
