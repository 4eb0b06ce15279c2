-- ===== src/RbTree/Inserted.antt =====
-- What `rb_insert` of src/mikroKernellib/rb_tree.c makes of a search tree.
use Prim.Native.Nat.{Ordering}
use mathlib.Core.Path.{subst}
use mikrokernellib.Common.{
  ℕ, ◌<◌, ◌≡◌, ◌≢◌, ◌⊎◌, inl, inr, refl, sym, ◌∙◌, arith, false, ◌==◌, update, Option, none, some,
}
use mikrokernellib.RbTree.{RbTree, rb_black}
use mikrokernellib.RbTree.Insert.{insert_walk, attach_node, rb_insert, rb_insert_fixup}
use mikrokernellib.RbTree.Model.{Tree, leaf, branch, In, Sorted, height}
use mikrokernellib.RbTree.Links.{Linked, Linked-top, Linked-frame, In-ne_zero, top}
use mikrokernellib.RbTree.Find.{vma_cmp_cases}
use mikrokernellib.RbTree.Depth.{In-Depth}
use mikrokernellib.RbTree.Fixup.{Fixed, fixup_lem}
use mikrokernellib.RbTree.Mirror.{Spells}
use mikrokernellib.RbTree.Place.{
  grown, grown-In, In-grown, Sorted-grown, height-grown, top-grown, placed,
}
use mikrokernellib.RbTree.Walk.{Walked, with_node, walk_lem}
use mikrokernellib.Vm.{vma_cmp}

-- The node is refused for one of the same start, or the new tree has it besides the old nodes.
abbrev pub Inserted : (ℕ → ℕ) → ℕ → Tree → Option (ℕ × RbTree) → Type 0
Inserted start node tree result =
    ((s : RbTree) × (result ≡ some (0, s))
      × Spells s tree
      × (m : ℕ) × In m tree
      × (start m ≡ start node))
    ⊎ ((s : RbTree) × (after : Tree) × (result ≡ some (node, s))
        × Spells s after
        × Sorted start after
        × ((m : ℕ) → In m after → (m ≡ node) ⊎ In m tree)
        × ((m : ℕ) → (m ≡ node) ⊎ In m tree → In m after)
        × (s.color s.root ≡ rb_black)
        × ((m : ℕ) → In m tree → start m ≢ start node))

attach_lem :
    (start : ℕ → ℕ) (node above : ℕ) (t : RbTree)
    → start above ≢ start node
    → attach_node node above (vma_cmp start node above) t
      ≡ some (placed node above (vma_cmp start node above) t)
unfolding attach_node
attach_lem start node above t ne = elim (vma_cmp_cases start node above) [
  | inl (c, lt) ↦ rw c refl
  | inr (inl (c, gt)) ↦ rw c refl
  | inr (inr (c, eq)) ↦ absurd (ne (sym eq))
]

module _ (start : ℕ → ℕ) (node : ℕ) (nz : node ≢ 0) (t : RbTree) (tree : Tree) (h : Spells t tree)
    (sorted : Sorted start tree) (fresh : In node tree → ⊥) (rounds : ℕ)
    (few : height tree < rounds) where
  abbrev clear : RbTree
  clear = record t { left = update t.left node 0; right = update t.right node 0 }

  clear-Spells : Spells clear tree
  clear-Spells =
      Linked-frame t clear 0 t.root tree
        (λ m i.
          let ne : m ≢ node = λ z. fresh (subst (λ k. In k tree) z i) in
          (ground (arith, ne), ground (arith, ne), refl))
        h

  out : In 0 tree → ⊥
  out z = In-ne_zero t 0 t.root tree h 0 z refl

  walked : Walked start node clear 0 tree (insert_walk rounds node t.root 0 (vma_cmp start) clear)
  walked =
      walk_lem start node clear nz (ground arith) (ground arith) tree rounds 0 t.root clear-Spells
        sorted out fresh nz few

  -- The first node of all.
  abbrev alone : RbTree
  alone = record clear {
    root = node;
    parent = update clear.parent node 0;
    color = update clear.color node rb_black;
  }

  alone-Spells : Spells alone (branch leaf node leaf)
  alone-Spells = (refl, nz, ground arith, ground arith, ground arith)

  insert_first :
      insert_walk rounds node t.root 0 (vma_cmp start) clear ≡ some (some 0)
      → rb_insert rounds node (vma_cmp start) t ≡ some (node, alone)
  unfolding rb_insert
  insert_first e = rw (rb_insert, e) refl

  insert_twice :
      insert_walk rounds node t.root 0 (vma_cmp start) clear ≡ some none
      → rb_insert rounds node (vma_cmp start) t ≡ some (0, clear)
  unfolding rb_insert
  insert_twice e = rw (rb_insert, e) refl

  insert_under :
      (above : ℕ) (s : RbTree)
      → above ≢ 0
      → start above ≢ start node
      → insert_walk rounds node t.root 0 (vma_cmp start) clear ≡ some (some above)
      → rb_insert_fixup rounds node (with_node start node clear above) ≡ some s
      → rb_insert rounds node (vma_cmp start) t ≡ some (node, s)
  unfolding rb_insert
  insert_under above s az ne e f =
      let z : (above == 0) ≡ false = ground (arith, az) in
      rw (rb_insert, e, z, attach_lem start node above clear ne, f) refl

  placed-root : (above : ℕ) (o : Ordering) → (placed node above o clear).root ≡ t.root
  placed-root above Ordering.lt = refl
  placed-root above Ordering.gt = refl
  placed-root above Ordering.eq = refl

  under_Spells :
      (above : ℕ)
      → In above tree
      → Linked
          (with_node start node clear above)
          0
          (top (grown start node tree))
          (grown start node tree)
      → Spells (with_node start node clear above) (grown start node tree)
  under_Spells above i links =
      let root_top : t.root ≡ top (grown start node tree) =
        Linked-top t 0 t.root tree h ∙ sym (top-grown start node tree above i) in
      subst (λ z. Linked (with_node start node clear above) 0 z (grown start node tree))
        (sym (placed-root above (vma_cmp start node above) ∙ root_top)) links

  fixed :
      (above : ℕ)
      → In above tree
      → ((m : ℕ) → In m tree → start m ≢ start node)
      → Linked
          (with_node start node clear above)
          0
          (top (grown start node tree))
          (grown start node tree)
      → Fixed start
          (rb_insert_fixup rounds node (with_node start node clear above))
          (grown start node tree)
  fixed above i others links =
      let (d, deep, below) =
        In-Depth node (grown start node tree) (In-grown start node node tree (inl refl)) in
      fixup_lem start rounds d node (with_node start node clear above) (grown start node tree)
        (under_Spells above i links) (Sorted-grown start node tree sorted others) deep
        (omega (arith, below, few, height-grown start node tree))

  -- `rb_insert` of a node that is not NULL and not in the tree, with the order of `vma_cmp`, into a
  -- search tree with right links, and with more rounds than the tree is high. Either the tree has a
  -- node of the same start, and the call returns NULL and leaves a tree of the same nodes, or it
  -- returns the node and leaves right links, parents included, of a search tree with a black root,
  -- whose nodes are the old ones and the new one.
  pub rb_insert_lem : Inserted start node tree (rb_insert rounds node (vma_cmp start) t)
  rb_insert_lem = elim walked [
    | inl (e, m, i, same) ↦ inl (clear, insert_twice e, clear-Spells, m, i, same)
    | inr (above, e, inl (empty, top_one), others, links) ↦ inr (
      alone,
      branch leaf node leaf,
      insert_first (
          subst (λ z. insert_walk rounds node t.root 0 (vma_cmp start) clear ≡ some (some z))
            top_one e),
      alone-Spells,
      (λ m i. elim i [ ], λ m i. elim i [ ], tt, tt),
      λ m i. inl (elim i [ inl a ↦ elim a [ ] | inr (inl same) ↦ same | inr (inr b) ↦ elim b [ ] ]),
      λ m i. elim i [ inl same ↦ inr (inl same) | inr a ↦ elim (subst (In m) empty a) [ ] ],
      ground arith,
      others,
    )
    | inr (above, e, inr (i, ne), others, links) ↦
        let f = fixed above i others links in
        let az = In-ne_zero t 0 t.root tree h above i in
        inr (
          f.fixed,
          f.after,
          insert_under above f.fixed az ne e f.returned,
          f.links,
          f.kept.sorted (Sorted-grown start node tree sorted others),
          λ m j. grown-In start node m tree (f.kept.from m j),
          λ m j. f.kept.to m (In-grown start node m tree j),
          f.black,
          others,
        )
  ]
