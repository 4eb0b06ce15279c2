-- ===== src/RbTree/Rotated.antt =====
-- A rotation keeps the nodes of a search tree and their order.
use mathlib.Core.Path.{subst}
use mikrokernellib.Common.{ℕ, ◌≡◌, ◌<◌, ◌⊎◌, inl, inr, refl, sym, ◌==◌, Bool-cases, arith}
use mikrokernellib.RbTree.Model.{Tree, leaf, branch, In, Sorted}
use mikrokernellib.RbTree.Turn.{turn_left, rot_left}
use mikrokernellib.RbTree.{RbTree, rb_rotate_left, rb_rotate_right}
use mikrokernellib.RbTree.Links.{Sorted-Distinct}
use mikrokernellib.RbTree.Mirror.{
  Spells, turn_right, rot_right, rotate_left-Spells, rotate_right-Spells,
}

-- The same nodes, in order again.
pub record Kept (start : ℕ → ℕ) (tree after : Tree) : Type 0 where
  pub to : (m : ℕ) → In m tree → In m after
  pub from : (m : ℕ) → In m after → In m tree
  pub sorted : Sorted start tree → Sorted start after

module _ (start : ℕ → ℕ) where
  pub Kept-refl : (tree : Tree) → Kept start tree tree
  Kept-refl tree = record { to = λ m i. i; from = λ m i. i; sorted = λ s. s }

  pub Kept-trans : (a b c : Tree) → Kept start a b → Kept start b c → Kept start a c
  Kept-trans a b c h k = record {
    to = λ m i. k.to m (h.to m i);
    from = λ m i. h.from m (k.from m i);
    sorted = λ s. k.sorted (h.sorted s);
  }

  Kept-branch :
      (l l' : Tree) (q : ℕ) (r r' : Tree)
      → Kept start l l'
      → Kept start r r'
      → Kept start (branch l q r) (branch l' q r')
  Kept-branch l l' q r r' h k = record {
    to = λ m i. elim i [
      | inl a ↦ inl (h.to m a)
      | inr (inl e) ↦ inr (inl e)
      | inr (inr b) ↦ inr (inr (k.to m b))
    ];
    from = λ m i. elim i [
      | inl a ↦ inl (h.from m a)
      | inr (inl e) ↦ inr (inl e)
      | inr (inr b) ↦ inr (inr (k.from m b))
    ];
    sorted =
        λ s. (λ m i. s.0 m (h.from m i), λ m i. s.1 m (k.from m i), h.sorted s.2, k.sorted s.3);
  }

  turn_left-Kept : (a : Tree) (q : ℕ) (r : Tree) → Kept start (branch a q r) (turn_left a q r)
  turn_left-Kept a q leaf = Kept-refl (branch a q leaf)
  turn_left-Kept a q (branch b y c) = record {
    to = λ m i. elim i [
      | inl u ↦ inl (inl u)
      | inr (inl e) ↦ inl (inr (inl e))
      | inr (inr (inl u)) ↦ inl (inr (inr u))
      | inr (inr (inr u)) ↦ inr u
    ];
    from = λ m i. elim i [
      | inl (inl u) ↦ inl u
      | inl (inr (inl e)) ↦ inr (inl e)
      | inl (inr (inr u)) ↦ inr (inr (inl u))
      | inr u ↦ inr (inr (inr u))
    ];
    sorted = λ (low, up, sa, (blow, bup, sb, sc)). (
      λ m i. elim i [
        | inl u ↦ omega (arith, low m u, up y (inr (inl refl)))
        | inr (inl e) ↦ subst (λ z. start z < start y) (sym e) (up y (inr (inl refl)))
        | inr (inr u) ↦ blow m u
      ],
      bup,
      (low, λ m i. up m (inl i), sa, sb),
      sc,
    );
  }

  turn_right-Kept : (l : Tree) (q : ℕ) (c : Tree) → Kept start (branch l q c) (turn_right l q c)
  turn_right-Kept leaf q c = Kept-refl (branch leaf q c)
  turn_right-Kept (branch a y b) q c = record {
    to = λ m i. elim i [
      | inl (inl u) ↦ inl u
      | inl (inr (inl e)) ↦ inr (inl e)
      | inl (inr (inr u)) ↦ inr (inr (inl u))
      | inr (inl e) ↦ inr (inr (inr (inl e)))
      | inr (inr u) ↦ inr (inr (inr (inr u)))
    ];
    from = λ m i. elim i [
      | inl u ↦ inl (inl u)
      | inr (inl e) ↦ inl (inr (inl e))
      | inr (inr (inl u)) ↦ inl (inr (inr u))
      | inr (inr (inr (inl e))) ↦ inr (inl e)
      | inr (inr (inr (inr u))) ↦ inr (inr u)
    ];
    sorted = λ (low, up, (alow, aup, sa, sb), sc). (
      alow,
      λ m i. elim i [
        | inl u ↦ aup m u
        | inr (inl e) ↦ subst (λ z. start y < start z) (sym e) (low y (inr (inl refl)))
        | inr (inr u) ↦ omega (arith, up m u, low y (inr (inl refl)))
      ],
      sa,
      (λ m i. low m (inr (inr i)), up, sb, sc),
    );
  }

  pub rot_left-Kept : (x : ℕ) (tree : Tree) → Kept start tree (rot_left x tree)
  rot_left-Kept x leaf = Kept-refl leaf
  rot_left-Kept x (branch l q r) = elim (Bool-cases (q == x)) [
    | inl e ↦ rw e (turn_left-Kept l q r)
    | inr e ↦
        rw e
          (Kept-branch l (rot_left x l) q r (rot_left x r) (rot_left-Kept x l) (rot_left-Kept x r))
  ]

  pub rot_right-Kept : (x : ℕ) (tree : Tree) → Kept start tree (rot_right x tree)
  rot_right-Kept x leaf = Kept-refl leaf
  rot_right-Kept x (branch l q r) = elim (Bool-cases (q == x)) [
    | inl e ↦ rw e (turn_right-Kept l q r)
    | inr e ↦ rw e (
        Kept-branch l (rot_right x l) q r (rot_right x r) (rot_right-Kept x l) (rot_right-Kept x r))
  ]

  -- At a node of a search tree with right links, a rotation to the left leaves right links, parents
  -- included, of a search tree of the same nodes, unless the node has no right child; so does one to
  -- the right, unless it has no left child.
  pub rotate_lem :
      (t : RbTree) (tree : Tree)
      → Spells t tree
      → Sorted start tree
      → (x : ℕ) → In x tree
      → ((t.right x ≡ 0)
          ⊎ ((after : Tree) × Spells (rb_rotate_left x t) after × Kept start tree after))
        × ((t.left x ≡ 0)
            ⊎ ((after : Tree) × Spells (rb_rotate_right x t) after × Kept start tree after))
  rotate_lem t tree h s x i = (
    elim (Bool-cases (t.right x == 0)) [
      | inl e ↦ inl (ground (arith, e))
      | inr e ↦ inr (
        rot_left x tree,
        rotate_left-Spells t tree h (Sorted-Distinct start tree s) x i (ground (arith, e)),
        rot_left-Kept x tree,
      )
    ],
    elim (Bool-cases (t.left x == 0)) [
      | inl e ↦ inl (ground (arith, e))
      | inr e ↦ inr (
        rot_right x tree,
        rotate_right-Spells t tree h (Sorted-Distinct start tree s) x i (ground (arith, e)),
        rot_right-Kept x tree,
      )
    ],
  )
