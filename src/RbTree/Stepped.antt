-- ===== src/RbTree/Stepped.antt =====
-- The colours that the rotations of `rb_insert_fixup` of src/mikroKernellib/rb_tree.c leaves.
use mathlib.Core.Path.{subst, subst₂}
use mikrokernellib.Common.{
  false, ℕ, ◌≡◌, ◌≢◌, ◌⊎◌, inl, inr, sym, ap, ◌∙◌, ◌==◌, if◌then◌else◌, update, Bool-cases, arith,
}
use mikrokernellib.RbTree.{RbTree, rb_red, rb_black, set_color, rb_rotate_left, rb_rotate_right}
use mikrokernellib.RbTree.Model.{Tree, In}
use mikrokernellib.RbTree.Links.{Distinct, In-ne_zero, In-parent}
use mikrokernellib.RbTree.Mirror.{mirror, rotate_mirror, rotate_right-Spells, Spells, rot_right}
use mikrokernellib.RbTree.Turn.{rot_left}
use mikrokernellib.RbTree.Raise.{recolored, rotate_left-color}
use mikrokernellib.RbTree.Insert.{rotate_step_right, insert_fixup_goes_on}
use mikrokernellib.RbTree.Rotate.{rotated_right}
use mikrokernellib.RbTree.Rotated.{rot_right-Kept}
use mikrokernellib.RbTree.Step.{
  after_parent, after_above, after_child, after_top, at_left, apart, rot_right-Distinct,
  step_right_lem,
}
use mikrokernellib.RbTree.Painted.{Coloured, In-At, raised-Coloured, inner-Coloured}

rotate_right-color : (x : ℕ) (t : RbTree) → (rb_rotate_right x t).color ≡ t.color
rotate_right-color x t =
    ap (λ (k : RbTree). k.color) (sym (rotate_mirror x t)) ∙ rotate_left-color x (mirror t)

after_uncle :
    (t : RbTree) (tree : Tree) (h : Spells t tree) (dt : Distinct tree) (p : ℕ) (i : In p tree)
    (ne : t.left p ≢ 0)
    → t.parent p ≢ 0
    → t.right (t.parent p) ≡ p
    → t.parent p ≢ p
    → (rb_rotate_right p t).left (t.parent p) ≡ t.left (t.parent p)
after_uncle t tree h dt p i ne gz at_g g_p =
    ap (λ (k : RbTree). k.left (t.parent p)) (at_left t tree h dt p i ne)
    ∙ ground
        (arith, rotated_right (mirror t) p (apart t tree h dt p i ne) (t.parent p), at_g, gz, g_p)

module _ (t : RbTree) (tree : Tree) (h : Spells t tree) (dt : Distinct tree) (x : ℕ) (i : In x tree)
    (pz : t.parent x ≢ 0) (gz : t.parent (t.parent x) ≢ 0)
    (at_g : t.right (t.parent (t.parent x)) ≡ t.parent x) (x_red : t.color x ≡ rb_red)
    (p_red : t.color (t.parent x) ≡ rb_red) (g_black : t.color (t.parent (t.parent x)) ≢ rb_red)
    (uncle : (t.left (t.parent (t.parent x)) ≡ 0)
      ⊎ (t.color (t.left (t.parent (t.parent x))) ≢ rb_red)) where
  abbrev p : ℕ
  p = t.parent x

  abbrev g : ℕ
  g = t.parent p

  p_child : In p tree × ((t.left p ≡ x) ⊎ (t.right p ≡ x))
  p_child = elim (In-parent t 0 t.root tree h x i) [ inl (e, up) ↦ absurd (pz up) | inr j ↦ j ]

  g-In : In g tree
  g-In = elim (In-parent t 0 t.root tree h p p_child.0) [
    | inl (e, up) ↦ absurd (gz up)
    | inr (j, c) ↦ j
  ]

  xz : x ≢ 0
  xz = In-ne_zero t 0 t.root tree h x i

  outer-Coloured :
      (n z : ℕ)
      → t.right p ≡ x
      → Coloured t.color n x tree
      → Coloured (rb_rotate_left g (recolored x t)).color n z (rot_left g tree)
  unfolding set_color
  outer-Coloured n z high col =
      let (l, r, at) = In-At g tree g-In in
      subst (λ k. Coloured k n z (rot_left g tree)) (sym (rotate_left-color g (recolored x t)))
        (raised-Coloured t tree h dt x g p g-In at_g pz high xz p_red g_black uncle n z l r at col)

  -- After the first rotation `p` hangs below `x`.
  module _ (low : t.left p ≡ x) where
    abbrev w : RbTree
    w = rb_rotate_right p t

    ne : t.left p ≢ 0
    ne e = xz (sym low ∙ e)

    w_parent : w.parent p ≡ x
    w_parent = after_parent t tree h dt p p_child.0 ne ∙ low

    w_above : w.parent (w.parent p) ≡ g
    w_above = ap w.parent (w_parent ∙ sym low) ∙ after_above t tree h dt p p_child.0 ne

    both-Coloured :
        (n z : ℕ)
        → Coloured t.color n x tree
        → Coloured
            (rb_rotate_left (w.parent (w.parent p)) (recolored p w)).color
            n
            z
            (rot_left g (rot_right p tree))
    unfolding set_color
    both-Coloured n z col =
        let (l, r, at) = In-At p tree p_child.0 in
        let first = inner-Coloured t tree h dt x p low xz p_red x_red n l r at col in
        let c_same = rotate_right-color p t in
        let g_p : g ≢ p = λ e. g_black (ap t.color e ∙ p_red) in
        let after = rot_right p tree in
        let g_after : In g after = (rot_right-Kept (λ k. 0) p tree).to g g-In in
        let (l', r', at') = In-At g after g_after in
        let left_g = after_uncle t tree h dt p p_child.0 ne gz at_g g_p in
        let uncle' : (w.left g ≡ 0) ⊎ (w.color (w.left g) ≢ rb_red) = elim uncle [
          | inl e ↦ inl (left_g ∙ e)
          | inr e ↦ inr (λ red.
              e (ap t.color (sym left_g) ∙ sym (ap (λ (k : ℕ → ℕ). k (w.left g)) c_same) ∙ red))
        ] in
        let second =
          raised-Coloured w after (rotate_right-Spells t tree h dt p p_child.0 ne)
            (rot_right-Distinct p tree dt) p g x g_after
            (after_top t tree h dt p p_child.0 ne gz at_g ∙ low) xz
            (ap w.right (sym low) ∙ after_child t tree h dt p p_child.0 ne) pz
            (ap (λ (k : ℕ → ℕ). k x) c_same ∙ x_red)
            (λ red. g_black (sym (ap (λ (k : ℕ → ℕ). k g) c_same) ∙ red)) uncle' n z l' r' at'
            (subst (λ k. Coloured k n p after) (sym c_same) first) in
        subst (λ k. Coloured k n z (rot_left g after))
          (sym (rotate_left-color (w.parent (w.parent p)) (recolored p w)))
          (subst₂
            (λ a b. Coloured (update (update w.color a rb_black) b rb_red) n z (rot_left g after))
            (sym w_parent) (sym w_above) second)

  -- The colours alone.
  step_right_colours :
      (n z : ℕ)
      → Coloured t.color n x tree
      → Coloured
          (rotate_step_right x t).1.color
          n
          z
          (rot_left g (if x == t.left p then rot_right p tree else tree))
  unfolding rotate_step_right set_color
  step_right_colours n z col = elim (Bool-cases (x == t.left p)) [
    | inl e ↦ rw e (both-Coloured (ground (arith, e)) n z col)
    | inr e ↦
        let high : t.right p ≡ x = ground (arith, e, p_child.1) in
        rw e (outer-Coloured n z high col)
  ]

  -- Where `x` is a red right or left child of a red right child `p` of a black node `g` whose left
  -- child is NULL or black, in a tree with right links, parents included, and no node twice, whose
  -- black heights are equal and in which no red node but `x` has a red parent, the links after
  -- `rotate_step_right` are right, parents included, for this tree with `p` rotated to the right if
  -- `x` is its left child, and then `g` rotated to the left. It has the same black height, and, `z`
  -- being any number, no red node in it but `z` has a red parent; and the loop of the fixup ends.
  pub step_right-Coloured :
      (n z : ℕ)
      → Coloured t.color n x tree
      → Spells
          (rotate_step_right x t).1
          (rot_left g (if x == t.left p then rot_right p tree else tree))
        × Coloured
            (rotate_step_right x t).1.color
            n
            z
            (rot_left g (if x == t.left p then rot_right p tree else tree))
        × (insert_fixup_goes_on (rotate_step_right x t).0 (rotate_step_right x t).1 ≡ false)
  step_right-Coloured n z col =
      let (links, ends) = step_right_lem t tree h dt x i pz gz at_g in
      (links, step_right_colours n z col, ends)
