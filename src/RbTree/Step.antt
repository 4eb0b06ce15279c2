-- ===== src/RbTree/Step.antt =====
-- The two rotations of `rb_insert_fixup` of src/mikroKernellib/rb_tree.c.
use mathlib.Core.Path.{subst}
use mikrokernellib.Common.{
  ℕ, ◌≡◌, ◌≢◌, ◌⊎◌, inl, inr, refl, sym, ap, ◌∙◌, arith, false, Bool, ◌==◌, if◌then◌else◌,
  Bool-cases,
}
use mikrokernellib.RbTree.{RbTree, set_color, rb_rotate_left, rb_rotate_right}
use mikrokernellib.RbTree.Insert.{insert_fixup_goes_on, rotate_step_right}
use mikrokernellib.RbTree.Model.{Tree, leaf, branch, In}
use mikrokernellib.RbTree.Links.{Distinct, In-ne_zero, In-parent}
use mikrokernellib.RbTree.Rotate.{Apart, rotated_left, rotated_parent}
use mikrokernellib.RbTree.Turn.{Apart-of, rot_left}
use mikrokernellib.RbTree.Rotated.{rot_right-Kept}
use mikrokernellib.RbTree.Raise.{recolored, raise_left-Spells, raise_left-ends}
use mikrokernellib.RbTree.Mirror.{
  mirror, flip, Spells, rotate_right-Spells, In-flip, Distinct-flip, Linked-flip, rotate_mirror,
  turn_right, rot_right,
}

turn_right-Distinct :
    (l : Tree) (q : ℕ) (r : Tree) → Distinct (branch l q r) → Distinct (turn_right l q r)
turn_right-Distinct leaf q r d = d
turn_right-Distinct (branch a y b) q r (ql, qr, lr, (ya, yb, ab, da, db), dr) = (
  ya,
  λ i. elim i [
    | inl u ↦ yb u
    | inr (inl e) ↦ ql (inr (inl (sym e)))
    | inr (inr u) ↦ lr y (inr (inl refl)) u
  ],
  λ m i j. elim j [
    | inl u ↦ ab m i u
    | inr (inl e) ↦ ql (inl (subst (λ k. In k a) e i))
    | inr (inr u) ↦ lr m (inl i) u
  ],
  da,
  (λ i. ql (inr (inr i)), qr, λ m i j. lr m (inr (inr i)) j, db, dr),
)

pub rot_right-Distinct : (x : ℕ) (tree : Tree) → Distinct tree → Distinct (rot_right x tree)
rot_right-Distinct x leaf d = d
rot_right-Distinct x (branch l q r) (ql, qr, lr, dl, dr) = elim (Bool-cases (q == x)) [
  | inl e ↦ rw e (turn_right-Distinct l q r (ql, qr, lr, dl, dr))
  | inr e ↦
      let from_l = (rot_right-Kept (λ k. 0) x l).from in
      let from_r = (rot_right-Kept (λ k. 0) x r).from in
      rw e (
        λ i. ql (from_l q i),
        λ i. qr (from_r q i),
        λ m i j. lr m (from_l m i) (from_r m j),
        rot_right-Distinct x l dl,
        rot_right-Distinct x r dr,
      )
]

-- The fields about `x` after a rotation to the right.
module _ (t : RbTree) (tree : Tree) (h : Spells t tree) (d : Distinct tree) (p : ℕ) (i : In p tree)
    (ne : t.left p ≢ 0) where
  abbrev v : RbTree
  v = rb_rotate_right p t

  pub apart : Apart (mirror t) p
  apart =
      Apart-of (mirror t) 0 t.root (flip tree) (Linked-flip t 0 t.root tree h)
        (Distinct-flip tree d)
        (λ z. In-ne_zero (mirror t) 0 t.root (flip tree) (Linked-flip t 0 t.root tree h) 0 z refl) p
        (In-flip p tree i) ne

  pub at_left : v ≡ mirror (rb_rotate_left p (mirror t))
  at_left = sym (rotate_mirror p t)

  pub after_parent : v.parent p ≡ t.left p
  after_parent =
      ap (λ (k : RbTree). k.parent p) at_left ∙ ground (arith, rotated_parent (mirror t) p apart p)

  pub after_above : v.parent (t.left p) ≡ t.parent p
  after_above =
      let ne_p = apart.child in
      ap (λ (k : RbTree). k.parent (t.left p)) at_left
      ∙ ground (arith, rotated_parent (mirror t) p apart (t.left p))

  pub after_child : v.right (t.left p) ≡ p
  after_child =
      ap (λ (k : RbTree). k.right (t.left p)) at_left
      ∙ ground (arith, rotated_left (mirror t) p apart (t.left p))

  pub after_top : t.parent p ≢ 0 → t.right (t.parent p) ≡ p → v.right (t.parent p) ≡ t.left p
  after_top gz at_g =
      let ne_l = apart.above_child in
      ap (λ (k : RbTree). k.right (t.parent p)) at_left
      ∙ ground (arith, rotated_left (mirror t) p apart (t.parent p), at_g, gz)

module _ (t : RbTree) (tree : Tree) (h : Spells t tree) (d : Distinct tree) (x : ℕ) (i : In x tree)
    (pz : t.parent x ≢ 0) (gz : t.parent (t.parent x) ≢ 0)
    (at_g : t.right (t.parent (t.parent x)) ≡ t.parent x) where
  abbrev p : ℕ
  p = t.parent x

  abbrev g : ℕ
  g = t.parent p

  p_child : In p tree × ((t.left p ≡ x) ⊎ (t.right p ≡ x))
  p_child = elim (In-parent t 0 t.root tree h x i) [ inl (e, up) ↦ absurd (pz up) | inr j ↦ j ]

  abbrev stepped : Bool → Tree
  stepped inner = rot_left g (if inner then rot_right p tree else tree)

  -- The inner grandchild, which goes up first.
  module _ (low : t.left p ≡ x) where
    abbrev w : RbTree
    w = rb_rotate_right p t

    wz : t.left p ≢ 0
    wz = λ z. In-ne_zero t 0 t.root tree h x i (sym low ∙ z)

    p-In : In p tree
    p-In = p_child.0

    w_parent : w.parent p ≡ x
    w_parent = after_parent t tree h d p p-In wz ∙ low

    w_above : w.parent (w.parent p) ≡ g
    w_above = ap w.parent (w_parent ∙ sym low) ∙ after_above t tree h d p p-In wz

    w_child : w.right (w.parent p) ≡ p
    w_child = ap w.right (w_parent ∙ sym low) ∙ after_child t tree h d p p-In wz

    w_top : w.right (w.parent (w.parent p)) ≡ w.parent p
    w_top = ap w.right w_above ∙ after_top t tree h d p p-In wz gz at_g ∙ low ∙ sym w_parent

    w-In : In p (rot_right p tree)
    w-In = (rot_right-Kept (λ k. 0) p tree).to p p-In

    pub w-Spells : Spells w (rot_right p tree)
    w-Spells = rotate_right-Spells t tree h d p p-In wz

    w_pz : w.parent p ≢ 0
    w_pz z = wz (low ∙ sym w_parent ∙ z)

    w_gz : w.parent (w.parent p) ≢ 0
    w_gz z = gz (sym w_above ∙ z)

    inner-Spells :
        Spells
          (rb_rotate_left (w.parent (w.parent p)) (recolored p w))
          (rot_left g (rot_right p tree))
    inner-Spells =
        subst
          (λ z.
            Spells (rb_rotate_left (w.parent (w.parent p)) (recolored p w))
              (rot_left z (rot_right p tree)))
          w_above
          (raise_left-Spells w (rot_right p tree) w-Spells (rot_right-Distinct p tree d) p w-In w_pz
            w_gz w_child w_top)

    inner-ends :
        insert_fixup_goes_on p (rb_rotate_left (w.parent (w.parent p)) (recolored p w)) ≡ false
    inner-ends =
        raise_left-ends w (rot_right p tree) w-Spells (rot_right-Distinct p tree d) p w-In w_pz w_gz
          w_child w_top

  pub step_right_lem :
      Spells (rotate_step_right x t).1 (stepped (x == t.left p))
      × (insert_fixup_goes_on (rotate_step_right x t).0 (rotate_step_right x t).1 ≡ false)
  unfolding rotate_step_right set_color
  step_right_lem = elim (Bool-cases (x == t.left p)) [
    | inl e ↦ let low : t.left p ≡ x = ground (arith, e) in rw e (inner-Spells low, inner-ends low)
    | inr e ↦
        let high : t.right p ≡ x = ground (arith, e, p_child.1) in
        rw e (
          raise_left-Spells t tree h d x i pz gz high at_g,
          raise_left-ends t tree h d x i pz gz high at_g,
        )
  ]
