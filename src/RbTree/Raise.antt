-- ===== src/RbTree/Raise.antt =====
-- The last rotation of `rb_insert_fixup` of src/mikroKernellib/rb_tree.c, under a left child: the
-- parent turns black and takes the place of the grandparent.
use mathlib.Core.Path.{subst}
use mikrokernellib.Common.{
  ℕ, ◌≡◌, ◌≢◌, inl, inr, refl, sym, ap, ◌∙◌, arith, false, ◌==◌, if◌then◌else◌, update, Bool-cases,
}
use mikrokernellib.RbTree.{RbTree, rb_red, rb_black, set_color, rb_rotate_left, replace_child}
use mikrokernellib.RbTree.Insert.{insert_fixup_goes_on}
use mikrokernellib.RbTree.Model.{Tree, In}
use mikrokernellib.RbTree.Links.{Distinct, In-ne_zero, In-parent}
use mikrokernellib.RbTree.Rotate.{Apart, rotated_parent}
use mikrokernellib.RbTree.Turn.{Apart-of, rot_left}
use mikrokernellib.RbTree.Mirror.{Spells, rotate_left-Spells}
use mikrokernellib.RbTree.Depth.{children_ne, Linked-color}

replace-color : (x y : ℕ) (t : RbTree) → (replace_child x y t).color ≡ t.color
unfolding replace_child
replace-color x y t = elim (Bool-cases (t.parent x == 0)) [
  | inl e ↦ rw e refl
  | inr e ↦ elim (Bool-cases (x == t.left (t.parent x))) [
    | inl f ↦ rw (e, f) refl
    | inr f ↦ rw (e, f) refl
  ]
]

pub rotate_left-color : (x : ℕ) (t : RbTree) → (rb_rotate_left x t).color ≡ t.color
unfolding rb_rotate_left
rotate_left-color x t = replace-color x (t.right x) (record t {
  right = update t.right x (t.left (t.right x));
  parent =
      update
        (if t.left (t.right x) == 0
          then t.parent
          else update t.parent (update t.right x (t.left (t.right x)) x) x)
        (t.right x)
        ((if t.left (t.right x) == 0
            then t.parent
            else update t.parent (update t.right x (t.left (t.right x)) x) x)
          x);
})

-- The recoloured tree before the rotation.
abbrev pub recolored : ℕ → RbTree → RbTree
recolored y t = set_color (t.parent (t.parent y)) rb_red (set_color (t.parent y) rb_black t)

module _ (t : RbTree) (tree : Tree) (h : Spells t tree) (d : Distinct tree) (y : ℕ) (i : In y tree)
    (pz : t.parent y ≢ 0) (gz : t.parent (t.parent y) ≢ 0) (at_p : t.right (t.parent y) ≡ y)
    (at_g : t.right (t.parent (t.parent y)) ≡ t.parent y) where
  abbrev p : ℕ
  p = t.parent y

  abbrev g : ℕ
  g = t.parent p

  abbrev u : RbTree
  u = recolored y t

  u-Spells : Spells u tree
  unfolding set_color
  u-Spells = Linked-color t u.color 0 t.root tree h

  pub p-In : In p tree
  p-In = elim (In-parent t 0 t.root tree h y i) [ inl (e, up) ↦ absurd (pz up) | inr (j, c) ↦ j ]

  pub g-In : In g tree
  g-In = elim (In-parent t 0 t.root tree h p p-In) [ inl (e, up) ↦ absurd (gz up) | inr (j, c) ↦ j ]

  pub out : In 0 tree → ⊥
  out z = In-ne_zero t 0 t.root tree h 0 z refl

  pub apart : Apart t g
  apart = Apart-of t 0 t.root tree h d out g g-In (λ z. pz (sym at_g ∙ z))

  pub raise_left-Spells : Spells (rb_rotate_left g u) (rot_left g tree)
  unfolding set_color
  raise_left-Spells = rotate_left-Spells u tree u-Spells d g g-In (λ z. pz (sym at_g ∙ z))

  p_apart : t.right p ≢ p
  p_apart =
      (Apart-of t 0 t.root tree h d out p p-In
        (λ z. In-ne_zero t 0 t.root tree h y i (sym at_p ∙ z))).child

  Apart-u : Apart u g
  unfolding set_color
  Apart-u = record {
    child = apart.child;
    above = apart.above;
    above_child = apart.above_child;
    inner = apart.inner;
    inner_child = apart.inner_child;
  }

  parent_u : (rb_rotate_left g u).parent y ≡ (
      if y == g
      then t.right g
      else (if y == t.right g
          then t.parent g
          else (if t.left (t.right g) == 0
              then t.parent y
              else (if y == t.left (t.right g) then g else t.parent y))))
  unfolding set_color
  parent_u = rotated_parent u g Apart-u y

  raised_parent : (rb_rotate_left g u).parent y ≡ p
  raised_parent =
      let y_p : y ≢ p = λ z. p_apart (at_p ∙ z) in
      let y_g : y ≢ g = λ z. apart.above_child (sym (ap t.parent z) ∙ sym at_g) in
      let y_b : t.left p ≢ 0 → t.left p ≢ y =
        λ ne z. children_ne t 0 t.root tree h d p p-In ne (z ∙ sym at_p) in
      let q_b : t.left (t.right g) ≢ 0 → t.left (t.right g) ≢ y =
        subst (λ z. t.left z ≢ 0 → t.left z ≢ y) (sym at_g) y_b in
      ground (arith, parent_u, at_g)

  raised_color : (rb_rotate_left g u).color p ≡ rb_black
  unfolding set_color
  raised_color =
      let p_g : p ≢ g = λ z. apart.child (at_g ∙ z) in
      ap (λ (c : ℕ → ℕ). c p) (rotate_left-color g u) ∙ ground (arith, p_g)

  pub raise_left-ends : insert_fixup_goes_on y (rb_rotate_left g u) ≡ false
  unfolding insert_fixup_goes_on
  raise_left-ends = ground (arith, raised_parent, raised_color)
