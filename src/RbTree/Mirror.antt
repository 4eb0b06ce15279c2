-- ===== src/RbTree/Mirror.antt =====
-- Rotations of the whole tree of src/mikroKernellib/rb_tree.c, to the left and, by symmetry, to
-- the right.
use mathlib.Core.Path.{subst, subst₂}
use mikrokernellib.Common.{
  ℕ, ◌≡◌, ◌≢◌, inl, inr, refl, sym, ap, ◌∙◌, arith, ◌==◌, if◌then◌else◌, update, Bool-cases,
}
use mikrokernellib.RbTree.{
  RbTree, rb_rotate_left, rb_rotate_right, replace_child, replace_child_right,
}
use mikrokernellib.RbTree.Model.{Tree, leaf, branch, In}
use mikrokernellib.RbTree.Links.{
  Linked, Distinct, top, Linked-up, Linked-top, In-ne_zero, In-parent,
}
use mikrokernellib.RbTree.Rotate.{rotated_root}
use mikrokernellib.RbTree.Turn.{Apart-of, turn_left, rot_left}
use mikrokernellib.RbTree.Turned.{rotate_left-Linked, top-rot_left_here, top-rot_left_below}

abbrev pub mirror : RbTree → RbTree
mirror t = record {
  root = t.root;
  right = t.left;
  left = t.right;
  parent = t.parent;
  color = t.color;
}

abbrev pub flip : Tree → Tree
flip leaf = leaf
flip (branch l q r) = branch (flip r) q (flip l)

pub In-flip : (m : ℕ) (tree : Tree) → In m tree → In m (flip tree)
In-flip m leaf i = i
In-flip m (branch l q r) (inl i) = inr (inr (In-flip m l i))
In-flip m (branch l q r) (inr (inl e)) = inr (inl e)
In-flip m (branch l q r) (inr (inr i)) = inl (In-flip m r i)

pub flip-flip : (tree : Tree) → flip (flip tree) ≡ tree
flip-flip leaf = refl
flip-flip (branch l q r) = rw (flip-flip l, flip-flip r) refl

pub In-unflip : (m : ℕ) (tree : Tree) → In m (flip tree) → In m tree
In-unflip m tree i = subst (In m) (flip-flip tree) (In-flip m (flip tree) i)

pub Distinct-flip : (tree : Tree) → Distinct tree → Distinct (flip tree)
Distinct-flip leaf d = d
Distinct-flip (branch l q r) (ql, qr, lr, dl, dr) = (
  λ i. qr (In-unflip q r i),
  λ i. ql (In-unflip q l i),
  λ m i j. lr m (In-unflip m l j) (In-unflip m r i),
  Distinct-flip r dr,
  Distinct-flip l dl,
)

pub Linked-flip :
    (t : RbTree) (par p : ℕ) (tree : Tree)
    → Linked t par p tree
    → Linked (mirror t) par p (flip tree)
Linked-flip t par p leaf h = h
Linked-flip t par p (branch l q r) (e, nz, up, hl, hr) =
    (e, nz, up, Linked-flip t q (t.right q) r hr, Linked-flip t q (t.left q) l hl)

abbrev pub turn_right : Tree → ℕ → Tree → Tree
turn_right leaf q c = branch leaf q c
turn_right (branch a y b) q c = branch a y (branch b q c)

-- The tree with a rotation to the right at `x`.
abbrev pub rot_right : ℕ → Tree → Tree
rot_right x leaf = leaf
rot_right x (branch l q r) =
    if q == x then turn_right l q r else branch (rot_right x l) q (rot_right x r)

flip-turn_left :
    (l : Tree) (q : ℕ) (r : Tree) → flip (turn_left (flip r) q (flip l)) ≡ turn_right l q r
flip-turn_left leaf q r = rw (flip-flip r) refl
flip-turn_left (branch a y b) q r = rw (flip-flip r, flip-flip a, flip-flip b) refl

pub flip-rot_left : (x : ℕ) (tree : Tree) → flip (rot_left x (flip tree)) ≡ rot_right x tree
flip-rot_left x leaf = refl
flip-rot_left x (branch l q r) = elim (Bool-cases (q == x)) [
  | inl e ↦ rw e (flip-turn_left l q r)
  | inr e ↦ rw (e, flip-rot_left x l, flip-rot_left x r) refl
]

replace_mirror :
    (x y : ℕ) (t : RbTree) → replace_child x y (mirror t) ≡ mirror (replace_child_right x y t)
unfolding replace_child replace_child_right
replace_mirror x y t = elim (Bool-cases (t.parent x == 0)) [
  | inl e ↦ rw e refl
  | inr e ↦ elim (Bool-cases (x == t.right (t.parent x))) [
    | inl f ↦ rw (e, f) refl
    | inr f ↦ rw (e, f) refl
  ]
]

pub rotate_mirror :
    (x : ℕ) (t : RbTree) → mirror (rb_rotate_left x (mirror t)) ≡ rb_rotate_right x t
unfolding rb_rotate_left rb_rotate_right
rotate_mirror x t =
    let y = t.left x in
    let left = update t.left x (t.right y) in
    let parent = if t.right y == 0 then t.parent else update t.parent (left x) x in
    let u : RbTree = record t { left = left; parent = update parent y (parent x) } in
    ap
      (λ (k : RbTree). mirror (record k { left = update k.left y x; parent = update k.parent x y }))
      (replace_mirror x y u)

-- The links of the whole tree.
abbrev pub Spells : RbTree → Tree → Type 0
Spells t tree = Linked t 0 t.root tree

pub rotate_left-Spells :
    (t : RbTree) (tree : Tree)
    → Spells t tree
    → Distinct tree
    → (x : ℕ) → In x tree
    → t.right x ≢ 0
    → Spells (rb_rotate_left x t) (rot_left x tree)
rotate_left-Spells t tree h d x i ne =
    let out : In 0 tree → ⊥ = λ z. In-ne_zero t 0 t.root tree h 0 z refl in
    let linked = rotate_left-Linked t 0 t.root tree h d out x i ne in
    let apart = Apart-of t 0 t.root tree h d out x i ne in
    let nz = In-ne_zero t 0 t.root tree h x i in
    let at_root : (rb_rotate_left x t).root ≡ top (rot_left x tree) =
      elim (In-parent t 0 t.root tree h x i) [
        | inl (first, up) ↦
            let here = top-rot_left_here t 0 t.root tree h x first ne (λ z. nz (first ∙ z)) in
            ground (arith, rotated_root t x apart)
        | inr (inside, child) ↦
            let up = In-ne_zero t 0 t.root tree h (t.parent x) inside in
            let below : x ≢ top tree = λ z.
              let first : x ≡ t.root = z ∙ sym (Linked-top t 0 t.root tree h) in
              up (ap t.parent first ∙ Linked-up t 0 t.root tree h (λ w. nz (first ∙ w))) in
            let here = top-rot_left_below x tree below in
            ground (arith, rotated_root t x apart, Linked-top t 0 t.root tree h)
      ] in
    subst (λ z. Linked (rb_rotate_left x t) 0 z (rot_left x tree)) (sym at_root) linked

pub rotate_right-Spells :
    (t : RbTree) (tree : Tree)
    → Spells t tree
    → Distinct tree
    → (x : ℕ) → In x tree
    → t.left x ≢ 0
    → Spells (rb_rotate_right x t) (rot_right x tree)
rotate_right-Spells t tree h d x i ne =
    let flipped =
      rotate_left-Spells (mirror t) (flip tree) (Linked-flip t 0 t.root tree h)
        (Distinct-flip tree d) x (In-flip x tree i) ne in
    let s = rb_rotate_left x (mirror t) in
    subst₂ (λ u v. Spells u v) (rotate_mirror x t) (flip-rot_left x tree)
      (Linked-flip s 0 s.root (rot_left x (flip tree)) flipped)
