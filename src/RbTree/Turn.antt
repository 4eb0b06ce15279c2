-- ===== src/RbTree/Turn.antt =====
-- The tree that `rb_rotate_left` of src/mikroKernellib/rb_tree.c leaves.
use mathlib.Core.Path.{subst}
use mikrokernellib.Common.{
  ℕ, ◌≡◌, ◌≢◌, inl, inr, refl, sym, ap, ◌∙◌, arith, false, ◌==◌, if◌then◌else◌,
}
use mikrokernellib.RbTree.{RbTree, rb_rotate_left}
use mikrokernellib.RbTree.Model.{Tree, leaf, branch, In}
use mikrokernellib.RbTree.Rotate.{Apart, rotated_left, rotated_right, rotated_parent}
use mikrokernellib.RbTree.Links.{
  Linked, Distinct, SameAt, Linked-frame, Linked-move, In-top, In-left,
}

left_ne :
    (t : RbTree) (par p : ℕ) (tree : Tree)
    → Linked t par p tree
    → Distinct tree
    → (x : ℕ) → In x tree
    → t.left x ≢ x
left_ne t par p leaf h d x i loop = elim i [ ]
left_ne t par p (branch l q r) (e, nz, up, hl, hr) (ql, qr, lr, dl, dr) x (inl i) loop =
    left_ne t q (t.left q) l hl dl x i loop
left_ne t par p (branch l q r) (e, nz, up, hl, hr) (ql, qr, lr, dl, dr) x (inr (inr i)) loop =
    left_ne t q (t.right q) r hr dr x i loop
left_ne t par p (branch l q r) (e, nz, up, hl, hr) (ql, qr, lr, dl, dr) x (inr (inl same)) loop =
    let here : t.left q ≡ q = ap t.left (sym same) ∙ loop ∙ same in
    ql (subst (λ z. In z l) here (In-top t q (t.left q) l hl (λ z. nz (sym here ∙ z))))

pub Apart-of :
    (t : RbTree) (par p : ℕ) (tree : Tree)
    → Linked t par p tree
    → Distinct tree
    → (In par tree → ⊥)
    → (x : ℕ) → In x tree
    → t.right x ≢ 0
    → Apart t x
Apart-of t par p leaf h d out x i ne = elim i [ ]
Apart-of t par p (branch l q r) (e, nz, up, hl, hr) (ql, qr, lr, dl, dr) out x (inl i) ne =
    Apart-of t q (t.left q) l hl dl ql x i ne
Apart-of t par p (branch l q r) (e, nz, up, hl, hr) (ql, qr, lr, dl, dr) out x (inr (inr i)) ne =
    Apart-of t q (t.right q) r hr dr qr x i ne
Apart-of t par p (branch l q r) (e, nz, up, hl, hr) (ql, qr, lr, dl, dr) out x (inr (inl same)) ne =
    let at_right = ap t.right same in
    let inside = In-top t q (t.right q) r hr (λ z. ne (at_right ∙ z)) in
    let child_in : In (t.right x) r = subst (λ z. In z r) (sym at_right) inside in
    record {
      child = λ z. qr (subst (λ k. In k r) (z ∙ same) child_in);
      above = λ z. out (
          subst (λ k. In k (branch l q r)) (sym (sym (ap t.parent same ∙ up) ∙ z))
            (inr (inl same)));
      above_child = λ z. out (
          subst (λ k. In k (branch l q r)) (sym (sym (ap t.parent same ∙ up) ∙ z))
            (inr (inr child_in)));
      inner = λ z. qr (
          subst (λ k. In k r) (z ∙ same)
            (In-left t q (t.right q) r hr (t.right x) child_in (λ w. nz (sym same ∙ sym z ∙ w))));
      inner_child = left_ne t q (t.right q) r hr dr (t.right x) child_in;
    }

abbrev pub turn_left : Tree → ℕ → Tree → Tree
turn_left a q leaf = branch a q leaf
turn_left a q (branch b y c) = branch (branch a q b) y c

-- The tree with a rotation to the left at `x`.
abbrev pub rot_left : ℕ → Tree → Tree
rot_left x leaf = leaf
rot_left x (branch l q r) =
    if q == x then turn_left l q r else branch (rot_left x l) q (rot_left x r)

pub rot_left-out : (x : ℕ) (tree : Tree) → (In x tree → ⊥) → rot_left x tree ≡ tree
rot_left-out x leaf out = refl
rot_left-out x (branch l q r) out =
    let e : (q == x) ≡ false = ground (arith, λ (z : q ≡ x). out (inr (inl (sym z)))) in
    rw (e, rot_left-out x l (λ i. out (inl i)), rot_left-out x r (λ i. out (inr (inr i)))) refl

-- The rotation at the top of a subtree.
module _ (t : RbTree) (par q y : ℕ) (a b c : Tree) (h : Linked t par q (branch a q (branch b y c)))
    (d : Distinct (branch a q (branch b y c))) (out : In par (branch a q (branch b y c)) → ⊥) where
  abbrev pub turned : RbTree
  turned = rb_rotate_left q t

  at_y : t.right q ≡ y
  at_y = h.4.0

  apart : Apart t q
  apart =
      Apart-of t par q (branch a q (branch b y c)) h d out q (inr (inl refl))
        (λ z. h.4.1 (sym at_y ∙ z))

  left_of :
      (m : ℕ)
      → turned.left m ≡ (
          if m == y
          then q
          else (if m == par
              then (if par == 0 then t.left m else (if q == t.left par then y else t.left m))
              else t.left m))
  left_of m = ground (arith, rotated_left t q apart m, at_y, h.2)

  right_of :
      (m : ℕ)
      → turned.right m ≡ (
          if m == q
          then t.left y
          else (if m == par
              then (if par == 0 then t.right m else (if q == t.left par then t.right m else y))
              else t.right m))
  right_of m = ground (arith, rotated_right t q apart m, at_y, h.2)

  parent_of :
      (m : ℕ)
      → turned.parent m ≡ (
          if m == q
          then y
          else (if m == y
              then par
              else (if t.left y == 0
                  then t.parent m
                  else (if m == t.left y then q else t.parent m))))
  parent_of m = ground (arith, rotated_parent t q apart m, at_y, h.2)

  same_far : (m : ℕ) → m ≢ q → m ≢ y → m ≢ par → (t.left y ≢ 0 → m ≢ t.left y) → SameAt t turned m
  same_far m nq ny np nb =
      (ground (arith, left_of m), ground (arith, right_of m), ground (arith, parent_of m))

  far_b : (m : ℕ) → In m b → (m ≢ q) × (m ≢ y) × (m ≢ par)
  far_b m i = (
    λ z. d.1 (subst (λ k. In k (branch b y c)) z (inl i)),
    λ z. d.4.0 (subst (λ k. In k b) z i),
    λ z. out (subst (λ k. In k (branch a q (branch b y c))) z (inr (inr (inl i)))),
  )

  pub turn_here : Linked turned par y (branch (branch a q b) y c)
  turn_here =
      let (here, nz, up, ha, (child, ny, yup, hb, hc)) = h in
      let (qa, qr, ar, da, (yb, yc, bc, db, dc)) = d in
      let q_y : q ≢ y = λ z. qr (inr (inl z)) in
      let par_q : par ≢ q = λ z. out (inr (inl z)) in
      let par_y : par ≢ y = λ z. out (inr (inr (inr (inl z)))) in
      let in_b : t.left y ≢ 0 → In (t.left y) b = In-top t y (t.left y) b hb in
      let left_y : turned.left y ≡ q = ground (arith, left_of y) in
      let right_q : turned.right q ≡ t.left y = ground (arith, right_of q) in
      let left_q : turned.left q ≡ t.left q = ground (arith, left_of q) in
      let right_y : turned.right y ≡ t.right y = ground (arith, right_of y) in
      let frame_a =
        Linked-frame t turned q (t.left q) a
          (λ m i.
            same_far m (λ z. qa (subst (λ k. In k a) z i)) (λ z. ar m i (inr (inl z)))
              (λ z. out (subst (λ k. In k (branch a q (branch b y c))) z (inl i)))
              (λ nb z. ar m i (inl (subst (λ k. In k b) (sym z) (in_b nb)))))
          ha in
      let frame_c =
        Linked-frame t turned y (t.right y) c
          (λ m i.
            same_far m (λ z. qr (subst (λ k. In k (branch b y c)) z (inr (inr i))))
              (λ z. yc (subst (λ k. In k c) z i))
              (λ z. out (subst (λ k. In k (branch a q (branch b y c))) z (inr (inr (inr (inr i))))))
              (λ nb z. bc m (subst (λ k. In k b) (sym z) (in_b nb)) i))
          hc in
      let move_b =
        Linked-move t turned y q (t.left y) b db
          (λ m i. (ground (arith, left_of m, far_b m i), ground (arith, right_of m, far_b m i)))
          (λ m i ne. ground (arith, parent_of m, far_b m i))
          (λ nb. ground (arith, parent_of (t.left y), far_b (t.left y) (in_b nb))) hb in
      (
        refl,
        ny,
        ground (arith, parent_of y),
        (
          left_y,
          nz,
          ground (arith, parent_of q),
          subst (λ z. Linked turned q z a) (sym left_q) frame_a,
          subst (λ z. Linked turned q z b) (sym right_q) move_b,
        ),
        subst (λ z. Linked turned y z c) (sym right_y) frame_c,
      )
