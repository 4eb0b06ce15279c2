-- ===== src/RbTree/Turned.antt =====
-- A rotation anywhere in the tree of src/mikroKernellib/rb_tree.c.
use mathlib.Core.Path.{subst}
use mikrokernellib.Common.{ℕ, ◌≡◌, ◌≢◌, ◌⊎◌, inl, inr, refl, sym, ap, ◌∙◌, arith, true, false, ◌==◌}
use mikrokernellib.RbTree.{RbTree, rb_rotate_left}
use mikrokernellib.RbTree.Model.{Tree, leaf, branch, In}
use mikrokernellib.RbTree.Links.{
  Linked, Distinct, top, SameAt, Linked-top, Linked-up, Linked-frame, In-ne_zero, In-top, In-left,
  In-right, In-parent,
}
use mikrokernellib.RbTree.Rotate.{Apart, rotated_left, rotated_right, rotated_parent}
use mikrokernellib.RbTree.Turn.{Apart-of, rot_left, rot_left-out, turn_here}

pub top-rot_left_here :
    (t : RbTree) (par p : ℕ) (tree : Tree)
    → Linked t par p tree
    → (x : ℕ) → x ≡ p
    → t.right x ≢ 0
    → p ≢ 0
    → top (rot_left x tree) ≡ t.right x
top-rot_left_here t par p leaf h x e ne nz = absurd (nz h)
top-rot_left_here t par p (branch l q leaf) (same, z, up, hl, hr) x e ne nz =
    absurd (ne (ap t.right (e ∙ same) ∙ hr))
top-rot_left_here t par p (branch l q (branch b y c)) (same, z, up, hl, hr) x e ne nz =
    let here : (q == x) ≡ true = ground (arith, e, same) in
    rw here (sym hr.0 ∙ sym (ap t.right (e ∙ same)))

pub top-rot_left_below : (x : ℕ) (tree : Tree) → x ≢ top tree → top (rot_left x tree) ≡ top tree
top-rot_left_below x leaf ne = refl
top-rot_left_below x (branch l q r) ne = let e : (q == x) ≡ false = ground (arith, ne) in rw e refl

-- What a rotation at a node of a subtree leaves of the nodes outside.
module _ (t : RbTree) (q p : ℕ) (tree : Tree) (h : Linked t q p tree) (d : Distinct tree)
    (out : In q tree → ⊥) (x : ℕ) (i : In x tree) (ne : t.right x ≢ 0) (nz : q ≢ 0) where
  abbrev s : RbTree
  s = rb_rotate_left x t

  apart : Apart t x
  apart = Apart-of t q p tree h d out x i ne

  child-In : In (t.right x) tree
  child-In = In-right t q p tree h x i ne

  inner-In : t.left (t.right x) ≢ 0 → In (t.left (t.right x)) tree
  inner-In = In-left t q p tree h (t.right x) child-In

  above-In : ((x ≡ p) × (t.parent x ≡ q)) ⊎ In (t.parent x) tree
  above-In = elim (In-parent t q p tree h x i) [ inl e ↦ inl e | inr (inside, child) ↦ inr inside ]

  apart_of : (m k : ℕ) → (In m tree → ⊥) → In k tree → m ≢ k
  apart_of m k o j e = o (subst (λ z. In z tree) (sym e) j)

  ne_above : (m : ℕ) → (In m tree → ⊥) → m ≢ q → m ≢ t.parent x
  ne_above m o nq = elim above-In [
    | inl (first, up) ↦ λ e. nq (e ∙ up)
    | inr inside ↦ apart_of m (t.parent x) o inside
  ]

  same_out : (m : ℕ) → (In m tree → ⊥) → m ≢ q → SameAt t s m
  same_out m o nq =
      let nx = apart_of m x o i in
      let ny = apart_of m (t.right x) o child-In in
      let ng = ne_above m o nq in
      let nb = λ (b : t.left (t.right x) ≢ 0). apart_of m (t.left (t.right x)) o (inner-In b) in
      (
        ground (arith, rotated_left t x apart m),
        ground (arith, rotated_right t x apart m),
        ground (arith, rotated_parent t x apart m, nb),
      )

  parent_out : s.parent q ≡ t.parent q
  parent_out =
      let nx = apart_of q x out i in
      let ny = apart_of q (t.right x) out child-In in
      let nb = λ (b : t.left (t.right x) ≢ 0). apart_of q (t.left (t.right x)) out (inner-In b) in
      ground (arith, rotated_parent t x apart q, nb)

  deep : In (t.parent x) tree → x ≢ p
  deep inside first =
      let up = Linked-up t q p tree h (λ z. In-ne_zero t q p tree h x i (first ∙ z)) in
      out (subst (λ k. In k tree) (ap t.parent first ∙ up) inside)

  -- The node above is the parent of the whole subtree, or is inside of it.
  left_out : t.left q ≡ p → s.left q ≡ top (rot_left x tree)
  left_out child =
      let ny = apart_of q (t.right x) out child-In in
      elim above-In [
        | inl (first, up) ↦
            let pz : p ≢ 0 = λ z. In-ne_zero t q p tree h x i (first ∙ z) in
            let here = top-rot_left_here t q p tree h x first ne pz in
            ground (arith, rotated_left t x apart q)
        | inr inside ↦
            let ng = apart_of q (t.parent x) out inside in
            let below : x ≢ top tree = λ z. deep inside (z ∙ sym (Linked-top t q p tree h)) in
            let here = top-rot_left_below x tree below in
            ground (arith, rotated_left t x apart q, Linked-top t q p tree h)
      ]

  right_kept : t.left q ≡ p → s.right q ≡ t.right q
  right_kept child =
      let nx = apart_of q x out i in
      elim above-In [
        | inl (first, up) ↦ ground (arith, rotated_right t x apart q)
        | inr inside ↦
            let ng = apart_of q (t.parent x) out inside in ground (arith, rotated_right t x apart q)
      ]

  right_out : t.right q ≡ p → t.left q ≢ x → s.right q ≡ top (rot_left x tree)
  right_out child other =
      let nx = apart_of q x out i in
      elim above-In [
        | inl (first, up) ↦
            let pz : p ≢ 0 = λ z. In-ne_zero t q p tree h x i (first ∙ z) in
            let here = top-rot_left_here t q p tree h x first ne pz in
            ground (arith, rotated_right t x apart q)
        | inr inside ↦
            let ng = apart_of q (t.parent x) out inside in
            let below : x ≢ top tree = λ z. deep inside (z ∙ sym (Linked-top t q p tree h)) in
            let here = top-rot_left_below x tree below in
            ground (arith, rotated_right t x apart q, Linked-top t q p tree h)
      ]

  left_kept : t.left q ≢ x → s.left q ≡ t.left q
  left_kept other =
      let ny = apart_of q (t.right x) out child-In in
      elim above-In [
        | inl (first, up) ↦ ground (arith, rotated_left t x apart q)
        | inr inside ↦
            let ng = apart_of q (t.parent x) out inside in ground (arith, rotated_left t x apart q)
      ]

pub rotate_left-Linked :
    (t : RbTree) (par p : ℕ) (tree : Tree)
    → Linked t par p tree
    → Distinct tree
    → (In par tree → ⊥)
    → (x : ℕ) → In x tree
    → t.right x ≢ 0
    → Linked (rb_rotate_left x t) par (top (rot_left x tree)) (rot_left x tree)
rotate_left-Linked t par p leaf h d out x i ne = elim i [ ]
rotate_left-Linked t par p (branch l q leaf) h d out x (inr (inl same)) ne =
    absurd (ne (ap t.right same ∙ h.4))
rotate_left-Linked t par p (branch l q (branch b y c)) (e, rest0, rest1, rest2, rest3) d out x
      (inr (inl same)) ne =
    let here : (q == x) ≡ true = ground (arith, same) in
    rw here (
      subst (λ z. Linked (rb_rotate_left z t) par y (branch (branch l q b) y c)) (sym same)
        (turn_here t par q y l b c (refl, rest0, rest1, rest2, rest3) d out))
rotate_left-Linked t par p (branch l q r) (e, nz, up, hl, hr) (ql, qr, lr, dl, dr) out x (inl i)
      ne =
    let away : (q == x) ≡ false =
      ground (arith, λ (z : q ≡ x). ql (subst (λ k. In k l) (sym z) i)) in
    let keeps = rot_left-out x r (λ j. lr x i j) in
    let ih = rotate_left-Linked t q (t.left q) l hl dl ql x i ne in
    let at_left = left_out t q (t.left q) l hl dl ql x i ne nz refl in
    let at_right = right_kept t q (t.left q) l hl dl ql x i ne nz refl in
    let frame =
      Linked-frame t (rb_rotate_left x t) q (t.right q) r
        (λ m j.
          same_out t q (t.left q) l hl dl ql x i ne nz m (λ k. lr m k j)
            (λ z. qr (subst (λ k. In k r) z j)))
        hr in
    rw (away, keeps)
      (
        refl,
        nz,
        parent_out t q (t.left q) l hl dl ql x i ne nz ∙ up,
        subst (λ z. Linked (rb_rotate_left x t) q z (rot_left x l)) (sym at_left) ih,
        subst (λ z. Linked (rb_rotate_left x t) q z r) (sym at_right) frame,
      )
rotate_left-Linked t par p (branch l q r) (e, nz, up, hl, hr) (ql, qr, lr, dl, dr) out x
      (inr (inr i)) ne =
    let away : (q == x) ≡ false =
      ground (arith, λ (z : q ≡ x). qr (subst (λ k. In k r) (sym z) i)) in
    let keeps = rot_left-out x l (λ j. lr x j i) in
    let other : t.left q ≢ x = λ z.
      lr x
        (subst (λ k. In k l) z
          (In-top t q (t.left q) l hl (λ w. In-ne_zero t q (t.right q) r hr x i (sym z ∙ w))))
        i in
    let ih = rotate_left-Linked t q (t.right q) r hr dr qr x i ne in
    let at_right = right_out t q (t.right q) r hr dr qr x i ne nz refl other in
    let at_left = left_kept t q (t.right q) r hr dr qr x i ne nz other in
    let frame =
      Linked-frame t (rb_rotate_left x t) q (t.left q) l
        (λ m j.
          same_out t q (t.right q) r hr dr qr x i ne nz m (λ k. lr m j k)
            (λ z. ql (subst (λ k. In k l) z j)))
        hl in
    rw (away, keeps)
      (
        refl,
        nz,
        parent_out t q (t.right q) r hr dr qr x i ne nz ∙ up,
        subst (λ z. Linked (rb_rotate_left x t) q z l) (sym at_left) frame,
        subst (λ z. Linked (rb_rotate_left x t) q z (rot_left x r)) (sym at_right) ih,
      )
