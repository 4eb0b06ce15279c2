-- ===== src/RbTree/Links.antt =====
-- The links of a red-black tree of src/mikroKernellib/rb_tree.c, parents included, and what changes
-- of the fields leave of them.
use mathlib.Core.Path.{subst}
use mikrokernellib.Common.{ℕ, ◌≡◌, ◌≢◌, ◌⊎◌, inl, inr, refl, sym, ap, ◌∙◌, arith}
use mikrokernellib.RbTree.{RbTree}
use mikrokernellib.RbTree.Model.{Tree, leaf, branch, In, Sorted}

-- From `p` on, under the parent `par`.
abbrev pub Linked : RbTree → ℕ → ℕ → Tree → Type 0
Linked t par p leaf = p ≡ 0
Linked t par p (branch l q r) =
    (p ≡ q) × (q ≢ 0) × (t.parent q ≡ par) × Linked t q (t.left q) l × Linked t q (t.right q) r

-- No node stands twice.
abbrev pub Distinct : Tree → Type 0
Distinct leaf = Unit
Distinct (branch l q r) =
    (In q l → ⊥) × (In q r → ⊥) × ((m : ℕ) → In m l → In m r → ⊥) × Distinct l × Distinct r

abbrev pub top : Tree → ℕ
top leaf = 0
top (branch l q r) = q

pub Sorted-Distinct : (start : ℕ → ℕ) (tree : Tree) → Sorted start tree → Distinct tree
Sorted-Distinct start leaf s = tt
Sorted-Distinct start (branch l q r) (low, up, sl, sr) = (
  λ i. omega (arith, low q i),
  λ i. omega (arith, up q i),
  λ m i j. omega (arith, low m i, up m j),
  Sorted-Distinct start l sl,
  Sorted-Distinct start r sr,
)

pub Linked-top : (t : RbTree) (par p : ℕ) (tree : Tree) → Linked t par p tree → p ≡ top tree
Linked-top t par p leaf h = h
Linked-top t par p (branch l q r) (same, nz, up, hl, hr) = same

pub In-ne_zero :
    (t : RbTree) (par p : ℕ) (tree : Tree) → Linked t par p tree → (m : ℕ) → In m tree → m ≢ 0
In-ne_zero t par p leaf h m i = elim i [ ]
In-ne_zero t par p (branch l q r) (same, nz, up, hl, hr) m (inl i) =
    In-ne_zero t q (t.left q) l hl m i
In-ne_zero t par p (branch l q r) (same, nz, up, hl, hr) m (inr (inl e)) = λ z. nz (sym e ∙ z)
In-ne_zero t par p (branch l q r) (same, nz, up, hl, hr) m (inr (inr i)) =
    In-ne_zero t q (t.right q) r hr m i

pub In-top : (t : RbTree) (par p : ℕ) (tree : Tree) → Linked t par p tree → p ≢ 0 → In p tree
In-top t par p leaf h nz = absurd (nz h)
In-top t par p (branch l q r) (same, b, c, d, e) nz = inr (inl same)

pub Linked-up :
    (t : RbTree) (par p : ℕ) (tree : Tree) → Linked t par p tree → p ≢ 0 → t.parent p ≡ par
Linked-up t par p leaf h nz = absurd (nz h)
Linked-up t par p (branch l q r) (same, b, up, d, e) nz = ap t.parent same ∙ up

-- The same links at every node.
abbrev pub SameAt : RbTree → RbTree → ℕ → Type 0
SameAt t s m = (s.left m ≡ t.left m) × (s.right m ≡ t.right m) × (s.parent m ≡ t.parent m)

pub Linked-frame :
    (t s : RbTree) (par p : ℕ) (tree : Tree)
    → ((m : ℕ) → In m tree → SameAt t s m)
    → Linked t par p tree
    → Linked s par p tree
Linked-frame t s par p leaf same h = h
Linked-frame t s par p (branch l q r) same (e, nz, up, hl, hr) =
    let (at_left, at_right, at_parent) = same q (inr (inl refl)) in
    (
      e,
      nz,
      at_parent ∙ up,
      subst (λ z. Linked s q z l) (sym at_left)
          (Linked-frame t s q (t.left q) l (λ m i. same m (inl i)) hl),
      subst (λ z. Linked s q z r) (sym at_right)
          (Linked-frame t s q (t.right q) r (λ m i. same m (inr (inr i))) hr),
    )

-- The same links below the top, which has a new parent.
pub Linked-move :
    (t s : RbTree) (par above p : ℕ) (tree : Tree)
    → Distinct tree
    → ((m : ℕ) → In m tree → (s.left m ≡ t.left m) × (s.right m ≡ t.right m))
    → ((m : ℕ) → In m tree → m ≢ p → s.parent m ≡ t.parent m)
    → (p ≢ 0 → s.parent p ≡ above)
    → Linked t par p tree
    → Linked s above p tree
Linked-move t s par above p leaf d same kept moved h = h
Linked-move t s par above p (branch l q r) (ql, qr, lr, dl, dr) same kept moved
      (e, nz, up, hl, hr) =
    let (at_left, at_right) = same q (inr (inl refl)) in
    (
      e,
      nz,
      subst (λ z. s.parent z ≡ above) e (moved (λ z. nz (sym e ∙ z))),
      subst (λ z. Linked s q z l) (sym at_left)
          (Linked-frame t s q (t.left q) l
            (λ m i. (
              (same m (inl i)).0,
              (same m (inl i)).1,
              kept m (inl i) (λ z. ql (subst (λ k. In k l) (z ∙ e) i)),
            ))
            hl),
      subst (λ z. Linked s q z r) (sym at_right)
          (Linked-frame t s q (t.right q) r
            (λ m i. (
              (same m (inr (inr i))).0,
              (same m (inr (inr i))).1,
              kept m (inr (inr i)) (λ z. qr (subst (λ k. In k r) (z ∙ e) i)),
            ))
            hr),
    )

pub In-left :
    (t : RbTree) (par p : ℕ) (tree : Tree)
    → Linked t par p tree
    → (x : ℕ) → In x tree
    → t.left x ≢ 0
    → In (t.left x) tree
In-left t par p leaf h x i ne = elim i [ ]
In-left t par p (branch l q r) (e, nz, up, hl, hr) x (inl i) ne =
    inl (In-left t q (t.left q) l hl x i ne)
In-left t par p (branch l q r) (e, nz, up, hl, hr) x (inr (inr i)) ne =
    inr (inr (In-left t q (t.right q) r hr x i ne))
In-left t par p (branch l q r) (e, nz, up, hl, hr) x (inr (inl same)) ne =
    let here = ap t.left same in
    inl (subst (λ z. In z l) (sym here) (In-top t q (t.left q) l hl (λ z. ne (here ∙ z))))

pub In-right :
    (t : RbTree) (par p : ℕ) (tree : Tree)
    → Linked t par p tree
    → (x : ℕ) → In x tree
    → t.right x ≢ 0
    → In (t.right x) tree
In-right t par p leaf h x i ne = elim i [ ]
In-right t par p (branch l q r) (e, nz, up, hl, hr) x (inl i) ne =
    inl (In-right t q (t.left q) l hl x i ne)
In-right t par p (branch l q r) (e, nz, up, hl, hr) x (inr (inr i)) ne =
    inr (inr (In-right t q (t.right q) r hr x i ne))
In-right t par p (branch l q r) (e, nz, up, hl, hr) x (inr (inl same)) ne =
    let here = ap t.right same in
    inr (inr (subst (λ z. In z r) (sym here) (In-top t q (t.right q) r hr (λ z. ne (here ∙ z)))))

-- Where the parent of a node is: outside for the top, and else in the tree, with the node as a child.
pub In-parent :
    (t : RbTree) (par p : ℕ) (tree : Tree)
    → Linked t par p tree
    → (x : ℕ) → In x tree
    → ((x ≡ p) × (t.parent x ≡ par))
      ⊎ (In (t.parent x) tree × ((t.left (t.parent x) ≡ x) ⊎ (t.right (t.parent x) ≡ x)))
In-parent t par p leaf h x i = elim i [ ]
In-parent t par p (branch l q r) (e, nz, up, hl, hr) x (inr (inl same)) =
    inl (same ∙ sym e, ap t.parent same ∙ up)
In-parent t par p (branch l q r) (e, nz, up, hl, hr) x (inl i) =
    elim (In-parent t q (t.left q) l hl x i) [
      | inl (first, above) ↦ inr (inr (inl above), inl (ap t.left above ∙ sym first))
      | inr (inside, child) ↦ inr (inl inside, child)
    ]
In-parent t par p (branch l q r) (e, nz, up, hl, hr) x (inr (inr i)) =
    elim (In-parent t q (t.right q) r hr x i) [
      | inl (first, above) ↦ inr (inr (inl above), inr (ap t.right above ∙ sym first))
      | inr (inside, child) ↦ inr (inr (inr inside), child)
    ]
