-- ===== src/RbTree/Depth.antt =====
-- How deep a node stands in a tree of src/mikroKernellib/rb_tree.c, and what stands next to it.
use mathlib.Core.Path.{subst}
use mikrokernellib.Common.{ℕ, zero, suc, ◌<◌, ◌≡◌, ◌≢◌, ◌⊎◌, inl, inr, refl, sym, ap, ◌∙◌, arith}
use mikrokernellib.RbTree.{RbTree}
use mikrokernellib.RbTree.Model.{Tree, leaf, branch, In, height}
use mikrokernellib.RbTree.Links.{Linked, Distinct, Linked-frame, In-top}

abbrev pub Depth : ℕ → ℕ → Tree → Type 0
Depth x d leaf = ⊥
Depth x zero (branch l q r) = x ≡ q
Depth x (suc d) (branch l q r) = Depth x d l ⊎ Depth x d r

pub Depth-In : (x d : ℕ) (tree : Tree) → Depth x d tree → In x tree
Depth-In x d leaf h = elim h [ ]
Depth-In x zero (branch l q r) h = inr (inl h)
Depth-In x (suc d) (branch l q r) (inl h) = inl (Depth-In x d l h)
Depth-In x (suc d) (branch l q r) (inr h) = inr (inr (Depth-In x d r h))

pub In-Depth : (x : ℕ) (tree : Tree) → In x tree → (d : ℕ) × Depth x d tree × (d < height tree)
In-Depth x leaf i = elim i [ ]
In-Depth x (branch l q r) (inr (inl e)) = (0, e, omega arith)
In-Depth x (branch l q r) (inl i) = let (d, h, b) = In-Depth x l i in (suc d, inl h, ground arith)
In-Depth x (branch l q r) (inr (inr i)) =
    let (d, h, b) = In-Depth x r i in (suc d, inr h, ground arith)

pub Depth-first :
    (t : RbTree) (par p : ℕ) (tree : Tree)
    → Linked t par p tree
    → (x : ℕ) → Depth x 0 tree
    → (x ≡ p) × (t.parent x ≡ par)
Depth-first t par p leaf h x i = elim i [ ]
Depth-first t par p (branch l q r) (e, nz, up, hl, hr) x i = (i ∙ sym e, ap t.parent i ∙ up)

pub Depth-parent :
    (t : RbTree) (par p : ℕ) (tree : Tree)
    → Linked t par p tree
    → (x d : ℕ) → Depth x (suc d) tree
    → Depth (t.parent x) d tree
Depth-parent t par p leaf h x d i = elim i [ ]
Depth-parent t par p (branch l q r) (e, nz, up, hl, hr) x zero (inl i) =
    (Depth-first t q (t.left q) l hl x i).1
Depth-parent t par p (branch l q r) (e, nz, up, hl, hr) x zero (inr i) =
    (Depth-first t q (t.right q) r hr x i).1
Depth-parent t par p (branch l q r) (e, nz, up, hl, hr) x (suc d) (inl i) =
    inl (Depth-parent t q (t.left q) l hl x d i)
Depth-parent t par p (branch l q r) (e, nz, up, hl, hr) x (suc d) (inr i) =
    inr (Depth-parent t q (t.right q) r hr x d i)

pub children_ne :
    (t : RbTree) (par p : ℕ) (tree : Tree)
    → Linked t par p tree
    → Distinct tree
    → (x : ℕ) → In x tree
    → t.left x ≢ 0
    → t.left x ≢ t.right x
children_ne t par p leaf h d x i ne = elim i [ ]
children_ne t par p (branch l q r) (e, nz, up, hl, hr) (ql, qr, lr, dl, dr) x (inl i) ne =
    children_ne t q (t.left q) l hl dl x i ne
children_ne t par p (branch l q r) (e, nz, up, hl, hr) (ql, qr, lr, dl, dr) x (inr (inr i)) ne =
    children_ne t q (t.right q) r hr dr x i ne
children_ne t par p (branch l q r) (e, nz, up, hl, hr) (ql, qr, lr, dl, dr) x (inr (inl same)) ne =
    let here = ap t.left same in
    let there = ap t.right same in
    λ z.
      let low : In (t.left q) l = In-top t q (t.left q) l hl (λ w. ne (here ∙ w)) in
      let both : t.left q ≡ t.right q = sym here ∙ z ∙ there in
      lr (t.left q) low
        (subst (λ k. In k r) (sym both) (In-top t q (t.right q) r hr (λ w. ne (here ∙ both ∙ w))))

-- Colours are not links.
pub Linked-color :
    (t : RbTree) (c : ℕ → ℕ) (par p : ℕ) (tree : Tree)
    → Linked t par p tree
    → Linked (record t { color = c }) par p tree
Linked-color t c par p tree h =
    Linked-frame t (record t { color = c }) par p tree (λ m i. (refl, refl, refl)) h
