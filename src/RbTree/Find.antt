-- ===== src/RbTree/Find.antt =====
-- `rb_find_exact` and `rb_traverse_inorder` of src/mikroKernellib/rb_tree.c on a search tree.
use Prim.Native.Nat.{Ordering}
use mathlib.Core.Path.{subst}
use mikrokernellib.Common.{
  ℕ, zero, suc, ◌<◌, ◌≡◌, ◌≢◌, ◌⊎◌, inl, inr, refl, sym, ap, true, false, some, ltb, ◌==◌, arith,
  ltb→lt, ltb→ge, Bool-cases, ◌∷◌, ◌++◌,
}
use mikrokernellib.RbTree.{RbTree, rb_find_loop, rb_find_exact, rb_child, rb_traverse_inorder}
use mikrokernellib.RbTree.Model.{Tree, leaf, branch, height, Shape, In, Sorted, inorder}
use mikrokernellib.Vm.{vma_cmp}

-- The answer is the node with the start of `key`, or NULL if there is none.
abbrev pub Exact : (ℕ → ℕ) → ℕ → Tree → ℕ → Type 0
Exact start key tree v =
    ((v ≡ 0) × ((m : ℕ) → In m tree → start m ≢ start key))
    ⊎ (In v tree × (v ≢ 0) × (start v ≡ start key))

pub vma_cmp_cases :
    (start : ℕ → ℕ) (a b : ℕ)
    → ((vma_cmp start a b ≡ Ordering.lt) × (start a < start b))
      ⊎ (((vma_cmp start a b ≡ Ordering.gt) × (start b < start a))
          ⊎ ((vma_cmp start a b ≡ Ordering.eq) × (start a ≡ start b)))
unfolding vma_cmp
vma_cmp_cases start a b = elim (Bool-cases (ltb (start a) (start b))) [
  | inl h ↦ inl (rw (h, vma_cmp) refl, ltb→lt (start a) (start b) h)
  | inr h ↦ elim (Bool-cases (ltb (start b) (start a))) [
    | inl g ↦ inr (inl (rw (h, g, vma_cmp) refl, ltb→lt (start b) (start a) g))
    | inr g ↦ inr (
        inr (
          rw (h, g, vma_cmp) refl,
          omega (arith, ltb→ge (start a) (start b) h, ltb→ge (start b) (start a) g),
        ))
  ]
]

module _ (start : ℕ → ℕ) (key : ℕ) (l : Tree) (q : ℕ) (r : Tree)
    (low : (m : ℕ) → In m l → start m < start q) (up : (m : ℕ) → In m r → start q < start m) where
  Exact-left :
      (v : ℕ) → start key < start q → Exact start key l v → Exact start key (branch l q r) v
  Exact-left v lt (inl (e, none_in)) = inl (
    e,
    λ m i. elim i [
      | inl a ↦ none_in m a
      | inr (inl a) ↦ subst (λ z. start z ≢ start key) (sym a) (omega (arith, lt))
      | inr (inr a) ↦ omega (arith, up m a, lt)
    ],
  )
  Exact-left v lt (inr (i, nz, same)) = inr (inl i, nz, same)

  Exact-right :
      (v : ℕ) → start q < start key → Exact start key r v → Exact start key (branch l q r) v
  Exact-right v gt (inl (e, none_in)) = inl (
    e,
    λ m i. elim i [
      | inl a ↦ omega (arith, low m a, gt)
      | inr (inl a) ↦ subst (λ z. start z ≢ start key) (sym a) (omega (arith, gt))
      | inr (inr a) ↦ none_in m a
    ],
  )
  Exact-right v gt (inr (i, nz, same)) = inr (inr (inr i), nz, same)

rb_find_loop_lem :
    (tree : Tree) (rounds current key : ℕ) (start : ℕ → ℕ) (t : RbTree)
    → Shape t current tree
    → Sorted start tree
    → height tree < rounds
    → (v : ℕ) × (rb_find_loop rounds current key (vma_cmp start) t ≡ some v)
      × Exact start key tree v
unfolding rb_find_loop rb_child
rb_find_loop_lem leaf (suc rounds) current key start t shape sorted enough =
    let e : (current == 0) ≡ true = ground (arith, shape) in
    (0, rw (e, rb_find_loop) refl, inl (refl, λ m i. elim i [ ]))
rb_find_loop_lem tree zero current key start t shape sorted enough =
    let no : ⊥ = omega (arith, enough) in elim no [ ]
rb_find_loop_lem (branch l q r) (suc rounds) current key start t (same, nz, sl, sr)
      (low, up, ol, or) enough =
    let e : (current == 0) ≡ false = ground (arith, same, nz) in
    elim (vma_cmp_cases start key current) [
      | inl (h, lt) ↦
          let lt' : start key < start q = subst (λ z. start key < start z) same lt in
          let (v, found, ok) =
            rb_find_loop_lem l rounds (t.left current) key start t
              (subst (λ z. Shape t (t.left z) l) (sym same) sl) ol (omega (arith, enough)) in
          (v, rw (e, h, rb_find_loop) found, Exact-left start key l q r low up v lt' ok)
      | inr (inl (h, gt)) ↦
          let gt' : start q < start key = subst (λ z. start z < start key) same gt in
          let (v, found, ok) =
            rb_find_loop_lem r rounds (t.right current) key start t
              (subst (λ z. Shape t (t.right z) r) (sym same) sr) or (omega (arith, enough)) in
          (v, rw (e, h, rb_find_loop) found, Exact-right start key l q r low up v gt' ok)
      | inr (inr (h, eq)) ↦ (
        current,
        rw (e, h, rb_find_loop) refl,
        inr (inr (inl same), subst (λ z. z ≢ 0) (sym same) nz, sym eq),
      )
    ]

-- With `vma_cmp` and more rounds than the height of the tree the search answers the node that
-- starts where `key` starts, and NULL if there is none.
pub rb_find_exact_lem :
    (tree : Tree) (rounds key : ℕ) (start : ℕ → ℕ) (t : RbTree)
    → Shape t t.root tree
    → Sorted start tree
    → height tree < rounds
    → (v : ℕ) × (rb_find_exact rounds key (vma_cmp start) t ≡ some v) × Exact start key tree v
unfolding rb_find_exact
rb_find_exact_lem tree rounds key start t shape sorted enough =
    rb_find_loop_lem tree rounds t.root key start t shape sorted enough

-- With more rounds than the height of the tree the callbacks are made once for each node of the
-- tree, from left to right.
pub rb_traverse_inorder_lem :
    (tree : Tree) (rounds node : ℕ) (t : RbTree)
    → Shape t node tree
    → height tree < rounds
    → rb_traverse_inorder rounds node t ≡ some (inorder tree)
unfolding rb_traverse_inorder
rb_traverse_inorder_lem leaf (suc rounds) node t shape enough =
    let e : (node == 0) ≡ true = ground (arith, shape) in rw (e, rb_traverse_inorder) refl
rb_traverse_inorder_lem tree zero node t shape enough =
    let no : ⊥ = omega (arith, enough) in elim no [ ]
rb_traverse_inorder_lem (branch l q r) (suc rounds) node t (same, nz, sl, sr) enough =
    let e : (node == 0) ≡ false = ground (arith, same, nz) in
    let a =
      rb_traverse_inorder_lem l rounds (t.left node) t
        (subst (λ z. Shape t (t.left z) l) (sym same) sl) (omega (arith, enough)) in
    let b =
      rb_traverse_inorder_lem r rounds (t.right node) t
        (subst (λ z. Shape t (t.right z) r) (sym same) sr) (omega (arith, enough)) in
    rw (e, a, b, rb_traverse_inorder) (ap (λ z. some (inorder l ++ z ∷ inorder r)) same)
