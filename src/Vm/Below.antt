-- ===== src/Vm/Below.antt =====
-- Correctness of `rb_predeccessor` of src/mikroKernellib/vm.c.
use mathlib.Core.Path.{subst}
use mikrokernellib.Common.{
  ℕ, zero, suc, ◌≤◌, ◌<◌, ◌≡◌, ◌⊎◌, inl, inr, refl, sym, true, false, some, ltb, ◌==◌, arith,
  ltb→lt, ltb→ge, Bool-cases,
}
use mikrokernellib.RbTree.{RbTree}
use mikrokernellib.RbTree.Model.{Tree, leaf, branch, height, Shape, In, Sorted}
use mikrokernellib.Vm.{rb_predeccessor, predecessor_loop}

-- No area of `tree` starts below `addr`, and the answer is `best`; or the answer is the last of them.
abbrev pub Predecessor : (ℕ → ℕ) → ℕ → ℕ → Tree → ℕ → Type 0
Predecessor start addr best tree v =
    ((v ≡ best) × ((m : ℕ) → In m tree → addr ≤ start m))
    ⊎ (In v tree × (start v < addr) × ((m : ℕ) → In m tree → start m < addr → start m ≤ start v))

module _ (start : ℕ → ℕ) (addr : ℕ) (l : Tree) (q : ℕ) (r : Tree)
    (low : (m : ℕ) → In m l → start m < start q) (up : (m : ℕ) → In m r → start q < start m) where
  Predecessor-right :
      (best v : ℕ)
      → start q < addr
      → Predecessor start addr q r v
      → Predecessor start addr best (branch l q r) v
  Predecessor-right best v lt (inl (e, none_in)) = inr (
    inr (inl e),
    subst (λ z. start z < addr) (sym e) lt,
    λ m i h. elim i [
      | inr (inr a) ↦ omega (arith, none_in m a, h)
      | inr (inl a) ↦
          subst (λ z. start z ≤ start v) (sym a)
            (subst (λ z. start q ≤ start z) (sym e) (omega arith))
      | inl a ↦ subst (λ z. start m ≤ start z) (sym e) (omega (arith, low m a))
    ],
  )
  Predecessor-right best v lt (inr (i, below, greatest)) = inr (
    inr (inr i),
    below,
    λ m j h. elim j [
      | inr (inr a) ↦ greatest m a h
      | inr (inl a) ↦ subst (λ z. start z ≤ start v) (sym a) (omega (arith, up v i))
      | inl a ↦ omega (arith, up v i, low m a)
    ],
  )

  Predecessor-left :
      (best v : ℕ)
      → addr ≤ start q
      → Predecessor start addr best l v
      → Predecessor start addr best (branch l q r) v
  Predecessor-left best v ge (inl (e, none_in)) = inl (
    e,
    λ m i. elim i [
      | inr (inr a) ↦ omega (arith, up m a)
      | inr (inl a) ↦ subst (λ z. addr ≤ start z) (sym a) ge
      | inl a ↦ none_in m a
    ],
  )
  Predecessor-left best v ge (inr (i, below, greatest)) = inr (
    inl i,
    below,
    λ m j h. elim j [
      | inr (inr a) ↦ omega (arith, up m a, h)
      | inr (inl a) ↦ omega (arith, subst (λ z. addr ≤ start z) (sym a) ge, h)
      | inl a ↦ greatest m a h
    ],
  )

predecessor_loop_lem :
    (tree : Tree) (rounds current best addr : ℕ) (start : ℕ → ℕ) (t : RbTree)
    → Shape t current tree
    → Sorted start tree
    → height tree < rounds
    → (v : ℕ) × (predecessor_loop rounds current best addr start t ≡ some v)
      × Predecessor start addr best tree v
unfolding predecessor_loop
predecessor_loop_lem leaf (suc rounds) current best addr start t shape sorted enough =
    let e : (current == 0) ≡ true = ground (arith, shape) in
    (best, rw (e, predecessor_loop) refl, inl (refl, λ m i. elim i [ ]))
predecessor_loop_lem tree zero current best addr start t shape sorted enough =
    let no : ⊥ = omega (arith, enough) in elim no [ ]
predecessor_loop_lem (branch l q r) (suc rounds) current best addr start t (same, nz, sl, sr)
      (low, up, ol, or) enough =
    let e : (current == 0) ≡ false = ground (arith, same, nz) in
    elim (Bool-cases (ltb (start current) addr)) [
      | inl h ↦
          let lt : start q < addr =
            subst (λ z. start z < addr) same (ltb→lt (start current) addr h) in
          let (v, found, ok) =
            predecessor_loop_lem r rounds (t.right current) current addr start t
              (subst (λ z. Shape t (t.right z) r) (sym same) sr) or (omega (arith, enough)) in
          (
            v,
            rw (e, h, predecessor_loop) found,
            Predecessor-right start addr l q r low up best v lt
                (subst (λ z. Predecessor start addr z r v) same ok),
          )
      | inr h ↦
          let ge : addr ≤ start q =
            subst (λ z. addr ≤ start z) same (ltb→ge (start current) addr h) in
          let (v, found, ok) =
            predecessor_loop_lem l rounds (t.left current) best addr start t
              (subst (λ z. Shape t (t.left z) l) (sym same) sl) ol (omega (arith, enough)) in
          (
            v,
            rw (e, h, predecessor_loop) found,
            Predecessor-left start addr l q r low up best v ge ok,
          )
    ]

-- With more rounds than the height of the tree the search answers NULL if no area starts below
-- `addr`, and else the area with the greatest start below `addr`.
pub rb_predeccessor_lem :
    (tree : Tree) (rounds addr : ℕ) (start : ℕ → ℕ) (t : RbTree)
    → Shape t t.root tree
    → Sorted start tree
    → height tree < rounds
    → (v : ℕ) × (rb_predeccessor rounds addr start t ≡ some v) × Predecessor start addr 0 tree v
unfolding rb_predeccessor
rb_predeccessor_lem tree rounds addr start t shape sorted enough =
    predecessor_loop_lem tree rounds t.root 0 addr start t shape sorted enough
