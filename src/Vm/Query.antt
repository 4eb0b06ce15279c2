-- ===== src/Vm/Query.antt =====
-- Correctness of the searches of src/mikroKernellib/vm.c.
use mathlib.Core.Path.{subst}
use mikrokernellib.Common.{
  ℕ, zero, suc, ◌≤◌, ◌<◌, ◌≡◌, ◌⊎◌, inl, inr, refl, sym, true, false, some, ltb, ◌==◌, arith,
  ltb→lt, ltb→ge, Bool-cases,
}
use mikrokernellib.RbTree.{RbTree}
use mikrokernellib.RbTree.Model.{Tree, leaf, branch, height, Shape, In, Sorted}
use mikrokernellib.Vm.{rb_successor, successor_loop}

-- No area of `tree` starts above `addr`, and the answer is `best`; or the answer is the first of them.
abbrev pub Successor : (ℕ → ℕ) → ℕ → ℕ → Tree → ℕ → Type 0
Successor start addr best tree v =
    ((v ≡ best) × ((m : ℕ) → In m tree → start m ≤ addr))
    ⊎ (In v tree × (addr < start v) × ((m : ℕ) → In m tree → addr < start m → start v ≤ start m))

module _ (start : ℕ → ℕ) (addr : ℕ) (l : Tree) (q : ℕ) (r : Tree)
    (low : (m : ℕ) → In m l → start m < start q) (up : (m : ℕ) → In m r → start q < start m) where
  Successor-left :
      (best v : ℕ)
      → addr < start q
      → Successor start addr q l v
      → Successor start addr best (branch l q r) v
  Successor-left best v lt (inl (e, none_in)) = inr (
    inr (inl e),
    subst (λ z. addr < start z) (sym e) lt,
    λ m i h. elim i [
      | inl a ↦ omega (arith, none_in m a, h)
      | inr (inl a) ↦
          subst (λ z. start v ≤ start z) (sym a)
            (subst (λ z. start z ≤ start q) (sym e) (omega arith))
      | inr (inr a) ↦ subst (λ z. start z ≤ start m) (sym e) (omega (arith, up m a))
    ],
  )
  Successor-left best v lt (inr (i, above, least)) = inr (
    inl i,
    above,
    λ m j h. elim j [
      | inl a ↦ least m a h
      | inr (inl a) ↦ subst (λ z. start v ≤ start z) (sym a) (omega (arith, low v i))
      | inr (inr a) ↦ omega (arith, low v i, up m a)
    ],
  )

  Successor-right :
      (best v : ℕ)
      → start q ≤ addr
      → Successor start addr best r v
      → Successor start addr best (branch l q r) v
  Successor-right best v ge (inl (e, none_in)) = inl (
    e,
    λ m i. elim i [
      | inl a ↦ omega (arith, low m a)
      | inr (inl a) ↦ subst (λ z. start z ≤ addr) (sym a) ge
      | inr (inr a) ↦ none_in m a
    ],
  )
  Successor-right best v ge (inr (i, above, least)) = inr (
    inr (inr i),
    above,
    λ m j h. elim j [
      | inl a ↦ omega (arith, low m a, h)
      | inr (inl a) ↦ omega (arith, subst (λ z. start z ≤ addr) (sym a) ge, h)
      | inr (inr a) ↦ least m a h
    ],
  )

pub successor_loop_lem :
    (tree : Tree) (rounds current best addr : ℕ) (start : ℕ → ℕ) (t : RbTree)
    → Shape t current tree
    → Sorted start tree
    → height tree < rounds
    → (v : ℕ) × (successor_loop rounds current best addr start t ≡ some v)
      × Successor start addr best tree v
unfolding successor_loop
successor_loop_lem leaf (suc rounds) current best addr start t shape sorted enough =
    let e : (current == 0) ≡ true = ground (arith, shape) in
    (best, rw (e, successor_loop) refl, inl (refl, λ m i. elim i [ ]))
successor_loop_lem tree zero current best addr start t shape sorted enough =
    let no : ⊥ = omega (arith, enough) in elim no [ ]
successor_loop_lem (branch l q r) (suc rounds) current best addr start t (same, nz, sl, sr)
      (low, up, ol, or) enough =
    let e : (current == 0) ≡ false = ground (arith, same, nz) in
    elim (Bool-cases (ltb addr (start current))) [
      | inl h ↦
          let lt : addr < start q =
            subst (λ z. addr < start z) same (ltb→lt addr (start current) h) in
          let (v, found, ok) =
            successor_loop_lem l rounds (t.left current) current addr start t
              (subst (λ z. Shape t (t.left z) l) (sym same) sl) ol (omega (arith, enough)) in
          (
            v,
            rw (e, h, successor_loop) found,
            Successor-left start addr l q r low up best v lt
                (subst (λ z. Successor start addr z l v) same ok),
          )
      | inr h ↦
          let ge : start q ≤ addr =
            subst (λ z. start z ≤ addr) same (ltb→ge addr (start current) h) in
          let (v, found, ok) =
            successor_loop_lem r rounds (t.right current) best addr start t
              (subst (λ z. Shape t (t.right z) r) (sym same) sr) or (omega (arith, enough)) in
          (v, rw (e, h, successor_loop) found, Successor-right start addr l q r low up best v ge ok)
    ]

-- With more rounds than the height of the tree the search answers NULL if no area starts above
-- `addr`, and else the area with the least start above `addr`.
pub rb_successor_lem :
    (tree : Tree) (rounds addr : ℕ) (start : ℕ → ℕ) (t : RbTree)
    → Shape t t.root tree
    → Sorted start tree
    → height tree < rounds
    → (v : ℕ) × (rb_successor rounds addr start t ≡ some v) × Successor start addr 0 tree v
unfolding rb_successor
rb_successor_lem tree rounds addr start t shape sorted enough =
    successor_loop_lem tree rounds t.root 0 addr start t shape sorted enough
