-- ===== src/Vm/Find.antt =====
-- Correctness of `rb_find_vma` of src/mikroKernellib/vm.c.
use mathlib.Core.Path.{subst}
use mikrokernellib.Common.{
  ℕ, zero, suc, ◌≤◌, ◌<◌, ◌≡◌, ◌≢◌, ◌⊎◌, inl, inr, refl, sym, true, false, some, ltb, leb, ◌==◌,
  arith, ltb→lt, ltb→ge, Bool-cases,
}
use mikrokernellib.RbTree.{RbTree}
use mikrokernellib.RbTree.Model.{Tree, leaf, branch, height, Shape, In, Ordered}
use mikrokernellib.Vm.{find_vma_loop, rb_find_vma}

-- The answer is the area that holds `addr`, or NULL if there is none.
abbrev pub Found : (ℕ → ℕ) → (ℕ → ℕ) → ℕ → Tree → ℕ → Type 0
Found start last addr tree v =
    ((v ≡ 0) × ((m : ℕ) → In m tree → (addr < start m) ⊎ (last m ≤ addr)))
    ⊎ (In v tree × (v ≢ 0) × (start v ≤ addr) × (addr < last v))

leb-true : (a b : ℕ) → leb a b ≡ true → a ≤ b
leb-true a b h = ground arith

leb-false : (a b : ℕ) → leb a b ≡ false → b < a
leb-false a b h = ground arith

module _ (start last : ℕ → ℕ) (addr : ℕ) (l : Tree) (q : ℕ) (r : Tree) (own : start q < last q)
    (low : (m : ℕ) → In m l → last m ≤ start q) (up : (m : ℕ) → In m r → last q ≤ start m) where
  Found-left :
      (v : ℕ) → addr < start q → Found start last addr l v → Found start last addr (branch l q r) v
  Found-left v lt (inl (e, none_in)) = inl (
    e,
    λ m i. elim i [
      | inl a ↦ none_in m a
      | inr (inl a) ↦ inl (subst (λ z. addr < start z) (sym a) lt)
      | inr (inr a) ↦ inl (omega (arith, up m a))
    ],
  )
  Found-left v lt (inr (i, nz, ge, below)) = inr (inl i, nz, ge, below)

  Found-right :
      (v : ℕ) → last q ≤ addr → Found start last addr r v → Found start last addr (branch l q r) v
  Found-right v ge (inl (e, none_in)) = inl (
    e,
    λ m i. elim i [
      | inl a ↦ inr (omega (arith, low m a))
      | inr (inl a) ↦ inr (subst (λ z. last z ≤ addr) (sym a) ge)
      | inr (inr a) ↦ none_in m a
    ],
  )
  Found-right v ge (inr (i, nz, above, below)) = inr (inr (inr i), nz, above, below)

find_vma_loop_lem :
    (tree : Tree) (rounds current addr : ℕ) (start last : ℕ → ℕ) (t : RbTree)
    → Shape t current tree
    → Ordered start last tree
    → height tree < rounds
    → (v : ℕ) × (find_vma_loop rounds current addr start last t ≡ some v)
      × Found start last addr tree v
unfolding find_vma_loop
find_vma_loop_lem leaf (suc rounds) current addr start last t shape ordered enough =
    let e : (current == 0) ≡ true = ground (arith, shape) in
    (0, rw (e, find_vma_loop) refl, inl (refl, λ m i. elim i [ ]))
find_vma_loop_lem tree zero current addr start last t shape ordered enough =
    let no : ⊥ = omega (arith, enough) in elim no [ ]
find_vma_loop_lem (branch l q r) (suc rounds) current addr start last t (same, nz, sl, sr)
      (own, low, up, ol, or) enough =
    let e : (current == 0) ≡ false = ground (arith, same, nz) in
    elim (Bool-cases (ltb addr (start current))) [
      | inl h ↦
          let lt : addr < start q =
            subst (λ z. addr < start z) same (ltb→lt addr (start current) h) in
          let (v, found, ok) =
            find_vma_loop_lem l rounds (t.left current) addr start last t
              (subst (λ z. Shape t (t.left z) l) (sym same) sl) ol (omega (arith, enough)) in
          (v, rw (e, h, find_vma_loop) found, Found-left start last addr l q r own low up v lt ok)
      | inr h ↦ elim (Bool-cases (leb (last current) addr)) [
        | inl g ↦
            let ge : last q ≤ addr =
              subst (λ z. last z ≤ addr) same (leb-true (last current) addr g) in
            let (v, found, ok) =
              find_vma_loop_lem r rounds (t.right current) addr start last t
                (subst (λ z. Shape t (t.right z) r) (sym same) sr) or (omega (arith, enough)) in
            (
              v,
              rw (e, h, g, find_vma_loop) found,
              Found-right start last addr l q r own low up v ge ok,
            )
        | inr g ↦ (
          current,
          rw (e, h, g, find_vma_loop) refl,
          inr (
            inr (inl same),
            subst (λ z. z ≢ 0) (sym same) nz,
            ltb→ge addr (start current) h,
            leb-false (last current) addr g,
          ),
        )
      ]
    ]

-- On areas that are not empty and lie side by side, and with more rounds than the height of the
-- tree, the search answers the area that holds `addr`, and NULL if no area holds it.
pub rb_find_vma_lem :
    (tree : Tree) (rounds addr : ℕ) (start last : ℕ → ℕ) (t : RbTree)
    → Shape t t.root tree
    → Ordered start last tree
    → height tree < rounds
    → (v : ℕ) × (rb_find_vma rounds addr start last t ≡ some v) × Found start last addr tree v
unfolding rb_find_vma
rb_find_vma_lem tree rounds addr start last t shape ordered enough =
    find_vma_loop_lem tree rounds t.root addr start last t shape ordered enough
