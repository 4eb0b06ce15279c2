-- ===== src/VirtKmalloc/Search.antt =====
-- The searches of src/mikroKernellib/virt_kmalloc.c are those of src/mikroKernellib/vm.c.
use mikrokernellib.Common.{
  ℕ, zero, suc, ◌<◌, ◌≡◌, ◌∙◌, refl, some, ltb, leb, ◌==◌, Bool-cases, inl, inr,
}
use mikrokernellib.RbTree.{RbTree}
use mikrokernellib.RbTree.Model.{Tree, Shape, Ordered, Sorted, height}
use mikrokernellib.Vm.{
  successor_loop, rb_successor, predecessor_loop, rb_predeccessor, find_vma_loop, rb_find_vma,
}
use mikrokernellib.Vm.Query.{Successor, rb_successor_lem}
use mikrokernellib.Vm.Below.{Predecessor, rb_predeccessor_lem}
use mikrokernellib.Vm.Find.{Found, rb_find_vma_lem}
use mikrokernellib.VirtKmalloc.{
  successor_vac_loop, rb_successor_vac, predecessor_vac_loop, rb_predeccessor_vac, find_vac_loop,
  rb_find_vac,
}

successor_same :
    (rounds current best addr : ℕ) (addr_of : ℕ → ℕ) (t : RbTree)
    → successor_vac_loop rounds current best addr addr_of t
      ≡ successor_loop rounds current best addr addr_of t
unfolding successor_vac_loop successor_loop
successor_same zero current best addr addr_of t = refl
successor_same (suc rounds) current best addr addr_of t = elim (Bool-cases (current == 0)) [
  | inl e ↦ rw (e, successor_vac_loop, successor_loop) refl
  | inr e ↦ elim (Bool-cases (ltb addr (addr_of current))) [
    | inl h ↦
        rw (e, h, successor_vac_loop, successor_loop)
          (successor_same rounds (t.left current) current addr addr_of t)
    | inr h ↦
        rw (e, h, successor_vac_loop, successor_loop)
          (successor_same rounds (t.right current) best addr addr_of t)
  ]
]

predecessor_same :
    (rounds current best addr : ℕ) (addr_of : ℕ → ℕ) (t : RbTree)
    → predecessor_vac_loop rounds current best addr addr_of t
      ≡ predecessor_loop rounds current best addr addr_of t
unfolding predecessor_vac_loop predecessor_loop
predecessor_same zero current best addr addr_of t = refl
predecessor_same (suc rounds) current best addr addr_of t = elim (Bool-cases (current == 0)) [
  | inl e ↦ rw (e, predecessor_vac_loop, predecessor_loop) refl
  | inr e ↦ elim (Bool-cases (ltb (addr_of current) addr)) [
    | inl h ↦
        rw (e, h, predecessor_vac_loop, predecessor_loop)
          (predecessor_same rounds (t.right current) current addr addr_of t)
    | inr h ↦
        rw (e, h, predecessor_vac_loop, predecessor_loop)
          (predecessor_same rounds (t.left current) best addr addr_of t)
  ]
]

find_same :
    (rounds current addr : ℕ) (addr_of end_of : ℕ → ℕ) (t : RbTree)
    → find_vac_loop rounds current addr addr_of end_of t
      ≡ find_vma_loop rounds current addr addr_of end_of t
unfolding find_vac_loop find_vma_loop
find_same zero current addr addr_of end_of t = refl
find_same (suc rounds) current addr addr_of end_of t = elim (Bool-cases (current == 0)) [
  | inl e ↦ rw (e, find_vac_loop, find_vma_loop) refl
  | inr e ↦ elim (Bool-cases (ltb addr (addr_of current))) [
    | inl h ↦
        rw (e, h, find_vac_loop, find_vma_loop)
          (find_same rounds (t.left current) addr addr_of end_of t)
    | inr h ↦ elim (Bool-cases (leb (end_of current) addr)) [
      | inl g ↦
          rw (e, h, g, find_vac_loop, find_vma_loop)
            (find_same rounds (t.right current) addr addr_of end_of t)
      | inr g ↦ rw (e, h, g, find_vac_loop, find_vma_loop) refl
    ]
  ]
]

-- On chunks that are not empty and lie side by side, and with more rounds than the height of the
-- tree, `rb_find_vac` answers the chunk that holds `addr`, and NULL if no chunk holds it.
pub rb_find_vac_lem :
    (tree : Tree) (rounds addr : ℕ) (addr_of end_of : ℕ → ℕ) (t : RbTree)
    → Shape t t.root tree
    → Ordered addr_of end_of tree
    → height tree < rounds
    → (v : ℕ) × (rb_find_vac rounds addr addr_of end_of t ≡ some v)
      × Found addr_of end_of addr tree v
unfolding rb_find_vac rb_find_vma
rb_find_vac_lem tree rounds addr addr_of end_of t shape ordered enough =
    let (v, found, ok) = rb_find_vma_lem tree rounds addr addr_of end_of t shape ordered enough in
    (v, find_same rounds t.root addr addr_of end_of t ∙ found, ok)

-- With more rounds than the height of the tree `rb_successor_vac` answers the chunk with the least
-- address above `addr` and `rb_predeccessor_vac` the one with the greatest below it, or NULL.
pub adjacent_vac_lem :
    (tree : Tree) (rounds addr : ℕ) (addr_of : ℕ → ℕ) (t : RbTree)
    → Shape t t.root tree
    → Sorted addr_of tree
    → height tree < rounds
    → ((v : ℕ) × (rb_successor_vac rounds addr addr_of t ≡ some v)
        × Successor addr_of addr 0 tree v)
      × ((v : ℕ) × (rb_predeccessor_vac rounds addr addr_of t ≡ some v)
          × Predecessor addr_of addr 0 tree v)
unfolding rb_successor_vac rb_successor rb_predeccessor_vac rb_predeccessor
adjacent_vac_lem tree rounds addr addr_of t shape sorted enough =
    let (v, found, ok) = rb_successor_lem tree rounds addr addr_of t shape sorted enough in
    let (w, below, fine) = rb_predeccessor_lem tree rounds addr addr_of t shape sorted enough in
    (
      (v, successor_same rounds t.root 0 addr addr_of t ∙ found, ok),
      (w, predecessor_same rounds t.root 0 addr addr_of t ∙ below, fine),
    )
