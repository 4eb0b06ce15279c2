-- ===== src/Vm.antt =====
-- The searches of src/mikroKernellib/vm.c over the tree of virtual memory areas. An area is named
-- by the pointer of its `node`: `container_of` only shifts it by a constant, and NULL stays 0.
-- `start` and `last` are the fields `vma_start` and `vma_end`.
pub mod Below
pub mod Find
pub mod Query
use Prim.Native.Nat.{Ordering}
use mikrokernellib.Common.{
  ℕ, zero, suc, Bool, true, false, Option, none, some, ltb, leb, ◌==◌, if◌then◌else◌,
}
use mikrokernellib.RbTree.{RbTree}

-- -1, 1 and 0 as the sign of the result.
unfoldable pub vma_cmp : (ℕ → ℕ) → ℕ → ℕ → Ordering
vma_cmp start a b =
    if ltb (start a) (start b)
    then Ordering.lt
    else (if ltb (start b) (start a) then Ordering.gt else Ordering.eq)

unfoldable pub successor_loop : ℕ → ℕ → ℕ → ℕ → (ℕ → ℕ) → RbTree → Option ℕ
successor_loop zero current successor addr start t = none
successor_loop (suc rounds) current successor addr start t = elim (current == 0) [
  | true ↦ some successor
  | false ↦ elim (ltb addr (start current)) [
    | true ↦ successor_loop rounds (t.left current) current addr start t
    | false ↦ successor_loop rounds (t.right current) successor addr start t
  ]
]

unfoldable pub rb_successor : ℕ → ℕ → (ℕ → ℕ) → RbTree → Option ℕ
rb_successor rounds addr start t = successor_loop rounds t.root 0 addr start t

unfoldable pub predecessor_loop : ℕ → ℕ → ℕ → ℕ → (ℕ → ℕ) → RbTree → Option ℕ
predecessor_loop zero current predecessor addr start t = none
predecessor_loop (suc rounds) current predecessor addr start t = elim (current == 0) [
  | true ↦ some predecessor
  | false ↦ elim (ltb (start current) addr) [
    | true ↦ predecessor_loop rounds (t.right current) current addr start t
    | false ↦ predecessor_loop rounds (t.left current) predecessor addr start t
  ]
]

unfoldable pub rb_predeccessor : ℕ → ℕ → (ℕ → ℕ) → RbTree → Option ℕ
rb_predeccessor rounds addr start t = predecessor_loop rounds t.root 0 addr start t

unfoldable pub find_vma_loop : ℕ → ℕ → ℕ → (ℕ → ℕ) → (ℕ → ℕ) → RbTree → Option ℕ
find_vma_loop zero current addr start last t = none
find_vma_loop (suc rounds) current addr start last t = elim (current == 0) [
  | true ↦ some 0
  | false ↦ elim (ltb addr (start current)) [
    | true ↦ find_vma_loop rounds (t.left current) addr start last t
    | false ↦ elim (leb (last current) addr) [
      | true ↦ find_vma_loop rounds (t.right current) addr start last t
      | false ↦ some current
    ]
  ]
]

unfoldable pub rb_find_vma : ℕ → ℕ → (ℕ → ℕ) → (ℕ → ℕ) → RbTree → Option ℕ
rb_find_vma rounds addr start last t = find_vma_loop rounds t.root addr start last t
